-- ===== src/Time/TimeSpec/Tests.antt =====
-- Sums, differences and comparisons of times, and the theorems at these inputs.
use libcosmos.Prelude.{◌≡◌, refl, true, arith}
use libcosmos.Time.TimeSpec.{TimeSpec, subtract, add, less}
use libcosmos.Time.TimeSpec.Arithmetic.{Normal, add-subtract}

abbrev early : TimeSpec
early = record { tv_sec = 3; tv_nsec = 900000000 }

abbrev late : TimeSpec
late = record { tv_sec = 5; tv_nsec = 100000000 }

difference : subtract late early ≡ record { tv_sec = 1; tv_nsec = 200000000 }
unfolding subtract
difference = refl

-- Minus two seconds and 800 milliseconds more.
negative_difference :
    subtract early late ≡ record { tv_sec = 18446744073709551614; tv_nsec = 800000000 }
unfolding subtract
negative_difference = refl

before_the_epoch : less (record { tv_sec = 18446744073709551614; tv_nsec = 0 }) early ≡ true
unfolding less
before_the_epoch = refl

add-subtract_example : Normal (subtract early late) × (add (subtract early late) late ≡ early)
add-subtract_example = add-subtract early late (omega arith, omega arith) (omega arith, omega arith)
