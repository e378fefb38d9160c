-- ===== src/Time/TimeSpec/Compare.antt =====
-- Comparisons of times.
use libcosmos.Prelude.{ℕ, ◌+◌, ◌*◌, ◌≡◌, ap, not, ◌||◌, ◌==◌, ltb, leb, arith}
use libcosmos.Time.TimeSpec.{
  TimeSpec, sign_bit, nanosecond_base, plus, less, greater_equal, equal, unequal, less_equal,
}
use libcosmos.Time.TimeSpec.Arithmetic.{Normal}

-- The nanoseconds since the earliest second.
abbrev pub nanoseconds : TimeSpec → ℕ
nanoseconds t = plus t.tv_sec sign_bit * nanosecond_base + t.tv_nsec

less_lem : (a b : TimeSpec) → Normal a → Normal b → less a b ≡ ltb (nanoseconds a) (nanoseconds b)
unfolding less
less_lem a b ha hb = ground arith

equal_lem : (a b : TimeSpec) → Normal a → Normal b → equal a b ≡ (nanoseconds a == nanoseconds b)
unfolding equal
equal_lem a b ha hb = ground arith

or_equal : (m n : ℕ) → (ltb m n || m == n) ≡ leb m n
or_equal m n = ground arith

not_less : (m n : ℕ) → not (ltb m n) ≡ leb n m
not_less m n = ground arith

-- For times with less than a second of nanoseconds, each comparison is the one of the numbers of
-- nanoseconds since the earliest second.
pub compare_lem :
    (a b : TimeSpec)
    → Normal a
    → Normal b
    → (less a b ≡ ltb (nanoseconds a) (nanoseconds b))
      × (less_equal a b ≡ leb (nanoseconds a) (nanoseconds b))
      × (greater_equal a b ≡ leb (nanoseconds b) (nanoseconds a))
      × (equal a b ≡ (nanoseconds a == nanoseconds b))
      × (unequal a b ≡ not (nanoseconds a == nanoseconds b))
unfolding less_equal greater_equal unequal
compare_lem a b ha hb = (
  less_lem a b ha hb,
  rw (less_lem a b ha hb, equal_lem a b ha hb) (or_equal (nanoseconds a) (nanoseconds b)),
  rw (less_lem a b ha hb) (not_less (nanoseconds a) (nanoseconds b)),
  equal_lem a b ha hb,
  ap not (equal_lem a b ha hb),
)
