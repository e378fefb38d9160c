-- ===== src/Time/TimeSpec.antt =====
-- `TimeSpec` of include/time/types.hxx. The members are signed words of 64 bits, kept here as their
-- bits: a number under 2 ^ 64, negative from 2 ^ 63 on. A signed
-- sum that does not fit, which C++ leaves undefined, wraps around. `size_t` is such a word without a sign.
pub mod Arithmetic
pub mod Compare
mod Tests
use libcosmos.Prelude.{
  ℕ, ◌+◌, ◌-◌, ◌*◌, ◌/◌, ◌%◌, ◌^◌, Bool, true, false, not, ◌&&◌, ◌||◌, ◌==◌, ltb, leb,
  if◌then◌else◌,
}

abbrev pub word : ℕ
word = 2 ^ 64

abbrev pub sign_bit : ℕ
sign_bit = 2 ^ 63

abbrev pub nanosecond_base : ℕ
nanosecond_base = 1000000000

abbrev pub plus : ℕ → ℕ → ℕ
plus a b = (a + b) % word

abbrev pub minus : ℕ → ℕ → ℕ
minus a b = (a + (word - b)) % word

-- `<` of two signed words.
abbrev pub signed_less : ℕ → ℕ → Bool
signed_less a b = ltb (plus a sign_bit) (plus b sign_bit)

pub record TimeSpec : Type 0 where
  pub tv_sec : ℕ
  pub tv_nsec : ℕ

abbrev pub is_zero : TimeSpec → Bool
is_zero t = t.tv_sec == 0 && t.tv_nsec == 0

unfoldable pub add_seconds : ℕ → TimeSpec → TimeSpec
add_seconds seconds t = record t { tv_sec = plus t.tv_sec seconds }

unfoldable pub add_nano_seconds : ℕ → TimeSpec → TimeSpec
add_nano_seconds nano_seconds t = record t { tv_nsec = plus t.tv_nsec nano_seconds }

unfoldable pub set_as_milliseconds : ℕ → TimeSpec
set_as_milliseconds milliseconds =
    let left_ms = milliseconds % 1000 in
    record { tv_sec = (milliseconds - left_ms) / 1000; tv_nsec = left_ms * 1000 * 1000 }

-- `tv_nsec` is not negative here; the quotients of a negative one are not modelled.
unfoldable pub to_milliseconds : TimeSpec → ℕ
to_milliseconds t = plus (t.tv_sec * 1000 % word) (t.tv_nsec / 1000 / 1000)

unfoldable pub less : TimeSpec → TimeSpec → Bool
less a b =
    if signed_less a.tv_sec b.tv_sec
    then true
    else if not (a.tv_sec == b.tv_sec)
    then false
    else if signed_less a.tv_nsec b.tv_nsec
    then true
    else false

unfoldable pub greater_equal : TimeSpec → TimeSpec → Bool
unfolding less
greater_equal a b = not (less a b)

unfoldable pub equal : TimeSpec → TimeSpec → Bool
equal a b = a.tv_sec == b.tv_sec && a.tv_nsec == b.tv_nsec

unfoldable pub unequal : TimeSpec → TimeSpec → Bool
unfolding equal
unequal a b = not (equal a b)

unfoldable pub less_equal : TimeSpec → TimeSpec → Bool
unfolding less equal
less_equal a b = less a b || equal a b

-- `if (ret.tv_nsec < 0)`, and `if (ret.tv_nsec >= NANOSECOND_BASE)`.
unfoldable pub borrow : TimeSpec → TimeSpec
borrow t =
    if leb sign_bit t.tv_nsec
    then record { tv_sec = minus t.tv_sec 1; tv_nsec = plus t.tv_nsec nanosecond_base }
    else t

unfoldable pub carry : TimeSpec → TimeSpec
carry t =
    if not (signed_less t.tv_nsec nanosecond_base)
    then record { tv_sec = plus t.tv_sec 1; tv_nsec = minus t.tv_nsec nanosecond_base }
    else t

unfoldable pub subtract : TimeSpec → TimeSpec → TimeSpec
unfolding borrow
subtract a b =
    borrow record { tv_sec = minus a.tv_sec b.tv_sec; tv_nsec = minus a.tv_nsec b.tv_nsec }

unfoldable pub add : TimeSpec → TimeSpec → TimeSpec
unfolding carry
add a b = carry record { tv_sec = plus a.tv_sec b.tv_sec; tv_nsec = plus a.tv_nsec b.tv_nsec }
