-- ===== src/BitMask/Digits.antt =====
-- The binary digits of a number, and what the bit operations of the language do to each.
use Prim.Native.Nat.{max, bit_and, bit_or, digits, bit_and-bitwise, bit_or-bitwise}
use libcosmos.Prelude.{
  ℕ, zero, suc, ◌+◌, ◌-◌, ◌*◌, ◌/◌, ◌%◌, ◌^◌, ◌≤◌, ◌<◌, ◌≡◌, ◌≢◌, refl, sym, ◌∙◌, ap, min, arith,
}

-- The digit at a position.
unfoldable pub bit : ℕ → ℕ → ℕ
bit zero a = a % 2
bit (suc i) a = bit i (a / 2)

pub bit-small : (i a : ℕ) → bit i a < 2
unfolding bit
bit-small zero a = omega arith
bit-small (suc i) a = bit-small i (a / 2)

pub bit_of_zero : (i : ℕ) → bit i 0 ≡ 0
unfolding bit
bit_of_zero zero = refl
bit_of_zero (suc i) = bit_of_zero i

-- The operations take one digit at a time. The first number is the fuel of their definition.
and_fuel :
    (n m a b : ℕ) → a ≤ n → a ≤ m → digits (λ b. zero) min n a b ≡ digits (λ b. zero) min m a b
and_fuel zero zero a b p q = refl
and_fuel zero (suc m) zero b p q = refl
and_fuel zero (suc m) (suc a) b p q = absurd (omega arith)
and_fuel (suc n) zero zero b p q = refl
and_fuel (suc n) zero (suc a) b p q = absurd (omega arith)
and_fuel (suc n) (suc m) zero b p q = refl
and_fuel (suc n) (suc m) (suc a) b p q =
    omega (arith, and_fuel n m (suc a / 2) (b / 2) (omega arith) (omega arith))

or_fuel : (n m a b : ℕ) → a ≤ n → a ≤ m → digits (λ b. b) max n a b ≡ digits (λ b. b) max m a b
or_fuel zero zero a b p q = refl
or_fuel zero (suc m) zero b p q = refl
or_fuel zero (suc m) (suc a) b p q = absurd (omega arith)
or_fuel (suc n) zero zero b p q = refl
or_fuel (suc n) zero (suc a) b p q = absurd (omega arith)
or_fuel (suc n) (suc m) zero b p q = refl
or_fuel (suc n) (suc m) (suc a) b p q =
    omega (arith, or_fuel n m (suc a / 2) (b / 2) (omega arith) (omega arith))

zero-and : (b : ℕ) → bit_and 0 b ≡ 0
zero-and b = bit_and-bitwise 0 b

zero-or : (b : ℕ) → bit_or 0 b ≡ b
zero-or b = bit_or-bitwise 0 b

and_step : (a b : ℕ) → bit_and a b ≡ bit_and (a / 2) (b / 2) * 2 + min (a % 2) (b % 2)
and_step zero b = omega (arith, zero-and b, zero-and (b / 2))
and_step (suc a) b = omega (
  arith,
  bit_and-bitwise (suc a) b,
  bit_and-bitwise (suc a / 2) (b / 2),
  and_fuel a (suc a / 2) (suc a / 2) (b / 2) (omega arith) (omega arith),
)

or_step : (a b : ℕ) → bit_or a b ≡ bit_or (a / 2) (b / 2) * 2 + max (a % 2) (b % 2)
or_step zero b = omega (arith, zero-or b, zero-or (b / 2))
or_step (suc a) b = omega (
  arith,
  bit_or-bitwise (suc a) b,
  bit_or-bitwise (suc a / 2) (b / 2),
  or_fuel a (suc a / 2) (suc a / 2) (b / 2) (omega arith) (omega arith),
)

pub bit_and-bit : (i a b : ℕ) → bit i (bit_and a b) ≡ min (bit i a) (bit i b)
unfolding bit
bit_and-bit zero a b = omega (arith, and_step a b)
bit_and-bit (suc i) a b = ap (bit i) (omega (arith, and_step a b)) ∙ bit_and-bit i (a / 2) (b / 2)

pub bit_or-bit : (i a b : ℕ) → bit i (bit_or a b) ≡ max (bit i a) (bit i b)
unfolding bit
bit_or-bit zero a b = omega (arith, or_step a b)
bit_or-bit (suc i) a b = ap (bit i) (omega (arith, or_step a b)) ∙ bit_or-bit i (a / 2) (b / 2)

-- `~a` of a word of w bits.
abbrev pub complement : ℕ → ℕ → ℕ
complement w a = 2 ^ w - 1 - a

halved_power : (w : ℕ) → 2 ^ suc w ≡ 2 * 2 ^ w
halved_power w = omega arith

pub power_pos : (w : ℕ) → 0 < 2 ^ w
power_pos zero = omega arith
power_pos (suc w) = omega (arith, power_pos w)

pub complement-bit : (w i a : ℕ) → i < w → a < 2 ^ w → bit i (complement w a) ≡ 1 - bit i a
unfolding bit
complement-bit zero i a h l = absurd (omega arith)
complement-bit (suc w) zero a h l = omega (arith, power_pos w)
complement-bit (suc w) (suc i) a h l =
    ap (bit i) (omega (arith, power_pos w)) ∙ complement-bit w i (a / 2) (omega arith) (omega arith)

pub bit_beyond : (w i a : ℕ) → w ≤ i → a < 2 ^ w → bit i a ≡ 0
unfolding bit
bit_beyond zero i a h l = ap (bit i) (omega arith) ∙ bit_of_zero i
bit_beyond (suc w) zero a h l = absurd (omega arith)
bit_beyond (suc w) (suc i) a h l = bit_beyond w i (a / 2) (omega arith) (omega arith)

-- Numbers with the same digits are the same.
ext_below : (n a b : ℕ) → a ≤ n → b ≤ n → ((i : ℕ) → bit i a ≡ bit i b) → a ≡ b
unfolding bit
ext_below zero a b p q e = omega arith
ext_below (suc n) a b p q e =
    omega (arith, e 0, ext_below n (a / 2) (b / 2) (omega arith) (omega arith) (λ i. e (suc i)))

pub bits_ext : (a b : ℕ) → ((i : ℕ) → bit i a ≡ bit i b) → a ≡ b
bits_ext a b e = ext_below (a + b) a b (omega arith) (omega arith) e

pub power_own_bit : (k : ℕ) → bit k (2 ^ k) ≡ 1
unfolding bit
power_own_bit zero = refl
power_own_bit (suc k) = ap (bit k) (omega arith) ∙ power_own_bit k

pub power_other_bits : (i k : ℕ) → i ≢ k → bit i (2 ^ k) ≡ 0
unfolding bit
power_other_bits zero zero n = absurd (n refl)
power_other_bits zero (suc k) n = omega arith
power_other_bits (suc i) zero n = bit_of_zero i
power_other_bits (suc i) (suc k) n =
    ap (bit i) (omega arith) ∙ power_other_bits i k (λ e. n (ap suc e))

pub bounded : (w a : ℕ) → ((i : ℕ) → w ≤ i → bit i a ≡ 0) → a < 2 ^ w
unfolding bit
bounded zero a e = omega (arith, bits_ext a 0 (λ i. e i (omega arith) ∙ sym (bit_of_zero i)))
bounded (suc w) a e = omega (arith, bounded w (a / 2) (λ i h. e (suc i) (omega arith)))
