-- ===== src/BitMask.antt =====
-- `BitMask` of include/BitMask.hxx. A mask is the bit pattern of its underlying integer type, a
-- number below `2 ^ w` for the w bits of the type; a value of the enum is its integer.
pub mod Digits
pub mod Members
pub mod Flags
pub mod Count
mod Tests
use Prim.Native.Nat.{bit_and, bit_or, bit_xor}
use libcosmos.Prelude.{
  ℕ, zero, suc, ◌-◌, ◌^◌, ◌+◌, String, Bool, true, false, not, List, [], ◌∷◌, ◌++◌, ◌==◌,
  if◌then◌else◌,
}
use libcosmos.Outcome.{Bytes, usage_error, Outcome, ok, throw, spins, and_then}
use libcosmos.BitMask.Digits.{complement}

-- `m_flags`.
abbrev pub Mask : Type 0
Mask = ℕ

abbrev pub empty : Mask
empty = 0

-- `m_flags |= val` for each flag: the constructor that takes a list of flags.
unfoldable pub united : Mask → List ℕ → Mask
united m [] = m
united m (val ∷ vals) = united (bit_or m val) vals

unfoldable pub of_flags : List ℕ → Mask
unfolding united
of_flags flags = united 0 flags

-- `(m_flags & raw_val) == raw_val`.
unfoldable pub holds_all : Mask → ℕ → Bool
holds_all m v = bit_and m v == v

unfoldable pub test : Mask → ℕ → Outcome Bool
unfolding holds_all
test m v = if v == 0 then throw (usage_error "test for zero") else ok (holds_all m v)

unfoldable pub test_any : Mask → ℕ → Bool
test_any m v = not (bit_and m v == 0)

unfoldable pub only : Mask → ℕ → Bool
only m v = m == v

unfoldable pub any : Mask → Bool
any m = not (m == 0)

unfoldable pub has_none : Mask → Bool
unfolding any
has_none m = not (any m)

-- `allOf` and `anyOf` of a list of flags stop at the first flag that decides.
unfoldable pub all_of : Mask → List ℕ → Outcome Bool
unfolding test
all_of m [] = ok true
all_of m (val ∷ vals) =
    let rest = all_of m vals in and_then (test m val) (λ b. if b then rest else ok false)

unfoldable pub any_of : Mask → List ℕ → Outcome Bool
unfolding test
any_of m [] = ok false
any_of m (val ∷ vals) =
    let rest = any_of m vals in and_then (test m val) (λ b. if b then ok true else rest)

-- The same of another mask.
unfoldable pub all_of_mask : Mask → Mask → Bool
all_of_mask m other = bit_and m other == other

unfoldable pub any_of_mask : Mask → Mask → Bool
any_of_mask m other = not (bit_and m other == 0)

-- `operator&` of two masks.
unfoldable pub common : Mask → Mask → ℕ
common m other = bit_and other m

-- The flags that `limit` unites: `mask |= val`.
unfoldable pub limit_to_flags : Mask → List ℕ → Mask
unfolding united
limit_to_flags m flags = bit_and m (united 0 flags)

unfoldable pub limit : Mask → ℕ → Mask
unfolding limit_to_flags
limit m flag = limit_to_flags m (flag ∷ [])

unfoldable pub limit_to_mask : Mask → Mask → Mask
limit_to_mask m other = bit_and m other

unfoldable pub set_mask : Mask → Mask → Mask
set_mask m other = bit_or m other

unfoldable pub flip : Mask → ℕ → Mask
flip m v = bit_xor m v

-- The rounds of `count`, from a bit on.
unfoldable pub count_from : ℕ → ℕ → ℕ → Mask → Outcome ℕ
unfolding test
count_from zero at ret m = ok ret
count_from (suc n) at ret m =
    and_then (test m (2 ^ at)) (λ b. count_from n (suc at) (if b then suc ret else ret) m)

module _ (w : ℕ) where
  unfoldable pub set_all : Mask
  set_all = complement w 0

  unfoldable pub set : Mask → ℕ → Bool → Mask
  set m v on_off = if on_off then bit_or m v else bit_and m (complement w v)

  unfoldable pub set_flags : Mask → List ℕ → Mask
  unfolding set
  set_flags m [] = m
  set_flags m (flag ∷ flags) = set_flags (set m flag true) flags

  unfoldable pub reset_flags : Mask → List ℕ → Mask
  reset_flags m [] = m
  reset_flags m (val ∷ vals) = reset_flags (bit_and m (complement w val)) vals

  unfoldable pub reset : Mask → ℕ → Mask
  unfolding reset_flags
  reset m v = reset_flags m (v ∷ [])

  unfoldable pub reset_mask : Mask → Mask → Mask
  reset_mask m other = bit_and m (complement w other)

  unfoldable pub flip_all : Mask → Mask
  flip_all m = complement w m

  -- The answer of `steal`, and the mask behind it.
  unfoldable pub stolen : Mask → ℕ → Outcome Bool → Outcome Bool × Mask
  unfolding reset
  stolen m v (ok false) = (ok false, m)
  stolen m v (ok true) = (ok true, reset m v)
  stolen m v (throw x) = (throw x, m)
  stolen m v spins = (spins, m)

  unfoldable pub steal : Mask → ℕ → Outcome Bool × Mask
  unfolding test stolen
  steal m v = stolen m v (test m v)

  unfoldable pub without : Mask → Mask → Mask
  unfolding reset_mask
  without first second = reset_mask first second

  unfoldable pub without_flag : Mask → ℕ → Mask
  unfolding reset
  without_flag first val = reset first val

  unfoldable pub with_flag : Mask → ℕ → Mask
  unfolding set
  with_flag first val = set first val true

  unfoldable pub count : Mask → Outcome ℕ
  unfolding count_from
  count m = count_from w 0 0 m

-- The characters from the bit below `n` down.
unfoldable pub digits_below : ℕ → Bytes → Mask → Outcome Bytes
unfolding test
digits_below zero ret m = ok ret
digits_below (suc n) ret m =
    and_then (test m (2 ^ n)) (λ b. digits_below n (ret ++ (if b then b'1' else b'0') ∷ []) m)

unfoldable pub to_string : ℕ → Mask → Outcome Bytes
unfolding digits_below
to_string w m = digits_below w [] m
