-- ===== src/BitMask/Members.antt =====
-- The bits that the operations of `BitMask` test, add and take away.
use Prim.Native.Nat.{bit_and}
use libcosmos.Prelude.{
  ℕ, ◌-◌, ◌^◌, ◌≤◌, ◌<◌, ◌≡◌, ◌↔◌, ◌≢◌, inl, inr, refl, sym, subst, arith, Bool, true, false, ◌==◌,
  ==_iff, ltb, ltb→lt, Bool-cases,
}
use libcosmos.Outcome.{usage_error, Outcome, ok, throw, spins}
use libcosmos.BitMask.{Mask, holds_all, test, steal, stolen, reset, reset_flags}
use libcosmos.BitMask.Digits.{
  bit, bit-small, bit_and-bit, complement, complement-bit, bit_beyond, bits_ext,
}

-- Every bit of the first number is a bit of the second.
abbrev pub Within : ℕ → ℕ → Type 0
Within v m = (i : ℕ) → bit i v ≤ bit i m

pub holds_all_iff : (m v : ℕ) → (holds_all m v ≡ true) ↔ Within v m
unfolding holds_all
holds_all_iff m v = (
  λ h i. omega (
    arith,
    bit_and-bit i m v,
    subst (λ x. bit i x ≡ bit i v) (sym ((==_iff (bit_and m v) v).0 h)) refl,
  ),
  λ h.
      (==_iff (bit_and m v) v).1
        (bits_ext (bit_and m v) v (λ i. omega (arith, bit_and-bit i m v, h i))),
)

-- What is left of a mask when bits are taken away.
abbrev pub TakenFrom : ℕ → ℕ → ℕ → Type 0
TakenFrom v m left = (i : ℕ) → bit i left ≡ bit i m - bit i v

pub without-bit : (w m v : ℕ) → m < 2 ^ w → v < 2 ^ w → TakenFrom v m (bit_and m (complement w v))
without-bit w m v hm hv i = elim (Bool-cases (ltb i w)) [
  | inl h ↦ omega (
    arith,
    bit_and-bit i m (complement w v),
    complement-bit w i v (ltb→lt i w h) hv,
    bit-small i m,
    bit-small i v,
  )
  | inr h ↦ omega (arith, bit_and-bit i m (complement w v), bit_beyond w i m (ground (arith, h)) hm)
]

-- The mask behind `steal` and what it answers.
abbrev pub Stolen : Mask → ℕ → Outcome Bool × Mask → Type 0
Stolen m v (ok true, left) = (v ≢ 0) × Within v m × TakenFrom v m left
Stolen m v (ok false, left) = (v ≢ 0) × ((Within v m → ⊥)) × (left ≡ m)
Stolen m v (throw x, left) = (v ≡ 0) × (x ≡ usage_error "test for zero") × (left ≡ m)
Stolen m v (spins, left) = ⊥

reset-bit : (w m v : ℕ) → m < 2 ^ w → v < 2 ^ w → TakenFrom v m (reset w m v)
unfolding reset reset_flags
reset-bit w m v hm hv = without-bit w m v hm hv

-- `steal` never takes a bit that it was not asked for. If it answers `true`, all bits of the flag
-- were in the mask, and exactly these are gone; if it answers `false`, one of them was missing, and
-- the mask is unchanged. It throws exactly where the flag has no bit, and leaves the mask alone. The
-- mask and the flag are numbers of w bits.
pub steal_lem : (w m v : ℕ) → m < 2 ^ w → v < 2 ^ w → Stolen m v (steal w m v)
unfolding steal stolen test
steal_lem w m v hm hv = elim (Bool-cases (v == 0)) [
  | inl z ↦ rw z ((==_iff v 0).0 z, refl, refl)
  | inr nz ↦ elim (Bool-cases (holds_all m v)) [
    | inl h ↦ rw (nz, h) (ground (arith, nz), (holds_all_iff m v).0 h, reset-bit w m v hm hv)
    | inr h ↦ rw (nz, h) (ground (arith, nz), λ k. ground (arith, h, (holds_all_iff m v).1 k), refl)
  ]
]
