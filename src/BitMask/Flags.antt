-- ===== src/BitMask/Flags.antt =====
-- The operations of `BitMask` that take a list of flags, and those that take a mask.
use Prim.Native.Nat.{bit_and, bit_or}
use libcosmos.Prelude.{
  ℕ, ◌-◌, ◌^◌, ◌<◌, ◌≡◌, ◌↔◌, inl, inr, refl, sym, ◌∙◌, ap, subst, arith, Bool, true, false, List,
  [], ◌∷◌, ◌==◌, Bool-cases, All, if◌then◌else◌, if_false, ◌&&◌,
}
use libcosmos.Outcome.{ok, and_then}
use libcosmos.BitMask.{
  test, set, reset_flags, set_flags, of_flags, united, limit_to_flags, all_of, all_of_mask,
  holds_all, set_mask, reset_mask, limit_to_mask,
}
use libcosmos.BitMask.Digits.{
  bit, bit-small, bit_and-bit, bit_or-bit, bit_of_zero, complement, bit_beyond, bits_ext, bounded,
  power_pos,
}
use libcosmos.BitMask.Members.{Within, holds_all_iff, without-bit}

-- A flag is a number of w bits, and not 0.
abbrev pub IsFlag : ℕ → ℕ → Type 0
IsFlag w v = (v < 2 ^ w) × (0 < v)

or_assoc : (a b c : ℕ) → bit_or (bit_or a b) c ≡ bit_or a (bit_or b c)
or_assoc a b c = bits_ext _ _ (λ i. omega (
  arith,
  bit_or-bit i (bit_or a b) c,
  bit_or-bit i a b,
  bit_or-bit i a (bit_or b c),
  bit_or-bit i b c,
))

or_zero : (a : ℕ) → bit_or a 0 ≡ a
or_zero a = bits_ext _ _ (λ i. omega (arith, bit_or-bit i a 0, bit_of_zero i))

united_or : (m n : ℕ) (vs : List ℕ) → united (bit_or m n) vs ≡ bit_or m (united n vs)
unfolding united
united_or m n [] = refl
united_or m n (v ∷ vs) = ap (λ x. united x vs) (or_assoc m n v) ∙ united_or m (bit_or n v) vs

united-zero : (m : ℕ) (vs : List ℕ) → united m vs ≡ bit_or m (united 0 vs)
united-zero m vs = ap (λ x. united x vs) (sym (or_zero m)) ∙ united_or m 0 vs

zero_or : (a : ℕ) → bit_or 0 a ≡ a
zero_or a = bits_ext _ _ (λ i. omega (arith, bit_or-bit i 0 a, bit_of_zero i))

united_cons : (v : ℕ) (vs : List ℕ) → united 0 (v ∷ vs) ≡ bit_or v (united 0 vs)
unfolding united
united_cons v vs = united-zero (bit_or 0 v) vs ∙ ap (λ x. bit_or x (united 0 vs)) (zero_or v)

set_flags-united : (w m : ℕ) (vs : List ℕ) → set_flags w m vs ≡ united m vs
unfolding set_flags set united
set_flags-united w m [] = refl
set_flags-united w m (v ∷ vs) = set_flags-united w (bit_or m v) vs

Within-or : (a b m : ℕ) → Within (bit_or a b) m ↔ (Within a m × Within b m)
Within-or a b m = (
  λ h. (λ i. omega (arith, h i, bit_or-bit i a b), λ i. omega (arith, h i, bit_or-bit i a b)),
  λ h i. omega (arith, h.0 i, h.1 i, bit_or-bit i a b),
)

and_bounded : (w m v : ℕ) → m < 2 ^ w → bit_and m v < 2 ^ w
and_bounded w m v h =
    bounded w (bit_and m v) (λ i l. omega (arith, bit_and-bit i m v, bit_beyond w i m l h))

or_bounded : (w a b : ℕ) → a < 2 ^ w → b < 2 ^ w → bit_or a b < 2 ^ w
or_bounded w a b h k =
    bounded w (bit_or a b)
      (λ i l. omega (arith, bit_or-bit i a b, bit_beyond w i a l h, bit_beyond w i b l k))

united_bounded : (w : ℕ) (vs : List ℕ) → All (IsFlag w) vs → united 0 vs < 2 ^ w
unfolding united
united_bounded w [] h = power_pos w
united_bounded w (v ∷ vs) h =
    subst (λ x. x < 2 ^ w) (sym (united_cons v vs))
      (or_bounded w v (united 0 vs) h.0.0 (united_bounded w vs h.1))

reset_flags-bit :
    (w m : ℕ) (vs : List ℕ) (i : ℕ)
    → m < 2 ^ w
    → All (IsFlag w) vs
    → bit i (reset_flags w m vs) ≡ bit i m - bit i (united 0 vs)
unfolding reset_flags bit united
reset_flags-bit w m [] i hm h = omega (arith, bit_of_zero i)
reset_flags-bit w m (v ∷ vs) i hm h = omega (
  arith,
  reset_flags-bit w (bit_and m (complement w v)) vs i (and_bounded w m _ hm) h.1,
  without-bit w m v hm h.0.0 i,
  ap (bit i) (united_cons v vs),
  bit_or-bit i v (united 0 vs),
  bit-small i m,
)

reset_flags-united :
    (w m : ℕ) (vs : List ℕ)
    → m < 2 ^ w
    → All (IsFlag w) vs
    → reset_flags w m vs ≡ bit_and m (complement w (united 0 vs))
reset_flags-united w m vs hm h = bits_ext _ _ (λ i. omega (
  arith,
  reset_flags-bit w m vs i hm h,
  without-bit w m (united 0 vs) hm (united_bounded w vs h) i,
))

holds_all_or : (m a b : ℕ) → holds_all m (bit_or a b) ≡ (holds_all m a && holds_all m b)
holds_all_or m a b = elim (Bool-cases (holds_all m a)) [
  | inl ha ↦ elim (Bool-cases (holds_all m b)) [
    | inl hb ↦
        rw (ha, hb)
          ((holds_all_iff m (bit_or a b)).1
            ((Within-or a b m).1 ((holds_all_iff m a).0 ha, (holds_all_iff m b).0 hb)))
    | inr hb ↦ elim (Bool-cases (holds_all m (bit_or a b))) [
      | inl h ↦ ground (
        arith,
        hb,
        (holds_all_iff m b).1 ((Within-or a b m).0 ((holds_all_iff m (bit_or a b)).0 h)).1,
      )
      | inr h ↦ rw (ha, hb, h) refl
    ]
  ]
  | inr ha ↦ elim (Bool-cases (holds_all m (bit_or a b))) [
    | inl h ↦ ground (
      arith,
      ha,
      (holds_all_iff m a).1 ((Within-or a b m).0 ((holds_all_iff m (bit_or a b)).0 h)).0,
    )
    | inr h ↦ rw (ha, h) refl
  ]
]

holds_none : (m : ℕ) → holds_all m (united 0 []) ≡ true
unfolding united
holds_none m = (holds_all_iff m 0).1 (λ i. omega (arith, bit_of_zero i))

test_of_flag : (w m v : ℕ) → IsFlag w v → test m v ≡ ok (holds_all m v)
unfolding test
test_of_flag w m v h = if_false (v == 0) _ _ (ground (arith, h.1))

decided :
    (m v : ℕ) (b : Bool)
    → and_then (ok b) (λ x. if x then ok (holds_all m v) else ok false) ≡ ok (b && holds_all m v)
decided m v true = refl
decided m v false = refl

all_of-united :
    (w m : ℕ) (vs : List ℕ) → All (IsFlag w) vs → all_of m vs ≡ ok (holds_all m (united 0 vs))
unfolding all_of
all_of-united w m [] h = ap ok (sym (holds_none m))
all_of-united w m (v ∷ vs) h =
    rw
      (
        test_of_flag w m v h.0,
        all_of-united w m vs h.1,
        united_cons v vs,
        holds_all_or m v (united 0 vs),
      )
      (decided m (united 0 vs) (holds_all m v))

-- For flags that are numbers of w bits and not 0, an operation on a list of flags is the same
-- operation on the mask that these flags make: `set`, `reset`, `limit` and `allOf`.
pub list_as_mask :
    (w m : ℕ) (vs : List ℕ)
    → m < 2 ^ w
    → All (IsFlag w) vs
    → (set_flags w m vs ≡ set_mask m (of_flags vs))
      × (reset_flags w m vs ≡ reset_mask w m (of_flags vs))
      × (limit_to_flags m vs ≡ limit_to_mask m (of_flags vs))
      × (all_of m vs ≡ ok (all_of_mask m (of_flags vs)))
unfolding set_mask reset_mask limit_to_mask limit_to_flags of_flags all_of_mask holds_all
list_as_mask w m vs hm h = (
  set_flags-united w m vs ∙ united-zero m vs,
  reset_flags-united w m vs hm h,
  refl,
  all_of-united w m vs h,
)
