-- ===== src/BitMask/Count.antt =====
-- `count` and `toString` of `BitMask`: the digits of the number.
use libcosmos.Prelude.{
  ℕ, zero, suc, ◌+◌, ◌-◌, ◌*◌, ◌/◌, ◌%◌, ◌^◌, ◌≤◌, ◌<◌, ◌≡◌, inl, inr, refl, sym, ◌∙◌, ap, subst,
  arith, [], ◌∷◌, ◌++◌, append-nil, append_assoc, ◌==◌, ==_iff, Bool-cases, if◌then◌else◌, length,
  if_false,
}
use libcosmos.Outcome.{Bytes, ok}
use libcosmos.BitMask.{holds_all, test, count, count_from, to_string, digits_below}
use libcosmos.BitMask.Digits.{bit, bit-small, power_own_bit, power_other_bits, power_pos}
use libcosmos.BitMask.Members.{Within, holds_all_iff}

power-Within : (m k : ℕ) → bit k m ≡ 1 → Within (2 ^ k) m
power-Within m k e i = elim (Bool-cases (i == k)) [
  | inl same ↦
      subst (λ j. bit j (2 ^ k) ≤ bit j m) (sym ((==_iff i k).0 same))
        (omega (arith, e, power_own_bit k))
  | inr other ↦ omega (arith, power_other_bits i k (λ q. ground (arith, other, q)))
]

holds_power : (m k : ℕ) → holds_all m (2 ^ k) ≡ (bit k m == 1)
holds_power m k = elim (Bool-cases (bit k m == 1)) [
  | inl one ↦ (holds_all_iff m (2 ^ k)).1 (power-Within m k ((==_iff (bit k m) 1).0 one)) ∙ sym one
  | inr other ↦ elim (Bool-cases (holds_all m (2 ^ k))) [
    | inl h ↦ ground (arith, other, (holds_all_iff m (2 ^ k)).0 h k, power_own_bit k, bit-small k m)
    | inr h ↦ h ∙ sym other
  ]
]

pub test_power : (m k : ℕ) → test m (2 ^ k) ≡ ok (bit k m == 1)
unfolding test
test_power m k = if_false (2 ^ k == 0) _ _ (ground (arith, power_pos k)) ∙ ap ok (holds_power m k)

-- The number of ones below a position.
abbrev total : ℕ → ℕ → ℕ
total zero m = 0
total (suc n) m = bit n m + total n m

count_step :
    (at ret m : ℕ) → ret ≡ total at m → (if bit at m == 1 then suc ret else ret) ≡ total (suc at) m
count_step at ret m h = elim (Bool-cases (bit at m == 1)) [
  | inl one ↦ rw one (omega (arith, h, (==_iff (bit at m) 1).0 one))
  | inr other ↦ rw other (ground (arith, h, other, bit-small at m))
]

count_from-total :
    (n at ret m top : ℕ)
    → ret ≡ total at m
    → n + at ≡ top
    → count_from n at ret m ≡ ok (total top m)
unfolding count_from
count_from-total zero at ret m top h e = ap ok (h ∙ ap (λ k. total k m) (omega (arith, e)))
count_from-total (suc n) at ret m top h e =
    rw (test_power m at)
      (count_from-total n (suc at) _ m top (count_step at ret m h) (omega (arith, e)))

-- The digits from a position down.
abbrev digit : ℕ → ℕ → ℕ
digit n m = if bit n m == 1 then b'1' else b'0'

abbrev written : ℕ → ℕ → Bytes
written zero m = []
written (suc n) m = digit n m ∷ written n m

digits_below-written : (n m : ℕ) (ret : Bytes) → digits_below n ret m ≡ ok (ret ++ written n m)
unfolding digits_below
digits_below-written zero m ret = ap ok (sym (append-nil ret))
digits_below-written (suc n) m ret =
    rw (test_power m n)
      (digits_below-written n m _ ∙ ap ok (append_assoc ret (digit n m ∷ []) (written n m)))

-- The number that a string of binary digits stands for, behind the digits that stand for `v`.
abbrev pub read_binary : ℕ → Bytes → ℕ
read_binary v [] = v
read_binary v (c ∷ s) = read_binary (v * 2 + (c - b'0')) s

-- How many digits are `1`.
abbrev pub ones : Bytes → ℕ
ones [] = 0
ones (c ∷ s) = (if c == b'1' then 1 else 0) + ones s

-- The number below a position.
abbrev pub low : ℕ → ℕ → ℕ
low zero m = 0
low (suc n) m = m % 2 + 2 * low n (m / 2)

pub low_all : (w m : ℕ) → m < 2 ^ w → low w m ≡ m
low_all zero m h = omega arith
low_all (suc w) m h = omega (arith, low_all w (m / 2) (omega arith))

pub low_top : (n m : ℕ) → low (suc n) m ≡ bit n m * 2 ^ n + low n m
unfolding bit
low_top zero m = omega arith
low_top (suc n) m = grind (arith, low_top n (m / 2))

digit-value : (n m v : ℕ) → v * 2 + (digit n m - b'0') ≡ v * 2 + bit n m
digit-value n m v = elim (Bool-cases (bit n m == 1)) [
  | inl one ↦ rw one (omega (arith, (==_iff (bit n m) 1).0 one))
  | inr other ↦ rw other (ground (arith, other, bit-small n m))
]

written-value : (n m v : ℕ) → read_binary v (written n m) ≡ v * 2 ^ n + low n m
written-value zero m v = omega arith
written-value (suc n) m v =
    ap (λ x. read_binary x (written n m)) (digit-value n m v)
    ∙ written-value n m (v * 2 + bit n m)
    ∙ grind (arith, low_top n m)

written-ones : (n m : ℕ) → ones (written n m) ≡ total n m
written-ones zero m = refl
written-ones (suc n) m = elim (Bool-cases (bit n m == 1)) [
  | inl one ↦ rw one (omega (arith, (==_iff (bit n m) 1).0 one, written-ones n m))
  | inr other ↦ rw other (ground (arith, other, bit-small n m, written-ones n m))
]

written-length : (n m : ℕ) → length (written n m) ≡ n
written-length zero m = refl
written-length (suc n) m = ap suc (written-length n m)

-- `toString` of a mask of w bits gives w digits that stand for the mask, and `count` the number of
-- ones among them.
pub to_string-count :
    (w m : ℕ)
    → m < 2 ^ w
    → (s : Bytes) × (to_string w m ≡ ok s)
      × (length s ≡ w)
      × (read_binary 0 s ≡ m)
      × (count w m ≡ ok (ones s))
unfolding to_string count
to_string-count w m h = (
  written w m,
  digits_below-written w m [],
  written-length w m,
  written-value w m 0 ∙ omega (arith, low_all w m h),
  count_from-total w 0 0 m w refl (omega arith) ∙ ap ok (sym (written-ones w m)),
)
