-- ===== src/Text/Split/Find.antt =====
-- What the searches of `split` find.
use libcosmos.Prelude.{
  ℕ, zero, suc, ◌+◌, ◌≤◌, ◌≡◌, refl, true, none, some, [], ◌∷◌, ◌++◌, length, take, drop, arith,
}
use libcosmos.Outcome.{Bytes}
use libcosmos.Text.Split.{is_prefix, find}

pub is_prefix_lem : (p s : Bytes) → is_prefix p s ≡ true → s ≡ p ++ drop (length p) s
unfolding is_prefix
is_prefix_lem [] s h = refl
is_prefix_lem (a ∷ p) [] h = cc
is_prefix_lem (a ∷ p) (b ∷ s) h = ground (arith, is_prefix_lem p s)

pub is_prefix-length : (p s : Bytes) → is_prefix p s ≡ true → length p ≤ length s
unfolding is_prefix
is_prefix-length [] s h = omega arith
is_prefix-length (a ∷ p) [] h = cc
is_prefix-length (a ∷ p) (b ∷ s) h = ground (arith, is_prefix-length p s)

drop_later : (n m c : ℕ) (s : Bytes) → drop (suc n + m) (c ∷ s) ≡ drop (n + m) s
drop_later n m c s = let e : suc n + m ≡ suc (n + m) = omega arith in rw e

-- What comes before the position found, the separator there, and the rest spell the text.
pub find_lem :
    (sep s : Bytes) (n : ℕ) → find sep s ≡ some n → s ≡ take n s ++ (sep ++ drop (n + length sep) s)
unfolding find
find_lem sep [] zero h = ground (arith, is_prefix_lem sep [])
find_lem sep [] (suc n) h = ground arith
find_lem sep (c ∷ s) zero h = ground (arith, is_prefix_lem sep (c ∷ s))
find_lem sep (c ∷ s) (suc n) h = ground (arith, find_lem sep s n, drop_later n (length sep) c s)

pub find-length : (sep s : Bytes) (n : ℕ) → find sep s ≡ some n → n + length sep ≤ length s
unfolding find
find-length sep [] n h = ground (arith, is_prefix-length sep [])
find-length sep (c ∷ s) zero h = ground (arith, is_prefix-length sep (c ∷ s))
find-length sep (c ∷ s) (suc n) h = ground (arith, find-length sep s n)

-- A text shorter than the first occurrence holds none.
is_prefix-take : (p s : Bytes) (n : ℕ) → is_prefix p (take n s) ≡ true → is_prefix p s ≡ true
unfolding is_prefix
is_prefix-take [] s n h = refl
is_prefix-take (a ∷ p) s zero h = cc
is_prefix-take (a ∷ p) [] (suc n) h = cc
is_prefix-take (a ∷ p) (b ∷ s) (suc n) h = ground (arith, is_prefix-take p s n)

pub find-take :
    (a : ℕ) (sep s : Bytes) (n : ℕ) → find (a ∷ sep) s ≡ some n → find (a ∷ sep) (take n s) ≡ none
unfolding find
find-take a sep [] n h = cc
find-take a sep (c ∷ s) zero h = refl
find-take a sep (c ∷ s) (suc n) h =
    ground (arith, find-take a sep s n, is_prefix-take (a ∷ sep) (c ∷ s) (suc n))
