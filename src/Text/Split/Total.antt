-- ===== src/Text/Split/Total.antt =====
-- `split` ends, whatever the flags and the limit.
use libcosmos.Prelude.{
  ℕ, zero, suc, ◌+◌, ◌<◌, ◌≤◌, ◌≡◌, refl, Option, none, some, List, [], ◌∷◌, length, drop,
  length-drop, if◌then◌else◌, ◌==◌, ◌&&◌, not, arith, Bool-cases, inl, inr,
}
use libcosmos.Outcome.{Bytes, Outcome, ok}
use libcosmos.Text.Split.Find.{find-length}
use libcosmos.Text.Split.{
  SplitFlags, is_prefix, skip, find, find_next, cut, from_start, rounds, split,
}

abbrev pub Returns : Outcome (List Bytes) → Type 0
Returns r = (parts : List Bytes) × (r ≡ ok parts)

module _ (a : ℕ) (sep : Bytes) where
  skip_total :
      (fuel : ℕ) (s : Bytes)
      → length s < fuel
      → (s' : Bytes) × (skip fuel (a ∷ sep) s ≡ ok s') × (length s' ≤ length s)
  unfolding skip is_prefix
  skip_total zero s h = absurd (omega arith)
  skip_total (suc fuel) [] h = ([], refl, omega arith)
  skip_total (suc fuel) (x ∷ s) h = elim (Bool-cases (is_prefix (a ∷ sep) (x ∷ s))) [
    | inl more ↦
        let d = length-drop (length sep) s in
        let (s', e, k) = skip_total fuel (drop (length sep) s) (omega arith) in
        (s', rw more e, omega arith)
    | inr end ↦ (x ∷ s, rw end, omega arith)
  ]

  start_total :
      (flags : SplitFlags) (fuel : ℕ) (s : Bytes) (f : Bytes → Outcome (List Bytes))
      → length s < fuel
      → ((s' : Bytes) → length s' ≤ length s → Returns (f s'))
      → Returns (from_start (if flags.keep_empty then ok s else skip fuel (a ∷ sep) s) f)
  start_total flags fuel s f h g = elim (Bool-cases flags.keep_empty) [
    | inl e ↦ rw e (g s (omega arith))
    | inr e ↦ let (s', q, k) = skip_total fuel s h in rw (e, q) (g s' k)
  ]

  find_next_lem :
      (max_splits : ℕ) (parts : List Bytes) (s : Bytes) (n : ℕ)
      → find_next max_splits (a ∷ sep) parts s ≡ some n
      → find (a ∷ sep) s ≡ some n
  unfolding find_next
  find_next_lem max_splits parts s n h =
      elim (Bool-cases (not (max_splits == 0) && length parts == max_splits)) [
        | inl full ↦ ground arith
        | inr room ↦ ground arith
      ]

  cut_total :
      (flags : SplitFlags) (parts : List Bytes) (s : Bytes) (o : Option ℕ)
      (rest : List Bytes → Bytes → Outcome (List Bytes))
      → ((n : ℕ) (qs : List Bytes) → o ≡ some n → Returns (rest qs (drop (n + suc (length sep)) s)))
      → Returns (cut flags (a ∷ sep) parts s o rest)
  unfolding cut
  cut_total flags parts s none rest h = (_, refl)
  cut_total flags parts s (some n) rest h = h n _ refl

  rounds_total :
      (flags : SplitFlags) (max_splits fuel : ℕ) (parts : List Bytes) (s : Bytes)
      → suc (length s) < fuel
      → Returns (rounds fuel flags max_splits (a ∷ sep) parts s)
  unfolding rounds
  rounds_total flags max_splits zero parts s h = absurd (omega arith)
  rounds_total flags max_splits (suc fuel) parts s h =
      start_total flags fuel s _ (omega arith) λ s' k.
        cut_total flags parts s' (find_next max_splits (a ∷ sep) parts s') _ λ n qs g.
          rounds_total flags max_splits fuel qs _ (
            omega (
              arith,
              find-length (a ∷ sep) s' n (find_next_lem max_splits parts s' n g),
              length-drop (n + suc (length sep)) s',
            ))

  -- By a separator that is not empty `split` returns parts, whatever the flags and the limit, within
  -- two rounds more than the text has characters.
  pub split_total :
      (flags : SplitFlags) (max_splits fuel : ℕ) (str : Bytes)
      → suc (length str) < fuel
      → Returns (split fuel str (a ∷ sep) flags max_splits)
  unfolding split
  split_total flags max_splits fuel str h = rounds_total flags max_splits fuel [] str h
