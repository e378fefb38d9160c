-- ===== src/Text/Split/Limits.antt =====
-- The limit on the number of splits, and the separator that `split` does not end with.
use libcosmos.Prelude.{
  ℕ, zero, suc, ◌+◌, ◌≤◌, ◌≡◌, refl, Bool, false, Option, none, some, List, [], ◌∷◌, length,
  length-append, arith,
}
use libcosmos.Outcome.{Bytes, Outcome, ok, throw, spins}
use libcosmos.Text.Split.{
  SplitFlags, is_prefix, skip, token, push, find_next, cut, from_start, rounds, split,
}

-- A result, if there is one, has at most `n` parts.
abbrev pub AtMost : ℕ → Outcome (List Bytes) → Type 0
AtMost n (ok parts) = length parts ≤ n
AtMost n (throw x) = Unit {0}
AtMost n spins = Unit {0}

length-push :
    (flags : SplitFlags) (parts : List Bytes) (t : Bytes)
    → length (push flags parts t) ≤ length parts + 1
unfolding push
length-push flags parts t = ground (arith, length-append parts (t ∷ []))

module _ (flags : SplitFlags) (m : ℕ) (sep : Bytes) where
  cut-AtMost :
      (parts : List Bytes) (s : Bytes) (o : Option ℕ)
      (rest : List Bytes → Bytes → Outcome (List Bytes))
      → length parts ≤ suc m
      → ((length parts ≡ suc m) → o ≡ none)
      → ((qs : List Bytes) (t : Bytes) → length qs ≤ suc m → AtMost (suc (suc m)) (rest qs t))
      → AtMost (suc (suc m)) (cut flags sep parts s o rest)
  unfolding cut
  cut-AtMost parts s none rest h full ih =
      omega (arith, length-push flags parts (token flags s none))
  cut-AtMost parts s (some n) rest h full ih =
      ih _ _ (grind (arith, length-push flags parts (token flags s (some n))))

  from_start-AtMost :
      (r : Outcome Bytes) (f : Bytes → Outcome (List Bytes))
      → ((s : Bytes) → AtMost (suc (suc m)) (f s))
      → AtMost (suc (suc m)) (from_start r f)
  from_start-AtMost (ok s) f h = h s
  from_start-AtMost (throw x) f h = tt
  from_start-AtMost spins f h = tt

  rounds-AtMost :
      (fuel : ℕ) (parts : List Bytes) (s : Bytes)
      → length parts ≤ suc m
      → AtMost (suc (suc m)) (rounds fuel flags (suc m) sep parts s)
  unfolding rounds find_next
  rounds-AtMost zero parts s h = tt
  rounds-AtMost (suc fuel) parts s h = from_start-AtMost _ _ λ s'.
      cut-AtMost parts s' (find_next (suc m) sep parts s') _ h (λ e. ground arith)
        λ qs t g. rounds-AtMost fuel qs t g

  -- With a limit of one or more splits, `split` returns at most one part more than the limit,
  -- whatever the flags and the separator.
  pub split-AtMost :
      (fuel : ℕ) (str : Bytes) → AtMost (suc (suc m)) (split fuel str sep flags (suc m))
  unfolding split
  split-AtMost fuel str = rounds-AtMost fuel [] str (omega arith)

skip_empty : (fuel : ℕ) (s : Bytes) → skip fuel [] s ≡ spins
unfolding skip is_prefix
skip_empty zero s = refl
skip_empty (suc fuel) s = skip_empty fuel s

-- By an empty separator `split` without `KEEP_EMPTY` does not end: it uses up any fuel, whatever
-- the text and the limit.
pub split_empty_separator :
    (fuel : ℕ) (str : Bytes) (strip_parts : Bool) (max_splits : ℕ)
    → split fuel str [] (record { strip_parts = strip_parts; keep_empty = false }) max_splits
      ≡ spins
unfolding split rounds
split_empty_separator zero str strip_parts max_splits = refl
split_empty_separator (suc fuel) str strip_parts max_splits = rw (skip_empty fuel str)
