-- ===== src/Text/Split/Join.antt =====
-- `split` that keeps the empty parts is undone by joining; `split` ends, unless the separator is
-- empty, and observes the limit on the number of parts.
use libcosmos.Prelude.{
  ℕ, zero, suc, ◌+◌, ◌<◌, ◌≡◌, refl, sym, ap, ◌∙◌, true, false, Option, none, some, List, [], ◌∷◌,
  ◌++◌, append_assoc, append-nil, length, take, drop, length-drop, arith,
}
use libcosmos.Outcome.{Bytes, Outcome, ok}
use libcosmos.Text.Split.{SplitFlags, find, token, push, find_next, cut, rounds, split}
use libcosmos.Text.Split.Find.{find_lem, find-length}

-- The parts with the separator in front of each.
abbrev tails : Bytes → List Bytes → Bytes
tails sep [] = []
tails sep (p ∷ ps) = sep ++ (p ++ tails sep ps)

-- The parts with the separator between them.
abbrev pub join : Bytes → List Bytes → Bytes
join sep [] = []
join sep (p ∷ ps) = p ++ tails sep ps

abbrev pub keep_all : SplitFlags
keep_all = record { strip_parts = false; keep_empty = true }

module _ (a : ℕ) (sep : Bytes) where
  -- A result of the rounds behind `parts`, for the text `s`.
  abbrev Joined : List Bytes → Bytes → Outcome (List Bytes) → Type 0
  Joined parts s r =
      (p : Bytes) × (ps : List Bytes) × (r ≡ ok (parts ++ p ∷ ps)) × (s ≡ p ++ tails (a ∷ sep) ps)

  push_keep : (parts : List Bytes) (t : Bytes) → push keep_all parts t ≡ parts ++ t ∷ []
  unfolding push
  push_keep parts [] = refl
  push_keep parts (c ∷ t) = refl

  token_keep : (s : Bytes) (n : ℕ) → token keep_all s (some n) ≡ take n s
  unfolding token
  token_keep s zero = refl
  token_keep s (suc n) = refl

  cut-Joined :
      (parts : List Bytes) (s : Bytes) (o : Option ℕ)
      (rest : List Bytes → Bytes → Outcome (List Bytes))
      → ((n : ℕ) → o ≡ some n → s ≡ take n s ++ ((a ∷ sep) ++ drop (n + suc (length sep)) s))
      → ((n : ℕ)
          → o ≡ some n
          → Joined
              (parts ++ take n s ∷ [])
              (drop (n + suc (length sep)) s)
              (rest (parts ++ take n s ∷ []) (drop (n + suc (length sep)) s)))
      → Joined parts s (cut keep_all (a ∷ sep) parts s o rest)
  unfolding cut token
  cut-Joined parts s none rest found ih =
      (s, [], ap (λ ps. ok ps) (push_keep parts s), sym (append-nil s))
  cut-Joined parts s (some n) rest found ih =
      let (p, ps, e, d) = ih n refl in
      (
        take n s,
        p ∷ ps,
        rw (token_keep s n, push_keep parts (take n s))
            (e ∙ ap (λ qs. ok qs) (append_assoc parts _ _)),
        found n refl ∙ ap (λ t. take n s ++ ((a ∷ sep) ++ t)) d,
      )

  rounds-Joined :
      (fuel : ℕ) (parts : List Bytes) (s : Bytes)
      → length s < fuel
      → Joined parts s (rounds fuel keep_all 0 (a ∷ sep) parts s)
  unfolding rounds find_next
  rounds-Joined zero parts s h = absurd (omega arith)
  rounds-Joined (suc fuel) parts s h =
      cut-Joined parts s (find (a ∷ sep) s) _ (find_lem (a ∷ sep) s) λ n e.
        rounds-Joined fuel _ _
          (omega (arith, find-length (a ∷ sep) s n e, length-drop (n + suc (length sep)) s))

  -- With `KEEP_EMPTY` and no limit, `split` by a separator that is not empty ends, and its parts
  -- joined by the separator are the text again.
  pub join-split :
      (fuel : ℕ) (str : Bytes)
      → length str < fuel
      → (parts : List Bytes) × (split fuel str (a ∷ sep) keep_all 0 ≡ ok parts)
        × (join (a ∷ sep) parts ≡ str)
  unfolding split
  join-split fuel str h = let (p, ps, e, d) = rounds-Joined fuel [] str h in (p ∷ ps, e, sym d)
