-- ===== src/Text/Split/Parts.antt =====
-- `split` with no flags: what the parts are.
use libcosmos.Prelude.{
  ℕ, zero, suc, ◌+◌, ◌<◌, ◌≤◌, ◌≡◌, ◌≢◌, refl, sym, ap, ◌∙◌, false, Option, none, some, List, [],
  ◌∷◌, ◌++◌, append_assoc, append-nil, length, take, drop, length-drop, arith, Bool-cases, inl, inr,
}
use libcosmos.Outcome.{Bytes, Outcome, ok}
use libcosmos.Text.Split.{
  SplitFlags, is_prefix, find, skip, token, push, find_next, cut, from_start, rounds, split,
}
use libcosmos.Text.Split.Find.{is_prefix_lem, is_prefix-length, find_lem, find-length, find-take}

abbrev pub no_flags : SplitFlags
no_flags = record { strip_parts = false; keep_empty = false }

-- A text cut into parts: it is a sequence of separators and of parts, where a part is not empty,
-- holds no separator and ends before a separator or with the text.
pub data Cuts (sep : Bytes) : Bytes → List Bytes → Type 0 where
  done : Cuts sep [] []
  separator : {s t : Bytes} {ps : List Bytes} → t ≡ sep ++ s → Cuts sep s ps → Cuts sep t ps
  part :
      {p s t : Bytes} {ps : List Bytes}
      → p ≢ []
      → find sep p ≡ none
      → t ≡ p ++ (sep ++ s)
      → Cuts sep s ps
      → Cuts sep t (p ∷ ps)
  last : {p : Bytes} → p ≢ [] → find sep p ≡ none → Cuts sep p (p ∷ [])

module _ (a : ℕ) (sep : Bytes) where
  abbrev CutsAll : List Bytes → Bytes → Outcome (List Bytes) → Type 0
  CutsAll parts s r = (ps : List Bytes) × (r ≡ ok (parts ++ ps)) × Cuts (a ∷ sep) s ps

  -- The inner loop skips separators.
  skip_lem :
      (fuel : ℕ) (s : Bytes)
      → length s < fuel
      → (s' : Bytes) × (skip fuel (a ∷ sep) s ≡ ok s')
        × (length s' ≤ length s)
        × (is_prefix (a ∷ sep) s' ≡ false)
        × ((ps : List Bytes) → Cuts (a ∷ sep) s' ps → Cuts (a ∷ sep) s ps)
  unfolding skip
  skip_lem zero s h = absurd (omega arith)
  skip_lem (suc fuel) s h = elim (Bool-cases (is_prefix (a ∷ sep) s)) [
    | inl more ↦
        let l = is_prefix-length (a ∷ sep) s more in
        let d = length-drop (suc (length sep)) s in
        let (s', e, k, f, c) = skip_lem fuel (drop (suc (length sep)) s) (omega arith) in
        (s', rw more e, omega arith, f, λ ps x. separator (is_prefix_lem (a ∷ sep) s more) (c ps x))
    | inr end ↦ (s, rw end, omega arith, end, λ ps x. x)
  ]

  cut-CutsAll :
      (parts : List Bytes) (s : Bytes) (o : Option ℕ)
      (rest : List Bytes → Bytes → Outcome (List Bytes))
      → is_prefix (a ∷ sep) s ≡ false
      → find (a ∷ sep) s ≡ o
      → ((n : ℕ) (qs : List Bytes)
          → find (a ∷ sep) s ≡ some n
          → CutsAll qs (drop (n + suc (length sep)) s) (rest qs (drop (n + suc (length sep)) s)))
      → CutsAll parts s (cut no_flags (a ∷ sep) parts s o rest)
  unfolding cut token push find
  cut-CutsAll parts [] none rest f e ih = ([], ap (λ ps. ok ps) (sym (append-nil parts)), done)
  cut-CutsAll parts (c ∷ s) none rest f e ih = ((c ∷ s) ∷ [], refl, last (cc) e)
  cut-CutsAll parts [] (some n) rest f e ih = ground arith
  cut-CutsAll parts (c ∷ s) (some zero) rest f e ih = ground arith
  cut-CutsAll parts (c ∷ s) (some (suc n)) rest f e ih =
      let t = take (suc n) (c ∷ s) in
      let (ps, r, x) = ih (suc n) (parts ++ t ∷ []) e in
      (
        t ∷ ps,
        r ∙ ap (λ qs. ok qs) (append_assoc parts (t ∷ []) ps),
        part (cc) (find-take a sep (c ∷ s) (suc n) e) (find_lem (a ∷ sep) (c ∷ s) (suc n) e) x,
      )

  from_start-CutsAll :
      (parts : List Bytes) (s s' : Bytes) (r : Outcome Bytes) (f : Bytes → Outcome (List Bytes))
      → r ≡ ok s'
      → ((ps : List Bytes) → Cuts (a ∷ sep) s' ps → Cuts (a ∷ sep) s ps)
      → CutsAll parts s' (f s')
      → CutsAll parts s (from_start r f)
  from_start-CutsAll parts s s' r f e c (ps, q, x) = (ps, rw e q, c ps x)

  rounds-CutsAll :
      (fuel : ℕ) (parts : List Bytes) (s : Bytes)
      → suc (length s) < fuel
      → CutsAll parts s (rounds fuel no_flags 0 (a ∷ sep) parts s)
  unfolding rounds find_next
  rounds-CutsAll zero parts s h = absurd (omega arith)
  rounds-CutsAll (suc fuel) parts s h =
      let (s', e, k, f, c) = skip_lem fuel s (omega arith) in
      from_start-CutsAll parts s s' _ _ e c (
        cut-CutsAll parts s' (find (a ∷ sep) s') _ f refl λ n qs g.
          rounds-CutsAll fuel qs _
            (omega (arith, find-length (a ∷ sep) s' n g, length-drop (n + suc (length sep)) s')))

  -- With no flags and no limit, `split` by a separator that is not empty ends. Its parts are in
  -- order what is left of the text between separators: none is empty or holds a separator, and the
  -- parts and the separators skipped spell the text.
  pub split-Cuts :
      (fuel : ℕ) (str : Bytes)
      → suc (length str) < fuel
      → (parts : List Bytes) × (split fuel str (a ∷ sep) no_flags 0 ≡ ok parts)
        × Cuts (a ∷ sep) str parts
  unfolding split
  split-Cuts fuel str h = rounds-CutsAll fuel [] str h
