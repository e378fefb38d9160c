-- ===== src/Fs/TempPath/Template.antt =====
-- What mkostemps(3) gets.
use libcosmos.Prelude.{
  ℕ, ◌≡◌, refl, ap, sym, ◌∙◌, true, [], ◌∷◌, ◌++◌, append_assoc, append-nil, ◌⊎◌, inl, inr, Option,
  none, some, ◌==◌, ==_iff, is_empty, length, arith, Bool-cases,
}
use libcosmos.Outcome.{Bytes, Outcome, ok, throw, spins}
use libcosmos.Text.Split.{is_prefix}
use libcosmos.Text.Split.Find.{is_prefix_lem}
use libcosmos.Fs.Path.Stack.{NoSlash}
use libcosmos.Fs.TempPath.{
  xs, placeholder, split_path, grow_path, find_placeholder, grow_base, expand_base,
  expand_temp_path,
}

abbrev Joined : Bytes → Bytes × Bytes → Type 0
Joined s (path, base) =
    (path ++ base ≡ s) × NoSlash base × ((path ≡ []) ⊎ ((d : Bytes) × (path ≡ d ++ b'/' ∷ [])))

split_path-Joined : (s : Bytes) → Joined s (split_path s)
unfolding split_path
split_path-Joined [] = (refl, tt, inl refl)
split_path-Joined (c ∷ s) = grown c s (split_path s) (split_path-Joined s)
  where
    grown : (c : ℕ) (s : Bytes) (r : Bytes × Bytes) → Joined s r → Joined (c ∷ s) (grow_path c r)
    grown c s ([], base) (e, n, h) = elim (Bool-cases (c == b'/')) [
      | inl slash ↦
          rw slash (ap (λ t. c ∷ t) e, n, inr ([], ap (λ x. x ∷ []) ((==_iff c b'/').0 slash)))
      | inr other ↦ rw other (ap (λ t. c ∷ t) e, (other, n), inl refl)
    ]
    grown c s (d ∷ path, base) (e, n, inl h) = ground arith
    grown c s (d ∷ path, base) (e, n, inr (p, h)) =
        (ap (λ t. c ∷ t) e, n, inr (c ∷ p, ap (λ t. c ∷ t) h))

abbrev Found : Bytes → Option (Bytes × Bytes) → Type 0
Found s none = Unit
Found s (some (before, behind)) = before ++ (placeholder ++ behind) ≡ s

find_placeholder-Found : (s : Bytes) → Found s (find_placeholder s)
unfolding find_placeholder
find_placeholder-Found [] = tt
find_placeholder-Found (c ∷ s) = grown c s (find_placeholder s) (find_placeholder-Found s)
  where
    grown :
        (c : ℕ) (s : Bytes) (r : Option (Bytes × Bytes))
        → Found s r
        → Found (c ∷ s) (grow_base c s r)
    grown c s (some (before, behind)) e = ap (λ t. c ∷ t) e
    grown c s none e = elim (Bool-cases (is_prefix placeholder (c ∷ s))) [
      | inl here ↦ rw here (sym (is_prefix_lem placeholder (c ∷ s) here))
      | inr no_place ↦ rw no_place tt
    ]

-- The path for mkostemps(3) has six Xs before its last `suffixlen` characters. With the placeholder
-- in their place, or nothing behind the template, it is the template.
abbrev pub Expanded : Bytes → Outcome (Bytes × ℕ) → Type 0
Expanded template (ok (path, suffixlen)) =
    (before : Bytes) × (behind : Bytes) × (path ≡ before ++ (xs ++ behind))
    × (length behind ≡ suffixlen)
    × ((template ≡ before ++ (placeholder ++ behind)) ⊎ ((template ≡ before) × (behind ≡ [])))
Expanded template (throw x) = (template ≡ []) ⊎ ((d : Bytes) × (template ≡ d ++ b'/' ∷ []))
Expanded template spins = ⊥

expand_base-Expanded :
    (template path base : Bytes) (o : Option (Bytes × Bytes))
    → path ++ base ≡ template
    → Found base o
    → Expanded template (ok (expand_base path base o))
unfolding expand_base
expand_base-Expanded template path base none e f =
    (path ++ base, [], sym (append_assoc path base xs), refl, inr (sym e, refl))
expand_base-Expanded template path base (some (before, behind)) e f = (
  path ++ before,
  behind,
  sym (append_assoc path before (xs ++ behind)),
  refl,
  inl (
      sym e
      ∙ (ap (λ t. path ++ t) (sym f) ∙ sym (append_assoc path before (placeholder ++ behind)))),
)

no_base :
    (template path base : Bytes)
    → Joined template (path, base)
    → is_empty base ≡ true
    → (template ≡ []) ⊎ ((d : Bytes) × (template ≡ d ++ b'/' ∷ []))
no_base template path (b ∷ base) j h = ground arith
no_base template path [] (e, n, inl p) h = inl (sym e ∙ (append-nil path ∙ p))
no_base template path [] (e, n, inr (d, p)) h = inr (d, sym e ∙ (append-nil path ∙ p))

-- `expand_temp_path` throws only if the template is empty or ends in a slash. Otherwise it returns
-- the template with six Xs in place of a placeholder `{}`, and the length of what is behind them; or
-- the template with six Xs behind it, and 0.
pub expand_temp_path-Expanded : (template : Bytes) → Expanded template (expand_temp_path template)
unfolding expand_temp_path
expand_temp_path-Expanded template =
    let j = split_path-Joined template in
    elim (Bool-cases (is_empty (split_path template).1)) [
      | inl e ↦ rw e (no_base template (split_path template).0 (split_path template).1 j e)
      | inr e ↦ rw e (
          expand_base-Expanded template (split_path template).0 (split_path template).1 _ j.0
            (find_placeholder-Found (split_path template).1))
    ]
