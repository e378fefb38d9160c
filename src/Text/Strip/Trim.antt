-- ===== src/Text/Strip/Trim.antt =====
-- What `strip` removes, and what it leaves.
use mathlib.Core.List.{reverse, reverse-append, reverse-cons, reverse-reverse}
use libcosmos.Prelude.{
  ◌≡◌, refl, sym, ap, ◌∙◌, subst, true, false, [], ◌∷◌, ◌++◌, append_assoc, All, All-append, inl,
  inr, Bool-cases,
}
use libcosmos.Outcome.{Bytes}
use libcosmos.Text.Strip.{stripit, strip_front, strip}

-- All characters are to be stripped.
abbrev pub Stripped : Bytes → Bytes → Type 0
Stripped strip_set = All (λ c. stripit strip_set c ≡ true)

-- The first character, if there is one, is not to be stripped.
abbrev pub FirstStays : Bytes → Bytes → Type 0
FirstStays strip_set [] = Unit {0}
FirstStays strip_set (c ∷ s) = stripit strip_set c ≡ false

module _ (strip_set : Bytes) where
  strip_front_lem :
      (s : Bytes)
      → (front : Bytes) × (s ≡ front ++ strip_front strip_set s)
        × Stripped strip_set front
        × FirstStays strip_set (strip_front strip_set s)
  unfolding strip_front
  strip_front_lem [] = ([], refl, tt, tt)
  strip_front_lem (c ∷ s) = elim (Bool-cases (stripit strip_set c)) [
    | inl gone ↦
        let (front, e, a, f) = strip_front_lem s in
        rw gone (c ∷ front, ap (λ t. c ∷ t) e, (gone, a), f)
    | inr stays ↦ rw stays ([], refl, tt, stays)
  ]

  Stripped-reverse : (s : Bytes) → Stripped strip_set s → Stripped strip_set (reverse s)
  Stripped-reverse [] h = tt
  Stripped-reverse (c ∷ s) h =
      rw (reverse-cons c s) (All-append _ (reverse s) (c ∷ []) (Stripped-reverse s h.1) (h.0, tt))

  FirstStays-append : (s t : Bytes) → FirstStays strip_set (s ++ t) → FirstStays strip_set s
  FirstStays-append [] t h = tt
  FirstStays-append (c ∷ s) t h = h

  -- `strip` removes characters that are to be stripped from the front and from the back, and
  -- nothing else; neither the first nor the last character that it leaves is to be stripped.
  pub strip_lem :
      (s : Bytes)
      → (front : Bytes) × (back : Bytes) × (s ≡ front ++ strip s strip_set ++ back)
        × Stripped strip_set front
        × Stripped strip_set back
        × FirstStays strip_set (strip s strip_set)
        × FirstStays strip_set (reverse (strip s strip_set))
  unfolding strip
  strip_lem s =
      let (front, e, a, f) = strip_front_lem s in
      let kept = strip_front strip_set s in
      let (back, d, b, g) = strip_front_lem (reverse kept) in
      let inner = strip_front strip_set (reverse kept) in
      let split : kept ≡ reverse inner ++ reverse back =
        sym (reverse-reverse kept) ∙ ap reverse d ∙ reverse-append back inner in
      (
        front,
        reverse back,
        e ∙ ap (λ t. front ++ t) split ∙ sym (append_assoc front _ _),
        a,
        Stripped-reverse back b,
        FirstStays-append (reverse inner) (reverse back) (subst (FirstStays strip_set) split f),
        subst (FirstStays strip_set) (sym (reverse-reverse inner)) g,
      )
