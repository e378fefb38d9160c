-- ===== src/SizedArray/Stack.antt =====
-- A `SizedArray` as a list of limited length.
use libcosmos.Prelude.{
  ℕ, zero, suc, ◌-◌, ◌≤◌, ◌<◌, ◌≡◌, refl, sym, ap, ◌∙◌, arith, List, [], ◌∷◌, ◌++◌, Option, none,
  some, ◌==◌, leb, length, get_elem?, take, length-take, Bool-cases, inl, inr, if◌then◌else◌,
}
use libcosmos.SizedArray.{
  Result, value, fails, out_of_range, bad_alloc, runtime_error, set_elem, SizedArray, clear,
  max_size, or_range, at, push_back, pop_back,
}

pub data Op (A : Type 0) : Type 0 where
  push : A → Op A
  pop : Op A
  reset : Op A
  look : ℕ → Op A

module _ {A : Type 0} where
  -- The elements in use.
  abbrev pub view : SizedArray A → List A
  view s = take s.used s.array

  abbrev pub Valid : ℕ → SizedArray A → Type 0
  Valid n s = (length s.array ≡ n) × (s.used ≤ n)

  length-set_elem : (i : ℕ) (t : A) (xs : List A) → length (set_elem i t xs) ≡ length xs
  unfolding set_elem
  length-set_elem zero t [] = refl
  length-set_elem (suc i) t [] = refl
  length-set_elem zero t (x ∷ xs) = refl
  length-set_elem (suc i) t (x ∷ xs) = ap suc (length-set_elem i t xs)

  take-set_elem :
      (i : ℕ) (t : A) (xs : List A)
      → i < length xs
      → take (suc i) (set_elem i t xs) ≡ take i xs ++ t ∷ []
  unfolding set_elem
  take-set_elem zero t [] h = absurd (omega (arith, h))
  take-set_elem (suc i) t [] h = absurd (omega (arith, h))
  take-set_elem zero t (x ∷ xs) h = refl
  take-set_elem (suc i) t (x ∷ xs) h = ap (λ ys. x ∷ ys) (take-set_elem i t xs (omega (arith, h)))

  take-take : (i j : ℕ) (xs : List A) → i ≤ j → take i (take j xs) ≡ take i xs
  take-take zero j xs h = refl
  take-take (suc i) zero xs h = absurd (omega (arith, h))
  take-take (suc i) (suc j) [] h = refl
  take-take (suc i) (suc j) (x ∷ xs) h = ap (λ ys. x ∷ ys) (take-take i j xs (omega (arith, h)))

  get_elem?-take : (i j : ℕ) (xs : List A) → i < j → get_elem? (take j xs) i ≡ get_elem? xs i
  get_elem?-take i zero xs h = absurd (omega (arith, h))
  get_elem?-take zero (suc j) [] h = refl
  get_elem?-take (suc i) (suc j) [] h = refl
  get_elem?-take zero (suc j) (x ∷ xs) h = refl
  get_elem?-take (suc i) (suc j) (x ∷ xs) h = get_elem?-take i j xs (omega (arith, h))

  -- What an operation answers: an element, for `look`, or nothing.
  abbrev quiet : Result (Unit {0}) → Result (Option A)
  quiet (value _) = value none
  quiet (fails x) = fails x

  abbrev seen : Result A → Result (Option A)
  seen (value x) = value (some x)
  seen (fails x) = fails x

  unfoldable pub step : Op A → SizedArray A → Result (Option A) × SizedArray A
  unfolding push_back pop_back clear at
  step (push t) s = (quiet (push_back t s).0, (push_back t s).1)
  step pop s = (quiet (pop_back s).0, (pop_back s).1)
  step reset s = (value none, clear s)
  step (look i) s = (seen (at i s), s)

  -- The same on a list of at most `n` elements.
  unfoldable pub list_step : ℕ → Op A → List A → Result (Option A) × List A
  list_step n (push t) xs =
      if length xs == n then (fails bad_alloc, xs) else (value none, xs ++ t ∷ [])
  list_step n pop xs =
      if length xs == 0
      then (fails (runtime_error "pop on empty array"), xs)
      else (value none, take (length xs - 1) xs)
  list_step n reset xs = (value none, [])
  list_step n (look i) xs =
      if leb (length xs) i
      then (fails (out_of_range "access beyond used elements"), xs)
      else (seen (or_range (get_elem? xs i)), xs)

  length-view : (n : ℕ) (s : SizedArray A) → Valid n s → length (view s) ≡ s.used
  length-view n s h = omega (arith, length-take s.used s.array, h.0, h.1)

  -- An operation does to the array what it does to the list.
  abbrev Simulates : ℕ → Op A → SizedArray A → Type 0
  Simulates n op s =
      ((step op s).0 ≡ (list_step n op (view s)).0)
      × (view (step op s).1 ≡ (list_step n op (view s)).1)
      × Valid n (step op s).1

  step-Simulates : (n : ℕ) (op : Op A) (s : SizedArray A) → Valid n s → Simulates n op s
  unfolding step list_step push_back pop_back clear at max_size
  step-Simulates n (push t) s h = elim (Bool-cases (s.used == n)) [
    | inl full ↦ rw (length-view n s h, h.0, full) (refl, refl, h)
    | inr free ↦
        rw (length-view n s h, h.0, free)
          (
            refl,
            take-set_elem s.used t s.array (ground (arith, free, h.0, h.1)),
            (length-set_elem s.used t s.array ∙ h.0, ground (arith, free, h.1)),
          )
  ]
  step-Simulates n pop s h = elim (Bool-cases (s.used == 0)) [
    | inl none_left ↦ rw (length-view n s h, none_left) (refl, refl, h)
    | inr some_left ↦
        rw (length-view n s h, some_left)
          (
            refl,
            sym (take-take (s.used - 1) s.used s.array (omega arith)),
            (h.0, omega (arith, h.1)),
          )
  ]
  step-Simulates n reset s h = (refl, refl, (h.0, omega arith))
  step-Simulates n (look i) s h = elim (Bool-cases (leb s.used i)) [
    | inl beyond ↦ rw (length-view n s h, beyond) (refl, refl, h)
    | inr inside ↦
        rw (length-view n s h, inside)
          (
            ap (λ o. seen (or_range o))
                (sym (get_elem?-take i s.used s.array (ground (arith, inside)))),
            refl,
            h,
          )
  ]

  unfoldable pub run : List (Op A) → SizedArray A → List (Result (Option A))
  unfolding step
  run [] s = []
  run (op ∷ ops) s = (step op s).0 ∷ run ops (step op s).1

  unfoldable pub list_run : ℕ → List (Op A) → List A → List (Result (Option A))
  unfolding list_step
  list_run n [] xs = []
  list_run n (op ∷ ops) xs = (list_step n op xs).0 ∷ list_run n ops (list_step n op xs).1

  -- Whatever is pushed, popped, cleared and looked up, in any order: the array of `n` elements
  -- answers what a list of the elements in use would, which holds at most `n`. A push on a full array
  -- throws `bad_alloc`, a pop on an empty one a `runtime_error`, and an index that is not in use is
  -- out of range.
  pub run-list_run :
      (n : ℕ) (ops : List (Op A)) (s : SizedArray A)
      → Valid n s
      → run ops s ≡ list_run n ops (view s)
  unfolding run list_run
  run-list_run n [] s h = refl
  run-list_run n (op ∷ ops) s h =
      let (answer, after, valid) = step-Simulates n op s h in
      ap (λ r. r ∷ run ops (step op s).1) answer
      ∙ ap (λ rs. (list_step n op (view s)).0 ∷ rs) (run-list_run n ops (step op s).1 valid)
      ∙ ap (λ xs. (list_step n op (view s)).0 ∷ list_run n ops xs) after
