-- ===== src/Runtime/Init/Registry.antt =====
-- The registry stays ordered by priority, with no priority taken twice.
use libcosmos.Prelude.{
  ℕ, suc, ◌<◌, ◌≤◌, ◌≡◌, refl, List, [], ◌∷◌, Option, none, some, arith, ◌⊎◌, inl, inr, Bool-cases,
  ltb, ◌==◌,
}
use libcosmos.Runtime.Init.{Initable, State, registered, insert, register_initable}

-- Rising priorities, all above `n` or equal to it.
abbrev pub Rising : ℕ → List Initable → Type 0
Rising n [] = Unit {0}
Rising n (x ∷ xs) = (n ≤ x.prio) × Rising (suc x.prio) xs

-- The priority is one of those in the list.
abbrev pub Taken : ℕ → List Initable → Type 0
Taken p [] = ⊥
Taken p (x ∷ xs) = (p ≡ x.prio) ⊎ Taken p xs

-- What an insertion gives: a taken priority is refused, any other keeps the order.
abbrev pub Inserted : ℕ → ℕ → List Initable → Option (List Initable) → Type 0
Inserted n p xs none = Taken p xs
Inserted n p xs (some ys) =
    Rising n ys × (Taken p xs → ⊥) × Taken p ys × ((q : ℕ) → Taken q xs → Taken q ys)

above_Taken : (p n : ℕ) (xs : List Initable) → Rising n xs → p < n → Taken p xs → ⊥
above_Taken p n [] r h t = t
above_Taken p n (x ∷ xs) r h (inl e) = omega arith
above_Taken p n (x ∷ xs) r h (inr t) = above_Taken p (suc x.prio) xs r.1 (omega arith) t

module _ (n p : ℕ) (y : Initable) (ys : List Initable) where
  Inserted-cons :
      (o : Option (List Initable))
      → n ≤ y.prio
      → y.prio < p
      → Inserted (suc y.prio) p ys o
      → Inserted n p (y ∷ ys) (elim o [ none ↦ none | some zs ↦ some (y ∷ zs) ])
  Inserted-cons none h l t = inr t
  Inserted-cons (some zs) h l (r, f, t, k) = (
    (h, r),
    λ u. elim u [ inl e ↦ omega arith | inr v ↦ f v ],
    inr t,
    λ q u. elim u [ inl e ↦ inl e | inr v ↦ inr (k q v) ],
  )

insert-Inserted :
    (n : ℕ) (x : Initable) (xs : List Initable)
    → n ≤ x.prio
    → Rising n xs
    → Inserted n x.prio xs (insert x xs)
unfolding insert
insert-Inserted n x [] h r = ((h, tt), (λ t. t), inl refl, λ q t. absurd t)
insert-Inserted n x (y ∷ ys) h r = elim (Bool-cases (ltb x.prio y.prio)) [
  | inl less ↦ rw less (
    (h, (ground arith, r.1)),
    above_Taken x.prio (suc x.prio) (y ∷ ys) (ground arith, r.1) (omega arith),
    inl refl,
    λ q t. inr t,
  )
  | inr more ↦ rw more (elim (Bool-cases (x.prio == y.prio)) [
    | inl same ↦ rw same (inl (ground arith))
    | inr differ ↦ rw differ (
        Inserted-cons n x.prio y ys (insert x ys) r.0 (ground arith)
          (insert-Inserted (suc y.prio) x ys (ground arith) r.1))
  ])
]

-- What a registration makes of a state.
abbrev pub Registered : ℕ → State → Option State → Type 0
Registered p s none = Taken p (registered s.init_data)
Registered p s (some t) =
    Inserted 0 p (registered s.init_data) t.init_data
    × (t.init_counter ≡ s.init_counter)
    × (t.calls ≡ s.calls)

-- Registering a priority in an ordered registry either is refused, if and only if the priority is
-- taken already, or leaves an ordered registry that holds the old priorities and the new one, with
-- the counter and the calls made so far as they were.
pub register_initable-Registered :
    (p : ℕ) (s : State) → Rising 0 (registered s.init_data) → Registered p s (register_initable p s)
unfolding register_initable
register_initable-Registered p s r =
    wrap (insert _ (registered s.init_data))
      (insert-Inserted 0 _ (registered s.init_data) (omega arith) r)
  where
    wrap :
        (o : Option (List Initable))
        → Inserted 0 p (registered s.init_data) o
        → Registered p s
            (elim o [ none ↦ none | some xs ↦ some (record s { init_data = some xs }) ])
    wrap none h = h
    wrap (some xs) h = (h, refl, refl)
