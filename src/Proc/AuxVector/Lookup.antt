-- ===== src/Proc/AuxVector/Lookup.antt =====
-- A lookup in the vector and one in the map made of it.
use libcosmos.Prelude.{
  ℕ, ◌≡◌, ◌≢◌, ==_iff, refl, sym, ◌∙◌, ap, arith, Bool, true, false, List, [], ◌∷◌, Option, none,
  some, ◌==◌, Bool-cases, inl, inr, if◌then◌else◌,
}
use libcosmos.Proc.AuxVector.{
  RawEntry, Data, Table, is_null, iterate, collect, insert, make_data, lookup_value, as_map,
}

-- `std::map::find`.
pub find : ℕ → Table → Option Data
find key [] = none
find key ((k, x) ∷ m) = let rest = find key m in if k == key then some x else rest

or_else : Option Data → Option Data → Option Data
or_else none o = o
or_else (some x) o = some x

or_else-none : (o : Option Data) → or_else o none ≡ o
unfolding or_else
or_else-none none = refl
or_else-none (some x) = refl

given : Bool → Data → Option Data
given b d = if b then some d else none

or_else-given :
    (a c : Option Data) (b : Bool) (d : Data)
    → or_else (or_else a (given b d)) c ≡ or_else a (if b then some d else c)
unfolding or_else given
or_else-given none c true d = refl
or_else-given none c false d = refl
or_else-given (some x) c b d = refl

moved : (k key t : ℕ) → (k == key) ≡ true → (k == t) ≡ false → (key == t) ≡ false
moved k key t e b = ground (arith, e, b)

find-insert :
    (t key : ℕ) (d : Data) (m : Table)
    → find t (insert key d m) ≡ or_else (find t m) (given (key == t) d)
unfolding find insert or_else given
find-insert t key d [] = refl
find-insert t key d ((k, x) ∷ m) = elim (Bool-cases (k == t)) [
  | inl a ↦ elim (Bool-cases (k == key)) [ inl e ↦ rw (e, a) refl | inr e ↦ rw (e, a) refl ]
  | inr b ↦ elim (Bool-cases (k == key)) [
    | inl e ↦ rw (e, b, moved k key t e b) (sym (or_else-none (find t m)))
    | inr e ↦ rw (e, b) (find-insert t key d m)
  ]
]

find-collected :
    (t : ℕ) (view : List RawEntry) (m : Table)
    → find t (iterate collect view m) ≡ or_else (find t m) (lookup_value view t)
unfolding lookup_value iterate
find-collected t [] m = sym (or_else-none (find t m))
find-collected t (e ∷ view) m =
    let d = make_data e in
    let after : Option Data = lookup_value view t in
    let step =
      find-collected t view (insert e.type_of d m)
      ∙ ap (λ a. or_else a after) (find-insert t e.type_of d m)
      ∙ or_else-given (find t m) after (e.type_of == t) d in
    let chosen : (b : Bool)
        → (e.type_of == t) ≡ b
        → or_else (find t m) (if e.type_of == t then some d else after)
          ≡ or_else (find t m) (if b then some d else after) =
      λ b s. ap (λ b. or_else (find t m) (if b then some d else after)) s in
    elim (Bool-cases (e.type_of == 0)) [
      | inl z ↦ rw z (sym (or_else-none (find t m)))
      | inr nz ↦ elim (Bool-cases (e.type_of == t)) [
        | inl s ↦ rw (nz, s) (step ∙ chosen true s)
        | inr s ↦ rw (nz, s) (step ∙ chosen false s)
      ]
    ]

map_lookup : (t : ℕ) (view : List RawEntry) → find t (as_map view) ≡ lookup_value view t
unfolding as_map find lookup_value or_else
map_lookup t view = find-collected t view []

-- The first entry of a type in front of the terminator, if there is one.
pub data First (t : ℕ) : List RawEntry → Option RawEntry → Type 0 where
  at_end : First t [] none
  terminated : {e : RawEntry} {view : List RawEntry} → e.type_of ≡ 0 → First t (e ∷ view) none
  here :
      {e : RawEntry} {view : List RawEntry}
      → e.type_of ≢ 0
      → e.type_of ≡ t
      → First t (e ∷ view) (some e)
  later :
      {e : RawEntry} {view : List RawEntry} {o : Option RawEntry}
      → e.type_of ≢ 0
      → e.type_of ≢ t
      → First t view o
      → First t (e ∷ view) o

abbrev pub data_of : Option RawEntry → Option Data
data_of none = none
data_of (some e) = some (make_data e)

lookup-First :
    (t : ℕ) (view : List RawEntry)
    → (o : Option RawEntry) × First t view o × (lookup_value view t ≡ data_of o)
unfolding lookup_value iterate is_null make_data
lookup-First t [] = (none, at_end, refl)
lookup-First t (e ∷ view) = elim (Bool-cases (e.type_of == 0)) [
  | inl z ↦ (none, terminated ((==_iff e.type_of 0).0 z), rw z refl)
  | inr nz ↦ elim (Bool-cases (e.type_of == t)) [
    | inl s ↦ (some e, here (ground (arith, nz)) ((==_iff e.type_of t).0 s), rw (nz, s) refl)
    | inr s ↦
        let (o, first, found) = lookup-First t view in
        (o, later (ground (arith, nz)) (ground (arith, s)) first, rw (nz, s) found)
  ]
]

-- A lookup in the vector and one in the map made of it both give the data of the first entry of the
-- type in front of the terminator, and nothing if there is no such entry.
pub find-as_map :
    (t : ℕ) (view : List RawEntry)
    → (o : Option RawEntry) × First t view o
      × (lookup_value view t ≡ data_of o)
      × (find t (as_map view) ≡ data_of o)
find-as_map t view =
    let (o, first, found) = lookup-First t view in (o, first, found, map_lookup t view ∙ found)
