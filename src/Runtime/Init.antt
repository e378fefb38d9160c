-- ===== src/Runtime/Init.antt =====
-- src/cosmos.cxx: the registry of what has to be initialised, `init` and `finish`. What `libInit` and
-- `libExit` of an entry do is the entry's own; their calls are recorded in the order made.
pub mod Registry
pub mod Nesting
mod Tests
use mathlib.Core.List.{reverse}
use libcosmos.Prelude.{
  ℕ, suc, ◌+◌, ◌-◌, ◌%◌, ◌^◌, Bool, true, false, not, List, [], ◌∷◌, ◌++◌, map, Option, none, some,
  ◌==◌, ltb, if◌then◌else◌,
}

pub record Initable : Type 0 where
  pub prio : ℕ
  pub lib_initialized : Bool

pub data Call : Type 0 where
  lib_init : ℕ → Call
  lib_exit : ℕ → Call

-- `init_counter` has the 64 bits of `size_t`. The map is a list by rising priority.
pub record State : Type 0 where
  pub init_counter : ℕ
  pub init_data : Option (List Initable)
  pub calls : List Call

abbrev pub counter_mod : ℕ
counter_mod = 2 ^ 64

-- `std::map::insert`: `none` where the key is taken.
pub insert : Initable → List Initable → Option (List Initable)
insert x [] = some (x ∷ [])
insert x (y ∷ ys) =
    let later = insert x ys in
    if ltb x.prio y.prio
    then some (x ∷ y ∷ ys)
    else if x.prio == y.prio
    then none
    else elim later [ none ↦ none | some zs ↦ some (y ∷ zs) ]

-- `createInitData` makes an empty map where there is none.
abbrev pub registered : Option (List Initable) → List Initable
registered none = []
registered (some xs) = xs

-- `createInitData` and `InitData::add`; `none` where the program exits with status 9.
pub register_initable : ℕ → State → Option State
unfolding insert
register_initable prio s =
    let x : Initable = record { prio = prio; lib_initialized = false } in
    elim (insert x (registered s.init_data)) [
      | none ↦ none
      | some xs ↦ some (record s { init_data = some xs })
    ]

pub set_flag : Bool → Initable → Initable
set_flag b x = record x { lib_initialized = b }

abbrev pub prios : List Initable → List ℕ
prios xs = map (λ x. x.prio) xs

-- `InitData::init` and, in reverse order, `InitData::finish`.
init_all : List Initable → State → State
unfolding set_flag
init_all xs s = record s {
  init_data = some (map (set_flag true) xs);
  calls = s.calls ++ map lib_init (prios xs);
}

finish_all : List Initable → State → State
unfolding set_flag
finish_all xs s = record s {
  init_data = some (map (set_flag false) xs);
  calls = s.calls ++ map lib_exit (reverse (prios xs));
}

-- `if (init_counter++ != 0) return;`
pub init : State → State
unfolding init_all
init s =
    let s' = record s { init_counter = (s.init_counter + 1) % counter_mod } in
    if not (s.init_counter == 0)
    then s'
    else elim s.init_data [ none ↦ s' | some xs ↦ init_all xs s' ]

-- `if (--init_counter != 0) return;`
pub finish : State → State
unfolding finish_all
finish s =
    let count = (s.init_counter + counter_mod - 1) % counter_mod in
    let s' = record s { init_counter = count } in
    if not (count == 0) then s' else elim s.init_data [ none ↦ s' | some xs ↦ finish_all xs s' ]
