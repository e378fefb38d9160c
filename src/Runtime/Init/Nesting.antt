-- ===== src/Runtime/Init/Nesting.antt =====
-- Nested pairs of `init` and `finish`: only the outermost pair does something.
use mathlib.Core.List.{reverse}
use libcosmos.Prelude.{
  suc, ◌+◌, ◌<◌, ◌≡◌, refl, ap, ◌∙◌, Bool, true, false, List, [], ◌∷◌, ◌++◌, append_assoc, map,
  some, arith, length, length-append,
}
use mathlib.Core.Path.{◌≡⟨◌⟩◌, ◌∎}
use libcosmos.Runtime.Init.{
  Initable, lib_init, lib_exit, State, counter_mod, set_flag, prios, init_all, finish_all, init,
  finish,
}

pub data Op : Type 0 where
  initialise finalise : Op

abbrev pub run : State → List Op → State
run s [] = s
run s (initialise ∷ ops) = run (init s) ops
run s (finalise ∷ ops) = run (finish s) ops

-- Each `finish` closes an `init` before it.
pub data Balanced : List Op → Type 0 where
  nothing : Balanced []
  pair :
      {inner rest ops : List Op}
      → Balanced inner
      → Balanced rest
      → ops ≡ initialise ∷ (inner ++ finalise ∷ rest)
      → Balanced ops

run-append : (s : State) (a b : List Op) → run s (a ++ b) ≡ run (run s a) b
run-append s [] b = refl
run-append s (initialise ∷ a) b = run-append (init s) a b
run-append s (finalise ∷ a) b = run-append (finish s) a b

init_nested :
    (s : State)
    → 0 < s.init_counter
    → s.init_counter + 1 < counter_mod
    → init s ≡ record s { init_counter = s.init_counter + 1 }
unfolding init
init_nested s h l = ground arith

finish_nested :
    (s : State)
    → 0 < s.init_counter
    → s.init_counter + 1 < counter_mod
    → finish (record s { init_counter = s.init_counter + 1 }) ≡ s
unfolding finish
finish_nested s h l = ground arith

-- In a state with an `init` open, balanced calls change nothing.
run_nested :
    (s : State) (ops : List Op)
    → Balanced ops
    → 0 < s.init_counter
    → s.init_counter + length ops < counter_mod
    → run s ops ≡ s
run_nested s ops nothing h l = refl
run_nested s ops (pair {inner} {rest} b c e) h l =
    let open_state = record s { init_counter = s.init_counter + 1 } in
    let len : length ops ≡ suc (length inner + suc (length rest)) =
      ap length e ∙ ap suc (length-append inner (finalise ∷ rest)) in
    run s ops
    ≡⟨ ap (run s) e ⟩ run (init s) (inner ++ finalise ∷ rest)
    ≡⟨ ap (λ t. run t (inner ++ finalise ∷ rest)) (init_nested s h (omega arith)) ⟩
      run open_state (inner ++ finalise ∷ rest)
    ≡⟨ run-append open_state inner (finalise ∷ rest) ⟩ run (run open_state inner) (finalise ∷ rest)
    ≡⟨ ap (λ t. run t (finalise ∷ rest))
        (run_nested open_state inner b (omega arith) (omega arith)) ⟩
      run (finish open_state) rest
    ≡⟨ ap (λ t. run t rest) (finish_nested s h (omega arith)) ⟩ run s rest
    ≡⟨ run_nested s rest c h (omega arith) ⟩ s ∎

-- The state behind an outermost pair.
abbrev pub after_pair : List Initable → State → State
after_pair xs s = record s {
  init_counter = 0;
  init_data = some (map (set_flag false) xs);
  calls = s.calls ++ (map lib_init (prios xs) ++ map lib_exit (reverse (prios xs)));
}

prios-set_flag : (b : Bool) (xs : List Initable) → prios (map (set_flag b) xs) ≡ prios xs
unfolding set_flag
prios-set_flag b [] = refl
prios-set_flag b (x ∷ xs) = ap (λ t. x.prio ∷ t) (prios-set_flag b xs)

set_flag-set_flag :
    (b c : Bool) (xs : List Initable) → map (set_flag b) (map (set_flag c) xs) ≡ map (set_flag b) xs
unfolding set_flag
set_flag-set_flag b c [] = refl
set_flag-set_flag b c (x ∷ xs) = ap (λ t. set_flag b x ∷ t) (set_flag-set_flag b c xs)

init_first :
    (s : State) (xs : List Initable)
    → s.init_counter ≡ 0
    → s.init_data ≡ some xs
    → init s ≡ init_all xs (record s { init_counter = 1 })
unfolding init
init_first s xs z e = ground arith

finish_last :
    (s : State) (xs : List Initable)
    → s.init_counter ≡ 1
    → s.init_data ≡ some xs
    → finish s ≡ finish_all xs (record s { init_counter = 0 })
unfolding finish
finish_last s xs z e = ground arith

finish_all-init_all :
    (s : State) (xs : List Initable)
    → finish_all
        (map (set_flag true) xs)
        (record (init_all xs (record s { init_counter = 1 })) { init_counter = 0 })
      ≡ after_pair xs s
unfolding finish_all init_all
finish_all-init_all s xs =
    rw (set_flag-set_flag false true xs, prios-set_flag true xs, append_assoc s.calls)

-- An outermost pair around balanced calls, fewer than the counter can count, makes one call of
-- `libInit` for each entry in the order of the registry and then one of `libExit` for each in the
-- reverse order; the calls within make none. Behind it the flags are off and the counter is 0.
pub run_outermost :
    (s : State) (xs : List Initable) (inner : List Op)
    → Balanced inner
    → s.init_counter ≡ 0
    → s.init_data ≡ some xs
    → length inner + 1 < counter_mod
    → run s (initialise ∷ (inner ++ finalise ∷ [])) ≡ after_pair xs s
run_outermost s xs inner b z e l =
    let opened = init_all xs (record s { init_counter = 1 }) in
    run (init s) (inner ++ finalise ∷ [])
    ≡⟨ ap (λ t. run t (inner ++ finalise ∷ [])) (init_first s xs z e) ⟩
      run opened (inner ++ finalise ∷ [])
    ≡⟨ run-append opened inner (finalise ∷ []) ⟩ finish (run opened inner)
    ≡⟨ ap finish (
        run_nested opened inner b (unfold init_all in omega arith)
          (unfold init_all in omega arith)) ⟩
      finish opened
    ≡⟨ finish_last opened (map (set_flag true) xs) (unfold init_all in refl)
        (unfold init_all in refl) ⟩
      finish_all (map (set_flag true) xs) (record opened { init_counter = 0 })
    ≡⟨ finish_all-init_all s xs ⟩ after_pair xs s ∎
