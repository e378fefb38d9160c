-- ===== src/Runtime/Init/Tests.antt =====
-- Runs of the registry, and the theorem at one of them.
use libcosmos.Prelude.{ℕ, ◌≡◌, refl, false, [], ◌∷◌, none, some, arith}
use libcosmos.Runtime.Init.{Initable, State, lib_init, lib_exit, register_initable, init, finish}
use libcosmos.Runtime.Init.Nesting.{
  initialise, finalise, run, nothing, pair, after_pair, run_outermost,
}

abbrev entry : ℕ → Initable
entry p = record { prio = p; lib_initialized = false }

abbrev two_entries : State
two_entries = record { init_counter = 0; init_data = some (entry 1 ∷ entry 2 ∷ []); calls = [] }

register_third :
    register_initable 0 two_entries
    ≡ some (record two_entries { init_data = some (entry 0 ∷ entry 1 ∷ entry 2 ∷ []) })
unfolding register_initable
register_third = refl

register_again : register_initable 2 two_entries ≡ none
unfolding register_initable
register_again = refl

nested_pairs :
    (run two_entries (initialise ∷ initialise ∷ finalise ∷ finalise ∷ [])).calls
    ≡ lib_init 1 ∷ lib_init 2 ∷ lib_exit 2 ∷ lib_exit 1 ∷ []
unfolding init finish
nested_pairs = refl

run_outermost_example :
    run two_entries (initialise ∷ initialise ∷ finalise ∷ finalise ∷ [])
    ≡ after_pair (entry 1 ∷ entry 2 ∷ []) two_entries
run_outermost_example =
    run_outermost two_entries (entry 1 ∷ entry 2 ∷ []) (initialise ∷ finalise ∷ [])
      (pair nothing nothing refl) refl refl (omega arith)
