-- ===== src/SizedArray/Tests.antt =====
-- An array of three numbers, and the theorem at it.
use libcosmos.Prelude.{ℕ, ◌≡◌, refl, arith, List, [], ◌∷◌, none, some}
use libcosmos.SizedArray.{
  value, fails, out_of_range, bad_alloc, runtime_error, SizedArray, create, clear, at, pop_back,
  back,
}
use libcosmos.SizedArray.Stack.{Op, push, pop, reset, look, run, list_run, run-list_run}

abbrev two : SizedArray ℕ
two = record { array = 7 ∷ 8 ∷ 9 ∷ []; used = 2 }

created : create {A = ℕ} 3 0 2 ≡ value (record { array = 0 ∷ 0 ∷ 0 ∷ []; used = 2 })
unfolding create
created = refl

too_large : create {A = ℕ} 3 0 4 ≡ fails (out_of_range "excess array init size")
unfolding create
too_large = refl

last : back two ≡ some 8
unfolding back
last = refl

not_in_use : at 2 two ≡ fails (out_of_range "access beyond used elements")
unfolding at
not_in_use = refl

cleared_is_empty : pop_back (clear two) ≡ (fails (runtime_error "pop on empty array"), clear two)
unfolding clear pop_back
cleared_is_empty = refl

abbrev operations : List (Op ℕ)
operations = push 5 ∷ push 6 ∷ look 2 ∷ pop ∷ look 2 ∷ reset ∷ pop ∷ []

run-list_run_example : run operations two ≡ list_run 3 operations (7 ∷ 8 ∷ [])
run-list_run_example = run-list_run 3 operations two (refl, omega arith)

answered :
    run operations two
    ≡ value none
      ∷ fails bad_alloc
      ∷ value (some 5)
      ∷ value none
      ∷ fails (out_of_range "access beyond used elements")
      ∷ value none
      ∷ fails (runtime_error "pop on empty array")
      ∷ []
unfolding run
answered = refl
