-- ===== src/Thread/PosixThread/Tests.antt =====
-- Threads created and joined, and the theorems at these inputs.
use libcosmos.Prelude.{◌≡◌, refl, some, none, [], ◌∷◌, codes}
use libcosmos.Outcome.{ok, throw, usage_error}
use libcosmos.Outcome.Errno
use libcosmos.Thread.PosixThread.{
  Counted, empty_thread, create, build_name, join, try_join, join_timed, move_assign, aborts,
}
use libcosmos.Thread.PosixThread.Joins.{Joined, joins-Joined}
use libcosmos.Thread.PosixThread.Counter.{
  here, further, creates, releases, by_join, Counts, counter_lem,
}

abbrev worker : Counted
worker = record { thread = record { handle = some 5; name = codes "w" }; num_threads = 1 }

generated_name : build_name [] 42 ≡ codes "thread<42>"
unfolding build_name
generated_name = refl

-- The error of pthread_create() is lost, and the object has a name but no thread.
failed_creation :
    create (codes "w") 5 Errno.again 0
    ≡ ok record { thread = record { handle = none; name = codes "w" }; num_threads = 1 }
unfolding create
failed_creation = refl

joins_itself : join 5 0 7 worker ≡ (throw (usage_error "Attempted to join self"), worker)
unfolding join
joins_itself = refl

not_yet : try_join 9 Errno.busy 0 worker ≡ (ok none, worker)
unfolding try_join
not_yet = refl

into_joinable : move_assign worker.thread empty_thread ≡ aborts
unfolding move_assign
into_joinable = refl

joins-Joined_example :
    Joined 9 0 7 none worker (join 9 0 7 worker)
    × Joined 9 0 7 (some Errno.busy) worker (try_join 9 0 7 worker)
    × Joined 9 0 7 (some Errno.timed_out) worker (join_timed 9 0 7 worker)
joins-Joined_example = joins-Joined 9 0 7 worker

counter_lem_example : Counts record {
  objects = empty_thread ∷ record { handle = none; name = codes "w" } ∷ [];
  num_threads = 1;
  failures = 1;
}
unfolding create join
counter_lem_example =
    counter_lem
      record {
        objects = empty_thread ∷ record { handle = none; name = codes "w" } ∷ [];
        num_threads = 1;
        failures = 1;
      }
      (further
        (further (further here (creates (codes "w") 5 Errno.again _ refl))
          (creates (codes "v") 6 0 _ refl))
        (releases [] (record { handle = none; name = codes "w" } ∷ [])
          record { handle = some 6; name = codes "v" } _ (by_join 9 0 3)))
