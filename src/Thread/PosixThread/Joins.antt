-- ===== src/Thread/PosixThread/Joins.antt =====
-- What a join leaves behind.
use libcosmos.Prelude.{
  ℕ, ◌-◌, ◌≡◌, ◌≢◌, refl, true, false, ◌⊎◌, inl, inr, Option, none, some, ◌==◌, ==_iff, String,
  arith, Bool-cases,
}
use libcosmos.Outcome.{api_error, usage_error, Outcome, ok, throw, spins}
use libcosmos.Outcome.Errno
use libcosmos.Thread.PosixThread.{
  Counted, empty_thread, joinable, is_handle, assert_join_conditions, reset, join_result,
  checked_join, join, try_join, join_timed,
}

-- A join with a value releases the thread, and every other end leaves the object as it is.
abbrev pub Joined : ℕ → ℕ → ℕ → Option ℕ → Counted → Outcome (Option ℕ) × Counted → Type 0
Joined caller error value soft c (ok (some v), d) =
    (joinable c.thread ≡ true)
    × (is_handle c.thread.handle caller ≡ false)
    × (error ≡ Errno.no_error)
    × (v ≡ value)
    × (d ≡ record { thread = empty_thread; num_threads = c.num_threads - 1 })
Joined caller error value soft c (ok none, d) = (is_handle soft error ≡ true) × (d ≡ c)
Joined caller error value soft c (throw (api_error call e), d) =
    (error ≢ Errno.no_error) × (is_handle soft error ≡ false) × (e ≡ error) × (d ≡ c)
Joined caller error value soft c (throw x, d) =
    (((joinable c.thread ≡ false)
        × (x ≡ usage_error "Attempted to join non-joinable thread (empty or detached)"))
      ⊎ ((joinable c.thread ≡ true)
          × (is_handle c.thread.handle caller ≡ true)
          × (x ≡ usage_error "Attempted to join self")))
    × (d ≡ c)
Joined caller error value soft c (spins, d) = ⊥

join_result-Joined :
    (call : String) (soft : Option ℕ) (caller error value : ℕ) (c : Counted)
    → joinable c.thread ≡ true
    → is_handle c.thread.handle caller ≡ false
    → Joined caller error value soft c (join_result call soft error value c)
unfolding join_result reset
join_result-Joined call soft caller error value c j i =
    elim (Bool-cases (error == Errno.no_error)) [
      | inl e ↦ rw (e, j) (refl, i, (==_iff error 0).0 e, refl, refl)
      | inr e ↦ elim (Bool-cases (is_handle soft error)) [
        | inl s ↦ rw (e, s) (s, refl)
        | inr s ↦ rw (e, s) (ground (arith, e), s, refl, refl)
      ]
    ]

checked_join-Joined :
    (call : String) (soft : Option ℕ) (caller error value : ℕ) (c : Counted)
    → Joined caller error value soft c (
        checked_join
          (assert_join_conditions caller c.thread)
          c
          (join_result call soft error value c))
unfolding assert_join_conditions
checked_join-Joined call soft caller error value c = elim (Bool-cases (joinable c.thread)) [
  | inr n ↦ rw n (inl (n, refl), refl)
  | inl j ↦ elim (Bool-cases (is_handle c.thread.handle caller)) [
    | inl self ↦ rw (j, self) (inr (j, self, refl), refl)
    | inr i ↦ rw (j, i) (join_result-Joined call soft caller error value c j i)
  ]
]

-- `join`, `tryJoin` and `joinTimed`, whatever the pthread function answers: with a value the thread
-- was joinable and not the caller, the call succeeded, and the object is empty and counted no longer.
-- In every other case the object and the counter are as before: there is no value yet (only of
-- `tryJoin` and `joinTimed`, where the call says that the thread is busy or the time is over), or a
-- `UsageError` for an empty object or the caller's own thread, or an `ApiError` with the call's error.
pub joins-Joined :
    (caller error value : ℕ) (c : Counted)
    → Joined caller error value none c (join caller error value c)
      × Joined caller error value (some Errno.busy) c (try_join caller error value c)
      × Joined caller error value (some Errno.timed_out) c (join_timed caller error value c)
unfolding join try_join join_timed
joins-Joined caller error value c = (
  checked_join-Joined "pthread_join()" none caller error value c,
  checked_join-Joined "pthread_tryjoin_np()" (some Errno.busy) caller error value c,
  checked_join-Joined "pthread_timedjoin_np()" (some Errno.timed_out) caller error value c,
)
