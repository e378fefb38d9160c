-- ===== src/Io/Poller/Rounds.antt =====
-- The end of `wait`.
use libcosmos.Prelude.{
  ℕ, zero, suc, ◌<◌, ◌≡◌, refl, ◌∙◌, arith, Bool, true, false, List, Option, Bool-cases, inl, inr,
}
use libcosmos.Outcome.{api_error, Outcome, ok, throw, Reply, done, failed}
use libcosmos.Io.StreamIo.Restart.{restarts, Answers, final, again}
use libcosmos.Time.TimeSpec.{TimeSpec}
use libcosmos.Io.Poller.{PollEvent, Poller, PollCalls, raw_poll_fd, polled, wait}

-- How an answer that ends the loop is reported.
abbrev pub reported : Reply (List PollEvent) → Outcome (List PollEvent)
reported (done events) = ok events
reported (failed e) = throw (api_error "epoll_wait()" e)

module _ {W : Type 0} (k : PollCalls W) (auto_restart : Bool) where
  polled_final :
      (a : Reply (List PollEvent) × W) (rest : W → Outcome (List PollEvent) × W)
      → restarts auto_restart a.0 ≡ false
      → polled k auto_restart a rest ≡ (reported a.0, a.1)
  unfolding polled
  polled_final (done events, w) rest h = refl
  polled_final (failed e, w) rest h = rw h refl

  polled_again :
      (a : Reply (List PollEvent) × W) (rest : W → Outcome (List PollEvent) × W)
      → restarts auto_restart a.0 ≡ true
      → polled k auto_restart a rest ≡ rest a.1
  unfolding polled
  polled_again (done events, w) rest h = cc
  polled_again (failed e, w) rest h = rw h refl

  module _ (timeout : Option TimeSpec) (p : Poller) (patience : W → ℕ) where
    abbrev pub call : W → Reply (List PollEvent) × W
    call = k.epoll_pwait (raw_poll_fd p) p.max_events timeout

    -- If each interruption lowers the number `patience`, `wait` with more fuel than that ends with
    -- the first answer of epoll_pwait2(2) that is no interruption: its events, or an `ApiError`.
    -- Without `auto_restart` every answer is the last.
    pub wait_lem :
        ((w : W) → restarts auto_restart (call w).0 ≡ true → patience (call w).1 < patience w)
        → (fuel : ℕ) (w : W) → patience w < fuel
        → (r : Reply (List PollEvent)) × (v : W) × Answers auto_restart call w r v
          × (wait k fuel auto_restart timeout p w ≡ (reported r, v))
    unfolding wait
    wait_lem wears zero w h = absurd (omega arith)
    wait_lem wears (suc fuel) w h = elim (Bool-cases (restarts auto_restart (call w).0)) [
      | inl more ↦
          let (r, v, a, e) = wait_lem wears fuel (call w).1 (omega (arith, wears w more)) in
          (r, v, again more a, polled_again (call w) _ more ∙ e)
      | inr last ↦ ((call w).0, (call w).1, final refl last, polled_final (call w) _ last)
    ]
