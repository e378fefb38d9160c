-- ===== src/Proc/SubProc/Timed/Released.antt =====
-- What `waitTimed` leaves behind.
use libcosmos.Prelude.{ℕ, ◌≡◌, ◌⊎◌, inl, inr, refl, ap, Bool, List, [], ◌∷◌, some}
use libcosmos.Outcome.{Outcome, ok, throw, spins, Reply, done, failed, api_error}
use libcosmos.Time.TimeSpec.{TimeSpec}
use libcosmos.Io.Poller
use libcosmos.Io.Poller.{PollEvent, PollCalls, no_poller, input}
use libcosmos.Proc.SubProc.{SubProc, WaitFlags, WaitSystem, wait}
use libcosmos.Proc.SubProc.Timed.{
  Timed, with_state, when_ready, when_added, when_created, wait_timed, raw_child_fd,
}

module _ {W : Type 0} (k : WaitSystem W) (poll : PollCalls W) (flags : WaitFlags)
    (s : SubProc) where
  -- The body has waited for the child, or the object is as it was.
  abbrev pub Waited : Timed × W → Type 0
  Waited r = ((v : W) × (r ≡ with_state (wait k flags s v))) ⊎ (r.0.1 ≡ s)

  -- The descriptor that was created is closed as the last call.
  abbrev pub Released : Reply ℕ × W → Timed × W → Type 0
  Released (done fd, v) r =
      (body : Timed × W) × Waited body × (r ≡ (body.0, (poll.close fd body.1).1))
  Released (failed e, v) r = r ≡ ((throw (api_error "epoll_create1()" e), s), v)

  when_ready-Waited : (a : Outcome (List PollEvent) × W) → Waited (when_ready k poll flags s a)
  unfolding when_ready
  when_ready-Waited (ok [], w) = inr refl
  when_ready-Waited (ok (e ∷ events), w) = inl (w, refl)
  when_ready-Waited (throw x, w) = inr refl
  when_ready-Waited (spins, w) = inr refl

  closed_state : (p : Poller.Poller) (r : Reply (Unit {0}) × W) → (Poller.closed poll p r).1 ≡ r.1
  unfolding Poller.closed
  closed_state p (done _, w) = refl
  closed_state p (failed e, w) = refl

  module _ (fuel : ℕ) (auto_restart : Bool) (max : TimeSpec) where
    when_added-Waited :
        (p : Poller.Poller) (a : Outcome (Unit {0}) × W)
        → Waited (when_added k poll fuel auto_restart max flags s p a)
    unfolding when_added
    when_added-Waited p (ok _, w) =
        when_ready-Waited (Poller.wait poll fuel auto_restart (some max) p w)
    when_added-Waited p (throw x, w) = inr refl
    when_added-Waited p (spins, w) = inr refl

    created-Released :
        (a : Reply ℕ × W)
        → Released a
            (when_created k poll fuel auto_restart max flags s (Poller.created poll 8 no_poller a))
    unfolding Poller.created when_created Poller.destroy Poller.close_poller Poller.valid
        Poller.raw_poll_fd
    created-Released (done fd, w) =
        let p : Poller.Poller = record { poll_fd = some fd; max_events = 8 } in
        let body =
          when_added k poll fuel auto_restart max flags s p
            (Poller.add_fd poll (raw_child_fd s) input p w) in
        (
          body,
          when_added-Waited p (Poller.add_fd poll (raw_child_fd s) input p w),
          ap (λ v. (body.0, v)) (closed_state p (poll.close fd body.1)),
        )
    created-Released (failed e, w) = refl

    -- `waitTimed` closes the poll descriptor that it creates, with its last call, whether it returns
    -- a state, returns none or throws. Before that it has waited for the child as `wait` does, or
    -- the object is as it was. If no descriptor can be created, it throws, and has called nothing else.
    pub wait_timed-Released :
        (w : W) → Released (poll.epoll_create w) (wait_timed k poll fuel auto_restart max flags s w)
    unfolding wait_timed Poller.create Poller.valid
    wait_timed-Released w = created-Released (poll.epoll_create w)
