-- ===== src/Io/Poller/Tests.antt =====
-- A poller that is interrupted, and the theorem at this input. The state counts the interruptions
-- that are still to come.
use libcosmos.Prelude.{ℕ, zero, suc, ◌<◌, ◌≡◌, refl, arith, true, false, List, [], ◌∷◌, none, some}
use libcosmos.Outcome.{Reply, done, failed, ok, throw, api_error}
use libcosmos.Io.StreamIo.Restart.{restarts, Answers}
use libcosmos.Io.Poller.{PollEvent, Poller, PollCalls, no_poller, create, close_poller, wait}
use libcosmos.Io.Poller.Rounds.{call, reported, wait_lem}

abbrev ready : List PollEvent
ready = record { fd = 5; events = 1 } ∷ []

abbrev interrupt : ℕ → Reply (List PollEvent) × ℕ
interrupt zero = (done ready, 0)
interrupt (suc w) = (failed 4, w)

abbrev calls : PollCalls ℕ
calls = record {
  epoll_create = λ w. (done 6, w);
  ctl_add = λ epfd fd flags w. (done tt, w);
  ctl_mod = λ epfd fd flags w. (done tt, w);
  ctl_del = λ epfd fd w. (done tt, w);
  epoll_pwait = λ epfd n timeout w. interrupt w;
  close = λ fd w. (failed 5, w);
}

abbrev poller : Poller
poller = record { poll_fd = some 6; max_events = 8 }

made : create calls 8 no_poller 0 ≡ ((ok tt, poller), 0)
unfolding create
made = refl

twice : create calls 16 poller 0 ≡ ((ok tt, poller), 0)
unfolding create
twice = refl

close_fails :
    close_poller calls poller 0
    ≡ ((throw (api_error "close()" 5), record { poll_fd = none; max_events = 8 }), 0)
unfolding close_poller
close_fails = refl

not_restarted : wait calls 4 false none poller 2 ≡ (throw (api_error "epoll_wait()" 4), 1)
unfolding wait
not_restarted = refl

wears : (w : ℕ) → restarts true (interrupt w).0 ≡ true → (interrupt w).1 < w
wears zero h = ground (arith, h)
wears (suc w) h = omega arith

two_interruptions :
    (r : Reply (List PollEvent)) × (v : ℕ) × Answers true
      (call calls true none poller (λ w. w))
      2
      r
      v
    × (wait calls 4 true none poller 2 ≡ (reported r, v))
two_interruptions = wait_lem calls true none poller (λ w. w) wears 4 2 (omega arith)
