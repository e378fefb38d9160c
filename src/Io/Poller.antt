-- ===== src/Io/Poller.antt =====
-- `Poller` of include/io/Poller.hxx and src/io/Poller.cxx. The epoll calls and close(2) are
-- parameters; the loop of `wait` takes fuel.
pub mod Rounds
mod Tests
use libcosmos.Prelude.{
  ℕ, zero, suc, ◌-◌, ◌^◌, Bool, true, false, ◌&&◌, List, Option, none, some, ◌==◌, if◌then◌else◌,
}
use libcosmos.Outcome.{api_error, Outcome, ok, throw, spins, Reply, done, failed, Comp, checked}
use libcosmos.Outcome.Errno
use libcosmos.Time.TimeSpec.{TimeSpec}

-- `PollEvent`: the descriptor of an event, and the bits of what occurred.
pub record PollEvent : Type 0 where
  pub fd : ℕ
  pub events : ℕ

-- `m_poll_fd`, and the number of elements of `m_events`, which is how many events a wait reports at
-- most.
pub record Poller : Type 0 where
  pub poll_fd : Option ℕ
  pub max_events : ℕ

-- epoll_ctl(2) by its operation: to add and to modify with the event bits, and to remove.
pub record PollCalls (W : Type 0) : Type 0 where
  pub epoll_create : W → Reply ℕ × W
  pub ctl_add : ℕ → ℕ → ℕ → W → Reply (Unit {0}) × W
  pub ctl_mod : ℕ → ℕ → ℕ → W → Reply (Unit {0}) × W
  pub ctl_del : ℕ → ℕ → W → Reply (Unit {0}) × W
  pub epoll_pwait : ℕ → ℕ → Option TimeSpec → W → Reply (List PollEvent) × W
  pub close : ℕ → W → Reply (Unit {0}) × W

abbrev pub no_poller : Poller
no_poller = record { poll_fd = none; max_events = 0 }

-- `MonitorFlag::INPUT`.
abbrev pub input : ℕ
input = 1

abbrev pub is_valid : Option ℕ → Bool
is_valid none = false
is_valid (some fd) = true

unfoldable pub valid : Poller → Bool
valid p = is_valid p.poll_fd

-- -1 as its bit pattern where there is no descriptor.
unfoldable pub raw_poll_fd : Poller → ℕ
raw_poll_fd p = raw p.poll_fd
  where
    raw : Option ℕ → ℕ
    raw none = 2 ^ 32 - 1
    raw (some fd) = fd

module _ {W : Type 0} (k : PollCalls W) where
  unfoldable pub created : ℕ → Poller → Reply ℕ × W → (Outcome (Unit {0}) × Poller) × W
  created max_events p (done fd, w) =
      ((ok tt, record { poll_fd = some fd; max_events = max_events }), w)
  created max_events p (failed e, w) = ((throw (api_error "epoll_create1()" e), p), w)

  unfoldable pub create : ℕ → Poller → W → (Outcome (Unit {0}) × Poller) × W
  unfolding valid created
  create max_events p w =
      if valid p then ((ok tt, p), w) else created max_events p (k.epoll_create w)

  -- The descriptor is given up in any case; where closing fails, the elements stay.
  unfoldable pub closed : Poller → Reply (Unit {0}) × W → (Outcome (Unit {0}) × Poller) × W
  closed p (done _, w) = ((ok tt, no_poller), w)
  closed p (failed e, w) =
      ((throw (api_error "close()" e), record { poll_fd = none; max_events = p.max_events }), w)

  unfoldable pub close_poller : Poller → W → (Outcome (Unit {0}) × Poller) × W
  unfolding valid raw_poll_fd closed
  close_poller p w = if valid p then closed p (k.close (raw_poll_fd p) w) else ((ok tt, p), w)

  -- The destructor only reports that closing failed.
  unfoldable pub destroy : Poller → W → W
  unfolding close_poller
  destroy p w = (close_poller p w).1

  unfoldable pub add_fd : ℕ → ℕ → Poller → Comp W (Unit {0})
  unfolding raw_poll_fd
  add_fd fd flags p w = checked (api_error "epoll_ctl()") (k.ctl_add (raw_poll_fd p) fd flags w)

  unfoldable pub mod_fd : ℕ → ℕ → Poller → Comp W (Unit {0})
  unfolding raw_poll_fd
  mod_fd fd flags p w = checked (api_error "epoll_ctl()") (k.ctl_mod (raw_poll_fd p) fd flags w)

  unfoldable pub del_fd : ℕ → Poller → Comp W (Unit {0})
  unfolding raw_poll_fd
  del_fd fd p w = checked (api_error "epoll_ctl(EPOLL_CTL_DEL)") (k.ctl_del (raw_poll_fd p) fd w)

  -- A round, with the rounds after it.
  unfoldable pub polled :
      Bool → Reply (List PollEvent) × W → Comp W (List PollEvent) → Outcome (List PollEvent) × W
  polled auto_restart (done events, w) again = (ok events, w)
  polled auto_restart (failed e, w) again =
      if auto_restart && e == Errno.interrupted
      then again w
      else (throw (api_error "epoll_wait()" e), w)

  unfoldable pub wait : ℕ → Bool → Option TimeSpec → Poller → Comp W (List PollEvent)
  unfolding raw_poll_fd polled
  wait zero auto_restart timeout p w = (spins, w)
  wait (suc fuel) auto_restart timeout p w =
      let again = wait fuel auto_restart timeout p in
      polled auto_restart (k.epoll_pwait (raw_poll_fd p) p.max_events timeout w) again
