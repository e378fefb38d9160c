-- ===== src/Proc/Ptrace/Events.antt =====
-- The signal and the event in the status of a stop.
use libcosmos.Prelude.{ℕ, ◌+◌, ◌*◌, ◌/◌, ◌%◌, ◌<◌, ◌≡◌, refl, arith, true, ltb}
use libcosmos.Outcome.{ok}
use libcosmos.Proc.Ptrace.{decode_event, is_ptrace_event_stop, maximum}

is_stop : (sig event : ℕ) → 0 < event → ltb maximum (sig + event * 256) ≡ true
is_stop sig event h = ground (arith, h)

-- A signal below 256 with an event above it is decoded into both.
pub decode_event_lem :
    (sig event : ℕ) → sig < 256 → 0 < event → decode_event (sig + event * 256) ≡ ok (sig, event)
unfolding decode_event is_ptrace_event_stop
decode_event_lem sig event h p = rw (is_stop sig event p, low sig event h, high sig event h) refl
  where
    low : (sig event : ℕ) → sig < 256 → (sig + event * 256) % 256 ≡ sig
    low sig event h = omega (arith, h)

    high : (sig event : ℕ) → sig < 256 → (sig + event * 256) / 256 ≡ event
    high sig event h = omega (arith, h)
