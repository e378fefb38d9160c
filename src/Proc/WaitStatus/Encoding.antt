-- ===== src/Proc/WaitStatus/Encoding.antt =====
-- A child's state survives the way through a status word.
use Prim.Native.Nat.{bit_or}
use libcosmos.Prelude.{ℕ, ◌+◌, ◌*◌, ◌<◌, ◌≡◌, refl, Bool, true, false, Option, none, some, arith}
use libcosmos.Prelude.Tables.{passes, tabulated}
use libcosmos.Proc.ChildEvent.{Event}
use libcosmos.Proc.ChildState.{ChildState}
use libcosmos.Proc.WaitStatus.{
  value, of_child_state, has_exited, was_signaled, has_dumped, was_stopped, was_continued,
  exit_status, term_sig, stop_sig,
}

core_bit : (s : ℕ) → s < 128 → bit_or (bit_or 0 s) 0x80 ≡ s + 128
unfolding passes
core_bit s = tabulated (λ k. bit_or (bit_or 0 k) 0x80) (λ k. k + 128) 128 refl

no_bit : (s : ℕ) → s < 128 → bit_or 0 s ≡ s
unfolding passes
no_bit s = tabulated (bit_or 0) (λ k. k) 128 refl

stop_bits : (s : ℕ) → s < 256 → bit_or (s * 256) 0x7f ≡ s * 256 + 127
unfolding passes
stop_bits s = tabulated (λ k. bit_or (k * 256) 0x7f) (λ k. k * 256 + 127) 256 refl

exit_bits : (s : ℕ) → s < 256 → bit_or (s * 256) 0 ≡ s * 256
unfolding passes
exit_bits s = tabulated (λ k. bit_or (k * 256) 0) (λ k. k * 256) 256 refl

-- All that a status word tells.
pub record Reading : Type 0 where
  pub exited : Bool
  pub signaled : Bool
  pub dumped : Bool
  pub stopped : Bool
  pub continued : Bool
  pub status : Option ℕ
  pub term : Option ℕ
  pub stop : Option ℕ

abbrev pub reading : ℕ → Reading
reading w = record {
  exited = has_exited w;
  signaled = was_signaled w;
  dumped = has_dumped w;
  stopped = was_stopped w;
  continued = was_continued w;
  status = exit_status w;
  term = term_sig w;
  stop = stop_sig w;
}

abbrev nothing : Reading
nothing = record {
  exited = false;
  signaled = false;
  dumped = false;
  stopped = false;
  continued = false;
  status = none;
  term = none;
  stop = none;
}

-- What it ought to tell of a child in the state of `event` with the code `n`.
abbrev pub expected : Event → ℕ → Reading
expected Event.exited n = record nothing { exited = true; status = some n }
expected Event.killed n = record nothing { signaled = true; term = some n }
expected Event.dumped n = record nothing { signaled = true; dumped = true; term = some n }
expected Event.trapped n = record nothing { stopped = true; stop = some n }
expected Event.stopped n = record nothing { stopped = true; stop = some n }
expected Event.continued n = record nothing { continued = true }
expected Event.invalid n = record nothing { exited = true; status = some 0 }
expected Event.other n = record nothing { exited = true; status = some 0 }

-- The code of a state: its exit status or its signal.
abbrev pub code_of : Event → Option ℕ → Option ℕ → ℕ
code_of Event.exited status signal = value status
code_of _ status signal = value signal

-- The codes that fit: an exit status or stop signal is a byte, a deadly signal one of 1 to 126.
abbrev pub Fits : Event → ℕ → Type 0
Fits Event.killed n = (0 < n) × (n < 127)
Fits Event.dumped n = (0 < n) × (n < 127)
Fits _ n = n < 256

reading_at :
    (s : ChildState) (e : Event)
    → s.event ≡ e
    → Fits e (code_of e s.status s.signal)
    → reading (of_child_state s) ≡ expected e (code_of e s.status s.signal)
unfolding of_child_state has_exited was_signaled has_dumped was_stopped was_continued exit_status
    term_sig stop_sig
reading_at s Event.exited h f = ground (arith, exit_bits (value s.status))
reading_at s Event.killed h f = ground (arith, no_bit (value s.signal))
reading_at s Event.dumped h f = ground (arith, core_bit (value s.signal))
reading_at s Event.trapped h f = ground (arith, stop_bits (value s.signal))
reading_at s Event.stopped h f = ground (arith, stop_bits (value s.signal))
reading_at s Event.continued h f = ground arith
reading_at s Event.invalid h f = ground arith
reading_at s Event.other h f = ground arith

-- A state turned into a status word and read back tells what the state was: the kind of the event,
-- and the exit status or the signal, for every exit status and stop signal that is a byte and every
-- deadly signal from 1 to 126. A trap reads as a stop. Of a state without an event it is an exit
-- with status 0.
pub reading-of_child_state :
    (s : ChildState)
    → Fits s.event (code_of s.event s.status s.signal)
    → reading (of_child_state s) ≡ expected s.event (code_of s.event s.status s.signal)
reading-of_child_state s f = reading_at s s.event refl f
