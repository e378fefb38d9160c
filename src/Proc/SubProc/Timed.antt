-- ===== src/Proc/SubProc/Timed.antt =====
-- `waitTimed` of src/proc/SubProc.cxx, which waits on the descriptor of the child with a `Poller`.
pub mod Released
mod Tests
use libcosmos.Prelude.{ℕ, suc, ◌-◌, ◌^◌, Bool, true, false, List, [], ◌∷◌, Option, none, some}
use libcosmos.Outcome.{Exception, Outcome, ok, throw, spins}
use libcosmos.Time.TimeSpec.{TimeSpec}
use libcosmos.Io.Poller
use libcosmos.Io.Poller.{PollEvent, PollCalls, no_poller, input}
use libcosmos.Proc.ChildState.{ChildState}
use libcosmos.Proc.SubProc.{SubProc, WaitFlags, WaitSystem, wait}

-- `m_child_fd.raw()`.
abbrev pub raw_child_fd : SubProc → ℕ
raw_child_fd s = raw s.child_fd
  where
    raw : Option ℕ → ℕ
    raw none = 2 ^ 32 - 1
    raw (some fd) = fd

-- What the call returns, and the object behind it.
abbrev pub Timed : Type 0
Timed = Outcome (Option ChildState) × SubProc

abbrev pub with_state : {W : Type 0} → (Outcome ChildState × SubProc) × W → Timed × W
with_state ((ok st, s), w) = ((ok (some st), s), w)
with_state ((throw x, s), w) = ((throw x, s), w)
with_state ((spins, s), w) = ((spins, s), w)

module _ {W : Type 0} (k : WaitSystem W) (poll : PollCalls W) where
  -- Behind the poll: without an event there is no state.
  unfoldable pub when_ready : WaitFlags → SubProc → Outcome (List PollEvent) × W → Timed × W
  unfolding wait
  when_ready flags s (ok [], w) = ((ok none, s), w)
  when_ready flags s (ok (e ∷ events), w) = with_state (wait k flags s w)
  when_ready flags s (throw x, w) = ((throw x, s), w)
  when_ready flags s (spins, w) = ((spins, s), w)

  unfoldable pub when_added :
      ℕ → Bool → TimeSpec → WaitFlags → SubProc → Poller.Poller → Outcome (Unit {0}) × W → Timed × W
  unfolding when_ready Poller.wait
  when_added fuel auto_restart max flags s p (ok _, w) =
      when_ready flags s (Poller.wait poll fuel auto_restart (some max) p w)
  when_added fuel auto_restart max flags s p (throw x, w) = ((throw x, s), w)
  when_added fuel auto_restart max flags s p (spins, w) = ((spins, s), w)

  -- The destructor of the poller runs behind the body, however that ends.
  unfoldable pub when_created :
      ℕ
      → Bool
      → TimeSpec
      → WaitFlags
      → SubProc
      → (Outcome (Unit {0}) × Poller.Poller) × W
      → Timed × W
  unfolding when_added Poller.add_fd Poller.destroy
  when_created fuel auto_restart max flags s ((ok _, p), w) =
      let body =
        when_added fuel auto_restart max flags s p
          (Poller.add_fd poll (raw_child_fd s) input p w) in
      (body.0, Poller.destroy poll p body.1)
  when_created fuel auto_restart max flags s ((throw x, p), w) = ((throw x, s), w)
  when_created fuel auto_restart max flags s ((spins, p), w) = ((spins, s), w)

  unfoldable pub wait_timed : ℕ → Bool → TimeSpec → WaitFlags → SubProc → W → Timed × W
  unfolding when_created Poller.create
  wait_timed fuel auto_restart max flags s w =
      when_created fuel auto_restart max flags s (Poller.create poll 8 no_poller w)
