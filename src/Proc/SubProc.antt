-- ===== src/Proc/SubProc.antt =====
-- `SubProc` of include/proc/SubProc.hxx and src/proc/SubProc.cxx, with `proc::wait` on a pidfd
-- (src/proc/process.cxx). waitid(2) and close(2) are parameters.
pub mod Waiting
pub mod CoreDumps
pub mod Timed
mod Tests
use libcosmos.Prelude.{
  ℕ, Bool, true, false, not, ◌&&◌, ◌||◌, Option, none, some, ◌==◌, if◌then◌else◌,
}
use libcosmos.Outcome.{
  Exception, api_error, usage_error, foreign, Outcome, ok, throw, spins, Reply, done, failed,
}
use libcosmos.Outcome.Errno
use libcosmos.Proc.ChildState.{ChildState, exited, killed, SigInfo, ChildData, child_data}

pub record WaitFlags : Type 0 where
  pub no_hang : Bool
  pub leave_info : Bool

-- An invalid process ID or descriptor is `none`.
pub record SubProc : Type 0 where
  pub pid : Option ℕ
  pub child_fd : Option ℕ

abbrev pub empty : SubProc
empty = record { pid = none; child_fd = none }

abbrev pub is_valid : Option ℕ → Bool
is_valid none = false
is_valid (some fd) = true

unfoldable pub running : SubProc → Bool
running s = is_valid s.child_fd

pub record WaitSystem (W : Type 0) : Type 0 where
  pub waitid : Option ℕ → WaitFlags → W → Reply SigInfo × W
  pub close : ℕ → W → Reply (Unit {0}) × W

abbrev pub state_of : Option ChildData → Option ChildState
state_of none = none
state_of (some d) = some d.state

-- `proc::wait`. The field `si_errno` marks the data as waitid(2)'s.
unfoldable pub wait_result : WaitFlags → Reply SigInfo → Outcome (Option ChildState)
wait_result flags (failed e) = throw (api_error "wait()" e)
wait_result flags (done si) =
    if flags.no_hang && si.si_pid == 0
    then ok none
    else ok (state_of (child_data (record si { si_errno = Errno.invalid_arg })))

abbrev pub is_no_child : Exception → Bool
is_no_child (api_error call e) = e == Errno.no_child
is_no_child x = false

module _ {W : Type 0} (k : WaitSystem W) where
  -- `FileDescriptor::close`.
  unfoldable pub close_fd : Option ℕ → W → Reply (Unit {0}) × W
  close_fd none w = (done tt, w)
  close_fd (some fd) w = k.close fd w

  -- The exception that `reset` throws if closing fails; the object is empty in any case.
  abbrev pub closed : {A : Type 0} → A → Reply (Unit {0}) × W → Outcome A × W
  closed a (done _, w) = (ok a, w)
  closed a (failed e, w) = (throw (api_error "close()" e), w)

  -- The handler of `wait`: where there is no child, the object is reset, whatever closing answers.
  unfoldable pub on_error : Exception → SubProc → W → (Outcome ChildState × SubProc) × W
  unfolding close_fd
  on_error x s w =
      if is_no_child x then ((throw x, empty), (close_fd s.child_fd w).1) else ((throw x, s), w)

  unfoldable pub handled : SubProc → Outcome ChildState × W → (Outcome ChildState × SubProc) × W
  unfolding on_error
  handled s (ok st, w) = ((ok st, s), w)
  handled s (throw x, w) = on_error x s w
  handled s (spins, w) = ((spins, s), w)

  -- A child state that was collected. Reading an empty optional is undefined, and stands here as a
  -- foreign exception; waitid(2) fills in a SIGCHLD, so that there is a state.
  unfoldable pub collected :
      WaitFlags → SubProc → Option ChildState → W → (Outcome ChildState × SubProc) × W
  unfolding handled close_fd
  collected flags s none w = ((throw foreign, s), w)
  collected flags s (some st) w =
      if not flags.leave_info && (exited st || killed st)
      then handled empty (closed st (close_fd s.child_fd w))
      else ((ok st, s), w)

  unfoldable pub after_wait :
      WaitFlags → SubProc → Outcome (Option ChildState) → W → (Outcome ChildState × SubProc) × W
  unfolding collected
  after_wait flags s (ok o) w = collected flags s o w
  after_wait flags s (throw x) w = on_error x s w
  after_wait flags s spins w = ((spins, s), w)

  unfoldable pub wait : WaitFlags → SubProc → W → (Outcome ChildState × SubProc) × W
  unfolding after_wait wait_result
  wait flags s w =
      if flags.no_hang
      then ((throw (usage_error "cannot use NO_HANG with SubProc, use waitTimed() instead"), s), w)
      else after_wait flags s (wait_result flags (k.waitid s.child_fd flags w).0)
          (k.waitid s.child_fd flags w).1

-- `fatal_error` ends the process.
pub data Moved : Type 0 where
  moved : SubProc → SubProc → Moved
  aborts : Moved

unfoldable pub move_assign : SubProc → SubProc → Moved
unfolding running
move_assign s other = if running s then aborts else moved other empty

-- The destructor: whether it returns.
unfoldable pub destroy : SubProc → Bool
unfolding running
destroy s = not (running s)
