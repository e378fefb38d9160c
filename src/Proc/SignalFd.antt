-- ===== src/Proc/SignalFd.antt =====
-- `SignalFD` of include/proc/SignalFD.hxx and src/proc/SignalFD.cxx, and the records that are read
-- from it. signalfd(2), read(2) and close(2) are parameters.
pub mod Reports
mod Tests
use libcosmos.Prelude.{
  ℕ, ◌^◌, ◌-◌, ◌%◌, Bool, true, false, ◌&&◌, ◌||◌, List, [], Option, none, some, ◌==◌, ltb,
  if◌then◌else◌,
}
use libcosmos.Outcome.{
  api_error, usage_error, runtime_error, Outcome, ok, throw, spins, Reply, done, failed, Comp,
  checked,
}
use libcosmos.Proc.ChildState.{ProcessCtx, ChildState, ChildData, event_of, sigchld}
use libcosmos.Proc.ChildEvent.{is_exited}
use libcosmos.Proc.SigInfo.{
  in_list, special_sigs, kernel, user, queue, mesgq, timer, TimerData, SysData, PollData, sigsys,
  sigpoll,
}

-- `signalfd_siginfo`.
pub record Info : Type 0 where
  pub ssi_signo : ℕ
  pub ssi_errno : ℕ
  pub ssi_code : ℕ
  pub ssi_pid : ℕ
  pub ssi_uid : ℕ
  pub ssi_fd : ℕ
  pub ssi_tid : ℕ
  pub ssi_band : ℕ
  pub ssi_overrun : ℕ
  pub ssi_status : ℕ
  pub ssi_ptr : ℕ
  pub ssi_utime : ℕ
  pub ssi_stime : ℕ
  pub ssi_call_addr : ℕ
  pub ssi_syscall : ℕ
  pub ssi_arch : ℕ

-- `m_raw.ssi_code >= 0`.
unfoldable pub is_trusted_source : Info → Bool
is_trusted_source m = ltb m.ssi_code (2 ^ 31)

unfoldable pub source : Info → ℕ
unfolding is_trusted_source in_list
source m = if is_trusted_source m && in_list m.ssi_signo special_sigs then kernel else m.ssi_code

unfoldable pub proc_ctx : Info → ProcessCtx
proc_ctx m = record { pid = m.ssi_pid; uid = m.ssi_uid }

unfoldable pub user_sig_data : Info → Option ProcessCtx
unfolding source proc_ctx
user_sig_data m = if source m == user then some (proc_ctx m) else none

unfoldable pub queue_sig_data : Info → Option (ProcessCtx × ℕ)
unfolding source proc_ctx
queue_sig_data m = if source m == queue then some (proc_ctx m, m.ssi_ptr) else none

unfoldable pub msg_queue_data : Info → Option (ProcessCtx × ℕ)
unfolding source proc_ctx
msg_queue_data m = if source m == mesgq then some (proc_ctx m, m.ssi_ptr) else none

unfoldable pub timer_data : Info → Option TimerData
unfolding source
timer_data m =
    if source m == timer then some (record { id = m.ssi_tid; overrun = m.ssi_overrun }) else none

unfoldable pub sys_data : Info → Option SysData
sys_data m =
    if m.ssi_signo == sigsys
    then some (record {
      reason = m.ssi_code;
      call_addr = m.ssi_call_addr;
      call_nr = m.ssi_syscall;
      arch = m.ssi_arch;
      error = m.ssi_errno;
    })
    else none

unfoldable pub child_data : Info → Option ChildData
unfolding proc_ctx
child_data m =
    let event = event_of m.ssi_code in
    if m.ssi_signo == sigchld
    then some (record {
      state = record {
        event = event;
        child = proc_ctx m;
        status = if is_exited event then some m.ssi_status else none;
        signal = if is_exited event then none else some m.ssi_status;
      };
      user_time = some m.ssi_utime;
      system_time = some m.ssi_stime;
    })
    else none

-- `IO_EVENT` and `POLL` are one signal. The events are cut to a `short`.
unfoldable pub poll_data : Info → Option PollData
poll_data m =
    if m.ssi_signo == sigpoll || m.ssi_signo == sigpoll
    then some (record { reason = m.ssi_code; fd = m.ssi_fd; events = m.ssi_band % 2 ^ 16 })
    else none

-- signalfd(2) by its descriptor, where -1 asks for a new one; a signal mask is its bits.
pub record SignalCalls (W : Type 0) : Type 0 where
  pub signalfd : ℕ → ℕ → ℕ → W → Reply ℕ × W
  pub read : ℕ → W → Reply (ℕ × Info) × W
  pub close : ℕ → W → Reply (Unit {0}) × W

-- `m_fd.raw()`.
abbrev pub raw_fd : Option ℕ → ℕ
raw_fd none = 2 ^ 32 - 1
raw_fd (some fd) = fd

module _ {W : Type 0} (k : SignalCalls W) where
  -- The object is its descriptor.
  abbrev pub closed : Reply (Unit {0}) × W → (Outcome (Unit {0}) × Option ℕ) × W
  closed (done _, w) = ((ok tt, none), w)
  closed (failed e, w) = ((throw (api_error "close()" e), none), w)

  unfoldable pub close_fd : Option ℕ → W → (Outcome (Unit {0}) × Option ℕ) × W
  close_fd none w = ((ok tt, none), w)
  close_fd (some fd) w = closed (k.close fd w)

  abbrev pub opened : Reply ℕ × W → (Outcome (Unit {0}) × Option ℕ) × W
  opened (done fd, w) = ((ok tt, some fd), w)
  opened (failed e, w) = ((throw (api_error "signalfd()" e), none), w)

  unfoldable pub create : ℕ → ℕ → Option ℕ → W → (Outcome (Unit {0}) × Option ℕ) × W
  unfolding close_fd
  create mask flags fd w = then_open (close_fd fd w)
    where
      then_open : (Outcome (Unit {0}) × Option ℕ) × W → (Outcome (Unit {0}) × Option ℕ) × W
      then_open ((ok _, fd), w) = opened (k.signalfd (2 ^ 32 - 1) mask flags w)
      then_open ((throw x, fd), w) = ((throw x, fd), w)
      then_open ((spins, fd), w) = ((spins, fd), w)

  abbrev pub unit_of : Outcome ℕ × W → Outcome (Unit {0}) × W
  unit_of (ok fd, w) = (ok tt, w)
  unit_of (throw x, w) = (throw x, w)
  unit_of (spins, w) = (spins, w)

  unfoldable pub adjust_mask : ℕ → Option ℕ → Comp W (Unit {0})
  adjust_mask mask none w = (throw (usage_error "no signal fd currently open"), w)
  adjust_mask mask (some fd) w = unit_of (checked (api_error "signalfd()") (k.signalfd fd mask 0 w))

  -- A record is of 128 bytes; the answer of read(2) is how many it wrote, and the record then.
  unfoldable pub read_event : Option ℕ → Comp W Info
  read_event fd w = complete (k.read (raw_fd fd) w)
    where
      complete : Reply (ℕ × Info) × W → Outcome Info × W
      complete (done (res, info), w) =
          if ltb res 128
          then (throw (runtime_error "short read from signal fd" []), w)
          else (ok info, w)
      complete (failed e, w) = (throw (api_error "read(sigfd)" e), w)
