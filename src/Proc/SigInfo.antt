-- ===== src/Proc/SigInfo.antt =====
-- `SigInfo` of include/proc/SigInfo.hxx and src/proc/SigInfo.cxx: what a `siginfo_t` says of where a
-- signal comes from, and the data that it carries. `si_code` is its bit pattern.
pub mod Reports
mod Tests
use libcosmos.Prelude.{
  ℕ, ◌-◌, ◌^◌, ◌%◌, Bool, true, false, ◌&&◌, ◌||◌, List, [], ◌∷◌, Option, none, some, ◌==◌, ltb,
  if◌then◌else◌,
}
use libcosmos.Proc.ChildState.{ProcessCtx, SigInfo, sigchld}

-- The parts of the union that only some signals have.
pub record Details : Type 0 where
  pub basic : SigInfo
  pub si_value : ℕ
  pub si_timerid : ℕ
  pub si_overrun : ℕ
  pub si_addr : ℕ
  pub si_addr_lsb : ℕ
  pub si_lower : ℕ
  pub si_upper : ℕ
  pub si_pkey : ℕ
  pub si_band : ℕ
  pub si_fd : ℕ
  pub si_call_addr : ℕ
  pub si_syscall : ℕ
  pub si_arch : ℕ

abbrev pub sigill : ℕ
sigill = 4

abbrev pub sigtrap : ℕ
sigtrap = 5

abbrev pub sigbus : ℕ
sigbus = 7

abbrev pub sigfpe : ℕ
sigfpe = 8

abbrev pub sigsegv : ℕ
sigsegv = 11

abbrev pub sigpoll : ℕ
sigpoll = 29

abbrev pub sigsys : ℕ
sigsys = 31

-- `SigInfo::Source`.
abbrev pub user : ℕ
user = 0

abbrev pub kernel : ℕ
kernel = 0x80

abbrev pub queue : ℕ
queue = 2 ^ 32 - 1

abbrev pub timer : ℕ
timer = 2 ^ 32 - 2

abbrev pub mesgq : ℕ
mesgq = 2 ^ 32 - 3

unfoldable pub in_list : ℕ → List ℕ → Bool
in_list x [] = false
in_list x (y ∷ ys) = x == y || in_list x ys

-- `m_raw.si_code >= 0`.
unfoldable pub is_trusted_source : Details → Bool
is_trusted_source si = ltb si.basic.si_code (2 ^ 31)

abbrev pub special_sigs : List ℕ
special_sigs =
    sigfpe ∷ sigbus ∷ sigill ∷ sigsegv ∷ sigbus ∷ sigtrap ∷ sigchld ∷ sigpoll ∷ sigsys ∷ []

unfoldable pub source : Details → ℕ
unfolding is_trusted_source in_list
source si =
    if is_trusted_source si && in_list si.basic.si_signo special_sigs
    then kernel
    else si.basic.si_code

unfoldable pub is_fault_signal : Details → Bool
unfolding in_list
is_fault_signal si = in_list si.basic.si_signo (sigill ∷ sigfpe ∷ sigsegv ∷ sigbus ∷ sigtrap ∷ [])

unfoldable pub proc_ctx : Details → ProcessCtx
proc_ctx si = record { pid = si.basic.si_pid; uid = si.basic.si_uid }

unfoldable pub user_sig_data : Details → Option ProcessCtx
unfolding source proc_ctx
user_sig_data si = if source si == user then some (proc_ctx si) else none

-- `QueueSigData` and `MsgQueueData`: the sender and the custom data.
unfoldable pub queue_sig_data : Details → Option (ProcessCtx × ℕ)
unfolding source proc_ctx
queue_sig_data si = if source si == queue then some (proc_ctx si, si.si_value) else none

unfoldable pub msg_queue_data : Details → Option (ProcessCtx × ℕ)
unfolding source proc_ctx
msg_queue_data si = if source si == mesgq then some (proc_ctx si, si.si_value) else none

pub record TimerData : Type 0 where
  pub id : ℕ
  pub overrun : ℕ

unfoldable pub timer_data : Details → Option TimerData
unfolding source
timer_data si =
    if source si == timer
    then some (record { id = si.si_timerid; overrun = si.si_overrun })
    else none

pub record SysData : Type 0 where
  pub reason : ℕ
  pub call_addr : ℕ
  pub call_nr : ℕ
  pub arch : ℕ
  pub error : ℕ

unfoldable pub sys_data : Details → Option SysData
sys_data si =
    if si.basic.si_signo == sigsys
    then some (record {
      reason = si.basic.si_code;
      call_addr = si.si_call_addr;
      call_nr = si.si_syscall;
      arch = si.si_arch;
      error = si.basic.si_errno;
    })
    else none

pub record PollData : Type 0 where
  pub reason : ℕ
  pub fd : ℕ
  pub events : ℕ

-- `IO_EVENT` and `POLL` are one signal. The events are cut to a `short`.
unfoldable pub poll_data : Details → Option PollData
poll_data si =
    if si.basic.si_signo == sigpoll || si.basic.si_signo == sigpoll
    then some (record { reason = si.basic.si_code; fd = si.si_fd; events = si.si_band % 2 ^ 16 })
    else none

-- `IllData` and `FPEData`: an address and a reason.
pub record FaultData : Type 0 where
  pub addr : ℕ
  pub reason : ℕ

unfoldable pub ill_data : Details → Option FaultData
ill_data si =
    if si.basic.si_signo == sigill
    then some (record { addr = si.si_addr; reason = si.basic.si_code })
    else none

unfoldable pub fpe_data : Details → Option FaultData
fpe_data si =
    if si.basic.si_signo == sigfpe
    then some (record { addr = si.si_addr; reason = si.basic.si_code })
    else none

pub record SegfaultData : Type 0 where
  pub fault : FaultData
  pub bound : Option (ℕ × ℕ)
  pub key : Option ℕ

abbrev pub bound_error : ℕ
bound_error = 3

abbrev pub prot_key_error : ℕ
prot_key_error = 4

unfoldable pub segfault_data : Details → Option SegfaultData
segfault_data si =
    let reason = si.basic.si_code in
    if si.basic.si_signo == sigsegv
    then some (record {
      fault = record { addr = si.si_addr; reason = reason };
      bound = if reason == bound_error then some (si.si_lower, si.si_upper) else none;
      key = if reason == prot_key_error then some si.si_pkey else none;
    })
    else none

pub record BusData : Type 0 where
  pub fault : FaultData
  pub addr_lsb : Option ℕ

abbrev pub mce_action_required : ℕ
mce_action_required = 4

abbrev pub mce_action_optional : ℕ
mce_action_optional = 5

unfoldable pub bus_data : Details → Option BusData
unfolding in_list
bus_data si =
    let reason = si.basic.si_code in
    if si.basic.si_signo == sigbus
    then some (record {
      fault = record { addr = si.si_addr; reason = reason };
      addr_lsb =
          if in_list reason (mce_action_required ∷ mce_action_optional ∷ [])
          then some si.si_addr_lsb
          else none;
    })
    else none
