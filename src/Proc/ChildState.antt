-- ===== src/Proc/ChildState.antt =====
-- `ChildState` of include/proc/types.hxx, and `SigInfo::childData` (src/proc/SigInfo.cxx), which
-- builds it from what waitid(2) or a SIGCHLD reports.
use libcosmos.Prelude.{
  ℕ, Bool, true, false, ◌||◌, ◌≡◌, ◌≢◌, refl, Option, none, some, ◌==◌, if◌then◌else◌, arith,
  Bool-cases, ◌⊎◌, inl, inr,
}
use libcosmos.Outcome.Errno
use libcosmos.Proc.ChildEvent.{
  Event, is_exited, is_killed, is_dumped, is_trapped, is_stopped, is_continued,
}

pub record ProcessCtx : Type 0 where
  pub pid : ℕ
  pub uid : ℕ

pub record ChildState : Type 0 where
  pub event : Event
  pub child : ProcessCtx
  pub status : Option ℕ
  pub signal : Option ℕ

unfoldable pub exited : ChildState → Bool
exited s = is_exited s.event

unfoldable pub killed : ChildState → Bool
killed s = is_killed s.event

unfoldable pub dumped : ChildState → Bool
dumped s = is_dumped s.event

unfoldable pub trapped : ChildState → Bool
trapped s = is_trapped s.event

unfoldable pub continued : ChildState → Bool
continued s = is_continued s.event

unfoldable pub stopped : ChildState → Bool
stopped s = is_stopped s.event

pub signaled : ChildState → Bool
signaled s = is_killed s.event || is_dumped s.event || is_stopped s.event || is_continued s.event

-- The fields of `siginfo_t` that are read here.
pub record SigInfo : Type 0 where
  pub si_signo : ℕ
  pub si_code : ℕ
  pub si_errno : ℕ
  pub si_pid : ℕ
  pub si_uid : ℕ
  pub si_status : ℕ
  pub si_utime : ℕ
  pub si_stime : ℕ

abbrev pub sigchld : ℕ
sigchld = 17

-- `Event{m_raw.si_code}`, by the values of `CLD_EXITED` to `CLD_CONTINUED`.
unfoldable pub event_of : ℕ → Event
event_of c =
    if c == 1
    then Event.exited
    else if c == 2
    then Event.killed
    else if c == 3
    then Event.dumped
    else if c == 4
    then Event.trapped
    else if c == 5
    then Event.stopped
    else if c == 6
    then Event.continued
    else Event.other

pub record ChildData : Type 0 where
  pub state : ChildState
  pub user_time : Option ℕ
  pub system_time : Option ℕ

child_state : SigInfo → Event → ChildState
child_state si event = record {
  event = event;
  child = record { pid = si.si_pid; uid = si.si_uid };
  status = if is_exited event then some si.si_status else none;
  signal = if is_exited event then none else some si.si_status;
}

child_report : SigInfo → ChildData
unfolding event_of child_state
child_report si =
    let is_waitid_res = si.si_errno == Errno.invalid_arg in
    record {
      state = child_state si (event_of si.si_code);
      user_time = if is_waitid_res then none else some si.si_utime;
      system_time = if is_waitid_res then none else some si.si_stime;
    }

unfoldable pub child_data : SigInfo → Option ChildData
unfolding child_report
child_data si = if si.si_signo == sigchld then some (child_report si) else none

code_lem :
    (si : SigInfo) (e : Event)
    → ((is_exited e ≡ true)
        × ((child_state si e).status ≡ some si.si_status)
        × ((child_state si e).signal ≡ none))
      ⊎ ((is_exited e ≡ false)
          × ((child_state si e).status ≡ none)
          × ((child_state si e).signal ≡ some si.si_status))
unfolding child_state
code_lem si Event.exited = inl (refl, refl, refl)
code_lem si _ = inr (refl, refl, refl)

-- What `childData` reports of a SIGCHLD: the event of the code; for an exit the status and no
-- signal, for any other event the signal and no status; and the times unless the report comes from
-- waitid(2). It reports nothing of any other signal.
pub child_data_lem :
    (si : SigInfo)
    → ((d : ChildData) × (child_data si ≡ some d)
        × (si.si_signo ≡ sigchld)
        × (d.state.event ≡ event_of si.si_code)
        × (d.state.child ≡ record { pid = si.si_pid; uid = si.si_uid })
        × (((exited d.state ≡ true)
              × (d.state.status ≡ some si.si_status)
              × (d.state.signal ≡ none))
            ⊎ ((exited d.state ≡ false)
                × (d.state.status ≡ none)
                × (d.state.signal ≡ some si.si_status)))
        × (((si.si_errno ≡ Errno.invalid_arg) × (d.user_time ≡ none) × (d.system_time ≡ none))
            ⊎ ((si.si_errno ≢ Errno.invalid_arg)
                × (d.user_time ≡ some si.si_utime)
                × (d.system_time ≡ some si.si_stime))))
      ⊎ ((child_data si ≡ none) × (si.si_signo ≢ sigchld))
unfolding child_data exited
child_data_lem si = elim (Bool-cases (si.si_signo == sigchld)) [
  | inl is ↦ inl (
    child_report si,
    rw is,
    ground arith,
    refl,
    refl,
    code_lem si (event_of si.si_code),
    ground arith,
  )
  | inr other ↦ inr (rw other, ground arith)
]
