-- ===== src/Proc/SignalFd/Reports.antt =====
-- Which reports of a record that is read from a `SignalFD` have data, and which.
use libcosmos.Prelude.{
  ℕ, ◌-◌, ◌^◌, ◌%◌, ◌≡◌, ◌≢◌, subst, sym, refl, arith, Bool, none, some, ◌==◌, if◌then◌else◌,
}
use libcosmos.Proc.ChildState.{ProcessCtx, ChildData, event_of}
use libcosmos.Proc.ChildEvent.{is_exited}
use libcosmos.Proc.SigInfo
use libcosmos.Proc.SigInfo.{Details, SysData, PollData, TimerData}
use libcosmos.Proc.SigInfo.Reports.{Tells, FromKernel, tells, either, sender_lem}
use libcosmos.Proc.SignalFd.{
  Info, is_trusted_source, source, proc_ctx, user_sig_data, queue_sig_data, msg_queue_data,
  timer_data, sys_data, child_data, poll_data,
}

module _ (m : Info) where
  abbrev pub Sent : ℕ → Type 0
  Sent c = (m.ssi_code ≡ c) × (FromKernel m.ssi_signo m.ssi_code → ⊥)

  abbrev pub sender : ProcessCtx
  sender = record { pid = m.ssi_pid; uid = m.ssi_uid }

  abbrev pub timer_of : TimerData
  timer_of = record { id = m.ssi_tid; overrun = m.ssi_overrun }

  abbrev pub system_call : SysData
  system_call = record {
    reason = m.ssi_code;
    call_addr = m.ssi_call_addr;
    call_nr = m.ssi_syscall;
    arch = m.ssi_arch;
    error = m.ssi_errno;
  }

  abbrev pub poll_of : PollData
  poll_of = record { reason = m.ssi_code; fd = m.ssi_fd; events = m.ssi_band % 2 ^ 16 }

  -- `CLD_EXITED` is 1.
  abbrev child_with : Bool → ChildData
  child_with exits = record {
    state = record {
      event = event_of m.ssi_code;
      child = sender;
      status = if exits then some m.ssi_status else none;
      signal = if exits then none else some m.ssi_status;
    };
    user_time = some m.ssi_utime;
    system_time = some m.ssi_stime;
  }

  abbrev pub child_of : ChildData
  child_of = child_with (m.ssi_code == 1)

  -- A `siginfo_t` with the same signal and code, whose source is found in the same way.
  like : Details
  like = record {
    basic = record {
      si_signo = m.ssi_signo;
      si_code = m.ssi_code;
      si_errno = 0;
      si_pid = 0;
      si_uid = 0;
      si_status = 0;
      si_utime = 0;
      si_stime = 0;
    };
    si_value = 0;
    si_timerid = 0;
    si_overrun = 0;
    si_addr = 0;
    si_addr_lsb = 0;
    si_lower = 0;
    si_upper = 0;
    si_pkey = 0;
    si_band = 0;
    si_fd = 0;
    si_call_addr = 0;
    si_syscall = 0;
    si_arch = 0;
  }

  same_source : SigInfo.source like ≡ source m
  unfolding like source SigInfo.source is_trusted_source SigInfo.is_trusted_source
  same_source = refl

  by_code :
      {A : Type 0} (c : ℕ) (a : A)
      → c ≢ SigInfo.kernel
      → Tells (if source m == c then some a else none) a (Sent c)
  unfolding like
  by_code c a n =
      subst (λ x. Tells (if x == c then some a else none) a (Sent c)) same_source
        (sender_lem like c a n)

exit_code : (c : ℕ) → is_exited (event_of c) ≡ (c == 1)
unfolding event_of
exit_code c = ground arith

-- The reports on the sender have their data exactly for the codes of sigaction(2): `SI_USER` (0),
-- `SI_QUEUE` (-1), `SI_MESGQ` (-3) and `SI_TIMER` (-2), and `SI_USER` only for signals that the
-- kernel does not send with codes of its own.
-- The reports on a system call, a file and a child have theirs exactly for SIGSYS, SIGPOLL and
-- SIGCHLD; a child has a status exactly if the code is `CLD_EXITED`, and else a signal.
pub fd_reports_lem :
    (m : Info)
    → Tells (user_sig_data m) (sender m) (Sent m 0)
      × Tells (queue_sig_data m) (sender m, m.ssi_ptr) (Sent m (2 ^ 32 - 1))
      × Tells (msg_queue_data m) (sender m, m.ssi_ptr) (Sent m (2 ^ 32 - 3))
      × Tells (timer_data m) (timer_of m) (Sent m (2 ^ 32 - 2))
      × Tells (sys_data m) (system_call m) (m.ssi_signo ≡ 31)
      × Tells (poll_data m) (poll_of m) (m.ssi_signo ≡ 29)
      × Tells (child_data m) (child_of m) (m.ssi_signo ≡ 17)
unfolding user_sig_data queue_sig_data msg_queue_data timer_data sys_data poll_data child_data
    proc_ctx
fd_reports_lem m = (
  by_code m 0 (sender m) (omega arith),
  by_code m (2 ^ 32 - 1) (sender m, m.ssi_ptr) (omega arith),
  by_code m (2 ^ 32 - 3) (sender m, m.ssi_ptr) (omega arith),
  by_code m (2 ^ 32 - 2) (timer_of m) (omega arith),
  tells m.ssi_signo 31 (system_call m),
  either m.ssi_signo (poll_of m),
  subst
      (λ b.
        Tells (if m.ssi_signo == 17 then some (child_with m b) else none) (child_of m)
          (m.ssi_signo ≡ 17))
      (sym (exit_code m.ssi_code)) (tells m.ssi_signo 17 (child_of m)),
)
