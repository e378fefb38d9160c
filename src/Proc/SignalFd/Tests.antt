-- ===== src/Proc/SignalFd/Tests.antt =====
-- Signals read from a descriptor, and the theorem at one. The state counts the calls.
use libcosmos.Prelude.{ℕ, suc, ◌^◌, ◌-◌, ◌≡◌, refl, [], none, some}
use libcosmos.Outcome.{ok, throw, api_error, usage_error, runtime_error, done, failed}
use libcosmos.Proc.SigInfo.Reports.{Tells}
use libcosmos.Proc.SignalFd.{
  Info, SignalCalls, user_sig_data, queue_sig_data, msg_queue_data, timer_data, sys_data,
  child_data, poll_data, create, adjust_mask, read_event,
}
use libcosmos.Proc.SignalFd.Reports.{
  Sent, sender, timer_of, system_call, poll_of, child_of, fd_reports_lem,
}

-- A child that has exited.
abbrev exit_signal : Info
exit_signal = record {
  ssi_signo = 17;
  ssi_errno = 0;
  ssi_code = 1;
  ssi_pid = 20;
  ssi_uid = 0;
  ssi_fd = 0;
  ssi_tid = 0;
  ssi_band = 0;
  ssi_overrun = 0;
  ssi_status = 3;
  ssi_ptr = 0;
  ssi_utime = 0;
  ssi_stime = 0;
  ssi_call_addr = 0;
  ssi_syscall = 0;
  ssi_arch = 0;
}

abbrev calls : ℕ → SignalCalls ℕ
calls size = record {
  signalfd = λ fd mask flags w. (done 6, suc w);
  read = λ fd w. (done (size, exit_signal), suc w);
  close = λ fd w. (failed 5, suc w);
}

-- The descriptor is given up, and no new one opened.
close_fails : create (calls 128) 1 0 (some 4) 0 ≡ ((throw (api_error "close()" 5), none), 1)
unfolding create
close_fails = refl

nothing_to_adjust :
    adjust_mask (calls 128) 1 none 0 ≡ (throw (usage_error "no signal fd currently open"), 0)
unfolding adjust_mask
nothing_to_adjust = refl

whole_record : read_event (calls 128) (some 6) 0 ≡ (ok exit_signal, 1)
unfolding read_event
whole_record = refl

short_read :
    read_event (calls 127) (some 6) 0 ≡ (throw (runtime_error "short read from signal fd" []), 1)
unfolding read_event
short_read = refl

fd_reports_lem_example :
    Tells (user_sig_data exit_signal) (sender exit_signal) (Sent exit_signal 0)
    × Tells (queue_sig_data exit_signal) (sender exit_signal, 0) (Sent exit_signal (2 ^ 32 - 1))
    × Tells (msg_queue_data exit_signal) (sender exit_signal, 0) (Sent exit_signal (2 ^ 32 - 3))
    × Tells (timer_data exit_signal) (timer_of exit_signal) (Sent exit_signal (2 ^ 32 - 2))
    × Tells (sys_data exit_signal) (system_call exit_signal) (◌≡◌ {A = ℕ} 17 31)
    × Tells (poll_data exit_signal) (poll_of exit_signal) (◌≡◌ {A = ℕ} 17 29)
    × Tells (child_data exit_signal) (child_of exit_signal) (◌≡◌ {A = ℕ} 17 17)
fd_reports_lem_example = fd_reports_lem exit_signal
