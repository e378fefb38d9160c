-- ===== src/Proc/SubProc/Tests.antt =====
-- A child that exits and one that stops, and the theorem at these inputs.
use libcosmos.Prelude.{ℕ, suc, ◌≡◌, refl, false, some, ◌==◌, if◌then◌else◌}
use libcosmos.Outcome.{done, failed}
use libcosmos.Outcome.Errno
use libcosmos.Proc.ChildState.{SigInfo, exited, killed, child_data, sigchld}
use libcosmos.Proc.SubProc.{WaitFlags, SubProc, empty, WaitSystem, wait, move_assign, aborts}
use libcosmos.Proc.SubProc.Waiting.{Waited, wait-Waited}

abbrev info : ℕ → SigInfo
info code = record {
  si_signo = sigchld;
  si_code = code;
  si_errno = 0;
  si_pid = 77;
  si_uid = 0;
  si_status = 6;
  si_utime = 0;
  si_stime = 0;
}

-- One report, and then no child.
abbrev reports : ℕ → WaitSystem ℕ
reports code = record {
  waitid = λ fd flags w. (if w == 0 then done (info code) else failed Errno.no_child, suc w);
  close = λ fd w. (done tt, w);
}

abbrev blocking : WaitFlags
blocking = record { no_hang = false; leave_info = false }

abbrev child : SubProc
child = record { pid = some 77; child_fd = some 5 }

released_at_exit : (wait (reports 1) blocking child 0).0.1 ≡ empty
unfolding wait exited killed child_data
released_at_exit = refl

kept_at_stop : (wait (reports 5) blocking child 0).0.1 ≡ child
unfolding wait exited killed child_data
kept_at_stop = refl

into_running : move_assign child empty ≡ aborts
unfolding move_assign
into_running = refl

wait-Waited_example : Waited (reports 1) blocking child (wait (reports 1) blocking child 0)
wait-Waited_example = wait-Waited (reports 1) blocking child 0
