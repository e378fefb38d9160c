-- ===== src/Proc/SubProc/Timed/Tests.antt =====
-- A wait whose time is over and one behind which the child has ended; the state is the list of the
-- calls, the last one first.
use libcosmos.Prelude.{ℕ, ◌≡◌, refl, true, false, List, [], ◌∷◌, none, some}
use libcosmos.Outcome.{ok, done}
use libcosmos.Time.TimeSpec.{TimeSpec}
use libcosmos.Io.Poller.{PollEvent, PollCalls}
use libcosmos.Proc.ChildState.{SigInfo, sigchld, exited, killed, child_data}
use libcosmos.Proc.SubProc.{SubProc, WaitFlags, WaitSystem}
use libcosmos.Proc.SubProc.Timed.{wait_timed}
use libcosmos.Proc.SubProc.Timed.Released.{Released, wait_timed-Released}

abbrev Calls : Type 0
Calls = List ℕ

abbrev ended : SigInfo
ended = record {
  si_signo = sigchld;
  si_code = 1;
  si_errno = 0;
  si_pid = 77;
  si_uid = 0;
  si_status = 6;
  si_utime = 0;
  si_stime = 0;
}

-- 1 is waitid(2), and 10 and a descriptor its close(2).
abbrev child_calls : WaitSystem Calls
child_calls = record {
  waitid = λ fd flags w. (done ended, 1 ∷ w);
  close = λ fd w. (done tt, 10 ∷ fd ∷ w);
}

-- Descriptor 6 is the poll descriptor.
abbrev poll_calls : List PollEvent → PollCalls Calls
poll_calls events = record {
  epoll_create = λ w. (done 6, 2 ∷ w);
  ctl_add = λ epfd fd flags w. (done tt, 3 ∷ w);
  ctl_mod = λ epfd fd flags w. (done tt, w);
  ctl_del = λ epfd fd w. (done tt, w);
  epoll_pwait = λ epfd n timeout w. (done events, 4 ∷ w);
  close = λ fd w. (done tt, 10 ∷ fd ∷ w);
}

abbrev second : TimeSpec
second = record { tv_sec = 1; tv_nsec = 0 }

abbrev child : SubProc
child = record { pid = some 77; child_fd = some 5 }

abbrev blocking : WaitFlags
blocking = record { no_hang = false; leave_info = false }

time_over :
    wait_timed child_calls (poll_calls []) 3 true second blocking child []
    ≡ ((ok none, child), 10 ∷ 6 ∷ 4 ∷ 3 ∷ 2 ∷ [])
unfolding wait_timed
time_over = refl

collected_in_time :
    (wait_timed child_calls
      (poll_calls (record { fd = 5; events = 1 } ∷ []))
      3
      true
      second
      blocking
      child
      []).1
    ≡ 10 ∷ 6 ∷ 10 ∷ 5 ∷ 1 ∷ 4 ∷ 3 ∷ 2 ∷ []
unfolding wait_timed exited killed child_data
collected_in_time = refl

wait_timed-Released_example :
    Released child_calls
      (poll_calls [])
      blocking
      child
      (done 6, 2 ∷ [])
      (wait_timed child_calls (poll_calls []) 3 true second blocking child [])
wait_timed-Released_example =
    wait_timed-Released child_calls (poll_calls []) blocking child 3 true second []
