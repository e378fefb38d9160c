-- ===== src/Proc/ChildCloner/Tests.antt =====
-- Runs of a child on a small system, and the theorems at these inputs.
use libcosmos.Prelude.{
  ℕ, suc, ◌≤◌, ◌≡◌, refl, true, false, List, [], ◌∷◌, none, some, inl, inr, ◌+◌, arith, leb, length,
  if◌then◌else◌, codes, leb,
}
use libcosmos.Outcome.{Bytes, api_error, forwarded_error, usage_error, ok, throw}
use libcosmos.Outcome.Errno
use libcosmos.Proc.ChildCloner.{Settings, defaults, clear_args, verify_args, add_inherit_fd}
use libcosmos.Proc.ChildCloner.Launch.{
  ChildSystem, escapes, run_child, post_fork, errnum, int_bytes, int_of, prog_not_found,
}
use libcosmos.Proc.ChildCloner.Parent.{ParentSystem, tolerated, run}
use libcosmos.Proc.ChildCloner.ExitCodes.{in_exec, missing, ended, run_child_lem}
use libcosmos.Proc.ChildCloner.Forwarding.{refused, run_lem}

-- The state counts the calls. No program is found.
abbrev child_system : ChildSystem ℕ
child_system = record {
  apply_scheduler = λ w. (throw (api_error "sched_setscheduler" 1), suc w);
  unblock_signals = λ w. (ok tt, suc w);
  change_dir = λ path w. (ok tt, suc w);
  duplicate = λ fd to w. (ok tt, suc w);
  keep_on_exec = λ fd w. (ok tt, suc w);
  callback = λ w. (ok tt, suc w);
  exec = λ path args vars w. (some (api_error "execve()" Errno.no_entry), suc w);
  send = λ m w. (none, suc w);
  print_error = λ section text w. w + 100;
  what = λ x. codes "execve(): no entry";
}

abbrev first_packet : List Bytes → ℕ → Bytes × List Bytes
first_packet [] n = ([], [])
first_packet (m ∷ ms) n = if leb (length m) n then (m, ms) else ([], [])

abbrev parent_system : ParentSystem ℕ
parent_system = record {
  open_pipe = λ w. (ok tt, suc w);
  clone = λ w. (ok 77, suc w);
  kill = λ w. (throw (api_error "pidfd_send_signal()" 3), suc w);
  wait = λ w. (ok tt, suc w);
  print_warning = λ text w. w + 1000;
  receive = λ ms n w. (ok (first_packet ms n), suc w);
}

settings : Settings
unfolding defaults
settings = record defaults {
  executable = codes "ls";
  argv = codes "ls" ∷ codes "-l" ∷ codes "-a" ∷ [];
  has_scheduler = true;
  std_out = some 5;
  forward_child_errors = true;
}

run_forwards :
    run parent_system child_system settings 0
    ≡ (throw (forwarded_error 2 (codes "execve(): no entry")), 1006)
unfolding run run_child settings verify_args int_of
run_forwards = refl

stdio_refused :
    add_inherit_fd 2 settings ≡ throw (usage_error "added stdio or invalid FD as extra inherit FD")
unfolding add_inherit_fd
stdio_refused = refl

first_packet_whole :
    (m : Bytes) (ms : List Bytes) (n : ℕ) → length m ≤ n → first_packet (m ∷ ms) n ≡ (m, ms)
first_packet_whole m ms n h = ground arith

run_lem_example :
    run parent_system child_system settings 0
    ≡ (throw (forwarded_error 2 (codes "execve(): no entry")), 1006)
unfolding settings post_fork verify_args errnum int_bytes tolerated
run_lem_example =
    run_lem parent_system
      record {
        at_end = λ n w. refl;
        whole = λ m ms n w some_bytes fits. first_packet_whole m ms n fits;
      }
      record { kills = λ v. refl; waits = λ v. refl } child_system (λ m w. refl) settings 0 1 2 77
      (some (2, codes "execve(): no entry")) refl refl refl refl
      (refused 105 106 (api_error "execve()" 2) 2 refl refl refl refl)
      (omega arith, omega arith, omega arith)

run_child_lem_example : run_child child_system settings false 2 ≡ ended prog_not_found 106
unfolding settings post_fork errnum
run_child_lem_example = run_child_lem child_system settings 2 (
    in_exec 105 106 (api_error "execve()" 2) 2 refl refl refl refl (missing (inr (inr (inl refl)))))

-- A read of the pipe that fails.
abbrev deaf_system : ParentSystem ℕ
deaf_system = record parent_system { receive = λ ms n w. (throw (api_error "read()" 5), suc w) }

read_fails : run deaf_system child_system settings 0 ≡ (throw (api_error "read()" 5), 1005)
unfolding run run_child settings verify_args
read_fails = refl

-- A pipe that takes no more: the second report has no descriptor.
abbrev mute_system : ChildSystem ℕ
mute_system = record child_system { send = λ m w. (some (api_error "write()" 32), suc w) }

write_fails :
    run_child mute_system settings true 2
    ≡ record { fate = escapes (api_error "write()" 9); packets = []; left = 107 }
unfolding run_child settings
write_fails = refl

one_argument_less : (clear_args settings).argv ≡ codes "ls" ∷ codes "-a" ∷ []
unfolding settings clear_args
one_argument_less = refl
