-- ===== src/Proc/SigInfo/Tests.antt =====
-- A segmentation fault and a queued signal, and the theorem at a SIGSYS.
use libcosmos.Prelude.{ℕ, ◌^◌, ◌-◌, ◌≡◌, refl, none, some}
use libcosmos.Proc.SigInfo.{
  Details, source, user_sig_data, queue_sig_data, msg_queue_data, timer_data, sys_data, poll_data,
  ill_data, fpe_data, segfault_data, bus_data, kernel, queue,
}
use libcosmos.Proc.SigInfo.Reports.{
  Tells, Sent, sender, timer_of, system_call, poll_of, fault_of, segfault_of, bus_of, reports_lem,
}

abbrev report : ℕ → ℕ → Details
report signo code = record {
  basic = record {
    si_signo = signo;
    si_code = code;
    si_errno = 0;
    si_pid = 40;
    si_uid = 1000;
    si_status = 0;
    si_utime = 0;
    si_stime = 0;
  };
  si_value = 7;
  si_timerid = 0;
  si_overrun = 0;
  si_addr = 4096;
  si_addr_lsb = 0;
  si_lower = 1;
  si_upper = 2;
  si_pkey = 3;
  si_band = 0;
  si_fd = 0;
  si_call_addr = 0;
  si_syscall = 0;
  si_arch = 0;
}

protection_key :
    segfault_data (report 11 4)
    ≡ some (record { fault = record { addr = 4096; reason = 4 }; bound = none; key = some 3 })
unfolding segfault_data
protection_key = refl

-- A queued SIGSEGV is none of the kernel's.
queued :
    (source (report 11 queue) ≡ queue)
    × (source (report 11 1) ≡ kernel)
    × (queue_sig_data (report 11 queue) ≡ some (record { pid = 40; uid = 1000 }, 7))
unfolding source queue_sig_data
queued = (refl, refl, refl)

reports_lem_example :
    Tells (user_sig_data (report 31 0)) (sender (report 31 0)) (Sent (report 31 0) 0)
    × Tells
        (queue_sig_data (report 31 0))
        (sender (report 31 0), 7)
        (Sent (report 31 0) (2 ^ 32 - 1))
    × Tells
        (msg_queue_data (report 31 0))
        (sender (report 31 0), 7)
        (Sent (report 31 0) (2 ^ 32 - 3))
    × Tells (timer_data (report 31 0)) (timer_of (report 31 0)) (Sent (report 31 0) (2 ^ 32 - 2))
    × Tells (sys_data (report 31 0)) (system_call (report 31 0)) (◌≡◌ {A = ℕ} 31 31)
    × Tells (poll_data (report 31 0)) (poll_of (report 31 0)) (◌≡◌ {A = ℕ} 31 29)
    × Tells (ill_data (report 31 0)) (fault_of (report 31 0)) (◌≡◌ {A = ℕ} 31 4)
    × Tells (fpe_data (report 31 0)) (fault_of (report 31 0)) (◌≡◌ {A = ℕ} 31 8)
    × Tells (segfault_data (report 31 0)) (segfault_of (report 31 0)) (◌≡◌ {A = ℕ} 31 11)
    × Tells (bus_data (report 31 0)) (bus_of (report 31 0)) (◌≡◌ {A = ℕ} 31 7)
reports_lem_example = reports_lem (report 31 0)
