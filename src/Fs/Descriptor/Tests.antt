-- ===== src/Fs/Descriptor/Tests.antt =====
-- Calls on a small system, and the theorems at these inputs.
use libcosmos.Prelude.{ℕ, suc, ◌≡◌, refl, true, false, [], ◌∷◌, none, ◌==◌, if◌then◌else◌}
use libcosmos.Outcome.{ok, throw, api_error, usage_error, done, failed}
use libcosmos.Outcome.Errno
use libcosmos.Fs.Descriptor.{
  Control, FileLock, set_lock, set_ofd_lock, get_signal, sync, f_setlk, f_getpipe_sz, f_setpipe_sz,
}

-- A lock is in the way, a pipe has 65536 bytes, and fsync(2) is interrupted once. The state counts the
-- calls.
abbrev control : Control ℕ
control = record {
  fcntl = λ cmd args w. (
    if cmd == f_setlk
        then failed Errno.again
        else if cmd == f_getpipe_sz
        then done 65536
        else if cmd == f_setpipe_sz
        then done 4096
        else done 0,
    suc w,
  );
  fsync = λ w. (if w == 0 then failed Errno.interrupted else done tt, suc w);
  errno = λ w. 2;
}

abbrev lock : FileLock
lock = record { pid = 0; fields = 1 ∷ [] }

held_lock : set_lock control lock 0 ≡ (ok false, 1)
unfolding set_lock
held_lock = refl

foreign_pid :
    set_ofd_lock control (record { pid = 7; fields = [] }) 0
    ≡ (throw (usage_error "attempt to set OFD lock with l_pid != 0"), 0)
unfolding set_ofd_lock
foreign_pid = refl

no_signal : get_signal control 0 ≡ (ok none, 1)
unfolding get_signal
no_signal = refl

syncs_again : sync control 2 true 0 ≡ (ok tt, 2)
unfolding sync
syncs_again = refl

gives_up : sync control 2 false 0 ≡ (throw (api_error "fsync()" 4), 1)
unfolding sync
gives_up = refl
