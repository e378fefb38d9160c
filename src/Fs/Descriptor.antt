-- ===== src/Fs/Descriptor.antt =====
-- The calls of fcntl(2), dup3(2) and fsync(2) in src/fs/FileDescriptor.cxx. A command is fcntl's
-- argument with what is passed along, as numbers; `errno` reads the error number that is left over
-- where no call failed.
pub mod Locks
mod Tests
use libcosmos.Prelude.{
  ℕ, zero, suc, Bool, true, false, not, ◌&&◌, ◌||◌, List, [], ◌∷◌, Option, none, some, ◌==◌,
  if◌then◌else◌, String,
}
use libcosmos.Outcome.{
  Exception, api_error, usage_error, Outcome, ok, throw, spins, Reply, done, failed, Comp, checked,
}
use libcosmos.Outcome.Errno

pub record Control (W : Type 0) : Type 0 where
  pub fcntl : ℕ → List ℕ → W → Reply ℕ × W
  pub fsync : W → Reply (Unit {0}) × W
  pub errno : W → ℕ

abbrev pub f_getfd : ℕ
f_getfd = 1

abbrev pub f_setfd : ℕ
f_setfd = 2

abbrev pub f_setlk : ℕ
f_setlk = 6

abbrev pub f_setlkw : ℕ
f_setlkw = 7

abbrev pub f_setsig : ℕ
f_setsig = 10

abbrev pub f_getsig : ℕ
f_getsig = 11

abbrev pub f_ofd_setlk : ℕ
f_ofd_setlk = 37

abbrev pub f_ofd_setlkw : ℕ
f_ofd_setlkw = 38

abbrev pub f_setpipe_sz : ℕ
f_setpipe_sz = 1031

abbrev pub f_getpipe_sz : ℕ
f_getpipe_sz = 1032

abbrev pub f_get_seals : ℕ
f_get_seals = 1034

-- The lock's process ID, and its other fields.
pub record FileLock : Type 0 where
  pub pid : ℕ
  pub fields : List ℕ

module _ {W : Type 0} (k : Control W) where
  -- `if (res != 0) throw ApiError{…}`.
  unfoldable pub zero_or_throw : String → Reply ℕ × W → Outcome ℕ × W
  zero_or_throw call (failed e, w) = (throw (api_error call e), w)
  zero_or_throw call (done res, w) =
      if not (res == 0) then (throw (api_error call (k.errno w)), w) else (ok res, w)

  unfoldable pub get_flags : Comp W ℕ
  get_flags w = checked (api_error "fcntl(F_GETFD)") (k.fcntl f_getfd [] w)

  unfoldable pub set_flags : ℕ → Comp W ℕ
  unfolding zero_or_throw
  set_flags flags w = zero_or_throw "fcntl(F_SETFD)" (k.fcntl f_setfd (flags ∷ []) w)

  unfoldable pub get_seals : Comp W ℕ
  unfolding zero_or_throw
  get_seals w = zero_or_throw "fcntl(F_GET_SEALS)" (k.fcntl f_get_seals [] w)

  unfoldable pub get_pipe_size : Comp W ℕ
  unfolding zero_or_throw
  get_pipe_size w = zero_or_throw "fcntl(F_GETPIP_SZ)" (k.fcntl f_getpipe_sz [] w)

  unfoldable pub set_pipe_size : ℕ → Comp W ℕ
  unfolding zero_or_throw
  set_pipe_size new_size w =
      zero_or_throw "fcntl(F_SETPIP_SZ)" (k.fcntl f_setpipe_sz (new_size ∷ []) w)

  unfoldable pub lock_error : String → ℕ → Outcome Bool
  lock_error call e =
      if e == Errno.again || e == Errno.access then ok false else throw (api_error call e)

  unfoldable pub lock_result : String → Reply ℕ × W → Outcome Bool × W
  unfolding lock_error
  lock_result call (failed e, w) = (lock_error call e, w)
  lock_result call (done res, w) =
      if not (res == 0) then (lock_error call (k.errno w), w) else (ok true, w)

  unfoldable pub set_lock : FileLock → Comp W Bool
  unfolding lock_result
  set_lock lock w = lock_result "fcntl(F_SETLK)" (k.fcntl f_setlk (lock.pid ∷ lock.fields) w)

  unfoldable pub set_ofd_lock : FileLock → Comp W Bool
  unfolding lock_result
  set_ofd_lock lock w =
      if not (lock.pid == 0)
      then (throw (usage_error "attempt to set OFD lock with l_pid != 0"), w)
      else lock_result "fcntl(F_OFD_SETLK)" (k.fcntl f_ofd_setlk (lock.pid ∷ lock.fields) w)

  unfoldable pub set_lock_wait : FileLock → Comp W ℕ
  unfolding zero_or_throw
  set_lock_wait lock w =
      zero_or_throw "fcntl(F_SETLKW)" (k.fcntl f_setlkw (lock.pid ∷ lock.fields) w)

  unfoldable pub set_ofd_lock_wait : FileLock → Comp W ℕ
  unfolding zero_or_throw
  set_ofd_lock_wait lock w =
      if not (lock.pid == 0)
      then (throw (usage_error "attempt to set OFD lock with l_pid != 0"), w)
      else zero_or_throw "fcntl(F_OFD_SETLKW)" (k.fcntl f_ofd_setlkw (lock.pid ∷ lock.fields) w)

  abbrev pub signal_of : Outcome ℕ × W → Outcome (Option ℕ) × W
  signal_of (ok res, w) = if res == 0 then (ok none, w) else (ok (some res), w)
  signal_of (throw x, w) = (throw x, w)
  signal_of (spins, w) = (spins, w)

  unfoldable pub get_signal : Comp W (Option ℕ)
  get_signal w = signal_of (checked (api_error "fcntl(F_GETSIG)") (k.fcntl f_getsig [] w))

  abbrev pub number_of : Option ℕ → ℕ
  number_of none = 0
  number_of (some sig) = sig

  unfoldable pub set_signal : Option ℕ → Comp W ℕ
  unfolding zero_or_throw
  set_signal sig w = zero_or_throw "fcntl(F_SETSIG)" (k.fcntl f_setsig (number_of sig ∷ []) w)

  -- `sync_helper`, for `sync`.
  unfoldable pub sync : ℕ → Bool → Comp W (Unit {0})
  sync zero auto_restart w = (spins, w)
  sync (suc fuel) auto_restart w = synced auto_restart (k.fsync w) (sync fuel auto_restart)
    where
      synced : Bool → Reply (Unit {0}) × W → Comp W (Unit {0}) → Outcome (Unit {0}) × W
      synced auto_restart (done _, v) again = (ok tt, v)
      synced auto_restart (failed e, v) again =
          if e == Errno.interrupted && auto_restart
          then again v
          else (throw (api_error "fsync()" e), v)
