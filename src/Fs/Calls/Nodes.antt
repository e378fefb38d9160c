-- ===== src/Fs/Calls/Nodes.antt =====
-- The functions of src/fs/filesystem.cxx that make, find and remove nodes, and that change modes,
-- the file mode mask and the working directory.
use Prim.Native.Nat.{bit_and, bit_or}
use libcosmos.Prelude.{ℕ, Bool, true, false, ◌==◌, codes, if◌then◌else◌}
use libcosmos.Outcome.{
  Bytes, usage_error, api_error, file_error, Outcome, ok, throw, Reply, done, failed, Comp, checked,
}
use libcosmos.Outcome.Errno
use libcosmos.BitMask.{Mask}
use libcosmos.BitMask.Digits.{complement}
use libcosmos.Fs.FileMode.{file_mode}

module _ {W : Type 0} where
  unfoldable pub make_fifo :
      (Bytes → Mask → W → Reply (Unit {0}) × W) → Bytes → Mask → Comp W (Unit {0})
  make_fifo mkfifo path mode w = checked (file_error path "mkfifo()") (mkfifo path mode w)

  unfoldable pub make_fifo_at :
      (ℕ → Bytes → Mask → W → Reply (Unit {0}) × W) → ℕ → Bytes → Mask → Comp W (Unit {0})
  make_fifo_at mkfifoat dir_fd path mode w =
      checked (file_error path "mkfifoat()") (mkfifoat dir_fd path mode w)

  unfoldable pub make_dir :
      (Bytes → Mask → W → Reply (Unit {0}) × W) → Bytes → Mask → Comp W (Unit {0})
  make_dir mkdir path mode w = checked (file_error path "mkdir()") (mkdir path mode w)

  unfoldable pub make_dir_at :
      (ℕ → Bytes → Mask → W → Reply (Unit {0}) × W) → ℕ → Bytes → Mask → Comp W (Unit {0})
  make_dir_at mkdirat dir_fd path mode w =
      checked (file_error path "mkdirat()") (mkdirat dir_fd path mode w)

  unfoldable pub unlink_file : (Bytes → W → Reply (Unit {0}) × W) → Bytes → Comp W (Unit {0})
  unlink_file unlink path w = checked (file_error path "unlink()") (unlink path w)

  unfoldable pub change_dir : (Bytes → W → Reply (Unit {0}) × W) → Bytes → Comp W (Unit {0})
  change_dir chdir path w = checked (file_error path "chdir()") (chdir path w)

  unfoldable pub change_dir_fd : (ℕ → W → Reply (Unit {0}) × W) → ℕ → Comp W (Unit {0})
  change_dir_fd fchdir dir_fd w = checked (api_error "fchdir()") (fchdir dir_fd w)

  unfoldable pub change_mode :
      (Bytes → Mask → W → Reply (Unit {0}) × W) → Bytes → Mask → Comp W (Unit {0})
  change_mode chmod path mode w = checked (file_error path "chmod()") (chmod path mode w)

  unfoldable pub change_mode_fd :
      (ℕ → Mask → W → Reply (Unit {0}) × W) → ℕ → Mask → Comp W (Unit {0})
  change_mode_fd fchmod fd mode w =
      checked (file_error (codes "(fd)") "fchmod()") (fchmod fd mode w)

  -- Whether an entry is there: a failure of lstat(2) that says so is no error.
  unfoldable pub existence : Bytes → Reply (Unit {0}) × W → Outcome Bool × W
  existence path (done _, w) = (ok true, w)
  existence path (failed e, w) =
      if e == Errno.no_entry then (ok false, w) else (throw (file_error path "lstat()" e), w)

  unfoldable pub exists_file : (Bytes → W → Reply (Unit {0}) × W) → Bytes → Comp W Bool
  unfolding existence
  exists_file lstat path w = existence path (lstat path w)

  -- umask(2) answers the mask that it replaces.
  unfoldable pub set_umask : (Mask → W → ℕ × W) → Mask → Comp W Mask
  unfolding file_mode
  set_umask umask mode w =
      if bit_and mode (complement 32 511) == 0
      then (ok (file_mode (umask mode w).0), (umask mode w).1)
      else (throw (usage_error "invalid bits set in umask"), w)

  unfoldable pub check_access :
      (Bytes → Mask → W → Reply (Unit {0}) × W) → Bytes → Mask → Comp W (Unit {0})
  check_access access path checks w = checked (api_error "access()") (access path checks w)

  unfoldable pub check_access_at :
      (ℕ → Bytes → Mask → Mask → W → Reply (Unit {0}) × W)
      → ℕ
      → Bytes
      → Mask
      → Mask
      → Comp W (Unit {0})
  check_access_at faccessat dir_fd path checks flags w =
      checked (api_error "faccessat()") (faccessat dir_fd path checks flags w)

  -- The flag is `AT_EMPTY_PATH`.
  unfoldable pub check_access_fd :
      (ℕ → Bytes → Mask → Mask → W → Reply (Unit {0}) × W) → ℕ → Mask → Mask → Comp W (Unit {0})
  check_access_fd faccessat fd checks flags w =
      checked (api_error "faccessat()") (faccessat fd (codes "") checks (bit_or flags 0x1000) w)

  unfoldable pub close_range :
      (ℕ → ℕ → Mask → W → Reply (Unit {0}) × W) → ℕ → ℕ → Mask → Comp W (Unit {0})
  close_range sys_close_range first last flags w =
      checked (api_error "close_range()") (sys_close_range first last flags w)
