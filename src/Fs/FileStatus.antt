-- ===== src/Fs/FileStatus.antt =====
-- `FileStatus` of include/fs/FileStatus.hxx and src/fs/FileStatus.cxx. The stat calls are parameters.
pub mod Readings
mod Tests
use libcosmos.Prelude.{ℕ, String, Bool, true, false, not, ◌&&◌, ◌||◌, ◌==◌, if◌then◌else◌}
use libcosmos.Outcome.{
  Bytes, Exception, usage_error, api_error, file_error, Outcome, ok, throw, Reply, done, failed,
  Comp, checked,
}
use libcosmos.BitMask.{Mask}
use libcosmos.Fs.FileMode.{file_type, file_mode, regular, symlink, directory, blockdev, chardev}

-- The fields of `struct stat` that are read, the times left out.
pub record Stat : Type 0 where
  pub st_mode : ℕ
  pub st_dev : ℕ
  pub st_ino : ℕ
  pub st_nlink : ℕ
  pub st_uid : ℕ
  pub st_gid : ℕ
  pub st_size : ℕ
  pub st_rdev : ℕ
  pub st_blksize : ℕ
  pub st_blocks : ℕ

-- Only the mode is cleared.
unfoldable pub reset : Stat → Stat
reset st = record {
  st_mode = 0;
  st_dev = st.st_dev;
  st_ino = st.st_ino;
  st_nlink = st.st_nlink;
  st_uid = st.st_uid;
  st_gid = st.st_gid;
  st_size = st.st_size;
  st_rdev = st.st_rdev;
  st_blksize = st.st_blksize;
  st_blocks = st.st_blocks;
}

unfoldable pub valid : Stat → Bool
valid st = not (st.st_mode == 0)

unfoldable pub mode_of : Stat → Mask
unfolding file_mode
mode_of st = file_mode st.st_mode

unfoldable pub type_of : Stat → ℕ
unfolding file_type
type_of st = file_type st.st_mode

unfoldable pub size : Stat → Outcome ℕ
unfolding type_of
size st =
    let t = type_of st in
    if t == regular || t == symlink || t == directory
    then ok st.st_size
    else throw (usage_error "invalid type for st_size")

unfoldable pub represented_device : Stat → Outcome ℕ
unfolding type_of
represented_device st =
    let t = type_of st in
    if t == blockdev || t == chardev
    then ok st.st_rdev
    else throw (usage_error "attempted to get st_rdev but this is no dev!")

unfoldable pub is_same_file : Stat → Stat → Bool
is_same_file st other = st.st_ino == other.st_ino && st.st_dev == other.st_dev

-- The object keeps what it had where the call fails.
abbrev pub taken :
    {W : Type 0} → Stat → (ℕ → Exception) → Reply Stat × W → (Outcome (Unit {0}) × Stat) × W
taken st x (done new, w) = ((ok tt, new), w)
taken st x (failed e, w) = ((throw (x e), st), w)

module _ {W : Type 0} (fstat : ℕ → W → Reply Stat × W) where
  unfoldable pub update_from_fd : Stat → ℕ → W → (Outcome (Unit {0}) × Stat) × W
  update_from_fd st fd w = taken st (api_error "fstat()") (fstat fd w)

module _ {W : Type 0} (stat lstat : Bytes → W → Reply Stat × W) where
  unfoldable pub update_from : Stat → Bytes → Bool → W → (Outcome (Unit {0}) × Stat) × W
  update_from st path follow w =
      taken st (file_error path (if follow then "stat" else "lstat"))
        (if follow then stat path w else lstat path w)

module _ {W : Type 0} (fstatat : ℕ → Bytes → ℕ → W → Reply Stat × W) where
  -- The flag is `AT_SYMLINK_NOFOLLOW`.
  unfoldable pub update_from_at : Stat → ℕ → Bytes → Bool → W → (Outcome (Unit {0}) × Stat) × W
  update_from_at st fd path follow w =
      taken st (file_error path "fstatat()") (fstatat fd path (if follow then 0 else 0x100) w)
