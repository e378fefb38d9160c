-- ===== src/Fs/Calls/Links.antt =====
-- The functions of src/fs/filesystem.cxx that make links, and that rename, truncate and lock files.
use Prim.Native.Nat.{bit_or}
use libcosmos.Prelude.{ℕ, Bool, codes, if◌then◌else◌}
use libcosmos.Outcome.{Bytes, api_error, file_error, link_error, Reply, Comp, checked}
use libcosmos.BitMask.{Mask}

-- `AT_SYMLINK_FOLLOW` and `AT_EMPTY_PATH`.
abbrev pub symlink_follow : ℕ
symlink_follow = 0x400

abbrev pub empty_path : ℕ
empty_path = 0x1000

module _ {W : Type 0} where
  unfoldable pub make_symlink :
      (Bytes → Bytes → W → Reply (Unit {0}) × W) → Bytes → Bytes → Comp W (Unit {0})
  make_symlink symlink target path w = checked (file_error path "symlink()") (symlink target path w)

  unfoldable pub make_symlink_at :
      (Bytes → ℕ → Bytes → W → Reply (Unit {0}) × W) → Bytes → ℕ → Bytes → Comp W (Unit {0})
  make_symlink_at symlinkat target dir_fd path w =
      checked (file_error path "symlinkat()") (symlinkat target dir_fd path w)

  unfoldable pub link :
      (Bytes → Bytes → W → Reply (Unit {0}) × W) → Bytes → Bytes → Comp W (Unit {0})
  link sys_link old_path new_path w =
      checked (link_error new_path "link() for " old_path) (sys_link old_path new_path w)

  unfoldable pub linkat :
      (ℕ → Bytes → ℕ → Bytes → ℕ → W → Reply (Unit {0}) × W)
      → ℕ
      → Bytes
      → ℕ
      → Bytes
      → Bool
      → Comp W (Unit {0})
  linkat sys_linkat old_dir old_path new_dir new_path follow_old w =
      checked (link_error new_path "linkat() for " old_path)
        (sys_linkat old_dir old_path new_dir new_path (if follow_old then symlink_follow else 0) w)

  unfoldable pub linkat_fd :
      (ℕ → Bytes → ℕ → Bytes → ℕ → W → Reply (Unit {0}) × W) → ℕ → ℕ → Bytes → Comp W (Unit {0})
  linkat_fd sys_linkat fd new_dir new_path w =
      checked (file_error new_path "linkat(AT_EMPTY_PATH)")
        (sys_linkat fd (codes "") new_dir new_path empty_path w)

  unfoldable pub truncate_fd : (ℕ → ℕ → W → Reply (Unit {0}) × W) → ℕ → ℕ → Comp W (Unit {0})
  truncate_fd ftruncate fd length w = checked (api_error "ftruncate()") (ftruncate fd length w)

  unfoldable pub truncate : (Bytes → ℕ → W → Reply (Unit {0}) × W) → Bytes → ℕ → Comp W (Unit {0})
  truncate sys_truncate path length w =
      checked (api_error "truncate()") (sys_truncate path length w)

  unfoldable pub flock : (ℕ → ℕ → W → Reply (Unit {0}) × W) → ℕ → ℕ → Mask → Comp W (Unit {0})
  flock sys_flock fd operation flags w =
      checked (api_error "flock()") (sys_flock fd (bit_or operation flags) w)

  unfoldable pub rename :
      (Bytes → Bytes → W → Reply (Unit {0}) × W) → Bytes → Bytes → Comp W (Unit {0})
  rename sys_rename oldpath newpath w =
      checked (api_error "rename()") (sys_rename oldpath newpath w)

  unfoldable pub rename_at :
      (ℕ → Bytes → ℕ → Bytes → Mask → W → Reply (Unit {0}) × W)
      → ℕ
      → Bytes
      → ℕ
      → Bytes
      → Mask
      → Comp W (Unit {0})
  rename_at renameat2 olddir_fd oldpath newdir_fd newpath flags w =
      checked (api_error "renameat2()") (renameat2 olddir_fd oldpath newdir_fd newpath flags w)

  -- `Directory::renameAt`: both paths are relative to the same directory.
  unfoldable pub rename_in :
      (ℕ → Bytes → ℕ → Bytes → Mask → W → Reply (Unit {0}) × W)
      → ℕ
      → Bytes
      → Bytes
      → Comp W (Unit {0})
  unfolding rename_at
  rename_in renameat2 fd oldpath newpath = rename_at renameat2 fd oldpath fd newpath 0
