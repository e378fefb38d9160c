-- ===== src/Fs/RemoveTree.antt =====
-- `remove_tree` of src/fs/filesystem.cxx, with `unlink_file_at`, `remove_dir_at` and `remove_dir`.
-- The recursion and the loop over a directory share one fuel.
pub mod Respects
pub mod Steps
pub mod Safe
mod Tests
use libcosmos.Prelude.{
  String, ℕ, zero, suc, Bool, true, false, Option, none, some, ◌==◌, if◌then◌else◌,
}
use libcosmos.Outcome.{
  Bytes, Exception, file_error, Outcome, ok, throw, spins, Reply, done, failed, Comp, checked, next,
  pure, raise, ◌>>=◌, ◌>>◌,
}
use libcosmos.Fs.DirStream.{
  Calls, Entry, Opening, destroy, open_path, open_subpath, fd, next_entry, begin, is_dot_entry,
}
use libcosmos.Fs.FileMode.{file_type, is_directory}

-- `DirEntry::Type`: `DT_UNKNOWN` and `DT_DIR`.
abbrev pub unknown_type : ℕ
unknown_type = 0

abbrev pub directory_type : ℕ
directory_type = 4

-- fstatat(2) of a name, without following it, answers the `st_mode`; unlinkat(2) is called without
-- flags and with `AT_REMOVEDIR`.
pub record TreeCalls (W : Type 0) : Type 0 where
  pub dirs : Calls W
  pub fstatat : ℕ → Bytes → W → Reply ℕ × W
  pub unlinkat : ℕ → Bytes → W → Reply (Unit {0}) × W
  pub rmdirat : ℕ → Bytes → W → Reply (Unit {0}) × W
  pub rmdir : Bytes → W → Reply (Unit {0}) × W

module _ {W : Type 0} (t : TreeCalls W) where
  unfoldable pub unlink_file_at : ℕ → Bytes → Comp W (Unit {0})
  unlink_file_at dir_fd path w = checked (file_error path "unlinkat()") (t.unlinkat dir_fd path w)

  unfoldable pub remove_dir_at : ℕ → Bytes → Comp W (Unit {0})
  remove_dir_at dir_fd path w =
      checked (file_error path "unlinkat(AT_REMOVEDIR)") (t.rmdirat dir_fd path w)

  unfoldable pub remove_dir : Bytes → Comp W (Unit {0})
  remove_dir path w = checked (file_error path "rmdir()") (t.rmdir path w)

  -- `FileStatus fs{dir_fd, name}`.
  unfoldable pub status_at : ℕ → Bytes → Comp W ℕ
  status_at dir_fd path w = checked (file_error path "fstatat()") (t.fstatat dir_fd path w)

  -- The body that has a stream, and the stream's destructor behind it, however the body ends.
  abbrev pub with_stream :
      (Outcome (Unit {0}) × Option ℕ) × W → (Option ℕ → Comp W (Unit {0})) → Outcome (Unit {0}) × W
  with_stream ((ok _, stream), w) body =
      ((body stream w).0, destroy t.dirs stream (body stream w).1)
  with_stream ((throw x, stream), w) body = (throw x, w)
  with_stream ((spins, stream), w) body = (spins, w)

  -- `dircase`: down into the directory, then its removal.
  unfoldable pub remove_subdir : (Option ℕ → Comp W (Unit {0})) → ℕ → Bytes → Comp W (Unit {0})
  unfolding open_subpath remove_dir_at
  remove_subdir down dir_fd name w =
      with_stream (open_subpath t.dirs dir_fd name w)
        (λ subdir. down subdir >> remove_dir_at dir_fd name)

  unfoldable pub remove_entry : (Option ℕ → Comp W (Unit {0})) → ℕ → Entry → Comp W (Unit {0})
  unfolding remove_subdir unlink_file_at status_at is_dot_entry is_directory file_type
  remove_entry down dir_fd entry =
      if is_dot_entry entry.name
      then pure tt
      else if entry.d_type == unknown_type
      then status_at dir_fd entry.name >>= (λ mode.
        if is_directory (file_type mode)
        then remove_subdir down dir_fd entry.name
        else unlink_file_at dir_fd entry.name)
      else if entry.d_type == directory_type
      then remove_subdir down dir_fd entry.name
      else unlink_file_at dir_fd entry.name

  -- A round of the loop over a stream, the rounds after it included.
  abbrev pub on_entry :
      Option Entry → (Entry → Comp W (Unit {0})) → Comp W (Unit {0}) → Comp W (Unit {0})
  on_entry none body rest = pure tt
  on_entry (some entry) body rest = body entry >> rest

  -- `remove_tree(DirStream &)` in front of the loop.
  unfoldable pub start : (ℕ → Comp W (Unit {0})) → Option ℕ → Comp W (Unit {0})
  unfolding fd begin
  start loop stream = fd t.dirs stream >>= λ dir_fd. λ w. loop dir_fd (begin t.dirs stream w)

  unfoldable pub entries : ℕ → Option ℕ → ℕ → Comp W (Unit {0})
  unfolding next_entry remove_entry start
  entries zero stream dir_fd w = (spins, w)
  entries (suc fuel) stream dir_fd w =
      (next_entry t.dirs stream >>= λ entry.
      on_entry entry (remove_entry (λ s. start (entries fuel s) s) dir_fd)
        (entries fuel stream dir_fd))
        w

  unfoldable pub remove_tree : ℕ → Bytes → Comp W (Unit {0})
  unfolding open_path start entries remove_dir
  remove_tree fuel path w =
      with_stream (open_path t.dirs none path false w)
        (λ dir. start (entries fuel dir) dir >> remove_dir path)
