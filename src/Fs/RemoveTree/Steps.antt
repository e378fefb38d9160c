-- ===== src/Fs/RemoveTree/Steps.antt =====
-- What holds behind the parts of `remove_tree`, on a stream that it has opened.
use libcosmos.Prelude.{ℕ, ◌≡◌, Bool, false, Option, none, some, ◌==◌}
use libcosmos.Outcome.{
  Bytes, Exception, api_error, Outcome, ok, throw, spins, Reply, done, failed, Comp, checked,
}
use libcosmos.Fs.Open.{open_at, lacks_mode, directory_flag}
use libcosmos.BitMask.{any_of, test, holds_all}
use libcosmos.Fs.DirStream.{
  Entry, destroy, open_path, open_subpath, fd, begin, is_dot_entry, close, open_raw, opened_stream,
  or_close, stream_flags, require_open, with_fd,
}
use libcosmos.Fs.RemoveTree.{
  TreeCalls, unlink_file_at, remove_dir_at, remove_dir, status_at, with_stream, remove_subdir,
  remove_entry, start,
}
use libcosmos.Fs.RemoveTree.Respects.{Respects, Good, Keeps, bind_kept, checked_kept, if_kept}

module _ {W : Type 0} (t : TreeCalls W) (path : Bytes) where
  pub destroy_kept :
      (Inv : W → Type 0)
      → Respects t Inv path
      → (stream : Option ℕ) (w : W) → Inv w
      → Inv (destroy t.dirs stream w)
  unfolding destroy close
  destroy_kept Inv laws none w h = h
  destroy_kept Inv laws (some s) w h = closed _ (t.dirs.closedir s w) (laws.closedir_kept s w h)
    where
      closed : (x : ℕ → Exception) (r : Reply (Unit {0}) × W) → Inv r.1 → Inv (checked x r).1
      closed x (done a, v) k = k
      closed x (failed c, v) k = k

module _ {W : Type 0} (t : TreeCalls W) (Inv Cut : W → Type 0) (path : Bytes)
    (laws : Respects t Inv path) (cut_laws : Respects t Cut path) where
  destroyed_kept :
      {A : Type 0} (stream : Option ℕ) (r : Outcome A × W)
      → Good Inv Cut r
      → Good Inv Cut (r.0, destroy t.dirs stream r.1)
  destroyed_kept stream (ok a, w) h = destroy_kept t path Inv laws stream w h
  destroyed_kept stream (throw x, w) h = destroy_kept t path Inv laws stream w h
  destroyed_kept stream (spins, w) h = destroy_kept t path Cut cut_laws stream w h

  abbrev Opens : (Outcome (Unit {0}) × Option ℕ) × W → Type 0
  Opens r = Good Inv Cut (r.0.0, r.1)

  pub with_stream_kept :
      (r : (Outcome (Unit {0}) × Option ℕ) × W) (body : Option ℕ → Comp W (Unit {0}))
      → ((stream : Option ℕ) → Keeps Inv Cut (body stream))
      → Opens r
      → Good Inv Cut (with_stream t r body)
  with_stream_kept ((ok _, stream), w) body k h =
      destroyed_kept stream (body stream w) (k stream w h)
  with_stream_kept ((throw x, stream), w) body k h = h
  with_stream_kept ((spins, stream), w) body k h = h

  opened_stream_kept : (r : Reply ℕ × W) → Inv r.1 → Opens (opened_stream t.dirs r)
  unfolding opened_stream
  opened_stream_kept (done s, w) h = h
  opened_stream_kept (failed e, w) h = h

  open_raw_kept : (d : ℕ) (w : W) → Inv w → Opens (open_raw t.dirs d w)
  unfolding open_raw
  open_raw_kept d w h = opened_stream_kept (t.dirs.fdopendir d w) (laws.fdopendir_kept d w h)

  or_close_kept :
      (d : ℕ) (r : (Outcome (Unit {0}) × Option ℕ) × W) → Opens r → Opens (or_close t.dirs d r)
  unfolding or_close
  or_close_kept d ((ok _, s), w) h = h
  or_close_kept d ((throw x, s), w) h = laws.close_fd_kept d w h
  or_close_kept d ((spins, s), w) h = h

  with_fd_kept :
      (r : Outcome ℕ × W) (f : ℕ → W → (Outcome (Unit {0}) × Option ℕ) × W)
      → ((d : ℕ) (w : W) → Inv w → Opens (f d w))
      → Good Inv Cut r
      → Opens (with_fd t.dirs r f)
  with_fd_kept (ok d, w) f k h = k d w h
  with_fd_kept (throw x, w) f k h = h
  with_fd_kept (spins, w) f k h = h

  pub open_path_kept :
      (p : Bytes) (follow : Bool) (w : W) → Inv w → Opens (open_path t.dirs none p follow w)
  unfolding open_path close
  open_path_kept p follow w h =
      with_fd_kept
        (checked (api_error "open(O_DIRECTORY)") (t.dirs.sys_open p (stream_flags follow) w))
        (λ d v. or_close t.dirs d (open_raw t.dirs d v))
        (λ d v k. or_close_kept d (open_raw t.dirs d v) (open_raw_kept d v k))
        (checked_kept Inv Cut (api_error "open(O_DIRECTORY)")
          (t.dirs.sys_open p (stream_flags follow) w)
          (laws.sys_open_kept p (stream_flags follow) w h))

  open_subpath_kept : (d : ℕ) (p : Bytes) (w : W) → Inv w → Opens (open_subpath t.dirs d p w)
  unfolding open_subpath open_at lacks_mode any_of test holds_all
  open_subpath_kept d p w h = with_fd_kept _ _ open_raw_kept (
      checked_kept Inv Cut _ (t.dirs.sys_openat d p directory_flag 0 w)
        (laws.sys_openat_kept d p directory_flag 0 w h))

  fd_kept : (stream : Option ℕ) → Keeps Inv Cut (fd t.dirs stream)
  unfolding fd require_open
  fd_kept none w h = h
  fd_kept (some s) w h = checked_kept Inv Cut _ (t.dirs.dirfd s w) (laws.dirfd_kept s w h)

  begin_kept : (stream : Option ℕ) (w : W) → Inv w → Inv (begin t.dirs stream w)
  unfolding begin
  begin_kept none w h = h
  begin_kept (some s) w h = laws.rewinddir_kept s w h

  pub start_kept :
      (loop : ℕ → Comp W (Unit {0})) (stream : Option ℕ)
      → ((d : ℕ) → Keeps Inv Cut (loop d))
      → Keeps Inv Cut (start t loop stream)
  unfolding start
  start_kept loop stream k =
      bind_kept Inv Cut (fd t.dirs stream) _ (fd_kept stream)
        (λ d w h. k d (begin t.dirs stream w) (begin_kept stream w h))

  remove_subdir_kept :
      (down : Option ℕ → Comp W (Unit {0})) (d : ℕ) (name : Bytes)
      → is_dot_entry name ≡ false
      → ((s : Option ℕ) → Keeps Inv Cut (down s))
      → Keeps Inv Cut (remove_subdir t down d name)
  unfolding remove_subdir remove_dir_at
  remove_subdir_kept down d name q k w h =
      with_stream_kept _ _
        (λ s.
          bind_kept Inv Cut (down s) _ (k s)
            (λ _ v g. checked_kept Inv Cut _ (t.rmdirat d name v) (laws.rmdirat_kept d name v q g)))
        (open_subpath_kept d name w h)

  unlink_kept :
      (d : ℕ) (name : Bytes) → is_dot_entry name ≡ false → Keeps Inv Cut (unlink_file_at t d name)
  unfolding unlink_file_at
  unlink_kept d name q w h =
      checked_kept Inv Cut _ (t.unlinkat d name w) (laws.unlinkat_kept d name w q h)

  status_kept : (d : ℕ) (name : Bytes) → Keeps Inv Cut (status_at t d name)
  unfolding status_at
  status_kept d name w h =
      checked_kept Inv Cut _ (t.fstatat d name w) (laws.fstatat_kept d name w h)

  pub remove_entry_kept :
      (down : Option ℕ → Comp W (Unit {0})) (d : ℕ) (entry : Entry)
      → ((s : Option ℕ) → Keeps Inv Cut (down s))
      → Keeps Inv Cut (remove_entry t down d entry)
  unfolding remove_entry
  remove_entry_kept down d entry k =
      if_kept Inv Cut (is_dot_entry entry.name) _ _ (λ dot w h. h)
        (λ q.
          if_kept Inv Cut (entry.d_type == 0) _ _
            (λ u. bind_kept Inv Cut (status_at t d entry.name) _ (status_kept d entry.name) (λ mode.
              if_kept Inv Cut _ _ _ (λ _. remove_subdir_kept down d entry.name q k)
                (λ _. unlink_kept d entry.name q)))
            (λ u.
              if_kept Inv Cut (entry.d_type == 4) _ _
                (λ _. remove_subdir_kept down d entry.name q k) (λ _. unlink_kept d entry.name q)))

  pub remove_dir_kept : Keeps Inv Cut (remove_dir t path)
  unfolding remove_dir
  remove_dir_kept w h = checked_kept Inv Cut _ (t.rmdir path w) (laws.rmdir_kept w h)
