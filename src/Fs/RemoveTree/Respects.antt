-- ===== src/Fs/RemoveTree/Respects.antt =====
-- What `remove_tree` may assume of the calls, and how it composes them.
use libcosmos.Prelude.{ℕ, ◌≤◌, ◌<◌, ◌≡◌, refl, Bool, true, false, some, if◌then◌else◌}
use libcosmos.Outcome.{
  Bytes, Exception, Outcome, ok, throw, spins, Reply, done, failed, Comp, checked, next, ◌>>=◌,
}
use libcosmos.Fs.DirStream.{Entry, is_dot_entry}
use libcosmos.Fs.RemoveTree.{TreeCalls}

-- `Inv w` is what is to hold of the world. A call may remove a name only where it is not `.` or `..`,
-- and by its path only the directory that was asked for.
pub record Respects {W : Type 0} (t : TreeCalls W) (Inv : W → Type 0) (path : Bytes) : Type 0 where
  pub sys_open_kept : (p : Bytes) (flags : ℕ) (w : W) → Inv w → Inv (t.dirs.sys_open p flags w).1
  pub sys_openat_kept :
      (d : ℕ) (p : Bytes) (flags mode : ℕ) (w : W)
      → Inv w
      → Inv (t.dirs.sys_openat d p flags mode w).1
  pub close_fd_kept : (d : ℕ) (w : W) → Inv w → Inv (t.dirs.close_fd d w).1
  pub fdopendir_kept : (d : ℕ) (w : W) → Inv w → Inv (t.dirs.fdopendir d w).1
  pub closedir_kept : (s : ℕ) (w : W) → Inv w → Inv (t.dirs.closedir s w).1
  pub rewinddir_kept : (s : ℕ) (w : W) → Inv w → Inv (t.dirs.rewinddir s w)
  pub readdir_kept : (s : ℕ) (w : W) → Inv w → Inv (t.dirs.readdir s w).1
  pub dirfd_kept : (s : ℕ) (w : W) → Inv w → Inv (t.dirs.dirfd s w).1
  pub fstatat_kept : (d : ℕ) (p : Bytes) (w : W) → Inv w → Inv (t.fstatat d p w).1
  pub unlinkat_kept :
      (d : ℕ) (p : Bytes) (w : W) → is_dot_entry p ≡ false → Inv w → Inv (t.unlinkat d p w).1
  pub rmdirat_kept :
      (d : ℕ) (p : Bytes) (w : W) → is_dot_entry p ≡ false → Inv w → Inv (t.rmdirat d p w).1
  pub rmdir_kept : (w : W) → Inv w → Inv (t.rmdir path w).1

pub combined :
    {W : Type 0} (t : TreeCalls W) (P R Q : W → Type 0) (path : Bytes)
    → ((w : W) → Q w → P w × R w)
    → ((w : W) → P w × R w → Q w)
    → Respects t P path
    → Respects t R path
    → Respects t Q path
combined t P R Q path split join a b = record {
  sys_open_kept = λ p flags w h.
      join _ (a.sys_open_kept p flags w (split _ h).0, b.sys_open_kept p flags w (split _ h).1);
  sys_openat_kept = λ d p flags mode w h. join _ (
    a.sys_openat_kept d p flags mode w (split _ h).0,
    b.sys_openat_kept d p flags mode w (split _ h).1,
  );
  close_fd_kept =
      λ d w h. join _ (a.close_fd_kept d w (split _ h).0, b.close_fd_kept d w (split _ h).1);
  fdopendir_kept =
      λ d w h. join _ (a.fdopendir_kept d w (split _ h).0, b.fdopendir_kept d w (split _ h).1);
  closedir_kept =
      λ s w h. join _ (a.closedir_kept s w (split _ h).0, b.closedir_kept s w (split _ h).1);
  rewinddir_kept =
      λ s w h. join _ (a.rewinddir_kept s w (split _ h).0, b.rewinddir_kept s w (split _ h).1);
  readdir_kept =
      λ s w h. join _ (a.readdir_kept s w (split _ h).0, b.readdir_kept s w (split _ h).1);
  dirfd_kept = λ s w h. join _ (a.dirfd_kept s w (split _ h).0, b.dirfd_kept s w (split _ h).1);
  fstatat_kept =
      λ d p w h. join _ (a.fstatat_kept d p w (split _ h).0, b.fstatat_kept d p w (split _ h).1);
  unlinkat_kept = λ d p w q h.
      join _ (a.unlinkat_kept d p w q (split _ h).0, b.unlinkat_kept d p w q (split _ h).1);
  rmdirat_kept = λ d p w q h.
      join _ (a.rmdirat_kept d p w q (split _ h).0, b.rmdirat_kept d p w q (split _ h).1);
  rmdir_kept = λ w h. join _ (a.rmdir_kept w (split _ h).0, b.rmdir_kept w (split _ h).1);
}

-- `count` never falls, and every entry that is read raises it, as the number of the entries read so
-- far does.
pub record Counts {W : Type 0} (t : TreeCalls W) (count : W → ℕ) (path : Bytes) : Type 0 where
  pub kept : (k : ℕ) → Respects t (λ w. k ≤ count w) path
  pub counted :
      (s : ℕ) (w : W) (e : Entry) (v : W)
      → t.dirs.readdir s w ≡ (done (some e), v)
      → count w < count v

-- `Inv` holds behind a computation that ends, and `Cut` where the rounds are used up.
abbrev pub Good : {W A : Type 0} → (W → Type 0) → (W → Type 0) → Outcome A × W → Type 0
Good Inv Cut (ok a, w) = Inv w
Good Inv Cut (throw x, w) = Inv w
Good Inv Cut (spins, w) = Cut w

module _ {W : Type 0} (Inv Cut : W → Type 0) where
  abbrev pub Keeps : {A : Type 0} → Comp W A → Type 0
  Keeps m = (w : W) → Inv w → Good Inv Cut (m w)

  pub next_kept :
      {A B : Type 0} (r : Outcome A × W) (f : A → Comp W B)
      → ((a : A) → Keeps (f a))
      → Good Inv Cut r
      → Good Inv Cut (next r.0 r.1 f)
  next_kept (ok a, v) f k h = k a v h
  next_kept (throw x, v) f k h = h
  next_kept (spins, v) f k h = h

  pub bind_kept :
      {A B : Type 0} (m : Comp W A) (f : A → Comp W B)
      → Keeps m
      → ((a : A) → Keeps (f a))
      → Keeps (m >>= f)
  bind_kept m f hm hf w h = next_kept (m w) f hf (hm w h)

  pub checked_kept :
      {A : Type 0} (x : ℕ → Exception) (r : Reply A × W) → Inv r.1 → Good Inv Cut (checked x r)
  checked_kept x (done a, v) h = h
  checked_kept x (failed e, v) h = h

  pub if_kept :
      {A : Type 0} (b : Bool) (x y : Comp W A)
      → (b ≡ true → Keeps x)
      → (b ≡ false → Keeps y)
      → Keeps (if b then x else y)
  if_kept true x y f g = f refl
  if_kept false x y f g = g refl

pub weaker :
    {W A : Type 0} (Inv Inv' Cut : W → Type 0) (r : Outcome A × W)
    → ((w : W) → Inv w → Inv' w)
    → Good Inv Cut r
    → Good Inv' Cut r
weaker _ _ _ (ok a, w) k h = k w h
weaker _ _ _ (throw x, w) k h = k w h
weaker _ _ _ (spins, w) k h = h
