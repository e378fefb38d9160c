-- ===== src/Fs/RemoveTree/Tests.antt =====
-- `remove_tree` of a directory with a file and a directory in it, and the theorem at this input.
use libcosmos.Prelude.{
  ℕ, zero, suc, ◌≤◌, ◌<◌, arith, ap, subst, ◌≡◌, refl, List, [], ◌∷◌, Option, none, some, codes,
  All, false,
}
use libcosmos.Outcome.{Bytes, ok, Reply, done}
use libcosmos.Fs.DirStream.{Calls, Entry, destroy, is_dot_entry}
use libcosmos.Fs.RemoveTree.{TreeCalls, remove_tree}
use libcosmos.Fs.RemoveTree.Respects.{Respects, Counts}
use libcosmos.Fs.RemoveTree.Safe.{Left, remove_tree_safe}

abbrev named : Bytes → ℕ → Entry
named s type = record { name = s; d_type = type; d_ino = 1 }

-- What the streams read after a rewinddir(3): the directory for 0, the one in it for any other.
abbrev listing : ℕ → List Entry
listing zero =
    named (codes ".") 4 ∷ named (codes "a") 8 ∷ named (codes "sub") 4 ∷ named (codes "..") 4 ∷ []
listing (suc s) = named (codes "..") 4 ∷ named (codes ".b") 0 ∷ []

-- The entries that the two streams have not read yet, the names that were removed, the last first,
-- and the number of entries that were read.
abbrev World : Type 0
World = List Entry × List Entry × List Bytes × ℕ

abbrev readdir : ℕ → World → Reply (Option Entry) × World
readdir zero ([], b, r, n) = (done none, ([], b, r, n))
readdir zero (e ∷ a, b, r, n) = (done (some e), (a, b, r, suc n))
readdir (suc s) (a, [], r, n) = (done none, (a, [], r, n))
readdir (suc s) (a, e ∷ b, r, n) = (done (some e), (a, b, r, suc n))

abbrev rewind : ℕ → World → World
rewind zero (a, b, r, n) = (listing 0, b, r, n)
rewind (suc s) (a, b, r, n) = (a, listing 1, r, n)

abbrev removes : Bytes → World → Reply (Unit {0}) × World
removes name (a, b, r, n) = (done tt, (a, b, name ∷ r, n))

-- Descriptor and stream 0 are those of the directory, 1 those of the one in it.
abbrev calls : Calls World
calls = record {
  sys_open = λ p flags w. (done 0, w);
  sys_openat = λ d p flags mode w. (done 1, w);
  dup_fd = λ d w. (done d, w);
  close_fd = λ d w. (done tt, w);
  fdopendir = λ d w. (done d, w);
  closedir = λ s w. (done tt, w);
  rewinddir = rewind;
  readdir = readdir;
  dirfd = λ s w. (done s, w);
  telldir = λ s w. (done 0, w);
}

abbrev tree : TreeCalls World
tree = record {
  dirs = calls;
  fstatat = λ d p w. (done 0x81a4, w);
  unlinkat = λ d p w. removes p w;
  rmdirat = λ d p w. removes p w;
  rmdir = λ p w. (done tt, w);
}

-- No entry `.` or `..` was removed.
abbrev Kept : World → Type 0
Kept (a, b, r, n) = All (λ name. is_dot_entry name ≡ false) r

abbrev count : World → ℕ
count (a, b, r, n) = n

rewind-Kept : (s : ℕ) (w : World) → Kept w → Kept (rewind s w)
rewind-Kept zero w h = h
rewind-Kept (suc s) w h = h

readdir-Kept : (s : ℕ) (w : World) → Kept w → Kept (readdir s w).1
readdir-Kept zero ([], b, r, n) h = h
readdir-Kept zero (e ∷ a, b, r, n) h = h
readdir-Kept (suc s) (a, [], r, n) h = h
readdir-Kept (suc s) (a, e ∷ b, r, n) h = h

laws : Respects tree Kept (codes "/d")
laws = record {
  sys_open_kept = λ p flags w h. h;
  sys_openat_kept = λ d p flags mode w h. h;
  close_fd_kept = λ d w h. h;
  fdopendir_kept = λ d w h. h;
  closedir_kept = λ s w h. h;
  rewinddir_kept = rewind-Kept;
  readdir_kept = readdir-Kept;
  dirfd_kept = λ s w h. h;
  fstatat_kept = λ d p w h. h;
  unlinkat_kept = λ d p w q h. (q, h);
  rmdirat_kept = λ d p w q h. (q, h);
  rmdir_kept = λ w h. h;
}

rewind_counts : (k s : ℕ) (w : World) → k ≤ count w → k ≤ count (rewind s w)
rewind_counts k zero w h = h
rewind_counts k (suc s) w h = h

readdir_counts : (k s : ℕ) (w : World) → k ≤ count w → k ≤ count (readdir s w).1
readdir_counts k zero ([], b, r, n) h = h
readdir_counts k zero (e ∷ a, b, r, n) h = omega (arith, h)
readdir_counts k (suc s) (a, [], r, n) h = h
readdir_counts k (suc s) (a, e ∷ b, r, n) h = omega (arith, h)

entry_counts :
    (s : ℕ) (w : World) (e : Entry) (v : World)
    → readdir s w ≡ (done (some e), v)
    → count w < count v
entry_counts zero ([], b, r, n) e v q = cc
entry_counts zero (x ∷ a, b, r, n) e v q = subst (λ u. n < count u) (ap (λ p. p.1) q) (omega arith)
entry_counts (suc s) (a, [], r, n) e v q = cc
entry_counts (suc s) (a, x ∷ b, r, n) e v q =
    subst (λ u. n < count u) (ap (λ p. p.1) q) (omega arith)

counts : Counts tree count (codes "/d")
counts = record {
  kept = λ k. record {
    sys_open_kept = λ p flags w h. h;
    sys_openat_kept = λ d p flags mode w h. h;
    close_fd_kept = λ d w h. h;
    fdopendir_kept = λ d w h. h;
    closedir_kept = λ s w h. h;
    rewinddir_kept = rewind_counts k;
    readdir_kept = readdir_counts k;
    dirfd_kept = λ s w h. h;
    fstatat_kept = λ d p w h. h;
    unlinkat_kept = λ d p w q h. h;
    rmdirat_kept = λ d p w q h. h;
    rmdir_kept = λ w h. h;
  };
  counted = entry_counts;
}

-- Nothing is read yet and nothing removed.
abbrev fresh : World
fresh = ([], [], [], 0)

removes_all :
    remove_tree tree 7 (codes "/d") fresh
    ≡ (ok tt, ([], [], codes "sub" ∷ codes ".b" ∷ codes "a" ∷ [], 6))
unfolding remove_tree destroy
removes_all = refl

remove_tree_safe_example :
    Left tree Kept count (codes "/d") laws counts 7 fresh (remove_tree tree 7 (codes "/d") fresh)
unfolding is_dot_entry
remove_tree_safe_example = remove_tree_safe tree Kept count (codes "/d") laws counts 7 fresh tt
