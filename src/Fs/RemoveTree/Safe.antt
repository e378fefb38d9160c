-- ===== src/Fs/RemoveTree/Safe.antt =====
-- What `remove_tree` leaves of the world, and how long it goes on.
use libcosmos.Prelude.{ℕ, zero, suc, ◌+◌, ◌-◌, ◌≤◌, arith, ◌≡◌, refl, ap, false, Option, none, some}
use libcosmos.Outcome.{
  Bytes, Exception, Outcome, ok, throw, spins, Reply, done, failed, Comp, checked, next,
}
use libcosmos.Fs.DirStream.{Entry, destroy, next_entry, require_open}
use libcosmos.Fs.RemoveTree.{
  TreeCalls, remove_dir, with_stream, remove_entry, start, entries, remove_tree, on_entry,
}
use libcosmos.Fs.RemoveTree.Respects.{Counts, combined, Respects, Good, weaker, Keeps, bind_kept}
use libcosmos.Fs.RemoveTree.Steps.{destroy_kept, start_kept, remove_entry_kept, open_path_kept}

-- What is left of the rounds: `Inv n` holds while an entry can be read n times yet.
module _ {W : Type 0} (t : TreeCalls W) (path : Bytes) (Inv : ℕ → W → Type 0)
    (laws : (n : ℕ) → Respects t (Inv n) path) where
  abbrev Read : ℕ → Reply (Option Entry) × W → Type 0
  Read n (done (some e), w) = Inv n w
  Read n (done none, w) = Inv (suc n) w
  Read n (failed c, w) = Inv (suc n) w

  module _ (weaken : (n : ℕ) (w : W) → Inv n w → Inv (suc n) w)
      (reads : (n s : ℕ) (w : W) → Inv (suc n) w → Read n (t.dirs.readdir s w)) where
    round_kept :
        (fuel d : ℕ) (stream : Option ℕ) (r : Reply (Option Entry) × W) (x : ℕ → Exception)
        → ((s : Option ℕ) (d' : ℕ) → Keeps (Inv fuel) (Inv 0) (entries t fuel s d'))
        → Read fuel r
        → Good (Inv (suc fuel)) (Inv 0) (
            next (checked x r).0 (checked x r).1 (λ entry.
              on_entry t entry
                (remove_entry t (λ s. start t (entries t fuel s) s) d)
                (entries t fuel stream d)))
    round_kept fuel d stream (done (some entry), w) x k h =
        weaker (Inv fuel) (Inv (suc fuel)) (Inv 0) _ (weaken fuel) (
          bind_kept (Inv fuel) (Inv 0) (remove_entry t (λ s. start t (entries t fuel s) s) d entry)
            _
            (remove_entry_kept t (Inv fuel) (Inv 0) path (laws fuel) (laws 0) _ d entry (λ s.
              start_kept t (Inv fuel) (Inv 0) path (laws fuel) (laws 0) (entries t fuel s) s (k s)))
            (λ _. k stream d) w h)
    round_kept fuel d stream (done none, w) x k h = h
    round_kept fuel d stream (failed c, w) x k h = h

    entries_kept :
        (fuel : ℕ) (stream : Option ℕ) (d : ℕ) → Keeps (Inv fuel) (Inv 0) (entries t fuel stream d)
    unfolding entries next_entry require_open
    entries_kept zero stream d w h = h
    entries_kept (suc fuel) none d w h = h
    entries_kept (suc fuel) (some s) d w h =
        round_kept fuel d (some s) (t.dirs.readdir s w) _ (entries_kept fuel) (reads fuel s w h)

    emptied_kept :
        (fuel : ℕ) (dir : Option ℕ) → Keeps (Inv fuel) (Inv 0) (start t (entries t fuel dir) dir)
    emptied_kept fuel dir =
        start_kept t (Inv fuel) (Inv 0) path (laws fuel) (laws 0) (entries t fuel dir) dir
          (entries_kept fuel dir)

module _ {W : Type 0} (t : TreeCalls W) (Inv : W → Type 0) (count : W → ℕ) (path : Bytes)
    (laws : Respects t Inv path) (counts : Counts t count path) where
  -- `Inv` holds, and at most n entries less than the goal are read.
  abbrev Near : ℕ → ℕ → W → Type 0
  Near goal n w = Inv w × (goal ≤ count w + n)

  near : (goal n : ℕ) → Respects t (Near goal n) path
  near goal n =
      combined t Inv (λ w. goal - n ≤ count w) (Near goal n) path (λ w h. (h.0, omega (arith, h.1)))
        (λ w h. (h.0, omega (arith, h.1))) laws (counts.kept (goal - n))

  Read-counted :
      (goal n s : ℕ) (w : W) (r : Reply (Option Entry) × W)
      → t.dirs.readdir s w ≡ r
      → Near goal (suc n) w
      → Near goal (suc n) r.1
      → Read t path (Near goal) (near goal) n r
  Read-counted goal n s w (done (some e), v) q h k =
      (k.0, omega (arith, h.1, counts.counted s w e v q))
  Read-counted goal n s w (done none, v) q h k = k
  Read-counted goal n s w (failed c, v) q h k = k

  reads :
      (goal n s : ℕ) (w : W)
      → Near goal (suc n) w
      → Read t path (Near goal) (near goal) n (t.dirs.readdir s w)
  reads goal n s w h =
      Read-counted goal n s w (t.dirs.readdir s w) refl h ((near goal (suc n)).readdir_kept s w h)

  weaken : (goal n : ℕ) (w : W) → Near goal n w → Near goal (suc n) w
  weaken goal n w h = (h.0, omega (arith, h.1))

  -- What is to hold of an end behind so many rounds, from the world `w` on.
  abbrev pub Left : ℕ → W → Outcome (Unit {0}) × W → Type 0
  Left fuel w (ok _, v) = Inv v × (u : W) × Inv u × ((t.rmdir path u).0 ≡ done tt)
  Left fuel w (throw x, v) = Inv v
  Left fuel w (spins, v) = Inv v × (count w + fuel ≤ count v)

  checked-Left :
      (fuel : ℕ) (w u : W) (x : ℕ → Exception) (r : Reply (Unit {0}) × W)
      → t.rmdir path u ≡ r
      → Inv u
      → Inv r.1
      → Left fuel w (checked x r)
  checked-Left fuel w u x (done tt, v) e h k = (k, u, h, ap (λ q. q.0) e)
  checked-Left fuel w u x (failed c, v) e h k = k

  next-Left :
      (fuel : ℕ) (w : W) (r : Outcome (Unit {0}) × W)
      → Good (Near (count w + fuel) fuel) (Near (count w + fuel) 0) r
      → Left fuel w (next r.0 r.1 (λ _. remove_dir t path))
  unfolding remove_dir
  next-Left fuel w (ok _, v) h =
      checked-Left fuel w v _ (t.rmdir path v) refl h.0 (laws.rmdir_kept v h.0)
  next-Left fuel w (throw x, v) h = h.0
  next-Left fuel w (spins, v) h = (h.0, omega (arith, h.1))

  destroyed-Left :
      (fuel : ℕ) (w : W) (stream : Option ℕ) (r : Outcome (Unit {0}) × W)
      → Left fuel w r
      → Left fuel w (r.0, destroy t.dirs stream r.1)
  destroyed-Left fuel w stream (ok a, v) (h, u, k, e) =
      (destroy_kept t path Inv laws stream v h, u, k, e)
  destroyed-Left fuel w stream (throw x, v) h = destroy_kept t path Inv laws stream v h
  destroyed-Left fuel w stream (spins, v) (h, far) = (
    destroy_kept t path Inv laws stream v h,
    destroy_kept t path (λ u. count w + fuel ≤ count u) (counts.kept (count w + fuel)) stream v far,
  )

  with_stream-Left :
      (fuel : ℕ) (w : W) (r : (Outcome (Unit {0}) × Option ℕ) × W)
      (body : Option ℕ → Comp W (Unit {0}))
      → ((s : Option ℕ) (v : W) → Near (count w + fuel) fuel v → Left fuel w (body s v))
      → Good (Near (count w + fuel) fuel) (Near (count w + fuel) 0) (r.0.0, r.1)
      → Left fuel w (with_stream t r body)
  with_stream-Left fuel w ((ok _, s), v) body k h = destroyed-Left fuel w s (body s v) (k s v h)
  with_stream-Left fuel w ((throw x, s), v) body k h = h.0
  with_stream-Left fuel w ((spins, s), v) body k h = (h.0, omega (arith, h.1))

  -- Whatever holds of the world in front of `remove_tree` of a path holds behind any number of
  -- rounds, if every call keeps it, where no entry `.` or `..` is removed and no directory by its
  -- path but the given one. A return says that rmdir(2) removed the given directory in a world in
  -- which it held. It goes on only while there are entries to read: if a number of rounds is not
  -- enough for a return or an exception, then a count that no call lowers and every entry raises that
  -- readdir(3) answers, such as the number of these entries, has risen by at least as much.
  pub remove_tree_safe : (fuel : ℕ) (w : W) → Inv w → Left fuel w (remove_tree t fuel path w)
  unfolding remove_tree
  remove_tree_safe fuel w h =
      let goal = count w + fuel in
      with_stream-Left fuel w _ _
        (λ dir v k.
          next-Left fuel w (start t (entries t fuel dir) dir v)
            (emptied_kept t path (Near goal) (near goal) (weaken goal) (reads goal) fuel dir v k))
        (open_path_kept t (Near goal fuel) (Near goal 0) path (near goal fuel) (near goal 0) path
          false w (h, omega arith))
