-- ===== src/Fs/MakeDirs/Made.antt =====
-- What exists behind `make_all_dirs`.
use libcosmos.Prelude.{
  ℕ, suc, ◌<◌, ◌≡◌, ◌≢◌, refl, sym, subst, List, [], ◌∷◌, ◌⊎◌, inl, inr, ◌==◌, ==_iff, length,
  arith, Bool-cases, All,
}
use libcosmos.Outcome.{Bytes, file_error, Outcome, ok, throw, spins, Reply, done, failed, next}
use libcosmos.Outcome.Errno
use libcosmos.Fs.Path.Stack.{NoSlash, resolve}
use libcosmos.Fs.Path.Segments.{join}
use libcosmos.Fs.Path.Normalize.{root_or}
use libcosmos.Fs.MakeDirs.{judged, make_all_dirs}
use libcosmos.Fs.MakeDirs.Prefixes.{make_each, all_prefixes, make_all_dirs-make_each}

-- mkdir(2): the path exists behind a call that makes it and behind one that fails with `EEXIST`, and
-- a call removes nothing.
pub record MakesPaths {W : Type 0} (mkdir : Bytes → W → Reply (Unit {0}) × W)
    (Exists : W → Bytes → Type 0) : Type 0 where
  pub made : (p : Bytes) (w v : W) → mkdir p w ≡ (done tt, v) → Exists v p
  pub there : (p : Bytes) (w v : W) → mkdir p w ≡ (failed Errno.exists, v) → Exists v p
  pub kept : (p q : Bytes) (w : W) → Exists w q → Exists (mkdir p w).1 q

module _ {W : Type 0} (mkdir : Bytes → W → Reply (Unit {0}) × W) (Exists : W → Bytes → Type 0)
    (laws : MakesPaths mkdir Exists) where
  -- All paths exist; or the call fails at a path.
  abbrev pub Made : List Bytes → ℕ → Outcome ℕ × W → Type 0
  Made ps ret (ok r, w) = All (Exists w) ps × ((r ≡ ret) ⊎ (r ≡ Errno.no_error))
  Made ps ret (throw x, w) =
      (p : Bytes) × (e : ℕ) × (x ≡ file_error p "mkdir()" e) × (e ≢ Errno.exists)
  Made ps ret (spins, w) = ⊥

  kept_step :
      (p : Bytes) (ps : List Bytes) (ret : ℕ) (q : Bytes)
      → ((ret' : ℕ) (v : W) → Exists v q → Exists (make_each mkdir ps ret' v).1 q)
      → (r : Reply (Unit {0}) × W) → Exists r.1 q
      → Exists (next (judged mkdir p ret r).0 (judged mkdir p ret r).1 (make_each mkdir ps)).1 q
  unfolding judged
  kept_step p ps ret q k (done _, v) h = k Errno.no_error v h
  kept_step p ps ret q k (failed e, v) h = elim (Bool-cases (e == Errno.exists)) [
    | inl there ↦ rw there (k ret v h)
    | inr other ↦ rw other h
  ]

  kept_by_all :
      (ps : List Bytes) (ret : ℕ) (w : W) (q : Bytes)
      → Exists w q
      → Exists (make_each mkdir ps ret w).1 q
  unfolding make_each
  kept_by_all [] ret w q h = h
  kept_by_all (p ∷ ps) ret w q h =
      kept_step p ps ret q (λ ret' v. kept_by_all ps ret' v q) (mkdir p w) (laws.kept p q w h)

  Made-append :
      (p : Bytes) (ps : List Bytes) (ret ret' : ℕ) (x : Outcome ℕ × W)
      → Made ps ret' x
      → Exists x.1 p
      → (ret' ≡ ret) ⊎ (ret' ≡ Errno.no_error)
      → Made (p ∷ ps) ret x
  Made-append p ps ret ret' (ok r, w) (all, inl same) h from = ((h, all), ground arith)
  Made-append p ps ret ret' (ok r, w) (all, inr none_left) h from = ((h, all), inr none_left)
  Made-append p ps ret ret' (throw x, w) m h from = m
  Made-append p ps ret ret' (spins, w) m h from = elim m [ ]

  judged-Made :
      (p : Bytes) (ps : List Bytes) (ret : ℕ) (w : W)
      → ((ret' : ℕ) (v : W) → Made ps ret' (make_each mkdir ps ret' v))
      → (r : Reply (Unit {0}) × W) → mkdir p w ≡ r
      → Made
          (p ∷ ps)
          ret
          (next (judged mkdir p ret r).0 (judged mkdir p ret r).1 (make_each mkdir ps))
  unfolding judged
  judged-Made p ps ret w k (done tt, v) h =
      Made-append p ps ret Errno.no_error _ (k Errno.no_error v)
        (kept_by_all ps Errno.no_error v p (laws.made p w v h)) (inr refl)
  judged-Made p ps ret w k (failed e, v) h = elim (Bool-cases (e == Errno.exists)) [
    | inl there ↦
        let q : e ≡ Errno.exists = (==_iff e Errno.exists).0 there in
        rw there (
          Made-append p ps ret ret _ (k ret v)
            (kept_by_all ps ret v p (laws.there p w v (subst (λ n. mkdir p w ≡ (failed n, v)) q h)))
            (inl refl))
    | inr other ↦ rw other (p, e, refl, ground (arith, other))
  ]

  make_each-Made : (ps : List Bytes) (ret : ℕ) (w : W) → Made ps ret (make_each mkdir ps ret w)
  unfolding make_each
  make_each-Made [] ret w = (tt, inl refl)
  make_each-Made (p ∷ ps) ret w = judged-Made p ps ret w (make_each-Made ps) (mkdir p w) refl

  -- `make_all_dirs` of an absolute path always ends. If it returns, every directory on the
  -- normalized path exists, and the result is `EXISTS` or `NO_ERROR`. Otherwise it throws a
  -- `FileError` for an error other than that a path exists. This holds for every mkdir(2) that
  -- removes no path and behind which a path exists that it made or reported as existing.
  pub make_all_dirs-Made :
      (fuel fuel' : ℕ) (cwd : Outcome Bytes) (cs : List Bytes) (w : W)
      → All NoSlash cs
      → suc (length (join cs)) < fuel
      → length (root_or (resolve [] cs)) < fuel'
      → Made
          (all_prefixes (resolve [] cs))
          Errno.exists
          (make_all_dirs mkdir fuel fuel' cwd (b'/' ∷ join cs) w)
  make_all_dirs-Made fuel fuel' cwd cs w n l l' =
      subst (Made (all_prefixes (resolve [] cs)) Errno.exists)
        (sym (make_all_dirs-make_each mkdir fuel fuel' cwd cs w n l l'))
        (make_each-Made (all_prefixes (resolve [] cs)) Errno.exists w)
