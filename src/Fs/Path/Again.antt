-- ===== src/Fs/Path/Again.antt =====
-- `normalize_path` of its own results, and below the root directory.
use libcosmos.Prelude.{
  ℕ, suc, ◌<◌, ◌≡◌, refl, ap, sym, subst, ◌∙◌, List, [], ◌∷◌, ◌++◌, append_assoc, length, arith,
  All,
}
use libcosmos.Outcome.{Bytes, Outcome, ok}
use libcosmos.Fs.Path.{enter, add_component, normalize_path}
use libcosmos.Fs.Path.Stack.{NoSlash, Name, path_of, visit, resolve, resolve-Name}
use libcosmos.Fs.Path.Segments.{join, walk-last}
use libcosmos.Fs.Path.Normalize.{root_or, normalize_path-absolute}

-- The names from the outermost on, in front of further components.
unfoldable pub onto : List Bytes → List Bytes → List Bytes
onto [] ds = ds
onto (c ∷ names) ds = onto names (c ∷ ds)

pub onto-NoSlash :
    (names ds : List Bytes) → All Name names → All NoSlash ds → All NoSlash (onto names ds)
unfolding onto
onto-NoSlash [] ds h n = n
onto-NoSlash (c ∷ names) ds h n = onto-NoSlash names (c ∷ ds) h.1 (h.0.0, n)

pub path_of-onto :
    (names : List Bytes) (d : Bytes) (ds : List Bytes)
    → path_of names ++ b'/' ∷ join (d ∷ ds) ≡ b'/' ∷ join (onto names (d ∷ ds))
unfolding onto path_of join
path_of-onto [] d ds = refl
path_of-onto (c ∷ names) d ds =
    append_assoc (path_of names) (b'/' ∷ c) (b'/' ∷ join (d ∷ ds)) ∙ path_of-onto names c (d ∷ ds)

visit_named : (names : List Bytes) (c : Bytes) → Name c → visit names c ≡ c ∷ names
unfolding visit
visit_named names c (n, e, here, up) = rw (e, up, here)

resolve-onto :
    (names ds : List Bytes) → All Name names → resolve [] (onto names ds) ≡ resolve names ds
unfolding onto resolve
resolve-onto [] ds h = refl
resolve-onto (c ∷ names) ds h =
    resolve-onto names (c ∷ ds) h.1 ∙ ap (λ s. resolve s ds) (visit_named names c h.0)

normalize_path-root_or :
    (fuel : ℕ) (cwd : Outcome Bytes) (names : List Bytes)
    → All Name names
    → length (root_or names) < fuel
    → normalize_path fuel cwd (root_or names) ≡ ok (root_or names)
unfolding join resolve path_of
normalize_path-root_or fuel cwd [] h l = normalize_path-absolute fuel cwd [] tt (omega arith)
normalize_path-root_or fuel cwd (c ∷ names) h l =
    let k = path_of-onto names c [] in
    subst (λ t. normalize_path fuel cwd t ≡ ok (path_of (c ∷ names))) (sym k)
      (normalize_path-absolute fuel cwd (onto names (c ∷ []))
          (onto-NoSlash names (c ∷ []) h.1 (h.0.0, tt)) (subst (λ t. length t < fuel) k l)
        ∙ ap (λ s. ok (root_or s)) (resolve-onto names (c ∷ []) h.1 ∙ visit_named names c h.0))

-- Whatever `normalize_path` makes of an absolute path, it leaves as it is the next time, whatever
-- the working directory is then.
pub normalize_path_idempotent :
    (fuel fuel' : ℕ) (cwd cwd' : Outcome Bytes) (cs : List Bytes) (p : Bytes)
    → All NoSlash cs
    → suc (length (join cs)) < fuel
    → normalize_path fuel cwd (b'/' ∷ join cs) ≡ ok p
    → length p < fuel'
    → normalize_path fuel' cwd' p ≡ ok p
normalize_path_idempotent fuel fuel' cwd cwd' cs p n l e l' =
    let a = normalize_path-absolute fuel cwd cs n l in
    let q : p ≡ root_or (resolve [] cs) = cc in
    subst (λ t. normalize_path fuel' cwd' t ≡ ok t) (sym q)
      (normalize_path-root_or fuel' cwd' (resolve [] cs) (resolve-Name [] cs tt n)
        (subst (λ t. length t < fuel') q l'))

-- In the root directory `normalize_path` of a name that is neither a dot nor two dots is the name behind two slashes.
pub normalize_path_in_root :
    (fuel : ℕ) (c : Bytes)
    → Name c
    → normalize_path (suc (suc fuel)) (ok (b'/' ∷ [])) c ≡ ok (b'/' ∷ b'/' ∷ c)
unfolding normalize_path add_component enter
normalize_path_in_root fuel c (n, e, here, up) =
    rw (walk-last (suc fuel) (ok (b'/' ∷ [])) c record { slashes = 0; ret = [] } n e, e, up, here)
      refl
