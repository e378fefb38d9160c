-- ===== src/Fs/MakeDirs/Prefixes.antt =====
-- The directories that `make_all_dirs` tries to make.
use libcosmos.Prelude.{
  ℕ, zero, suc, ◌<◌, ◌≡◌, refl, ap, sym, subst, ◌∙◌, false, List, [], ◌∷◌, ◌++◌, none, some, length,
  length-append, is_empty, bytes_eq, bytes_eq→eq, arith, Bool-cases, inl, inr, All,
}
use libcosmos.Outcome.{Bytes, Outcome, ok, next_ext, Reply, Comp, pure, ◌>>=◌}
use libcosmos.Outcome.Errno
use libcosmos.Fs.Path.Stack.{NoSlash, Name, dot, path_of, path_of-length, resolve, resolve-Name}
use libcosmos.Fs.Path.Segments.{join, component-append, component-last}
use libcosmos.Fs.Path.Normalize.{root_or, normalize_path-absolute}
use libcosmos.Fs.Path.Again.{onto, path_of-onto}
use libcosmos.Fs.MakeDirs.{from_slash, ends_in_slash, judged, attempt, rounds, make_all_dirs}

from_slash-append : (c s : Bytes) → NoSlash c → from_slash (c ++ b'/' ∷ s) ≡ some (b'/' ∷ s)
unfolding from_slash
from_slash-append [] s h = refl
from_slash-append (x ∷ c) s h = rw h.0 (from_slash-append c s h.1)

from_slash-none : (c : Bytes) → NoSlash c → from_slash c ≡ none
unfolding from_slash
from_slash-none [] h = refl
from_slash-none (x ∷ c) h = rw h.0 (from_slash-none c h.1)

name_end : (x : ℕ) (c : Bytes) → NoSlash (x ∷ c) → ends_in_slash (x ∷ c) ≡ false
unfolding ends_in_slash
name_end x [] h = h.0
name_end x (y ∷ c) h = name_end y c h.1

append_end :
    (s : Bytes) (x : ℕ) (c : Bytes) → ends_in_slash (s ++ b'/' ∷ x ∷ c) ≡ ends_in_slash (x ∷ c)
unfolding ends_in_slash
append_end [] x c = refl
append_end (a ∷ []) x c = refl
append_end (a ∷ b ∷ s) x c = append_end (b ∷ s) x c

path_of_end :
    (names : List Bytes) (d : Bytes) → Name d → ends_in_slash (path_of (d ∷ names)) ≡ false
unfolding path_of
path_of_end names [] (n, e, here, up) = ground arith
path_of_end names (x ∷ d) (n, e, here, up) = append_end (path_of names) x d ∙ name_end x d n

long_not_dot : (s : Bytes) → 1 < length s → bytes_eq s dot ≡ false
long_not_dot s h = elim (Bool-cases (bytes_eq s dot)) [
  | inl e ↦ absurd (omega (arith, ap length (bytes_eq→eq s dot e)))
  | inr e ↦ e
]

-- The paths from the outermost directory on, below the names that are passed already.
unfoldable pub prefixes : List Bytes → List Bytes → List Bytes
prefixes names [] = []
prefixes names (d ∷ ds) = path_of (d ∷ names) ∷ prefixes (d ∷ names) ds

module _ {W : Type 0} (mkdir : Bytes → W → Reply (Unit {0}) × W) where
  -- One call of mkdir(2) for each path, as far as none fails for another reason than that the path
  -- exists.
  unfoldable pub make_each : List Bytes → ℕ → Comp W ℕ
  make_each [] ret = pure ret
  make_each (p ∷ ps) ret = (λ w. judged mkdir p ret (mkdir p w)) >>= make_each ps

  attempt-path_of :
      (names : List Bytes) (d : Bytes) (ret : ℕ) (w : W)
      → Name d
      → attempt mkdir (path_of (d ∷ names)) ret w
        ≡ judged mkdir (path_of (d ∷ names)) ret (mkdir (path_of (d ∷ names)) w)
  unfolding attempt
  attempt-path_of names d ret w n =
      rw (path_of_end names d n, long_not_dot (path_of (d ∷ names)) (path_of-length names d n.1))

  rounds-prefixes :
      (fuel : ℕ) (names : List Bytes) (d : Bytes) (ds : List Bytes) (ret : ℕ) (w : W)
      → All Name (d ∷ ds)
      → length (join (d ∷ ds)) < fuel
      → rounds mkdir fuel (path_of names) (b'/' ∷ join (d ∷ ds)) ret w
        ≡ make_each (prefixes names (d ∷ ds)) ret w
  unfolding rounds prefixes make_each join path_of
  rounds-prefixes zero names d ds ret w h l = absurd (omega arith)
  rounds-prefixes (suc fuel) names d [] ret w h l =
      rw (component-last d h.0.0, from_slash-none d h.0.0, attempt-path_of names d ret w h.0)
  rounds-prefixes (suc fuel) names d (e ∷ ds) ret w h l =
      let k = length-append d (b'/' ∷ join (e ∷ ds)) in
      rw
        (
          component-append d (join (e ∷ ds)) h.0.0,
          from_slash-append d (join (e ∷ ds)) h.0.0,
          attempt-path_of names d ret w h.0,
        )
        (next_ext _ _ (λ ret' v. rounds-prefixes fuel (d ∷ names) e ds ret' v h.1 (omega arith)))

abbrev pub all_prefixes : List Bytes → List Bytes
all_prefixes names = prefixes [] (onto names [])

onto-Name : (names ds : List Bytes) → All Name names → All Name ds → All Name (onto names ds)
unfolding onto
onto-Name [] ds h n = n
onto-Name (c ∷ names) ds h n = onto-Name names (c ∷ ds) h.1 (h.0, n)

onto_some :
    (names : List Bytes) (c : Bytes) (ds : List Bytes) → is_empty (onto names (c ∷ ds)) ≡ false
unfolding onto
onto_some [] c ds = refl
onto_some (b ∷ names) c ds = onto_some names b (c ∷ ds)

module _ {W : Type 0} (mkdir : Bytes → W → Reply (Unit {0}) × W) where
  root_rounds :
      (fuel : ℕ) (ret : ℕ) (w : W) → 1 < fuel → rounds mkdir fuel [] (b'/' ∷ []) ret w ≡ (ok ret, w)
  unfolding rounds attempt
  root_rounds zero ret w l = absurd (omega arith)
  root_rounds (suc fuel) ret w l = refl

  rounds_some :
      (fuel : ℕ) (ds : List Bytes) (ret : ℕ) (w : W)
      → is_empty ds ≡ false
      → All Name ds
      → length (join ds) < fuel
      → rounds mkdir fuel [] (b'/' ∷ join ds) ret w ≡ make_each mkdir (prefixes [] ds) ret w
  unfolding path_of
  rounds_some fuel [] ret w e h l = ground arith
  rounds_some fuel (d ∷ ds) ret w e h l = rounds-prefixes mkdir fuel [] d ds ret w h l

  rounds_lem :
      (fuel : ℕ) (names : List Bytes) (ret : ℕ) (w : W)
      → All Name names
      → length (root_or names) < fuel
      → rounds mkdir fuel [] (root_or names) ret w ≡ make_each mkdir (all_prefixes names) ret w
  unfolding make_each prefixes onto path_of join
  rounds_lem fuel [] ret w h l = root_rounds fuel ret w l
  rounds_lem fuel (c ∷ names) ret w h l =
      let k = path_of-onto names c [] in
      let k' = ap length k in
      subst (λ t. rounds mkdir fuel [] t ret w ≡ make_each mkdir (all_prefixes (c ∷ names)) ret w)
        (sym k)
        (rounds_some fuel (onto names (c ∷ [])) ret w (onto_some names c [])
          (onto-Name names (c ∷ []) h.1 (h.0, tt)) (omega arith))

  -- `make_all_dirs` of an absolute path calls mkdir(2) for the directories on the normalized path
  -- from the outermost on, up to the first failure other than that a path exists, and for nothing
  -- else. The loops end with fuel for the length of the path and of the normalized path.
  pub make_all_dirs-make_each :
      (fuel fuel' : ℕ) (cwd : Outcome Bytes) (cs : List Bytes) (w : W)
      → All NoSlash cs
      → suc (length (join cs)) < fuel
      → length (root_or (resolve [] cs)) < fuel'
      → make_all_dirs mkdir fuel fuel' cwd (b'/' ∷ join cs) w
        ≡ make_each mkdir (all_prefixes (resolve [] cs)) Errno.exists w
  unfolding make_all_dirs
  make_all_dirs-make_each fuel fuel' cwd cs w n l l' =
      rw (normalize_path-absolute fuel cwd cs n l)
        (rounds_lem fuel' (resolve [] cs) Errno.exists w (resolve-Name [] cs tt n) l')
