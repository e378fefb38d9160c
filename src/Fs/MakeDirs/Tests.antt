-- ===== src/Fs/MakeDirs/Tests.antt =====
-- Runs of `make_all_dirs` on a set of paths, and the theorems at these inputs.
use libcosmos.Prelude.{
  ◌≡◌, refl, ap, subst, inl, inr, Bool, true, false, ◌||◌, List, [], ◌∷◌, codes, arith, bytes_eq,
  bytes_eq_refl, if◌then◌else◌, Bool-cases,
}
use libcosmos.Outcome.{Bytes, ok, Reply, done, failed}
use libcosmos.Outcome.Errno
use libcosmos.Fs.Path.Stack.{resolve, path_of}
use libcosmos.Fs.Path.Segments.{join}
use libcosmos.Fs.Path.Again.{onto}
use libcosmos.Fs.MakeDirs.{make_all_dirs}
use libcosmos.Fs.MakeDirs.Prefixes.{prefixes}
use libcosmos.Fs.MakeDirs.Made.{MakesPaths, Made, make_all_dirs-Made}

abbrev has : List Bytes → Bytes → Bool
has [] p = false
has (q ∷ w) p = bytes_eq p q || has w p

abbrev mkdir : Bytes → List Bytes → Reply (Unit {0}) × List Bytes
mkdir p w = if has w p then (failed Errno.exists, w) else (done tt, p ∷ w)

abbrev Exists : List Bytes → Bytes → Type 0
Exists w p = has w p ≡ true

has_new : (p : Bytes) (w : List Bytes) → has (p ∷ w) p ≡ true
has_new p w = rw (bytes_eq_refl p)

has_made : (p : Bytes) (w : List Bytes) → has (mkdir p w).1 p ≡ true
has_made p w = elim (Bool-cases (has w p)) [ inl e ↦ rw (e, e) | inr e ↦ rw (e, bytes_eq_refl p) ]

behind_call :
    (p : Bytes) (w v : List Bytes) {r : Reply (Unit {0})} → mkdir p w ≡ (r, v) → Exists v p
behind_call p w v h = subst (λ s. has s p ≡ true) (ap (λ r. r.1) h) (has_made p w)

or_true : (b : Bool) → (b || true) ≡ true
or_true true = refl
or_true false = refl

kept_law : (p q : Bytes) (w : List Bytes) → Exists w q → Exists (mkdir p w).1 q
kept_law p q w h = elim (Bool-cases (has w p)) [
  | inl e ↦ rw e h
  | inr e ↦ rw (e, h) (or_true (bytes_eq q p))
]

laws : MakesPaths mkdir Exists
laws = record {
  made = λ p w v. behind_call p w v;
  there = λ p w v. behind_call p w v;
  kept = kept_law;
}

makes_two :
    make_all_dirs mkdir 20 20 (ok (codes "/")) (codes "/a//b/") []
    ≡ (ok 0, codes "/a/b" ∷ codes "/a" ∷ [])
unfolding make_all_dirs
makes_two = refl

relative_to_the_root :
    make_all_dirs mkdir 20 20 (ok (codes "/")) (codes "a") [] ≡ (ok 0, codes "//a" ∷ [])
unfolding make_all_dirs
relative_to_the_root = refl

make_all_dirs-Made_example :
    Made mkdir Exists laws
      (codes "/a" ∷ codes "/a/b" ∷ [])
      17
      (make_all_dirs mkdir 20 20 (ok (codes "/")) (codes "/a/b") [])
unfolding join resolve path_of prefixes onto
make_all_dirs-Made_example =
    make_all_dirs-Made mkdir Exists laws 20 20 (ok (codes "/")) (codes "a" ∷ codes "b" ∷ []) []
      ((refl, tt), ((refl, tt), tt)) (omega arith) (omega arith)
