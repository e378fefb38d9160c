-- ===== src/Fs/Path/Normalize.antt =====
-- What `normalize_path` returns, against the stack of names.
use libcosmos.Prelude.{
  ℕ, zero, suc, ◌+◌, ◌<◌, ◌≡◌, refl, ap, sym, subst, Bool, true, false, List, [], ◌∷◌, ◌++◌, ◌==◌,
  ltb, length, length-append, is_empty, if◌then◌else◌, bytes_eq, arith, lt→ltb, Bool-cases, inl,
  inr, All, ◌&&◌,
}
use libcosmos.Outcome.{Bytes, Outcome, ok}
use libcosmos.Fs.Path.{Progress, enter, add_component, and_then, walk, finished, normalize_path}
use libcosmos.Fs.Path.Stack.{
  NoSlash, Name, dot, dot_dot, path_of, path_of-length, visit, resolve, remove_component-path_of,
  visit-Name,
}
use libcosmos.Fs.Path.Segments.{join, append-some, walk-append, walk-last, walk-end}

-- The text built so far is the path of the names, and the working directory is not due any more.
abbrev Stands : List Bytes → Progress → Type 0
Stands names p = (p.ret ≡ path_of names) × (0 < p.slashes + length p.ret)

abbrev Reaches : List Bytes → Outcome Progress → Type 0
Reaches names r = (p : Progress) × (r ≡ ok p) × Stands names p

not_due : (n : ℕ) (s : Bytes) → 0 < n + length s → (n == 0 && is_empty s) ≡ false
not_due n [] h = ground arith
not_due n (c ∷ s) h = ground arith

added : (n : ℕ) (s c : Bytes) → 0 < n + length (s ++ b'/' ∷ c)
added n s c = omega (arith, length-append s (b'/' ∷ c))

enter_lem :
    (c : Bytes) (slashes : ℕ) (names : List Bytes)
    → is_empty c ≡ false
    → All Name names
    → 0 < slashes + length (path_of names)
    → Reaches (visit names c) (enter c slashes (path_of names))
unfolding enter visit path_of
enter_lem c slashes names e h o = elim (Bool-cases (bytes_eq c dot_dot)) [
  | inl up ↦ rw (e, up, remove_component-path_of names h) (_, refl, (refl, omega arith))
  | inr down ↦ elim (Bool-cases (bytes_eq c dot)) [
    | inl here ↦ rw (e, down, here) (_, refl, (refl, omega arith))
    | inr named ↦ rw (e, down, named) (_, refl, (refl, added slashes (path_of names) c))
  ]
]

visit_empty : (names : List Bytes) (c : Bytes) → is_empty c ≡ true → visit names c ≡ names
unfolding visit
visit_empty names c e = rw e

add_component_lem :
    (cwd : Outcome Bytes) (c : Bytes) (p : Progress) (names : List Bytes)
    → All Name names
    → Stands names p
    → Reaches (visit names c) (add_component cwd c p)
unfolding add_component
add_component_lem cwd c p names h (r, o) = elim (Bool-cases (is_empty c)) [
  | inl e ↦ rw (visit_empty names c e, e) (_, refl, (r, omega arith))
  | inr e ↦
      rw (e, not_due p.slashes p.ret o)
        (subst (λ s. Reaches (visit names c) (enter c p.slashes s)) (sym r)
          (enter_lem c p.slashes names e h (subst (λ s. 0 < p.slashes + length s) r o)))
]

walk_then :
    (names cs : List Bytes) {r : Outcome Progress} (f : Progress → Outcome Progress)
    → Reaches names r
    → ((p : Progress) → Stands names p → Reaches cs (f p))
    → Reaches cs (and_then r f)
walk_then names cs f (p, e, s) g = rw e (g p s)

walk_final :
    (fuel : ℕ) (cwd : Outcome Bytes) (c : Bytes) (p : Progress) (names : List Bytes)
    → All Name names
    → NoSlash c
    → Stands names p
    → length c < fuel
    → Reaches (visit names c) (walk fuel cwd c p)
walk_final zero cwd c p names h n s l = absurd (omega arith)
walk_final (suc fuel) cwd [] p names h n s l =
    rw (visit_empty names [] refl, walk-end fuel cwd p) (p, refl, s)
walk_final (suc zero) cwd (x ∷ c) p names h n s l = absurd (omega arith)
walk_final (suc (suc fuel)) cwd (x ∷ c) p names h n s l =
    rw (walk-last (suc fuel) cwd (x ∷ c) p n refl) (
      walk_then (visit names (x ∷ c)) _ (walk (suc fuel) cwd [])
        (add_component_lem cwd (x ∷ c) p names h s) (λ q t. (q, walk-end fuel cwd q, t)))

walk_lem :
    (fuel : ℕ) (cwd : Outcome Bytes) (cs : List Bytes) (p : Progress) (names : List Bytes)
    → All Name names
    → All NoSlash cs
    → Stands names p
    → length (join cs) < fuel
    → Reaches (resolve names cs) (walk fuel cwd (join cs) p)
unfolding resolve join
walk_lem fuel cwd [] p names h n s l = walk_final fuel cwd [] p names h tt s l
walk_lem fuel cwd (c ∷ []) p names h n s l = walk_final fuel cwd c p names h n.0 s l
walk_lem zero cwd (c ∷ d ∷ cs) p names h n s l = absurd (omega arith)
walk_lem (suc fuel) cwd (c ∷ d ∷ cs) p names h n s l =
    let k = length-append c (b'/' ∷ join (d ∷ cs)) in
    rw (walk-append fuel cwd c (join (d ∷ cs)) p n.0) (
      walk_then (visit names c) _ (walk fuel cwd (join (d ∷ cs)))
        (add_component_lem cwd c p names h s)
        (λ q t.
          walk_lem fuel cwd (d ∷ cs) q (visit names c) (visit-Name names c h n.0) n.1 t
            (omega arith)))

abbrev pub root_or : List Bytes → Bytes
root_or [] = b'/' ∷ []
root_or (c ∷ names) = path_of (c ∷ names)

choose_some :
    (b : Bool) (s : Bytes) → is_empty s ≡ false → (if b && is_empty s then b'/' ∷ [] else s) ≡ s
choose_some true s h = rw h
choose_some false s h = refl

finished_lem :
    (names : List Bytes) (r : Outcome Progress) → Reaches names r → finished r ≡ ok (root_or names)
unfolding path_of
finished_lem [] r (p, e, (q, o)) =
    rw (e, q, lt→ltb 0 p.slashes (omega (arith, subst (λ s. 0 < p.slashes + length s) q o)))
finished_lem (c ∷ names) r (p, e, (q, o)) =
    rw (e, q)
      (ap ok
        (choose_some (ltb 0 p.slashes) (path_of names ++ b'/' ∷ c) (append-some (path_of names) c)))

abbrev start : Progress
start = record { slashes = 0; ret = [] }

-- `normalize_path` of an absolute path, given as components without slashes, always ends with the
-- path of the names that the components lead to from the root: the empty and the dot are passed
-- over, two dots remove the last name, of which the root has none. The working directory is not
-- asked for.
pub normalize_path-absolute :
    (fuel : ℕ) (cwd : Outcome Bytes) (cs : List Bytes)
    → All NoSlash cs
    → suc (length (join cs)) < fuel
    → normalize_path fuel cwd (b'/' ∷ join cs) ≡ ok (root_or (resolve [] cs))
unfolding normalize_path add_component path_of
normalize_path-absolute zero cwd cs n l = absurd (omega arith)
normalize_path-absolute (suc fuel) cwd cs n l =
    finished_lem (resolve [] cs) (walk (suc fuel) cwd (b'/' ∷ join cs) start) (
      rw (walk-append fuel cwd [] (join cs) start tt) (
        walk_lem fuel cwd cs record { slashes = 1; ret = [] } [] tt n (refl, omega arith)
          (omega arith)))

first_component :
    (c d : Bytes) (names : List Bytes)
    → is_empty c ≡ false
    → All Name (d ∷ names)
    → Reaches (visit (d ∷ names) c) (add_component (ok (path_of (d ∷ names))) c start)
unfolding add_component
first_component c d names e h =
    rw e (enter_lem c 0 (d ∷ names) e h (omega (arith, path_of-length names d h.0.1)))

-- `normalize_path` of a path that starts with a component, in a working directory below the root,
-- always ends with the path of the names that the components lead to from there.
pub normalize_path-relative :
    (fuel : ℕ) (c : Bytes) (cs : List Bytes) (d : Bytes) (names : List Bytes)
    → is_empty c ≡ false
    → All NoSlash (c ∷ cs)
    → All Name (d ∷ names)
    → suc (length (join (c ∷ cs))) < fuel
    → normalize_path fuel (ok (path_of (d ∷ names))) (join (c ∷ cs))
      ≡ ok (root_or (resolve (d ∷ names) (c ∷ cs)))
unfolding normalize_path resolve join
normalize_path-relative zero c cs d names e n h l = absurd (omega arith)
normalize_path-relative (suc zero) c cs d names e n h l = absurd (omega arith)
normalize_path-relative (suc (suc fuel)) c [] d names e n h l =
    finished_lem (visit (d ∷ names) c) _ (
      rw (walk-last (suc fuel) (ok (path_of (d ∷ names))) c start n.0 e) (
        walk_then (visit (d ∷ names) c) _ (walk (suc fuel) (ok (path_of (d ∷ names))) [])
          (first_component c d names e h)
          (λ q t. (q, walk-end fuel (ok (path_of (d ∷ names))) q, t))))
normalize_path-relative (suc (suc fuel)) c (b ∷ cs) d names e n h l =
    let k = length-append c (b'/' ∷ join (b ∷ cs)) in
    finished_lem (resolve (visit (d ∷ names) c) (b ∷ cs)) _ (
      rw (walk-append (suc fuel) (ok (path_of (d ∷ names))) c (join (b ∷ cs)) start n.0) (
        walk_then (visit (d ∷ names) c) _
          (walk (suc fuel) (ok (path_of (d ∷ names))) (join (b ∷ cs)))
          (first_component c d names e h)
          (λ q t.
            walk_lem (suc fuel) (ok (path_of (d ∷ names))) (b ∷ cs) q (visit (d ∷ names) c)
              (visit-Name (d ∷ names) c h n.0) n.1 t (omega arith))))
