-- ===== src/Fs/Path/Stack.antt =====
-- An absolute path as the stack of the names on it, the innermost first.
use libcosmos.Prelude.{
  ◌<◌, ◌≡◌, refl, ap, false, List, [], ◌∷◌, ◌++◌, none, some, ◌==◌, length, length-append, is_empty,
  if◌then◌else◌, bytes_eq, arith, lt→ltb, Bool-cases, inl, inr, All,
}
use libcosmos.Outcome.{Bytes, ok}
use libcosmos.Fs.Path.{erase_last, remove_component, erased}

abbrev pub NoSlash : Bytes → Type 0
NoSlash = All (λ c. (c == b'/') ≡ false)

abbrev pub dot : Bytes
dot = b'.' ∷ []

abbrev pub dot_dot : Bytes
dot_dot = b'.' ∷ b'.' ∷ []

-- A name that stands for itself.
abbrev pub Name : Bytes → Type 0
Name c = NoSlash c × (is_empty c ≡ false) × (bytes_eq c dot ≡ false) × (bytes_eq c dot_dot ≡ false)

unfoldable pub path_of : List Bytes → Bytes
path_of [] = []
path_of (c ∷ names) = path_of names ++ b'/' ∷ c

unfoldable pub tail : List Bytes → List Bytes
tail [] = []
tail (c ∷ names) = names

-- What a component of a path means: the empty one and the dot mean the directory that one is in,
-- two dots the one above.
unfoldable pub visit : List Bytes → Bytes → List Bytes
unfolding tail
visit names c =
    if is_empty c
    then names
    else if bytes_eq c dot_dot
    then tail names
    else if bytes_eq c dot
    then names
    else c ∷ names

unfoldable pub resolve : List Bytes → List Bytes → List Bytes
unfolding visit
resolve names [] = names
resolve names (c ∷ cs) = resolve (visit names c) cs

erase_last-none : (c : Bytes) → NoSlash c → erase_last c ≡ none
unfolding erase_last
erase_last-none [] h = refl
erase_last-none (x ∷ c) h = rw (erase_last-none c h.1, h.0)

erase_last-append : (s c : Bytes) → NoSlash c → erase_last (s ++ b'/' ∷ c) ≡ some s
unfolding erase_last
erase_last-append [] c h = rw (erase_last-none c h)
erase_last-append (x ∷ s) c h = rw (erase_last-append s c h)

pub path_of-length :
    (names : List Bytes) (c : Bytes) → is_empty c ≡ false → 1 < length (path_of (c ∷ names))
unfolding path_of
path_of-length names [] h = ground arith
path_of-length names (x ∷ c) h = omega (arith, length-append (path_of names) (b'/' ∷ x ∷ c))

pub remove_component-path_of :
    (names : List Bytes)
    → All Name names
    → remove_component (path_of names) ≡ ok (path_of (tail names))
unfolding remove_component path_of tail
remove_component-path_of [] h = refl
remove_component-path_of (c ∷ names) h =
    rw (lt→ltb _ _ (path_of-length names c h.0.1))
      (ap erased (erase_last-append (path_of names) c h.0.0))

tail-Name : (names : List Bytes) → All Name names → All Name (tail names)
unfolding tail
tail-Name [] h = tt
tail-Name (c ∷ names) h = h.1

pub visit-Name :
    (names : List Bytes) (c : Bytes) → All Name names → NoSlash c → All Name (visit names c)
unfolding visit
visit-Name names c h n = elim (Bool-cases (is_empty c)) [
  | inl e ↦ rw e h
  | inr e ↦ elim (Bool-cases (bytes_eq c dot_dot)) [
    | inl up ↦ rw (e, up) (tail-Name names h)
    | inr down ↦ elim (Bool-cases (bytes_eq c dot)) [
      | inl here ↦ rw (e, down, here) h
      | inr named ↦ rw (e, down, named) ((n, e, named, down), h)
    ]
  ]
]

pub resolve-Name :
    (names cs : List Bytes) → All Name names → All NoSlash cs → All Name (resolve names cs)
unfolding resolve
resolve-Name names [] h n = h
resolve-Name names (c ∷ cs) h n = resolve-Name (visit names c) cs (visit-Name names c h n.0) n.1
