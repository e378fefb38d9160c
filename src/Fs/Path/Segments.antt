-- ===== src/Fs/Path/Segments.antt =====
-- A path as its components with slashes between them.
use libcosmos.Prelude.{ℕ, suc, ◌≡◌, refl, ap, false, List, [], ◌∷◌, ◌++◌, is_empty, arith}
use libcosmos.Outcome.{Bytes, Outcome, ok}
use libcosmos.Fs.Path.{component, behind, walk, and_then, add_component, Progress}
use libcosmos.Fs.Path.Stack.{NoSlash}

unfoldable pub join : List Bytes → Bytes
join [] = []
join (c ∷ []) = c
join (c ∷ d ∷ cs) = c ++ b'/' ∷ join (d ∷ cs)

pub component-append : (c s : Bytes) → NoSlash c → component (c ++ b'/' ∷ s) ≡ c
unfolding component
component-append [] s h = refl
component-append (x ∷ c) s h = rw h.0 (ap (λ t. x ∷ t) (component-append c s h.1))

pub component-last : (c : Bytes) → NoSlash c → component c ≡ c
unfolding component
component-last [] h = refl
component-last (x ∷ c) h = rw h.0 (ap (λ t. x ∷ t) (component-last c h.1))

behind-append : (c s : Bytes) → NoSlash c → behind (c ++ b'/' ∷ s) ≡ s
unfolding behind
behind-append [] s h = refl
behind-append (x ∷ c) s h = rw h.0 (behind-append c s h.1)

behind-last : (c : Bytes) → NoSlash c → behind c ≡ []
unfolding behind
behind-last [] h = refl
behind-last (x ∷ c) h = rw h.0 (behind-last c h.1)

walk_some :
    (fuel : ℕ) (cwd : Outcome Bytes) (path : Bytes) (p : Progress)
    → is_empty path ≡ false
    → walk (suc fuel) cwd path p
      ≡ and_then (add_component cwd (component path) p) (walk fuel cwd (behind path))
unfolding walk
walk_some fuel cwd [] p h = ground arith
walk_some fuel cwd (c ∷ path) p h = refl

pub append-some : (c s : Bytes) → is_empty (c ++ b'/' ∷ s) ≡ false
append-some [] s = refl
append-some (x ∷ c) s = refl

-- A round in front of a further component, and the last round.
pub walk-append :
    (fuel : ℕ) (cwd : Outcome Bytes) (c s : Bytes) (p : Progress)
    → NoSlash c
    → walk (suc fuel) cwd (c ++ b'/' ∷ s) p ≡ and_then (add_component cwd c p) (walk fuel cwd s)
walk-append fuel cwd c s p h = rw (
  walk_some fuel cwd (c ++ b'/' ∷ s) p (append-some c s),
  component-append c s h,
  behind-append c s h,
)

pub walk-last :
    (fuel : ℕ) (cwd : Outcome Bytes) (c : Bytes) (p : Progress)
    → NoSlash c
    → is_empty c ≡ false
    → walk (suc fuel) cwd c p ≡ and_then (add_component cwd c p) (walk fuel cwd [])
walk-last fuel cwd c p h n = rw (walk_some fuel cwd c p n, component-last c h, behind-last c h)

pub walk-end : (fuel : ℕ) (cwd : Outcome Bytes) (p : Progress) → walk (suc fuel) cwd [] p ≡ ok p
unfolding walk
walk-end fuel cwd p = refl
