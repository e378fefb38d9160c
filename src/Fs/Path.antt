-- ===== src/Fs/Path.antt =====
-- `normalize_path` of src/fs/path.cxx. A position in the path stands as the rest of the path from
-- there on. The working directory, which another function asks for, is an argument.
pub mod Stack
pub mod Segments
pub mod Normalize
pub mod Again
mod Tests
use libcosmos.Prelude.{
  ℕ, zero, suc, Bool, true, false, ◌&&◌, List, [], ◌∷◌, ◌++◌, Option, none, some, ◌==◌, ltb, length,
  is_empty, if◌then◌else◌, bytes_eq,
}
use libcosmos.Outcome.{Bytes, Outcome, ok, throw, spins, runtime_error}

-- `path.substr(start, end - start)` with `end` the next slash.
unfoldable pub component : Bytes → Bytes
component [] = []
component (c ∷ s) = let rest = component s in if c == b'/' then [] else c ∷ rest

-- The path from `end + 1` on, which is empty if there is no slash.
unfoldable pub behind : Bytes → Bytes
behind [] = []
behind (c ∷ s) = let rest = behind s in if c == b'/' then s else rest

abbrev keep_first : ℕ → Option Bytes → Option Bytes
keep_first c (some s) = some (c ∷ s)
keep_first c none = if c == b'/' then some [] else none

-- `s.erase(s.rfind('/'))`; without a slash `erase` throws.
unfoldable pub erase_last : Bytes → Option Bytes
erase_last [] = none
erase_last (c ∷ s) = keep_first c (erase_last s)

pub record Progress : Type 0 where
  pub slashes : ℕ
  pub ret : Bytes

abbrev pub with_ret : Outcome Bytes → (Bytes → Outcome Progress) → Outcome Progress
with_ret (ok s) f = f s
with_ret (throw x) f = throw x
with_ret spins f = spins

abbrev pub erased : Option Bytes → Outcome Bytes
erased (some s) = ok s
erased none = throw (runtime_error "basic_string::erase" [])

-- `..`: the root directory is not removed.
unfoldable pub remove_component : Bytes → Outcome Bytes
unfolding erase_last
remove_component ret = if ltb 1 (length ret) then erased (erase_last ret) else ok ret

-- A component that is not empty, behind the working directory where that is due.
unfoldable pub enter : Bytes → ℕ → Bytes → Outcome Progress
unfolding remove_component
enter component slashes ret =
    if bytes_eq component (b'.' ∷ b'.' ∷ [])
    then with_ret (remove_component ret) (λ s. ok record { slashes = suc slashes; ret = s })
    else if bytes_eq component (b'.' ∷ [])
    then ok record { slashes = suc slashes; ret = ret }
    else ok record { slashes = slashes; ret = ret ++ b'/' ∷ component }

-- A round of the loop.
unfoldable pub add_component : Outcome Bytes → Bytes → Progress → Outcome Progress
unfolding enter
add_component cwd component p =
    if is_empty component
    then ok record p { slashes = suc p.slashes }
    else with_ret (if p.slashes == 0 && is_empty p.ret then cwd else ok p.ret)
        (λ ret. enter component p.slashes ret)

abbrev pub and_then : Outcome Progress → (Progress → Outcome Progress) → Outcome Progress
and_then (ok p) f = f p
and_then (throw x) f = throw x
and_then spins f = spins

unfoldable pub walk : ℕ → Outcome Bytes → Bytes → Progress → Outcome Progress
unfolding component behind add_component
walk zero cwd path p = spins
walk (suc fuel) cwd [] p = ok p
walk (suc fuel) cwd (c ∷ path) p =
    and_then (add_component cwd (component (c ∷ path)) p) (walk fuel cwd (behind (c ∷ path)))

abbrev pub finished : Outcome Progress → Outcome Bytes
finished (ok p) = ok (if ltb 0 p.slashes && is_empty p.ret then b'/' ∷ [] else p.ret)
finished (throw x) = throw x
finished spins = spins

unfoldable pub normalize_path : ℕ → Outcome Bytes → Bytes → Outcome Bytes
unfolding walk
normalize_path fuel cwd path = finished (walk fuel cwd path record { slashes = 0; ret = [] })
