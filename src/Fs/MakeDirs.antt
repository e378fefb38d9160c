-- ===== src/Fs/MakeDirs.antt =====
-- `make_all_dirs` of src/fs/filesystem.cxx. The loop stands at the text before a separator and the
-- text from there on. mkdir(2) is a parameter.
pub mod Prefixes
pub mod Made
mod Tests
use libcosmos.Prelude.{
  ℕ, zero, suc, Bool, true, false, List, [], ◌∷◌, ◌++◌, Option, none, some, ◌==◌, is_empty,
  if◌then◌else◌, bytes_eq,
}
use libcosmos.Outcome.{
  Bytes, Exception, file_error, usage_error, Outcome, ok, throw, spins, Reply, done, failed, Comp,
  next, pure, raise, ◌>>=◌,
}
use libcosmos.Outcome.Errno
use libcosmos.Fs.Path.{component, normalize_path}

-- The text from the first slash on.
unfoldable pub from_slash : Bytes → Option Bytes
from_slash [] = none
from_slash (c ∷ s) = let rest = from_slash s in if c == b'/' then some (c ∷ s) else rest

-- `prefix.back() == '/'`.
unfoldable pub ends_in_slash : Bytes → Bool
ends_in_slash [] = false
ends_in_slash (c ∷ []) = c == b'/'
ends_in_slash (c ∷ d ∷ s) = ends_in_slash (d ∷ s)

module _ {W : Type 0} (mkdir : Bytes → W → Reply (Unit {0}) × W) where
  -- The value of `ret` behind a call of mkdir(2).
  unfoldable pub judged : Bytes → ℕ → Reply (Unit {0}) × W → Outcome ℕ × W
  judged prefix ret (done _, w) = (ok Errno.no_error, w)
  judged prefix ret (failed e, w) =
      if e == Errno.exists then (ok ret, w) else (throw (file_error prefix "mkdir()" e), w)

  unfoldable pub attempt : Bytes → ℕ → Comp W ℕ
  unfolding ends_in_slash judged
  attempt prefix ret w =
      if ends_in_slash prefix
      then (ok ret, w)
      else if bytes_eq prefix (b'.' ∷ [])
      then (ok ret, w)
      else judged prefix ret (mkdir prefix w)

  abbrev pub more : Option Bytes → ℕ → (Bytes → ℕ → Comp W ℕ) → Comp W ℕ
  more none ret f = pure ret
  more (some s) ret f = f s ret

  unfoldable pub rounds : ℕ → Bytes → Bytes → ℕ → Comp W ℕ
  unfolding from_slash attempt component
  rounds zero front rest ret w = (spins, w)
  rounds (suc fuel) front [] ret w = attempt front ret w
  rounds (suc fuel) front (c ∷ rest) ret w =
      (attempt (front ++ c ∷ component rest) ret >>= λ ret'.
      more (from_slash rest) ret' (rounds fuel (front ++ c ∷ component rest)))
        w

  abbrev pub on_path : Outcome Bytes → (Bytes → Comp W ℕ) → Comp W ℕ
  on_path (ok s) f w = f s w
  on_path (throw x) f w = (throw x, w)
  on_path spins f w = (spins, w)

  -- With fuel for the normalization and for the loop.
  unfoldable pub make_all_dirs : ℕ → ℕ → Outcome Bytes → Bytes → Comp W ℕ
  unfolding rounds normalize_path
  make_all_dirs fuel fuel' cwd path = on_path (normalize_path fuel cwd path) (λ normpath.
      if is_empty path
      then raise (usage_error "empty string passed in")
      else rounds fuel' [] normpath Errno.exists)
