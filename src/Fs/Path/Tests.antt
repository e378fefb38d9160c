-- ===== src/Fs/Path/Tests.antt =====
-- Runs of `normalize_path`, and the theorems at these inputs.
use libcosmos.Prelude.{◌≡◌, refl, [], ◌∷◌, codes, arith}
use libcosmos.Outcome.{ok}
use libcosmos.Fs.Path.{normalize_path}
use libcosmos.Fs.Path.Stack.{path_of, resolve}
use libcosmos.Fs.Path.Segments.{join}
use libcosmos.Fs.Path.Normalize.{normalize_path-absolute, normalize_path-relative}

above_the_root : normalize_path 20 (ok (codes "/home")) (codes "/../a//./b/../") ≡ ok (codes "/a")
unfolding normalize_path
above_the_root = refl

from_home : normalize_path 20 (ok (codes "/home")) (codes "x/../../etc") ≡ ok (codes "/etc")
unfolding normalize_path
from_home = refl

nothing_given : normalize_path 20 (ok (codes "/home")) [] ≡ ok []
unfolding normalize_path
nothing_given = refl

normalize_path-absolute_example :
    normalize_path 20 (ok (codes "/home")) (codes "/../a/") ≡ ok (codes "/a")
unfolding join resolve path_of
normalize_path-absolute_example =
    normalize_path-absolute 20 (ok (codes "/home")) (codes ".." ∷ codes "a" ∷ [] ∷ [])
      ((refl, (refl, tt)), ((refl, tt), (tt, tt))) (omega arith)

normalize_path-relative_example :
    normalize_path 20 (ok (codes "/home")) (codes "../a") ≡ ok (codes "/a")
unfolding join resolve path_of
normalize_path-relative_example =
    normalize_path-relative 20 (codes "..") (codes "a" ∷ []) (codes "home") [] refl
      ((refl, (refl, tt)), ((refl, tt), tt))
      (((refl, (refl, (refl, (refl, tt)))), refl, refl, refl), tt) (omega arith)
