-- ===== src/Fs/Ownership/Tests.antt =====
-- `change_owner` by names with one user and one group, and the theorem at this input.
use libcosmos.Prelude.{
  ℕ, ◌≡◌, refl, List, [], ◌∷◌, Option, none, some, codes, bytes_eq, if◌then◌else◌, ltb, arith,
}
use libcosmos.Outcome.{Bytes, ok, throw, runtime_error, Reply, done}
use libcosmos.Outcome.Errno
use libcosmos.Runtime.InfoBase.{get_info}
use libcosmos.Fs.Ownership.{change_owner_by_name}
use libcosmos.Fs.Ownership.Resolved.{Changed, Answer, change_owner_by_name-Changed}

-- The world is the list of the numbers that chown(2) was given.
abbrev World : Type 0
World = List (ℕ × ℕ)

abbrev users : Bytes → Option ℕ
users p = if bytes_eq p (codes "root") then some 0 else none

abbrev database : Bytes → ℕ → World → (ℕ × Option ℕ) × World
database p n w = ((if ltb n 3000 then (Errno.range, none) else (Errno.no_error, users p)), w)

abbrev chown : Bytes → ℕ → ℕ → World → Reply (Unit {0}) × World
chown path uid gid w = (done tt, (uid, gid) ∷ w)

answers : Answer database database users users
answers = ((λ p. (3000, omega arith, λ n w. refl)), (λ p. (3000, omega arith, λ n w. refl)))

keeps_the_group :
    change_owner_by_name database database 7 chown (codes "/f") (codes "root") [] []
    ≡ (ok tt, (0, 4294967295) ∷ [])
unfolding change_owner_by_name
keeps_the_group = refl

no_such_group :
    change_owner_by_name database database 7 chown (codes "/f") (codes "root") (codes "staff") []
    ≡ (throw (runtime_error "does not exist" (codes "staff")), [])
unfolding change_owner_by_name
no_such_group = refl

change_owner_by_name-Changed_example :
    change_owner_by_name database database 7 chown (codes "/f") (codes "root") (codes "staff") []
    ≡ Changed chown (codes "/f") (codes "root") (codes "staff") (some 0) none []
unfolding get_info
change_owner_by_name-Changed_example =
    change_owner_by_name-Changed database database users users chown 7 (codes "/f") (codes "root")
      (codes "staff") [] answers (omega arith)
