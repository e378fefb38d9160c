-- ===== src/Fs/Ownership.antt =====
-- `resolve_user`, `resolve_group` and the functions that change the owner in src/fs/filesystem.cxx. getpwnam_r(3)
-- and getgrnam_r(3) are parameters; of an entry only its number is kept.
pub mod Resolved
mod Tests
use libcosmos.Prelude.{
  ℕ, ◌-◌, ◌^◌, String, Bool, true, false, List, [], ◌∷◌, Option, none, some, is_empty, codes,
  if◌then◌else◌,
}
use libcosmos.Outcome.{
  Bytes, Exception, runtime_error, file_error, Outcome, ok, throw, spins, Reply, done, failed, Comp,
  checked, next, pure, raise, ◌>>=◌,
}
use libcosmos.Runtime.InfoBase.{passwd_info, group_info}

-- `UserID::INVALID` and `GroupID::INVALID`, which leave an owner as it is.
abbrev pub invalid_id : ℕ
invalid_id = 2 ^ 32 - 1

abbrev pub valid_id : {W : Type 0} → String → Bytes → Option ℕ → Comp W ℕ
valid_id message name none = raise (runtime_error message name)
valid_id message name (some id) = pure id

module _ {W : Type 0} (getpwnam getgrnam : Bytes → ℕ → W → (ℕ × Option ℕ) × W) (fuel : ℕ) where
  unfoldable pub resolve_user : Bytes → Comp W ℕ
  unfolding passwd_info
  resolve_user user =
      if is_empty user
      then pure invalid_id
      else passwd_info getpwnam fuel user >>= valid_id " does not exist" user

  unfoldable pub resolve_group : Bytes → Comp W ℕ
  unfolding group_info
  resolve_group group =
      if is_empty group
      then pure invalid_id
      else group_info getgrnam fuel group >>= valid_id "does not exist" group

module _ {W : Type 0} (chown : Bytes → ℕ → ℕ → W → Reply (Unit {0}) × W) where
  unfoldable pub change_owner : Bytes → ℕ → ℕ → Comp W (Unit {0})
  change_owner path uid gid w = checked (file_error path "chown()") (chown path uid gid w)

module _ {W : Type 0} (fchown : ℕ → ℕ → ℕ → W → Reply (Unit {0}) × W) where
  unfoldable pub change_owner_fd : ℕ → ℕ → ℕ → Comp W (Unit {0})
  change_owner_fd fd uid gid w =
      checked (file_error (codes "(fd)") "fchown()") (fchown fd uid gid w)

module _ {W : Type 0} (lchown : Bytes → ℕ → ℕ → W → Reply (Unit {0}) × W) where
  unfoldable pub change_owner_nofollow : Bytes → ℕ → ℕ → Comp W (Unit {0})
  change_owner_nofollow path uid gid w =
      checked (file_error path "lchown()") (lchown path uid gid w)

-- The functions that take names resolve both before they change anything.
module _ {W : Type 0} (getpwnam getgrnam : Bytes → ℕ → W → (ℕ × Option ℕ) × W) (fuel : ℕ) where
  unfoldable pub by_names : Bytes → Bytes → (ℕ → ℕ → Comp W (Unit {0})) → Comp W (Unit {0})
  unfolding resolve_user resolve_group
  by_names user group change = resolve_user getpwnam getgrnam fuel user >>= λ uid.
      resolve_group getpwnam getgrnam fuel group >>= λ gid. change uid gid

  unfoldable pub change_owner_by_name :
      (Bytes → ℕ → ℕ → W → Reply (Unit {0}) × W) → Bytes → Bytes → Bytes → Comp W (Unit {0})
  unfolding by_names change_owner
  change_owner_by_name chown path user group = by_names user group (change_owner chown path)

  unfoldable pub change_owner_fd_by_name :
      (ℕ → ℕ → ℕ → W → Reply (Unit {0}) × W) → ℕ → Bytes → Bytes → Comp W (Unit {0})
  unfolding by_names change_owner_fd
  change_owner_fd_by_name fchown fd user group = by_names user group (change_owner_fd fchown fd)

  unfoldable pub change_owner_nofollow_by_name :
      (Bytes → ℕ → ℕ → W → Reply (Unit {0}) × W) → Bytes → Bytes → Bytes → Comp W (Unit {0})
  unfolding by_names change_owner_nofollow
  change_owner_nofollow_by_name lchown path user group =
      by_names user group (change_owner_nofollow lchown path)
