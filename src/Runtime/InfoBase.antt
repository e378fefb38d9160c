-- ===== src/Runtime/InfoBase.antt =====
-- `InfoBase::getInfo` of src/cosmos/private/InfoBase.hxx, for `PasswdInfo` and `GroupInfo`. The call
-- of the user database is a parameter: for a buffer of a size it answers the error number and the
-- entry, if there is one. The loop takes fuel.
pub mod Lookup
mod Tests
use libcosmos.Prelude.{
  ℕ, zero, suc, ◌*◌, Bool, true, false, List, [], Option, none, some, ◌==◌, ltb, if◌then◌else◌,
}
use libcosmos.Outcome.{Bytes, runtime_error, Outcome, ok, throw, spins, Comp, raise}
use libcosmos.Outcome.Errno

abbrev pub buf_init_size : ℕ
buf_init_size = 512

abbrev pub buf_max_size : ℕ
buf_max_size = 65535

module _ {W A : Type 0} (get_func : ℕ → W → (ℕ × Option A) × W) where
  -- The test of the size behind a round that did not return.
  unfoldable pub limited : ℕ → (ℕ → Comp W (Option A)) → Comp W (Option A)
  limited size again =
      if ltb buf_max_size size
      then raise (runtime_error "buffer size limit reached" [])
      else again size

  -- The switch. Of any other error it makes an `ApiError` that it does not throw.
  unfoldable pub switched :
      ℕ → (ℕ → Comp W (Option A)) → (ℕ × Option A) × W → Outcome (Option A) × W
  unfolding limited
  switched size again ((err, res), w) =
      if err == Errno.no_error
      then (ok res, w)
      else limited (if err == Errno.range then size * 2 else size) again w

  unfoldable pub rounds : ℕ → ℕ → Comp W (Option A)
  unfolding switched
  rounds zero size w = (spins, w)
  rounds (suc fuel) size w = switched size (rounds fuel) (get_func size w)

  -- An entry that is not valid is `none`: the constructors reset it.
  unfoldable pub get_info : ℕ → Comp W (Option A)
  unfolding rounds
  get_info fuel = rounds fuel buf_init_size

-- The constructors of `PasswdInfo` and of `GroupInfo` that take a name.
module _ {W A : Type 0} (by_name : Bytes → ℕ → W → (ℕ × Option A) × W) where
  unfoldable pub passwd_info : ℕ → Bytes → Comp W (Option A)
  unfolding get_info
  passwd_info fuel name = get_info (by_name name) fuel

  unfoldable pub group_info : ℕ → Bytes → Comp W (Option A)
  unfolding get_info
  group_info fuel name = get_info (by_name name) fuel
