-- ===== src/Fs/Buffers.antt =====
-- The functions of src/fs/filesystem.cxx that ask again with a larger buffer: `read_symlink` and
-- `get_working_dir`. readlink(2) and getcwd(3) are parameters: the first answers the bytes that it
-- wrote, the second the whole buffer. The loops take fuel.
pub mod Growth
mod Tests
use libcosmos.Prelude.{
  String, ℕ, zero, suc, ◌+◌, ◌*◌, Bool, true, false, List, [], ◌∷◌, Option, none, some, ◌==◌, ltb,
  length, if◌then◌else◌,
}
use libcosmos.Outcome.{
  Bytes, Exception, api_error, file_error, Outcome, ok, throw, spins, Reply, done, failed, Comp,
}
use libcosmos.Outcome.Errno

module _ {W : Type 0} (readlink : ℕ → W → Reply Bytes × W) where
  unfoldable pub link_result :
      Bytes → String → ℕ → (ℕ → Comp W Bytes) → Reply Bytes × W → Outcome Bytes × W
  link_result path call size again (failed e, w) = (throw (file_error path call e), w)
  link_result path call size again (done text, w) =
      if ltb (length text) size then (ok text, w) else again (length text + 1) w

  unfoldable pub read_link : ℕ → Bytes → String → ℕ → Comp W Bytes
  unfolding link_result
  read_link zero path call size w = (spins, w)
  read_link (suc fuel) path call size w =
      link_result path call size (read_link fuel path call) (readlink size w)

  unfoldable pub read_symlink : ℕ → Bytes → Comp W Bytes
  unfolding read_link
  read_symlink fuel path = read_link fuel path "readlink()" 128

-- `ret.resize(ret.find('\0'))`, where there is one.
unfoldable pub cut_at_zero : Bytes → Bytes
cut_at_zero [] = []
cut_at_zero (c ∷ s) = let rest = cut_at_zero s in if c == 0 then [] else c ∷ rest

module _ {W : Type 0} (getcwd : ℕ → W → Reply Bytes × W) where
  unfoldable pub dir_result : ℕ → (ℕ → Comp W Bytes) → Reply Bytes × W → Outcome Bytes × W
  unfolding cut_at_zero
  dir_result size again (failed e, w) =
      if e == Errno.range then again (size * 2) w else (throw (api_error "getcwd()" e), w)
  dir_result size again (done buffer, w) = (ok (cut_at_zero buffer), w)

  unfoldable pub dir_rounds : ℕ → ℕ → Comp W Bytes
  unfolding dir_result
  dir_rounds zero size w = (spins, w)
  dir_rounds (suc fuel) size w = dir_result size (dir_rounds fuel) (getcwd size w)

  unfoldable pub get_working_dir : ℕ → Comp W Bytes
  unfolding dir_rounds
  get_working_dir fuel = dir_rounds fuel 128
