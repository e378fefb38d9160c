-- ===== src/Fs/Open.antt =====
-- `open` and `open_at` of src/fs/filesystem.cxx, and what opens by them: `File::open`,
-- `Directory::open`, `make_tempfile` and `make_tempdir`. The system calls are parameters, each with
-- the arguments that it is given.
pub mod Guard
mod Tests
use Prim.Native.Nat.{bit_or}
use libcosmos.Prelude.{
  String, ℕ, ◌^◌, Bool, true, false, ◌&&◌, ◌++◌, List, [], ◌∷◌, Option, none, some, if◌then◌else◌,
}
use libcosmos.Outcome.{
  Bytes, Exception, usage_error, file_error, api_error, Outcome, ok, throw, spins, Reply, done,
  failed, Comp, checked, next, raise, and_then, pure, ◌>>=◌,
}
use libcosmos.BitMask.{Mask, any_of, set}
use libcosmos.Fs.TempPath.{expand_temp_path, xs}

-- `OpenMode::READ_ONLY`, and the flags of `OpenFlag` that the code names.
abbrev pub read_only : ℕ
read_only = 0

abbrev pub create : ℕ
create = 0x40

abbrev pub directory_flag : ℕ
directory_flag = 0x1_0000

abbrev pub cloexec : ℕ
cloexec = 0x8_0000

abbrev pub tmpfile : ℕ
tmpfile = 0x41_0000

-- `fmode ? to_integral(fmode.value().raw()) : 0`.
abbrev pub permissions : Option ℕ → ℕ
permissions none = 0
permissions (some m) = m

abbrev pub is_missing : Option ℕ → Bool
is_missing none = true
is_missing (some m) = false

-- An outcome that no call decides.
abbrev pub outcome : {W A : Type 0} → Outcome A → Comp W A
outcome r w = (r, w)

-- `flags.anyOf({OpenFlag::CREATE, OpenFlag::TMPFILE}) && !fmode`.
unfoldable pub lacks_mode : Mask → Option ℕ → Outcome Bool
unfolding any_of
lacks_mode flags fmode =
    and_then (any_of flags (create ∷ tmpfile ∷ [])) (λ b. ok (b && is_missing fmode))

module _ {W : Type 0} (sys_open : Bytes → ℕ → ℕ → W → Reply ℕ × W) where
  unfoldable pub open_fd : Bytes → ℕ → Mask → Option ℕ → Comp W ℕ
  unfolding lacks_mode
  open_fd path mode flags fmode = outcome (lacks_mode flags fmode) >>= λ lacks.
      if lacks then raise (usage_error "the given open flags require an fmode argument") else λ w.
      checked (file_error path "open") (sys_open path (bit_or flags mode) (permissions fmode) w)

module _ {W : Type 0} (sys_openat : ℕ → Bytes → ℕ → ℕ → W → Reply ℕ × W) where
  unfoldable pub open_at : ℕ → Bytes → ℕ → Mask → Option ℕ → Comp W ℕ
  unfolding lacks_mode
  open_at dir_fd path mode flags fmode = outcome (lacks_mode flags fmode) >>= λ lacks.
      if lacks then raise (usage_error "the given open flags require an fmode argument") else λ w.
      checked (file_error path "openat")
        (sys_openat dir_fd path (bit_or flags mode) (permissions fmode) w)

  -- `Directory::open` relative to a descriptor.
  unfoldable pub open_directory_at : ℕ → Bytes → ℕ → Mask → Comp W ℕ
  unfolding open_at set
  open_directory_at dir_fd path mode flags =
      open_at dir_fd path mode (set 32 flags directory_flag true) none

module _ {W : Type 0} (sys_open : Bytes → ℕ → ℕ → W → Reply ℕ × W) where
  -- `Directory::open` of a path.
  unfoldable pub open_directory : Bytes → ℕ → Mask → Comp W ℕ
  unfolding open_fd set
  open_directory path mode flags =
      open_fd sys_open path mode (set 32 flags directory_flag true) none

  -- `File::open` of a path closes what the object holds before it opens.
  unfoldable pub open_file : Comp W (Unit {0}) → Bytes → ℕ → Mask → Option ℕ → Comp W ℕ
  unfolding open_fd
  open_file close path mode flags fmode = close >>= λ _. open_fd sys_open path mode flags fmode

module _ {W : Type 0} (mkostemps : Bytes → ℕ → Mask → W → Reply (ℕ × Bytes) × W) where
  -- mkostemps(3) answers the descriptor and the path that it wrote over the template.
  unfoldable pub make_tempfile : Bytes → Mask → Comp W (ℕ × Bytes)
  unfolding expand_temp_path
  make_tempfile template flags = outcome (expand_temp_path template) >>= λ expanded.
      λ w. checked (api_error "mkostemps()") (mkostemps expanded.0 expanded.1 flags w)

module _ {W : Type 0} (mkdtemp : Bytes → W → Reply Bytes × W) where
  unfoldable pub make_tempdir : Bytes → Comp W Bytes
  make_tempdir template w = checked (api_error "mkdtemp()") (mkdtemp (template ++ xs) w)
