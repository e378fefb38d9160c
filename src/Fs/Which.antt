-- ===== src/Fs/Which.antt =====
-- `which` of src/fs/filesystem.cxx. open(2), fstat(2), close(2) and the value of `PATH` are parameters.
pub mod First
mod Tests
use libcosmos.Prelude.{
  ℕ, Bool, true, false, List, [], ◌∷◌, ◌++◌, Option, none, some, ◌==◌, is_empty, if◌then◌else◌,
  ◌&&◌,
}
use libcosmos.Outcome.{Bytes, Outcome, ok, throw, spins, Reply, done, failed}
use libcosmos.Text.Split.{split}
use libcosmos.Text.Split.Parts.{no_flags}
use libcosmos.Fs.FileMode.{file_type, file_mode, is_regular, can_any_exec}
use libcosmos.Fs.Open.{open_fd, read_only, cloexec}

unfoldable pub has_slash : Bytes → Bool
has_slash [] = false
has_slash (c ∷ s) = let rest = has_slash s in if c == b'/' then true else rest

-- A call that throws is caught.
abbrev pub or_false : Outcome Bool → Bool
or_false (ok b) = b
or_false (throw x) = false
or_false spins = false

-- The two tests of the status.
unfoldable pub runs : ℕ → Bool
unfolding is_regular file_type file_mode can_any_exec
runs mode = if is_regular (file_type mode) then or_false (can_any_exec (file_mode mode)) else false

module _ {W : Type 0} (sys_open : Bytes → ℕ → ℕ → W → Reply ℕ × W) (fstat : ℕ → W → Reply ℕ × W)
    (close : ℕ → W → Reply (Unit {0}) × W) where
  -- The tests of an open file; its destructor closes it, and only reports a failure.
  unfoldable pub inspected : ℕ → Reply ℕ × W → Bool × W
  unfolding runs
  inspected fd (done mode, w) = (runs mode, (close fd w).1)
  inspected fd (failed e, w) = (false, (close fd w).1)

  unfoldable pub when_open : Outcome ℕ × W → Bool × W
  unfolding inspected
  when_open (ok fd, w) = inspected fd (fstat fd w)
  when_open (throw x, w) = (false, w)
  when_open (spins, w) = (false, w)

  unfoldable pub check_executable : Bytes → W → Bool × W
  unfolding open_fd when_open
  check_executable path w = when_open (open_fd sys_open path read_only cloexec none w)

  abbrev pub or_next : Bytes → Bool × W → (W → Option Bytes × W) → Option Bytes × W
  or_next path (true, w) rest = (some path, w)
  or_next path (false, w) rest = rest w

  unfoldable pub try_all : List Bytes → Bytes → W → Option Bytes × W
  unfolding check_executable
  try_all [] exec_base w = (none, w)
  try_all (dir ∷ dirs) exec_base w =
      let path = dir ++ b'/' ∷ exec_base in
      or_next path (check_executable path w) (try_all dirs exec_base)

  abbrev pub over_parts : Outcome (List Bytes) → Bytes → W → Outcome (Option Bytes) × W
  over_parts (ok dirs) exec_base w = (ok (try_all dirs exec_base w).0, (try_all dirs exec_base w).1)
  over_parts (throw x) exec_base w = (throw x, w)
  over_parts spins exec_base w = (spins, w)

  unfoldable pub search_path : ℕ → Option Bytes → Bytes → W → Outcome (Option Bytes) × W
  unfolding split try_all
  search_path fuel none exec_base w = (ok none, w)
  search_path fuel (some pathvar) exec_base w =
      over_parts (split fuel pathvar (b':' ∷ []) no_flags 0) exec_base w

  -- The only candidate.
  unfoldable pub only_itself : Bytes → Bool × W → Outcome (Option Bytes) × W
  only_itself exec_base (true, w) = (ok (some exec_base), w)
  only_itself exec_base (false, w) = (ok none, w)

  unfoldable pub which : ℕ → Option Bytes → Bytes → W → Outcome (Option Bytes) × W
  unfolding has_slash search_path only_itself check_executable
  which fuel pathvar exec_base w =
      if is_empty exec_base
      then (ok none, w)
      else if has_slash exec_base
      then only_itself exec_base (check_executable exec_base w)
      else search_path fuel pathvar exec_base w
