-- ===== src/Proc/ChildCloner.antt =====
-- `ChildCloner` of include/proc/ChildCloner.hxx: the settings for a child process and the functions
-- that change them. An invalid file descriptor is `none`.
pub mod Arguments
pub mod Launch
pub mod Parent
pub mod Forwarding
pub mod ExitCodes
mod Tests
use libcosmos.Prelude.{
  ℕ, Bool, true, false, not, ◌||◌, List, [], ◌∷◌, ◌++◌, Option, none, some, ltb, leb, length,
  is_empty, if◌then◌else◌,
}
use libcosmos.Outcome.{Bytes, Outcome, ok, throw, usage_error}

pub record Settings : Type 0 where
  pub executable : Bytes
  pub argv : List Bytes
  pub cwd : Bytes
  pub env : Option (List Bytes)
  pub has_scheduler : Bool
  pub allow_no_exe : Bool
  pub std_out : Option ℕ
  pub std_err : Option ℕ
  pub std_in : Option ℕ
  pub inherit_fds : List ℕ
  pub has_callback : Bool
  pub forward_child_errors : Bool

unfoldable pub defaults : Settings
defaults = record {
  executable = [];
  argv = [];
  cwd = [];
  env = none;
  has_scheduler = false;
  allow_no_exe = false;
  std_out = none;
  std_err = none;
  std_in = none;
  inherit_fds = [];
  has_callback = false;
  forward_child_errors = false;
}

-- `setArgv0` and `setExeFromArgv0`.
abbrev pub with_argv0 : Bytes → List Bytes → List Bytes
with_argv0 exe [] = exe ∷ []
with_argv0 exe (a ∷ rest) = exe ∷ rest

abbrev pub exe_from_argv0 : List Bytes → Bytes
exe_from_argv0 [] = []
exe_from_argv0 (a ∷ rest) = a

unfoldable pub set_exe : Bytes → Settings → Settings
set_exe exe s = record s { allow_no_exe = false; executable = exe; argv = with_argv0 exe s.argv }

unfoldable pub set_no_exe : Settings → Settings
set_no_exe s = record s { allow_no_exe = true }

unfoldable pub set_args : List Bytes → Settings → Settings
set_args sv s = record s { argv = sv; executable = exe_from_argv0 sv }

-- `m_argv.erase(m_argv.begin() + 1)`: one element.
abbrev pub erase_second : List Bytes → List Bytes
erase_second [] = []
erase_second (a ∷ []) = a ∷ []
erase_second (a ∷ b ∷ rest) = a ∷ rest

unfoldable pub clear_args : Settings → Settings
clear_args s = if ltb 1 (length s.argv) then record s { argv = erase_second s.argv } else s

-- `operator<<`.
unfoldable pub add_arg : Bytes → Settings → Settings
unfolding set_exe
add_arg arg s =
    if is_empty s.executable then set_exe arg s else record s { argv = s.argv ++ arg ∷ [] }

unfoldable pub add_inherit_fd : ℕ → Settings → Outcome Settings
add_inherit_fd fd s =
    if leb fd 2
    then throw (usage_error "added stdio or invalid FD as extra inherit FD")
    else ok (record s { inherit_fds = s.inherit_fds ++ fd ∷ [] })

unfoldable pub reset_std_files : Settings → Settings
reset_std_files s = record s { std_err = none; std_in = none; std_out = none }

unfoldable pub verify_args : Settings → Outcome (Unit {0})
verify_args s =
    if s.allow_no_exe
    then (if not s.has_callback
        then throw (
            usage_error
              "attempted to run a cloned process without callback function (no post fork CB)")
        else ok tt)
    else if is_empty s.executable || is_empty s.argv
    then throw (
        usage_error "attempted to run a sub process w/o specifying an executable path and/or argv0")
    else ok tt
