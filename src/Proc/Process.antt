-- ===== src/Proc/Process.antt =====
-- src/proc/process.cxx: process groups, sessions, credentials, supplementary groups, the environment
-- and the execution of programs. The calls of the system are parameters; -1 is its bit pattern where
-- it is a value of an identifier.
pub mod Groups
pub mod Execution
mod Tests
use libcosmos.Prelude.{
  ℕ, zero, suc, ◌*◌, ◌-◌, ◌^◌, Bool, true, false, not, ◌&&◌, List, [], ◌∷◌, Option, none, some,
  ◌==◌, leb, length, codes, if◌then◌else◌, String,
}
use libcosmos.Outcome.{
  Bytes, Exception, api_error, file_error, usage_error, runtime_error, Outcome, ok, throw, spins,
  Reply, done, failed, Comp, checked, pure, raise, next, ◌>>=◌,
}
use libcosmos.Outcome.Errno

-- `ProcessID::INVALID` and `SELF`.
abbrev pub invalid_pid : ℕ
invalid_pid = 2 ^ 32 - 1

abbrev pub self : ℕ
self = 0

module _ {W : Type 0} (getpgid : ℕ → W → Reply ℕ × W) where
  unfoldable pub get_process_group_of : ℕ → Comp W ℕ
  get_process_group_of pid w = checked (api_error "getpgid()") (getpgid pid w)

  unfoldable pub is_process_group_leader : ℕ → Comp W Bool
  unfolding get_process_group_of
  is_process_group_leader pid =
      if pid == invalid_pid
      then pure false
      else get_process_group_of pid >>= λ pgid. pure (pid == pgid)

  unfoldable pub is_caller_process_group_leader : Comp W Bool
  unfolding is_process_group_leader
  is_caller_process_group_leader = is_process_group_leader self

module _ {W : Type 0} where
  unfoldable pub set_process_group_of :
      (ℕ → ℕ → W → Reply (Unit {0}) × W) → ℕ → ℕ → Comp W (Unit {0})
  set_process_group_of setpgid pid pgid w = checked (api_error "setpgid()") (setpgid pid pgid w)

  unfoldable pub set_own_process_group : (ℕ → ℕ → W → Reply (Unit {0}) × W) → ℕ → Comp W (Unit {0})
  unfolding set_process_group_of
  set_own_process_group setpgid pgid = set_process_group_of setpgid self pgid

  unfoldable pub create_new_session : (W → Reply ℕ × W) → Comp W ℕ
  create_new_session setsid w = checked (api_error "setsid()") (setsid w)

  unfoldable pub get_session_of : (ℕ → W → Reply ℕ × W) → ℕ → Comp W ℕ
  get_session_of getsid pid w = checked (api_error "getsid()") (getsid pid w)

  unfoldable pub get_own_session_id : (ℕ → W → Reply ℕ × W) → Comp W ℕ
  unfolding get_session_of
  get_own_session_id getsid = get_session_of getsid self

-- `UserCreds`, and `GroupCreds` likewise: the real, the effective and the saved number.
pub record Creds : Type 0 where
  pub real_id : ℕ
  pub effective_id : ℕ
  pub saved_id : ℕ

module _ {W : Type 0} where
  unfoldable pub get_user_creds : (W → Reply Creds × W) → Comp W Creds
  get_user_creds getresuid w = checked (api_error "getresuid()") (getresuid w)

  unfoldable pub get_group_creds : (W → Reply Creds × W) → Comp W Creds
  get_group_creds getresgid w = checked (api_error "getresgid()") (getresgid w)

  unfoldable pub set_user_creds : (ℕ → ℕ → ℕ → W → Reply (Unit {0}) × W) → Creds → Comp W (Unit {0})
  set_user_creds setresuid creds w =
      checked (api_error "setresuid()")
        (setresuid creds.real_id creds.effective_id creds.saved_id w)

  unfoldable pub set_group_creds :
      (ℕ → ℕ → ℕ → W → Reply (Unit {0}) × W) → Creds → Comp W (Unit {0})
  set_group_creds setresgid creds w =
      checked (api_error "setresgid()")
        (setresgid creds.real_id creds.effective_id creds.saved_id w)

  -- setfsuid(2) answers the number that it replaces, whether it replaces it or not; a second call
  -- with -1 asks for the number.
  unfoldable pub set_fs_user_id : (ℕ → W → ℕ × W) → ℕ → Comp W ℕ
  set_fs_user_id setfsuid uid w =
      let first = setfsuid uid w in
      let second = setfsuid (2 ^ 32 - 1) first.1 in
      if second.0 == uid
      then (ok first.0, second.1)
      else (throw (api_error "setfsuid()" 1), second.1)

  unfoldable pub set_fs_group_id : (ℕ → W → ℕ × W) → ℕ → Comp W ℕ
  set_fs_group_id setfsgid gid w =
      let first = setfsgid gid w in
      let second = setfsgid (2 ^ 32 - 1) first.1 in
      if second.0 == gid
      then (ok first.0, second.1)
      else (throw (api_error "setfsgid()" 1), second.1)

  unfoldable pub get_fs_user_id : (ℕ → W → ℕ × W) → W → ℕ × W
  get_fs_user_id setfsuid w = setfsuid (2 ^ 32 - 1) w

  unfoldable pub get_fs_group_id : (ℕ → W → ℕ × W) → W → ℕ × W
  get_fs_group_id setfsgid w = setfsgid (2 ^ 32 - 1) w

-- `NGROUPS_MAX`.
abbrev pub ngroups_max : ℕ
ngroups_max = 65536

module _ {W : Type 0} (getgroups : ℕ → W → Reply (List ℕ) × W) where
  unfoldable pub groups_result :
      ℕ → (ℕ → Comp W (List ℕ)) → Reply (List ℕ) × W → Outcome (List ℕ) × W
  groups_result size again (done groups, w) = (ok groups, w)
  groups_result size again (failed e, w) =
      if e == Errno.invalid_arg
      then if leb ngroups_max (size * 2)
        then (throw (runtime_error "excess number of supplementary groups" []), w)
        else again (size * 2) w
      else (throw (api_error "getgroups()" e), w)

  unfoldable pub group_rounds : ℕ → ℕ → Comp W (List ℕ)
  unfolding groups_result
  group_rounds zero size w = (spins, w)
  group_rounds (suc fuel) size w = groups_result size (group_rounds fuel) (getgroups size w)

  unfoldable pub get_supplementary_groups : ℕ → Comp W (List ℕ)
  unfolding group_rounds
  get_supplementary_groups fuel = group_rounds fuel 32

module _ {W : Type 0} where
  unfoldable pub set_supplementary_groups :
      (List ℕ → W → Reply (Unit {0}) × W) → List ℕ → Comp W (Unit {0})
  set_supplementary_groups setgroups groups w =
      checked (api_error "setgroups()") (setgroups groups w)

  unfoldable pub set_env_var :
      (Bytes → Bytes → Bool → W → Reply (Unit {0}) × W) → Bytes → Bytes → Bool → Comp W (Unit {0})
  set_env_var setenv name val overwrite w =
      checked (api_error "setenv()") (setenv name val overwrite w)

  unfoldable pub clear_env_var : (Bytes → W → Reply (Unit {0}) × W) → Bytes → Comp W (Unit {0})
  clear_env_var unsetenv name w = checked (api_error "unsetenv()") (unsetenv name w)

  -- No number for the child.
  unfoldable pub forked : Outcome ℕ × W → Outcome (Option ℕ) × W
  forked (ok pid, w) = (ok (if pid == 0 then none else some pid), w)
  forked (throw x, w) = (throw x, w)
  forked (spins, w) = (spins, w)

  unfoldable pub fork : (W → Reply ℕ × W) → Comp W (Option ℕ)
  unfolding forked
  fork sys_fork w = forked (checked (api_error "fork()") (sys_fork w))

-- A `CStringVector`; its terminator is `none`.
abbrev pub Vector : Type 0
Vector = List (Option Bytes)

-- `back() != nullptr`. For an empty vector, which has no last element, the answer is that of one
-- without a terminator.
unfoldable pub lacks_terminator : Vector → Bool
lacks_terminator [] = true
lacks_terminator (none ∷ []) = false
lacks_terminator (some s ∷ []) = true
lacks_terminator (x ∷ y ∷ v) = lacks_terminator (y ∷ v)

abbrev pub refuses : Option Vector → Bool
refuses none = false
refuses (some v) = lacks_terminator v

abbrev pub or_default : Option Vector → Vector → Vector
or_default none v = v
or_default (some u) v = u

-- What an execution answers to its caller is its failure: a call that succeeds is `done`, and the
-- process then runs another program.
module _ {W : Type 0} (exec_func : Bytes → Vector → Vector → W → Reply (Unit {0}) × W)
    (environ : Vector) where
  unfoldable pub exec_wrapper :
      (ℕ → Exception) → Bytes → Option Vector → Option Vector → Comp W (Unit {0})
  unfolding lacks_terminator
  exec_wrapper failure path args env =
      if refuses args
      then raise (usage_error "argument vector without nullptr terminator encountered")
      else if refuses env
      then raise (usage_error "environment vector without nullptr terminator encountered")
      else λ w.
          checked failure
            (exec_func path (or_default args (some path ∷ none ∷ [])) (or_default env environ) w)

  -- With execvpe(3).
  unfoldable pub exec : Bytes → Option Vector → Option Vector → Comp W (Unit {0})
  unfolding exec_wrapper
  exec path = exec_wrapper (file_error path "execvpe()") path

module _ {W : Type 0} (execveat : ℕ → Bytes → Vector → Vector → ℕ → W → Reply (Unit {0}) × W)
    (environ : Vector) where
  -- The flag is `AT_SYMLINK_NOFOLLOW`.
  unfoldable pub exec_at : ℕ → Bytes → Bool → Option Vector → Option Vector → Comp W (Unit {0})
  unfolding exec_wrapper
  exec_at dir_fd path follow_symlinks =
      exec_wrapper
        (λ p argv envp. execveat dir_fd p argv envp (if follow_symlinks then 0 else 0x100)) environ
        (api_error "execveat()") path

  -- The flag is `AT_EMPTY_PATH`.
  unfoldable pub fexec : ℕ → Option Vector → Option Vector → Comp W (Unit {0})
  unfolding exec_wrapper
  fexec fd =
      exec_wrapper (λ p argv envp. execveat fd (codes "") argv envp 0x1000) environ
        (api_error "fexecve()") (codes "")
