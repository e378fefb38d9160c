-- ===== src/Proc/ChildCloner/ExitCodes.antt =====
-- How a child ends that was started without the error pipe.
use libcosmos.Prelude.{ℕ, ◌≡◌, false, ◌⊎◌, [], ◌∙◌, some, arith}
use libcosmos.Outcome.{Exception, ok, throw}
use libcosmos.Outcome.Errno
use libcosmos.Proc.ChildCloner.{Settings}
use libcosmos.Proc.ChildCloner.Launch.{
  ChildSystem, ChildEnd, exits, errnum, run_child, post_fork, after_fork, exec_result, exec_failed,
  exec_status, outer_handler, exit_with, described, argv0, pre_exec_error, prog_not_executable,
  prog_not_found,
}

-- The conventions of the shells for an error of execve(2).
abbrev pub Missing : ℕ → Type 0
Missing e =
    (e ≡ Errno.link_loop) ⊎ (e ≡ Errno.name_too_long) ⊎ (e ≡ Errno.no_entry) ⊎ (e ≡ Errno.not_a_dir)

abbrev pub Forbidden : ℕ → Type 0
Forbidden e = (e ≡ Errno.not_executable) ⊎ (e ≡ Errno.access)

abbrev Other : ℕ → Type 0
Other e = ¬ (Missing e ⊎ Forbidden e)

-- How a child ends that writes to no pipe.
abbrev pub ended : {W : Type 0} → ℕ → W → ChildEnd W
ended status w = record { fate = exits status; packets = []; left = w }

-- The text of the exception on the standard error.
abbrev pub complains : {W : Type 0} → ChildSystem W → Exception → W → W
complains c x w = c.print_error "post fork/exec" (described c x) w

-- The end that an exec is to have that fails with the exception `x` of the error number `e` and
-- leaves the state `w`.
pub data Convention {W : Type 0} (c : ChildSystem W) (x : Exception) (w : W) (e : ℕ)
    : ChildEnd W → Type 0 where
  missing : Missing e → Convention c x w e (ended prog_not_found w)
  forbidden : Forbidden e → Convention c x w e (ended prog_not_executable w)
  other : Other e → Convention c x w e (ended pre_exec_error (complains c x w))

-- How the preparation or the exec fails, and the end that the child is to have.
pub data Fails {W : Type 0} (c : ChildSystem W) (s : Settings) (w : W) : ChildEnd W → Type 0 where
  in_setup :
      (x : Exception) (v : W)
      → post_fork c s w ≡ (throw x, v)
      → Fails c s w (ended pre_exec_error (complains c x v))
  in_exec :
      (v u : W) (x : Exception) (e : ℕ) {end : ChildEnd W}
      → post_fork c s w ≡ (ok tt, v)
      → s.allow_no_exe ≡ false
      → c.exec (argv0 c s.argv) s.argv s.env v ≡ (some x, u)
      → errnum x ≡ some e
      → Convention c x u e end
      → Fails c s w end

module _ {W : Type 0} (c : ChildSystem W) where
  exec_status-Missing :
      (x : Exception) (e : ℕ) (w : W) → Missing e → exec_status c x e w ≡ ended prog_not_found w
  unfolding exec_status exit_with
  exec_status-Missing x e w m = ground arith

  exec_status-Forbidden :
      (x : Exception) (e : ℕ) (w : W)
      → Forbidden e
      → exec_status c x e w ≡ ended prog_not_executable w
  unfolding exec_status exit_with
  exec_status-Forbidden x e w f = ground arith

  exec_status-Other :
      (x : Exception) (e : ℕ) (w : W)
      → Other e
      → exec_status c x e w ≡ ended pre_exec_error (complains c x w)
  unfolding exec_status exit_with outer_handler
  exec_status-Other x e w o = ground arith

  refused_end :
      (s : Settings) (w v u : W) (x : Exception) (e : ℕ)
      → post_fork c s w ≡ (ok tt, v)
      → s.allow_no_exe ≡ false
      → c.exec (argv0 c s.argv) s.argv s.env v ≡ (some x, u)
      → errnum x ≡ some e
      → run_child c s false w ≡ exec_status c x e u
  unfolding run_child after_fork exec_result exec_failed
  refused_end s w v u x e h a b d = rw (h, a, b, d)

  convention_lem :
      (x : Exception) (w : W) (e : ℕ) {end : ChildEnd W}
      → Convention c x w e end
      → exec_status c x e w ≡ end
  convention_lem x w e (missing m) = exec_status-Missing x e w m
  convention_lem x w e (forbidden f) = exec_status-Forbidden x e w f
  convention_lem x w e (other o) = exec_status-Other x e w o

  -- Without the error pipe a child whose exec fails exits with 127 if the program was not found and
  -- with 126 if it cannot be executed, and prints nothing more. For any other error number, and if
  -- its preparation throws, it prints the text of the exception to the standard error and exits with
  -- 125.
  pub run_child_lem :
      (s : Settings) (w : W) {end : ChildEnd W} → Fails c s w end → run_child c s false w ≡ end
  unfolding run_child after_fork outer_handler exit_with
  run_child_lem s w (in_setup x v h) = rw h
  run_child_lem s w (in_exec v u x e h a b d k) =
      refused_end s w v u x e h a b d ∙ convention_lem x u e k
