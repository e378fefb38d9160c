-- ===== src/Proc/ChildCloner/Parent.antt =====
-- src/proc/ChildCloner.cxx: `run` in the parent and what it makes of the error pipe. The clone, the
-- signal, the wait and the reads of the pipe are parameters.
use libcosmos.Prelude.{String, ℕ, Bool, true, not, List, [], ◌==◌, length, is_empty, if◌then◌else◌}
use libcosmos.Outcome.{
  Bytes, Exception, runtime_error, forwarded_error, Outcome, ok, throw, spins, Comp, pure, raise,
  foreign, ◌>>=◌, ◌>>◌,
}
use libcosmos.Outcome.Errno
use libcosmos.Proc.ChildCloner.{Settings, verify_args}
use libcosmos.Proc.ChildCloner.Launch.{ChildSystem, int_of, run_child}

-- What the parent calls, over the state `W`: `receive` reads from the error pipe, which holds the
-- given messages, `print_warning` writes to the standard error.
pub record ParentSystem (W : Type 0) : Type 0 where
  pub open_pipe : Comp W (Unit {0})
  pub clone : Comp W ℕ
  pub kill : Comp W (Unit {0})
  pub wait : Comp W (Unit {0})
  pub print_warning : String → W → W
  pub receive : List Bytes → ℕ → Comp W (Bytes × List Bytes)

abbrev pub max_atomic_write : ℕ
max_atomic_write = 4096

-- The exception that `handlePreExecError` makes of the two messages.
unfoldable pub child_error : Bytes → Bytes → Exception
child_error code message =
    if int_of code == Errno.no_error
    then runtime_error "" message
    else forwarded_error (int_of code) message

module _ {W : Type 0} (p : ParentSystem W) where
  unfoldable pub second_message : Bytes → Bytes → Comp W (Unit {0})
  unfolding child_error
  second_message code message =
      if is_empty message
      then raise (runtime_error "missing error message from error pipe" [])
      else raise (child_error code message)

  unfoldable pub first_message : Bytes → List Bytes → Comp W (Unit {0})
  unfolding second_message
  first_message code rest =
      if is_empty code
      then pure tt
      else if not (length code == 4)
      then raise (runtime_error "bad error code read from error pipe" [])
      else p.receive rest max_atomic_write >>= (λ r. second_message code r.0)

  unfoldable pub handle_pre_exec_error : List Bytes → Comp W (Unit {0})
  unfolding first_message
  handle_pre_exec_error packets = p.receive packets max_atomic_write >>= λ r. first_message r.0 r.1

  -- The handler around the kill.
  unfoldable pub tolerated : Outcome (Unit {0}) × W → Outcome (Unit {0}) × W
  tolerated (ok _, w) = (ok tt, w)
  tolerated (throw foreign, w) = (throw foreign, w)
  tolerated (throw x, w) =
      (ok tt, p.print_warning "WARNING: failed to kill half-ready child process" w)
  tolerated (spins, w) = (spins, w)

  -- The handler of `run`: `kill` may fail, and what `wait` throws takes the place of the error.
  unfoldable pub rethrown : Exception → Outcome (Unit {0}) × W → Outcome (Unit {0}) × W
  rethrown x (ok _, w) = (throw x, w)
  rethrown x (throw y, w) = (throw y, w)
  rethrown x (spins, w) = (spins, w)

  unfoldable pub abandon : Outcome (Unit {0}) × W → Outcome (Unit {0}) × W
  unfolding tolerated rethrown
  abandon (ok _, w) = (ok tt, w)
  abandon (throw x, w) = rethrown x (((λ v. tolerated (p.kill v)) >> p.wait) w)
  abandon (spins, w) = (spins, w)

  -- The child runs on a copy of the parent's state.
  unfoldable pub run_with : Bool → ChildSystem W → Settings → Comp W ℕ
  unfolding handle_pre_exec_error abandon
  run_with forward c s = do
    (λ w. (verify_args s, w))
    (if forward then p.open_pipe else pure tt)
    pid ← p.clone
    (if forward
        then (λ w. abandon (handle_pre_exec_error (run_child c s true w).packets w))
        else pure tt)
    pure pid

  unfoldable pub run : ChildSystem W → Settings → Comp W ℕ
  unfolding run_with
  run c s = run_with s.forward_child_errors c s
