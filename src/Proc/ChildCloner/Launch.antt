-- ===== src/Proc/ChildCloner/Launch.antt =====
-- src/proc/ChildCloner.cxx: what the child does between the clone and the new program, and what the
-- parent makes of it. The calls on the system are a parameter. The error pipe has packets: what it
-- holds is the list of the messages written, if none is longer than `maxAtomicWriteSize`.
use libcosmos.Prelude.{
  String, ℕ, ◌+◌, ◌*◌, ◌/◌, ◌%◌, Bool, false, ◌||◌, List, [], ◌∷◌, Option, none, some, ◌==◌,
  is_empty, if◌then◌else◌, codes,
}
use libcosmos.Outcome.{
  Bytes, Exception, api_error, file_error, link_error, would_block, forwarded_error, foreign,
  Outcome, ok, throw, spins, Comp, pure, ◌>>◌,
}
use libcosmos.Outcome.Errno
use libcosmos.Proc.ChildCloner.{Settings}

-- What the child calls, over the state `W` of its process. `exec` and `send`, a write to the error
-- pipe, answer only if they fail. `print_error` is `print_child_error`, with the section and the text.
pub record ChildSystem (W : Type 0) : Type 0 where
  pub apply_scheduler : Comp W (Unit {0})
  pub unblock_signals : Comp W (Unit {0})
  pub change_dir : Bytes → Comp W (Unit {0})
  pub duplicate : ℕ → ℕ → Comp W (Unit {0})
  pub keep_on_exec : ℕ → Comp W (Unit {0})
  pub callback : Comp W (Unit {0})
  pub exec : Bytes → List Bytes → Option (List Bytes) → W → Option Exception × W
  pub send : Bytes → W → Option Exception × W
  pub print_error : String → Bytes → W → W
  pub what : Exception → Bytes

unfoldable pub errnum : Exception → Option ℕ
errnum (api_error call e) = some e
errnum (file_error path call e) = some e
errnum (link_error path call second e) = some e
errnum (would_block call) = some Errno.again
errnum (forwarded_error e message) = some e
errnum x = none

-- `escapes` is an exception that leaves `runChild`, `hangs` a call that never returns.
pub data Fate : Type 0 where
  replaced : Fate
  exits : ℕ → Fate
  escapes : Exception → Fate
  hangs : Fate

abbrev pub pre_exec_error : ℕ
pre_exec_error = 125

abbrev pub prog_not_executable : ℕ
prog_not_executable = 126

abbrev pub prog_not_found : ℕ
prog_not_found = 127

-- How the child ends, what it wrote to the error pipe, and the state that it leaves.
pub record ChildEnd (W : Type 0) : Type 0 where
  pub fate : Fate
  pub packets : List Bytes
  pub left : W

-- An `int` in memory.
unfoldable pub int_bytes : ℕ → Bytes
int_bytes e = e % 256 ∷ e / 256 % 256 ∷ e / 65536 % 256 ∷ e / 16777216 % 256 ∷ []

unfoldable pub int_of : Bytes → ℕ
int_of [] = 0
int_of (b ∷ bs) = b + 256 * int_of bs

module _ {W : Type 0} (c : ChildSystem W) where
  unfoldable pub redirect_fd : ℕ → Option ℕ → Comp W (Unit {0})
  redirect_fd orig none = pure tt
  redirect_fd orig (some redirect) = c.duplicate redirect orig

  unfoldable pub inherit_all : List ℕ → Comp W (Unit {0})
  inherit_all [] = pure tt
  inherit_all (fd ∷ fds) = c.keep_on_exec fd >> inherit_all fds

  -- The handler of `postFork`: the scheduler settings are not critical.
  unfoldable pub warned : Outcome (Unit {0}) × W → Outcome (Unit {0}) × W
  warned (ok _, w) = (ok tt, w)
  warned (throw foreign, w) = (throw foreign, w)
  warned (throw x, w) = (ok tt, c.print_error "sched_setscheduler" (c.what x) w)
  warned (spins, w) = (spins, w)

  unfoldable pub post_fork : Settings → Comp W (Unit {0})
  unfolding warned redirect_fd inherit_all
  post_fork s = do
    (if s.has_scheduler then (λ w. warned (c.apply_scheduler w)) else pure tt)
    c.unblock_signals
    (if is_empty s.cwd then pure tt else c.change_dir s.cwd)
    redirect_fd 1 s.std_out
    redirect_fd 2 s.std_err
    redirect_fd 0 s.std_in
    inherit_all s.inherit_fds
    (if s.has_callback then c.callback else pure tt)

  -- The text that the outer handlers report.
  unfoldable pub described : Exception → Bytes
  described foreign = codes "unhandled exception"
  described x = c.what x

  unfoldable pub exit_with : ℕ → W → ChildEnd W
  exit_with status w = record { fate = exits status; packets = []; left = w }

  unfoldable pub escape_with : Exception → W → ChildEnd W
  escape_with x w = record { fate = escapes x; packets = []; left = w }

  -- A write to the error pipe, with what comes after it and what catches its exception.
  abbrev pub after_send :
      Option Exception × W → Bytes → (W → ChildEnd W) → (Exception → W → ChildEnd W) → ChildEnd W
  after_send (none, w) message rest handler = record (rest w) {
    packets = message ∷ (rest w).packets;
  }
  after_send (some x, w) message rest handler = handler x w

  -- `reportPreExecErrorAndExit`, with what catches the exceptions of its writes.
  unfoldable pub report_and_exit : (Exception → W → ChildEnd W) → ℕ → Bytes → W → ChildEnd W
  unfolding int_bytes exit_with
  report_and_exit handler error description w =
      after_send (c.send (int_bytes error) w) (int_bytes error)
        (λ v. after_send (c.send description v) description (exit_with pre_exec_error) handler)
        handler

  -- The outer handlers of `runChild`. Nothing catches what they throw.
  unfoldable pub outer_handler : Bool → Exception → W → ChildEnd W
  unfolding report_and_exit described exit_with escape_with
  outer_handler piped x w =
      if piped
      then report_and_exit escape_with Errno.no_error (described x) w
      else exit_with pre_exec_error (c.print_error "post fork/exec" (described x) w)

  -- The outer handlers if a report fails in the inner one. The write end was given up there, so the
  -- write of the next report has no descriptor.
  unfoldable pub report_again : Exception → W → ChildEnd W
  unfolding escape_with
  report_again x w = escape_with (api_error "write()" Errno.bad_fd) w

  -- The `switch` over the error of `exec`.
  unfoldable pub exec_status : Exception → ℕ → W → ChildEnd W
  unfolding outer_handler exit_with
  exec_status x e w =
      if e == Errno.link_loop
        || e == Errno.name_too_long
        || e == Errno.no_entry
        || e == Errno.not_a_dir
      then exit_with prog_not_found w
      else if e == Errno.not_executable || e == Errno.access
      then exit_with prog_not_executable w
      else outer_handler false x w

  -- The inner handler, which takes an `ApiError` only.
  unfoldable pub exec_failed : Bool → Exception → Option ℕ → W → ChildEnd W
  unfolding exec_status outer_handler report_again
  exec_failed piped x none w = outer_handler piped x w
  exec_failed piped x (some e) w =
      if piped then report_and_exit report_again e (c.what x) w else exec_status x e w

  abbrev pub argv0 : List Bytes → Bytes
  argv0 [] = []
  argv0 (a ∷ rest) = a

  unfoldable pub exec_result : Bool → Option Exception × W → ChildEnd W
  unfolding exec_failed errnum
  exec_result piped (none, w) = record { fate = replaced; packets = []; left = w }
  exec_result piped (some x, w) = exec_failed piped x (errnum x) w

  unfoldable pub after_fork : Settings → Bool → Outcome (Unit {0}) × W → ChildEnd W
  unfolding exec_result outer_handler exit_with
  after_fork s piped (throw x, w) = outer_handler piped x w
  after_fork s piped (spins, w) = record { fate = hangs; packets = []; left = w }
  after_fork s piped (ok _, w) =
      if s.allow_no_exe
      then exit_with 0 w
      else exec_result piped (c.exec (argv0 s.argv) s.argv s.env w)

  unfoldable pub run_child : Settings → Bool → W → ChildEnd W
  unfolding post_fork after_fork
  run_child s piped w = after_fork s piped (post_fork s w)
