-- ===== src/Proc/ChildCloner/Forwarding.antt =====
-- What the parent learns of a child that fails before its new program runs.
use libcosmos.Prelude.{
  ℕ, ◌^◌, ◌<◌, ◌≤◌, ◌≡◌, refl, sym, ap, subst, true, false, List, [], ◌∷◌, Option, none, some, ◌==◌,
  ◌∙◌, length, if◌then◌else◌, arith,
}
use libcosmos.Outcome.{
  Bytes, Exception, runtime_error, forwarded_error, Outcome, ok, throw, spins, Comp, next, pure,
  raise, ◌>>=◌,
}
use libcosmos.Proc.ChildCloner.{Settings, verify_args}
use libcosmos.Proc.ChildCloner.Launch.{
  ChildSystem, ChildEnd, errnum, after_send, report_again, pre_exec_error, int_bytes, int_of,
  report_and_exit, run_child, post_fork, after_fork, exec_result, exec_failed, outer_handler,
  described, exit_with, argv0,
}
use libcosmos.Proc.ChildCloner.Parent.{
  ParentSystem, tolerated, run_with, max_atomic_write, run, handle_pre_exec_error, first_message,
  second_message, child_error, abandon, rethrown,
}

-- A read answers a value, if it answers.
abbrev pub Answers : {A : Type 0} → Outcome A → A → Type 0
Answers (ok a) b = a ≡ b
Answers (throw x) b = Unit
Answers spins b = Unit

-- A pipe that keeps the messages apart, as pipe(7) documents it for `O_DIRECT`. A read may throw.
pub record KeepsPackets {W : Type 0} (p : ParentSystem W) : Type 0 where
  pub at_end : (n : ℕ) (w : W) → Answers (p.receive [] n w).0 ([], [])
  pub whole :
      (m : Bytes) (ms : List Bytes) (n : ℕ) (w : W)
      → 0 < length m
      → length m ≤ n
      → Answers (p.receive (m ∷ ms) n w).0 (m, ms)

-- The writes of the child to the pipe succeed: the parent holds the other end, and there is room.
abbrev pub Writable : {W : Type 0} → ChildSystem W → Type 0
Writable {W = W} c = (m : Bytes) (w : W) → (c.send m w).0 ≡ none

pub int_of-int_bytes : (e : ℕ) → e < 2 ^ 32 → int_of (int_bytes e) ≡ e
unfolding int_of int_bytes
int_of-int_bytes e h = omega arith

length-int_bytes : (e : ℕ) → length (int_bytes e) ≡ 4
unfolding int_bytes
length-int_bytes e = refl

-- What a child has to report of the time before its new program: nothing, or an error number with
-- a text, where 0 says that it was no failed system call of the exec.
pub data Ends {W : Type 0} (c : ChildSystem W) (s : Settings) (w : W)
    : Option (ℕ × Bytes) → Type 0 where
  setup_failed :
      (x : Exception) (v : W)
      → post_fork c s w ≡ (throw x, v)
      → Ends c s w (some (0, described c x))
  no_exe : (v : W) → post_fork c s w ≡ (ok tt, v) → s.allow_no_exe ≡ true → Ends c s w none
  started :
      (v u : W)
      → post_fork c s w ≡ (ok tt, v)
      → s.allow_no_exe ≡ false
      → c.exec (argv0 c s.argv) s.argv s.env v ≡ (none, u)
      → Ends c s w none
  refused :
      (v u : W) (x : Exception) (e : ℕ)
      → post_fork c s w ≡ (ok tt, v)
      → s.allow_no_exe ≡ false
      → c.exec (argv0 c s.argv) s.argv s.env v ≡ (some x, u)
      → errnum x ≡ some e
      → Ends c s w (some (e, c.what x))

abbrev pub Fits : Option (ℕ × Bytes) → Type 0
Fits none = Unit
Fits (some (e, text)) = (e < 2 ^ 32) × (0 < length text) × (length text ≤ max_atomic_write)

-- The exception for a report.
abbrev pub told : ℕ → Bytes → Exception
told e text = if e == 0 then runtime_error "" text else forwarded_error e text

told-child_error :
    (e : ℕ) (text : Bytes) → e < 2 ^ 32 → child_error (int_bytes e) text ≡ told e text
unfolding child_error
told-child_error e text h = ap (λ k. told k text) (int_of-int_bytes e h)

abbrev packets_of : Option (ℕ × Bytes) → List Bytes
packets_of none = []
packets_of (some (e, text)) = int_bytes e ∷ text ∷ []

module _ {W : Type 0} (c : ChildSystem W) (writable : Writable c) where
  packets-sent :
      (r : Option Exception × W) (m : Bytes) (k : W → ChildEnd W) (f : Exception → W → ChildEnd W)
      → r.0 ≡ none
      → (after_send c r m k f).packets ≡ m ∷ (k r.1).packets
  packets-sent (none, w) m k f h = refl
  packets-sent (some x, w) m k f h = cc

  packets-report :
      (f : Exception → W → ChildEnd W) (e : ℕ) (text : Bytes) (w : W)
      → (report_and_exit c f e text w).packets ≡ int_bytes e ∷ text ∷ []
  unfolding report_and_exit exit_with
  packets-report f e text w =
      packets-sent (c.send (int_bytes e) w) (int_bytes e) _ f (writable (int_bytes e) w)
      ∙ ap (λ ms. int_bytes e ∷ ms)
          (packets-sent (c.send text (c.send (int_bytes e) w).1) text (exit_with c pre_exec_error) f
            (writable text (c.send (int_bytes e) w).1))

  packets-run_child :
      (s : Settings) (w : W) {r : Option (ℕ × Bytes)}
      → Ends c s w r
      → (run_child c s true w).packets ≡ packets_of r
  unfolding run_child after_fork outer_handler exit_with exec_result exec_failed
  packets-run_child s w (setup_failed x v h) =
      ap (λ q. (after_fork c s true q).packets) h ∙ packets-report _ 0 (described c x) v
  packets-run_child s w (no_exe v h a) = rw (h, a)
  packets-run_child s w (started v u h a b) = rw (h, a, b)
  packets-run_child s w (refused v u x e h a b d) =
      rw (h, a, b, d) (packets-report (report_again c) e (c.what x) u)

-- What is to come of the reads: the first finds the end of the pipe or the number, the second the
-- text. Either may throw instead.
abbrev pub learned : {W : Type 0} → ParentSystem W → Option (ℕ × Bytes) → Comp W (Unit {0})
learned p none = p.receive [] max_atomic_write >>= λ _. pure tt
learned p (some (e, text)) = p.receive (int_bytes e ∷ text ∷ []) max_atomic_write >>= λ _.
    p.receive (text ∷ []) max_atomic_write >>= λ _. raise (told e text)

next_answered :
    {W A B : Type 0} (r : Outcome A × W) (a : A) (f : A → Comp W B) (g : Comp W B)
    → Answers r.0 a
    → ((v : W) → f a v ≡ g v)
    → next r.0 r.1 f ≡ next r.0 r.1 (λ _. g)
next_answered (ok b, w) a f g h e = subst (λ b. f b w ≡ g w) (sym h) (e w)
next_answered (throw x, w) a f g h e = refl
next_answered (spins, w) a f g h e = refl

module _ {W : Type 0} (p : ParentSystem W) (keeps : KeepsPackets p) where
  second-text :
      (e : ℕ) (text : Bytes) (w : W)
      → e < 2 ^ 32
      → 0 < length text
      → second_message p (int_bytes e) text w ≡ (throw (told e text), w)
  unfolding second_message
  second-text e [] w h n = elim n [ ]
  second-text e (b ∷ bs) w h n = ap (λ x. (throw x, w)) (told-child_error e (b ∷ bs) h)

  first-text :
      (e : ℕ) (text : Bytes) (w : W)
      → Fits (some (e, text))
      → first_message p (int_bytes e) (text ∷ []) w
        ≡ (p.receive (text ∷ []) max_atomic_write >>= λ _. raise (told e text)) w
  unfolding first_message int_bytes
  first-text e text w (h, n, l) =
      next_answered (p.receive (text ∷ []) max_atomic_write w) (text, []) _ (raise (told e text))
        (keeps.whole text [] max_atomic_write w n l) (λ v. second-text e text v h n)

  handled :
      (r : Option (ℕ × Bytes)) (w : W)
      → Fits r
      → handle_pre_exec_error p (packets_of r) w ≡ learned p r w
  unfolding handle_pre_exec_error first_message int_bytes
  handled none w fits =
      next_answered (p.receive [] max_atomic_write w) ([], []) _ (pure tt)
        (keeps.at_end max_atomic_write w) (λ v. refl)
  handled (some (e, text)) w fits =
      next_answered (p.receive (int_bytes e ∷ text ∷ []) max_atomic_write w)
        (int_bytes e, text ∷ []) _
        (p.receive (text ∷ []) max_atomic_write >>= λ _. raise (told e text))
        (keeps.whole (int_bytes e) (text ∷ []) max_atomic_write w (omega arith) (omega arith))
        (λ v. first-text e text v fits)

-- The child can be reaped: the signal is sent or fails with a standard exception, and the wait returns.
pub record Reaps {W : Type 0} (p : ParentSystem W) : Type 0 where
  pub kills : (v : W) → (tolerated p (p.kill v)).0 ≡ ok tt
  pub waits : (v : W) → p.wait v ≡ (ok tt, (p.wait v).1)

-- The state once the child is killed, with a warning if that fails, and waited for.
abbrev pub reaped : {W : Type 0} → ParentSystem W → W → W
reaped p w = (p.wait (tolerated p (p.kill w)).1).1

-- The child, or the exception with the child gone.
abbrev pub settled : {W : Type 0} → ParentSystem W → ℕ → Outcome (Unit {0}) × W → Outcome ℕ × W
settled p pid (ok _, w) = (ok pid, w)
settled p pid (throw x, w) = (throw x, reaped p w)
settled p pid (spins, w) = (spins, w)

settled_lem :
    {W : Type 0} (p : ParentSystem W) (pid : ℕ)
    → Reaps p
    → (r : Outcome (Unit {0}) × W)
    → next (abandon p r).0 (abandon p r).1 (λ _ v. (ok pid, v)) ≡ settled p pid r
unfolding abandon rethrown
settled_lem p pid reaps (ok _, w) = refl
settled_lem p pid reaps (throw x, w) = rw (reaps.kills w, reaps.waits (tolerated p (p.kill w)).1)
settled_lem p pid reaps (spins, w) = refl

module _ {W : Type 0} (p : ParentSystem W) (keeps : KeepsPackets p) (reaps : Reaps p)
    (c : ChildSystem W) (writable : Writable c) (s : Settings) where
  judged :
      (pid : ℕ) (w : W) {r : Option (ℕ × Bytes)}
      → Ends c s w r
      → Fits r
      → next
          (abandon p (handle_pre_exec_error p (run_child c s true w).packets w)).0
          (abandon p (handle_pre_exec_error p (run_child c s true w).packets w)).1
          (λ _ v. (ok pid, v))
        ≡ settled p pid (learned p r w)
  judged pid w {r = r} ends fits = rw (packets-run_child c writable s w ends) (
      settled_lem p pid reaps (handle_pre_exec_error p (packets_of r) w)
      ∙ ap (settled p pid) (handled p keeps r w fits))

  run_with-true :
      (w w1 w2 : W) (pid : ℕ) (r : Option (ℕ × Bytes))
      → verify_args s ≡ ok tt
      → p.open_pipe w ≡ (ok tt, w1)
      → p.clone w1 ≡ (ok pid, w2)
      → Ends c s w2 r
      → Fits r
      → run_with p true c s w ≡ settled p pid (learned p r w2)
  unfolding run_with
  run_with-true w w1 w2 pid r v o k ends fits = rw (v, o, k) (judged pid w2 ends fits)

  -- With forwarding on, and once the pipe and the child are there, `run` returns the child if the
  -- child had nothing to report and the read of the pipe succeeds. Otherwise it kills the child,
  -- waits for it and throws what the read threw that failed, or, once both messages are read, a failed
  -- exec as an `ApiError` with the child's error number and text, anything before, the callback
  -- included, as a `RuntimeError` with the text. The writes of the child to the pipe have to succeed,
  -- and the text has to have at least one byte and to fit one packet.
  pub run_lem :
      (w w1 w2 : W) (pid : ℕ) (r : Option (ℕ × Bytes))
      → s.forward_child_errors ≡ true
      → verify_args s ≡ ok tt
      → p.open_pipe w ≡ (ok tt, w1)
      → p.clone w1 ≡ (ok pid, w2)
      → Ends c s w2 r
      → Fits r
      → run p c s w ≡ settled p pid (learned p r w2)
  unfolding run
  run_lem w w1 w2 pid r f v o k ends fits =
      subst (λ b. run_with p b c s w ≡ settled p pid (learned p r w2)) (sym f)
        (run_with-true w w1 w2 pid r v o k ends fits)
