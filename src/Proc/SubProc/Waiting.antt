-- ===== src/Proc/SubProc/Waiting.antt =====
-- What `SubProc::wait` leaves behind.
use libcosmos.Prelude.{
  ◌≡◌, refl, Bool, true, false, not, ◌&&◌, ◌||◌, ◌⊎◌, inl, inr, Option, none, some, ◌==◌, arith,
  Bool-cases, if_cases,
}
use libcosmos.Outcome.{Exception, api_error, Outcome, ok, throw, spins, Reply, done, failed}
use libcosmos.Outcome.Errno
use libcosmos.Proc.ChildState.{ChildState, exited, killed, SigInfo}
use libcosmos.Proc.SubProc.{
  WaitFlags, SubProc, empty, WaitSystem, wait_result, is_no_child, closed, close_fd, on_error,
  handled, collected, after_wait, wait,
}

abbrev pub ended : ChildState → Bool
ended st = exited st || killed st

module _ {W : Type 0} (k : WaitSystem W) where
  -- The object behind a wait.
  abbrev pub Waited : WaitFlags → SubProc → (Outcome ChildState × SubProc) × W → Type 0
  Waited flags s ((ok st, s'), v) =
      ((s' ≡ s) × ((flags.leave_info ≡ true) ⊎ (ended st ≡ false)))
      ⊎ ((s' ≡ empty) × (flags.leave_info ≡ false) × (ended st ≡ true))
  Waited flags s ((throw x, s'), v) =
      ((flags.no_hang ≡ true) × (s' ≡ s)) ⊎ ((s' ≡ s) × (is_no_child x ≡ false)) ⊎ (s' ≡ empty)
  Waited flags s ((spins, s'), v) = ⊥

  on_error-Waited :
      (flags : WaitFlags) (x : Exception) (s : SubProc) (w : W) → Waited flags s (on_error k x s w)
  unfolding on_error
  on_error-Waited flags x s w = elim (Bool-cases (is_no_child x)) [
    | inl e ↦ rw e (inr (inr refl))
    | inr e ↦ rw e (inr (inl (refl, e)))
  ]

  closed-Waited :
      (flags : WaitFlags) (s : SubProc) (st : ChildState) (r : Reply (Unit {0}) × W)
      → flags.leave_info ≡ false
      → ended st ≡ true
      → Waited flags s (handled k empty (closed k st r))
  unfolding handled on_error
  closed-Waited flags s st (done _, w) l e = inr (refl, l, e)
  closed-Waited flags s st (failed n, w) l e = elim (Bool-cases (n == Errno.no_child)) [
    | inl c ↦ rw c (inr (inr refl))
    | inr c ↦ rw c (inr (inr refl))
  ]

  kept : (l e : Bool) → (not l && e) ≡ false → (l ≡ true) ⊎ (e ≡ false)
  kept true e h = inl refl
  kept false e h = inr h

  collected-Waited :
      (flags : WaitFlags) (s : SubProc) (o : Option ChildState) (w : W)
      → Waited flags s (collected k flags s o w)
  unfolding collected
  collected-Waited flags s none w = inr (inl (refl, refl))
  collected-Waited flags s (some st) w =
      if_cases (Waited flags s) (not flags.leave_info && ended st) _ _
        (λ h.
          closed-Waited flags s st (close_fd k s.child_fd w) (ground (arith, h))
            (ground (arith, h)))
        (λ h. inl (refl, kept flags.leave_info (ended st) h))

  after_wait-Waited :
      (flags : WaitFlags) (s : SubProc) (r : Reply SigInfo) (w : W)
      → Waited flags s (after_wait k flags s (wait_result flags r) w)
  unfolding after_wait wait_result
  after_wait-Waited flags s (failed e) w = on_error-Waited flags (api_error "wait()" e) s w
  after_wait-Waited flags s (done si) w =
      if_cases (λ o. Waited flags s (after_wait k flags s o w)) (flags.no_hang && si.si_pid == 0) _
        _ (λ h. collected-Waited flags s none w) (λ h. collected-Waited flags s _ w)

  -- `wait` always ends, and if it returns a state, the object is released if and only if the child
  -- exited or was killed and the flags do not leave the state in place. If it throws, the object is
  -- released, or it is as before, because the flags were refused or the exception is not the one for a
  -- child that is already collected.
  pub wait-Waited : (flags : WaitFlags) (s : SubProc) (w : W) → Waited flags s (wait k flags s w)
  unfolding wait
  wait-Waited flags s w =
      if_cases (Waited flags s) flags.no_hang _ _ (λ h. inl (h, refl))
        (λ h.
          after_wait-Waited flags s (k.waitid s.child_fd flags w).0 (k.waitid s.child_fd flags w).1)
