-- ===== src/Proc/SubProc/CoreDumps.antt =====
-- `SubProc` and a child that dumps core.
use libcosmos.Prelude.{
  ℕ, ◌≡◌, refl, ap, ◌∙◌, true, false, not, ◌&&◌, ◌||◌, some, ◌==◌, if_false, arith,
}
use libcosmos.Outcome.{api_error, ok, throw, Reply, done, failed}
use libcosmos.Outcome.Errno
use libcosmos.Proc.ChildState.{
  ChildState, exited, killed, dumped, SigInfo, sigchld, event_of, child_data,
}
use libcosmos.Proc.SubProc.{
  WaitFlags, SubProc, empty, running, WaitSystem, state_of, wait_result, close_fd, on_error,
  collected, after_wait, wait, destroy,
}

-- `CLD_DUMPED`.
abbrev pub cld_dumped : ℕ
cld_dumped = 3

dumped_state :
    (si : SigInfo)
    → si.si_signo ≡ sigchld
    → si.si_code ≡ cld_dumped
    → (st : ChildState) × (state_of (child_data si) ≡ some st)
      × (exited st ≡ false)
      × (killed st ≡ false)
      × (dumped st ≡ true)
unfolding child_data event_of exited killed dumped
dumped_state si g c = rw (g, c) (_, refl, refl, refl, refl)

module _ {W : Type 0} (k : WaitSystem W) where
  wait_answer :
      (flags : WaitFlags) (s : SubProc) (w v : W) (r : Reply SigInfo)
      → flags.no_hang ≡ false
      → k.waitid s.child_fd flags w ≡ (r, v)
      → wait k flags s w ≡ after_wait k flags s (wait_result flags r) v
  unfolding wait
  wait_answer flags s w v r n e =
      if_false flags.no_hang _ _ n ∙ ap (λ q. after_wait k flags s (wait_result flags q.0) q.1) e

  result_lem :
      (flags : WaitFlags) (si : SigInfo)
      → flags.no_hang ≡ false
      → wait_result flags (done si)
        ≡ ok (state_of (child_data (record si { si_errno = Errno.invalid_arg })))
  unfolding wait_result
  result_lem flags si n =
      if_false (flags.no_hang && si.si_pid == 0) _ _ (ap (λ b. b && si.si_pid == 0) n)

  not_collected :
      (flags : WaitFlags) (s : SubProc) (st : ChildState) (v : W)
      → exited st ≡ false
      → killed st ≡ false
      → collected k flags s (some st) v ≡ ((ok st, s), v)
  unfolding collected
  not_collected flags s st v e l =
      if_false (not flags.leave_info && (exited st || killed st)) _ _ (ground (arith, e, l))

  -- Where waitid(2) reports that the child dumped core, `wait` returns that state and keeps the object
  -- as running, so that its destructor ends the process. Where waitid(2) then answers that there is no
  -- child, the next `wait` throws that and releases the object.
  pub wait_dumped :
      (flags : WaitFlags) (s : SubProc) (w v u : W) (si : SigInfo)
      → flags.no_hang ≡ false
      → running s ≡ true
      → k.waitid s.child_fd flags w ≡ (done si, v)
      → si.si_signo ≡ sigchld
      → si.si_code ≡ cld_dumped
      → k.waitid s.child_fd flags v ≡ (failed Errno.no_child, u)
      → (st : ChildState) × (wait k flags s w ≡ ((ok st, s), v))
        × (dumped st ≡ true)
        × (destroy s ≡ false)
        × (wait k flags s v
            ≡ ((throw (api_error "wait()" Errno.no_child), empty), (close_fd k s.child_fd u).1))
  unfolding destroy after_wait wait_result on_error
  wait_dumped flags s w v u si n r a g c b =
      let (st, o, e, l, d) = dumped_state (record si { si_errno = Errno.invalid_arg }) g c in
      (
        st,
        wait_answer flags s w v (done si) n a
            ∙ (ap (λ q. after_wait k flags s q v) (result_lem flags si n)
                ∙ (ap (λ q. collected k flags s q v) o ∙ not_collected flags s st v e l)),
        d,
        ap not r,
        wait_answer flags s v u (failed Errno.no_child) n b,
      )
