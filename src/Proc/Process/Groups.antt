-- ===== src/Proc/Process/Groups.antt =====
-- Whether a process leads its group.
use libcosmos.Prelude.{ℕ, ◌<◌, ◌≡◌, ap, arith, false, ◌==◌}
use libcosmos.Outcome.{ok, Reply, done}
use libcosmos.Proc.Process.{is_caller_process_group_leader, self}

module _ {W : Type 0} (getpgid : ℕ → W → Reply ℕ × W) where
  not_zero : (pgid : ℕ) → 0 < pgid → (self == pgid) ≡ false
  not_zero pgid h = ground (arith, h)

  -- The calling process is never reported as the leader of its group, also where it is: `SELF` is the
  -- number 0, and the number of its group, which getpgid(2) answers, is positive.
  pub is_caller_process_group_leader_lem :
      (w v : W) (pgid : ℕ)
      → 0 < pgid
      → getpgid self w ≡ (done pgid, v)
      → is_caller_process_group_leader getpgid w ≡ (ok false, v)
  unfolding is_caller_process_group_leader
  is_caller_process_group_leader_lem w v pgid h e = rw e (ap (λ b. (ok b, v)) (not_zero pgid h))
