-- ===== src/Fs/Descriptor/Locks.antt =====
-- What the lock functions and the pipe size functions answer.
use libcosmos.Prelude.{
  ℕ, ◌≡◌, ◌≢◌, refl, Bool, true, false, not, ◌||◌, ◌⊎◌, inl, inr, [], ◌∷◌, ◌==◌, if_cases, arith,
  String, Bool-cases,
}
use libcosmos.Outcome.{api_error, Outcome, ok, throw, spins, Reply, done, failed}
use libcosmos.Outcome.Errno
use libcosmos.Fs.Descriptor.{
  Control, FileLock, lock_error, lock_result, set_lock, set_ofd_lock, f_setlk, f_ofd_setlk,
  zero_or_throw, get_pipe_size, set_pipe_size, f_getpipe_sz, f_setpipe_sz,
}

abbrev Held : ℕ → Type 0
Held e = (e ≡ Errno.again) ⊎ (e ≡ Errno.access)

module _ {W : Type 0} (k : Control W) where
  -- The answer to a lock request, by the answer of fcntl(2), which is 0 if it succeeds.
  abbrev pub Locked : Reply ℕ × W → Outcome Bool × W → Type 0
  Locked (done res, v) q = q ≡ (ok true, v)
  Locked (failed e, v) (ok got, u) = Held e × (got ≡ false) × (u ≡ v)
  Locked (failed e, v) (throw x, u) =
      (¬ Held e) × ((call : String) × (x ≡ api_error call e)) × (u ≡ v)
  Locked (failed e, v) (spins, u) = ⊥

  abbrev pub Succeeds : Reply ℕ × W → Type 0
  Succeeds (done res, v) = res ≡ 0
  Succeeds (failed e, v) = Unit

  lock_result-Locked :
      (call : String) (r : Reply ℕ × W) → Succeeds r → Locked r (lock_result k call r)
  unfolding lock_result lock_error
  lock_result-Locked call (done res, v) h = rw h
  lock_result-Locked call (failed e, v) h =
      elim (Bool-cases (e == Errno.again || e == Errno.access)) [
        | inl held ↦ rw held (ground (arith, held), refl, refl)
        | inr free ↦ rw free ((λ q. ground (arith, free, q)), (call, refl), refl)
      ]

  -- Where fcntl(2) answers 0 when it succeeds: `setLock`, and `setOFDLock` of a lock without a process
  -- ID, return true if it succeeds, false if another lock is in the way, and throw any other error.
  pub set_lock-Locked :
      (lock : FileLock) (w : W)
      → lock.pid ≡ 0
      → Succeeds (k.fcntl f_setlk (lock.pid ∷ lock.fields) w)
      → Succeeds (k.fcntl f_ofd_setlk (lock.pid ∷ lock.fields) w)
      → Locked (k.fcntl f_setlk (lock.pid ∷ lock.fields) w) (set_lock k lock w)
        × Locked (k.fcntl f_ofd_setlk (lock.pid ∷ lock.fields) w) (set_ofd_lock k lock w)
  unfolding set_lock set_ofd_lock
  set_lock-Locked lock w p h h' = (
    lock_result-Locked "fcntl(F_SETLK)" (k.fcntl f_setlk (lock.pid ∷ lock.fields) w) h,
    if_cases (Locked (k.fcntl f_ofd_setlk (lock.pid ∷ lock.fields) w)) (not (lock.pid == 0)) _ _
        (λ no. absurd (ground (arith, no, p)))
        (λ yes.
          lock_result-Locked "fcntl(F_OFD_SETLK)" (k.fcntl f_ofd_setlk (lock.pid ∷ lock.fields) w)
            h'),
  )

  size_lost :
      (call : String) (res : ℕ) (v : W)
      → res ≢ 0
      → zero_or_throw k call (done res, v) ≡ (throw (api_error call (k.errno v)), v)
  unfolding zero_or_throw
  size_lost call res v n =
      if_cases (λ q. q ≡ (throw (api_error call (k.errno v)), v)) (not (res == 0)) _ _ (λ h. refl)
        (λ h. absurd (n (ground (arith, h))))

  -- Where fcntl(2) answers the size of the pipe, `getPipeSize` and `setPipeSize` throw an `ApiError`
  -- with whatever error number is left over, and the size is set all the same.
  pub pipe_size_lost :
      (new_size res res' : ℕ) (w v v' : W)
      → res ≢ 0
      → res' ≢ 0
      → k.fcntl f_getpipe_sz [] w ≡ (done res, v)
      → k.fcntl f_setpipe_sz (new_size ∷ []) w ≡ (done res', v')
      → (get_pipe_size k w ≡ (throw (api_error "fcntl(F_GETPIP_SZ)" (k.errno v)), v))
        × (set_pipe_size k new_size w ≡ (throw (api_error "fcntl(F_SETPIP_SZ)" (k.errno v')), v'))
  unfolding get_pipe_size set_pipe_size
  pipe_size_lost new_size res res' w v v' n n' e e' =
      (rw e (size_lost _ res v n), rw e' (size_lost _ res' v' n'))
