-- ===== src/Io/StreamIo/Vectored.antt =====
-- The loops over `IOVector` in include/io/StreamIO.hxx.
use libcosmos.Prelude.{ℕ, zero, suc, ◌+◌, ◌<◌, ◌≤◌, ◌≡◌, refl, Bool, true, false, List, arith, ◌==◌}
use libcosmos.Outcome.{Outcome, ok, throw, spins, done}
use libcosmos.Io.Iovector.{Region, update}
use libcosmos.Io.Iovector.Update.{total, update_within}
use libcosmos.Io.StreamIo.{
  Syscalls, restart, updated, looped, read_vector, write_vector, until_finished, read_all_vector,
  write_all_vector,
}
use libcosmos.Io.StreamIo.Restart.{Answer, Result, restart-Result}

module _ {W : Type 0} (patience : W → ℕ) where
  -- A vectored call moves some of the bytes that are left, if any are.
  abbrev pub Moves : List Region → W → ℕ → W → Type 0
  Moves iovec w n w' = (n ≤ total iovec) × (0 < total iovec → 0 < n) × (patience w' ≤ patience w)

  abbrev pub Rests : W → W → Type 0
  Rests w w' = patience w' ≤ patience w

  -- How a loop over a vector ends: no byte is left, or by an exception with bytes left.
  abbrev pub AllMoved : List Region → (Outcome (Unit {0}) × List Region) × W → Type 0
  AllMoved iovec ((ok _, iovec'), w') = total iovec' ≡ 0
  AllMoved iovec ((throw x, iovec'), w') = total iovec' ≤ total iovec
  AllMoved iovec ((spins, iovec'), w') = ⊥

  -- How one round ends.
  abbrev Round : ℕ → List Region → W → (Outcome Bool × List Region) × W → Type 0
  Round fuel iovec w ((ok true, iovec'), w') = (total iovec' ≡ 0) × (total iovec' ≤ total iovec)
  Round fuel iovec w ((ok false, iovec'), w') =
      (total iovec' < total iovec) × (patience w' ≤ patience w)
  Round fuel iovec w ((throw x, iovec'), w') = total iovec' ≤ total iovec
  Round fuel iovec w ((spins, iovec'), w') = fuel ≤ patience w

  moved-Round :
      (fuel : ℕ) (iovec : List Region) (w w' : W) (n : ℕ) (u : Outcome Bool × List Region)
      → Moves iovec w n w'
      → u.0 ≡ ok (total u.1 == 0)
      → total u.1 + n ≡ total iovec
      → Round fuel iovec w (u, w')
  moved-Round fuel iovec w w' n (ok true, v) m e t = (ground arith, omega arith)
  moved-Round fuel iovec w w' n (ok false, v) m e t =
      let left : 0 < total v = ground arith in (omega arith, m.2)
  moved-Round fuel iovec w w' n (throw x, v) m e t = cc
  moved-Round fuel iovec w w' n (spins, v) m e t = cc

  updated-Round :
      (fuel : ℕ) (iovec : List Region) (w : W) (p : Outcome ℕ × W)
      → Result patience (Moves iovec) Rests fuel w p
      → Round fuel iovec w (updated iovec p)
  unfolding updated
  updated-Round fuel iovec w (ok n, w') r =
      let u = update_within iovec n r.0 in moved-Round fuel iovec w w' n (update iovec n) r u.0 u.1
  updated-Round fuel iovec w (throw x, w') r = omega arith
  updated-Round fuel iovec w (spins, w') r = r

  less :
      (v iovec : List Region) (r : (Outcome (Unit {0}) × List Region) × W)
      → total v ≤ total iovec
      → AllMoved v r
      → AllMoved iovec r
  less v iovec ((ok _, u), w) h a = a
  less v iovec ((throw x, u), w) h a = omega arith
  less v iovec ((spins, u), w) h a = a

  looped-AllMoved :
      (fuel : ℕ) (iovec : List Region) (w : W) (p : (Outcome Bool × List Region) × W)
      (rest : List Region → W → (Outcome (Unit {0}) × List Region) × W)
      → suc (total iovec + patience w) < suc fuel
      → Round fuel iovec w p
      → ((v : List Region) (w' : W) → suc (total v + patience w') < fuel → AllMoved v (rest v w'))
      → AllMoved iovec (looped p rest)
  looped-AllMoved fuel iovec w ((ok true, v), w') rest h r ih = r.0
  looped-AllMoved fuel iovec w ((ok false, v), w') rest h r ih =
      less v iovec (rest v w') (omega arith) (ih v w' (omega arith))
  looped-AllMoved fuel iovec w ((throw x, v), w') rest h r ih = r
  looped-AllMoved fuel iovec w ((spins, v), w') rest h r ih = absurd (omega arith)

  until_finished-AllMoved :
      (step : ℕ → List Region → W → (Outcome Bool × List Region) × W)
      → ((fuel : ℕ) (iovec : List Region) (w : W) → Round fuel iovec w (step fuel iovec w))
      → (fuel : ℕ) (iovec : List Region) (w : W) → suc (total iovec + patience w) < fuel
      → AllMoved iovec (until_finished fuel step iovec w)
  unfolding until_finished
  until_finished-AllMoved step rounds zero iovec w h = absurd (omega arith)
  until_finished-AllMoved step rounds (suc fuel) iovec w h =
      looped-AllMoved fuel iovec w (step fuel iovec w) _ h (rounds fuel iovec w)
        (until_finished-AllMoved step rounds fuel)

module _ {W : Type 0} (k : Syscalls W) (auto_restart : Bool) (fd : ℕ) (patience : W → ℕ)
    (moves : (iovec : List Region) (w : W)
      → Answer patience (Moves patience iovec) (Rests patience) w (k.sys_writev fd iovec w)) where
  write_vector-Round :
      (fuel : ℕ) (iovec : List Region) (w : W)
      → Round patience fuel iovec w (write_vector k auto_restart fd fuel iovec w)
  unfolding write_vector
  write_vector-Round fuel iovec w = updated-Round patience fuel iovec w _ (
      restart-Result patience (Moves patience iovec) (Rests patience)
        (λ w w' v n q d. (d.0, d.1, omega arith)) (λ w w' v q r. omega arith) auto_restart
        "writev()" (k.sys_writev fd iovec) (moves iovec) fuel w)

  -- `writeAll` of a vector, with fuel for each byte and each interruption, always ends. If it
  -- returns, no region has a byte left; if it throws, the regions have no more bytes left than
  -- before. This holds for every kernel whose writev(2) moves one or more of the bytes left, where
  -- there are any, or fails.
  pub write_all_vector_lem :
      (fuel : ℕ) (iovec : List Region) (w : W)
      → suc (total iovec + patience w) < fuel
      → AllMoved patience iovec (write_all_vector k auto_restart fd fuel iovec w)
  unfolding write_all_vector
  write_all_vector_lem fuel iovec w h =
      until_finished-AllMoved patience (write_vector k auto_restart fd) write_vector-Round fuel
        iovec w h

module _ {W : Type 0} (k : Syscalls W) (auto_restart : Bool) (fd : ℕ) (w : W)
    (at_end : (iovec : List Region) → k.sys_readv fd iovec w ≡ (done 0, w)) where
  read_vector_none :
      (fuel : ℕ) (iovec : List Region)
      → read_vector k auto_restart fd (suc fuel) iovec w ≡ (update iovec 0, w)
  unfolding read_vector restart updated
  read_vector_none fuel iovec = rw (at_end iovec)

  looped_none :
      (iovec : List Region) (p : Outcome Bool × List Region)
      (rest : List Region → W → (Outcome (Unit {0}) × List Region) × W)
      → 0 < total iovec
      → p.0 ≡ ok (total p.1 == 0)
      → total p.1 + 0 ≡ total iovec
      → ((v : List Region) → 0 < total v → (rest v w).0.0 ≡ spins)
      → (looped (p, w) rest).0.0 ≡ spins
  looped_none iovec (ok true, v) rest h e t ih = ground arith
  looped_none iovec (ok false, v) rest h e t ih = ih v (omega arith)
  looped_none iovec (throw x, v) rest h e t ih = cc
  looped_none iovec (spins, v) rest h e t ih = refl

  -- At the end of the file readv(2) answers that no byte was read, which is no error. `readAll` of
  -- a vector with a byte left then does not end: it uses up any fuel.
  pub read_all_vector_at_end :
      (fuel : ℕ) (iovec : List Region)
      → 0 < total iovec
      → (read_all_vector k auto_restart fd fuel iovec w).0.0 ≡ spins
  unfolding read_all_vector until_finished
  read_all_vector_at_end zero iovec h = refl
  read_all_vector_at_end (suc zero) iovec h = unfold read_vector restart updated in refl
  read_all_vector_at_end (suc (suc fuel)) iovec h = rw (read_vector_none fuel iovec) (
      looped_none iovec (update iovec 0) _ h (update_within iovec 0 (omega arith)).0
        (update_within iovec 0 (omega arith)).1 (read_all_vector_at_end (suc fuel)))
