-- ===== src/Io/StreamIo/WriteAll.antt =====
-- `StreamIO::writeAll` over a kernel that accepts as much of the data at a time as it likes
-- (src/io/StreamIO.cxx).
use libcosmos.Prelude.{
  ℕ, zero, suc, ◌+◌, ◌<◌, ◌≤◌, ◌≡◌, refl, sym, ◌∙◌, ap, Bool, [], ◌∷◌, ◌++◌, append_assoc,
  append-nil, arith, length, length-drop, take, drop, take-append-drop,
}
use libcosmos.Outcome.{Bytes, Outcome, ok, throw, spins, next}
use libcosmos.Io.StreamIo.{Syscalls, write, write_all}
use libcosmos.Io.StreamIo.Restart.{Answer, Result, restart-Result}

module _ {W : Type 0} (patience : W → ℕ) (written : W → Bytes) where
  -- write(2) takes a first part of the data, which is not empty, and appends it to what was written.
  abbrev pub Accepts : Bytes → W → ℕ → W → Type 0
  Accepts buf w n w' =
      (written w' ≡ written w ++ take n buf)
      × (0 < n)
      × (n ≤ length buf)
      × (patience w' ≤ patience w)

  -- A write that fails writes nothing.
  abbrev pub Refuses : W → W → Type 0
  Refuses w w' = (written w' ≡ written w) × (patience w' ≤ patience w)

  -- How `write_all` of `buf` ends: all of it is written, or an exception left a rest unwritten.
  abbrev pub WriteAll : Bytes → W → Outcome (Unit {0}) × W → Type 0
  WriteAll buf w (ok _, w') = written w' ≡ written w ++ buf
  WriteAll buf w (throw x, w') =
      (front : Bytes) × (rest : Bytes) × (buf ≡ front ++ rest)
      × (0 < length rest)
      × (written w' ≡ written w ++ front)
  WriteAll buf w (spins, w') = ⊥

  -- The bytes of one write in front of those of the writes after it.
  extend :
      (n : ℕ) (buf : Bytes) (w w' : W) (r : Outcome (Unit {0}) × W)
      → written w' ≡ written w ++ take n buf
      → WriteAll (drop n buf) w' r
      → WriteAll buf w r
  extend n buf w w' (ok _, v) e h =
      h
      ∙ ap (λ t. t ++ drop n buf) e
      ∙ append_assoc (written w) (take n buf) (drop n buf)
      ∙ ap (λ t. written w ++ t) (take-append-drop n buf)
  extend n buf w w' (throw x, v) e (front, rest, s, l, p) = (
    take n buf ++ front,
    rest,
    sym (take-append-drop n buf)
        ∙ ap (λ t. take n buf ++ t) s
        ∙ sym (append_assoc (take n buf) front rest),
    l,
    p ∙ ap (λ t. t ++ front) e ∙ append_assoc (written w) (take n buf) front,
  )
  extend n buf w w' (spins, v) e h = h

module _ {W : Type 0} (k : Syscalls W) (auto_restart : Bool) (fd : ℕ) (patience : W → ℕ)
    (written : W → Bytes)
    (writes : (b : ℕ) (buf : Bytes) (w : W)
      → Answer patience
          (Accepts patience written (b ∷ buf))
          (Refuses patience written)
          w
          (k.sys_write fd (b ∷ buf) w)) where
  write_lem :
      (fuel b : ℕ) (buf : Bytes) (w : W)
      → Result patience
          (Accepts patience written (b ∷ buf))
          (Refuses patience written)
          fuel
          w
          (write k auto_restart fd fuel (b ∷ buf) w)
  unfolding write
  write_lem fuel b buf =
      restart-Result patience (Accepts patience written (b ∷ buf)) (Refuses patience written)
        (λ w w' v n q d. (d.0 ∙ ap (λ t. t ++ take n (b ∷ buf)) q.0, d.1, d.2, omega arith))
        (λ w w' v q r. (r.0 ∙ q.0, omega arith)) auto_restart "write()" (k.sys_write fd (b ∷ buf))
        (writes b buf) fuel

  next_write :
      (fuel b : ℕ) (buf : Bytes) (w : W) (p : Outcome ℕ × W)
      → length (b ∷ buf) + patience w < suc fuel
      → Result patience (Accepts patience written (b ∷ buf)) (Refuses patience written) fuel w p
      → ((n : ℕ) (w' : W)
          → length (drop n (b ∷ buf)) + patience w' < fuel
          → WriteAll patience written
              (drop n (b ∷ buf))
              w'
              (write_all k auto_restart fd fuel (drop n (b ∷ buf)) w'))
      → WriteAll patience written
          (b ∷ buf)
          w
          (next p.0 p.1 (λ res. write_all k auto_restart fd fuel (drop res (b ∷ buf))))
  next_write fuel b buf w (ok n, w') h r ih =
      extend patience written n (b ∷ buf) w w' _ r.0
        (ih n w' (omega (arith, length-drop n (b ∷ buf))))
  next_write fuel b buf w (throw x, w') h r ih =
      ([], b ∷ buf, refl, omega arith, r.0 ∙ sym (append-nil (written w)))
  next_write fuel b buf w (spins, w') h r ih = absurd (omega arith)

  -- `writeAll`, with fuel for each byte and each interruption, always ends. If it returns, exactly
  -- the data was appended to what was written; if it throws, a first part of the data was, and the
  -- part that is missing is not empty. This holds for every kernel whose write(2) accepts one or
  -- more of the bytes it is given, or fails and writes none.
  pub write_all_lem :
      (fuel : ℕ) (buf : Bytes) (w : W)
      → length buf + patience w < fuel
      → WriteAll patience written buf w (write_all k auto_restart fd fuel buf w)
  unfolding write_all
  write_all_lem zero buf w h = absurd (omega arith)
  write_all_lem (suc fuel) [] w h = sym (append-nil (written w))
  write_all_lem (suc fuel) (b ∷ buf) w h =
      next_write fuel b buf w (write k auto_restart fd fuel (b ∷ buf) w) h (write_lem fuel b buf w)
        λ n w' g. write_all_lem fuel (drop n (b ∷ buf)) w' g
