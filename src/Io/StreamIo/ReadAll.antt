-- ===== src/Io/StreamIo/ReadAll.antt =====
-- `StreamIO::readAll` over a stream of bytes of which the kernel delivers as much at a time as it
-- likes (src/io/StreamIO.cxx).
use libcosmos.Prelude.{
  ℕ, zero, suc, ◌+◌, ◌-◌, ◌<◌, ◌≤◌, ◌≡◌, refl, sym, ◌∙◌, ap, Bool, [], ◌∷◌, ◌++◌, append_assoc,
  append-nil, arith, length, length-append, is_empty, if◌then◌else◌,
}
use libcosmos.Outcome.{Bytes, Outcome, ok, throw, spins, runtime_error, next}
use libcosmos.Io.StreamIo.{Syscalls, read, read_all}
use libcosmos.Io.StreamIo.Restart.{Answer, Result, restart-Result}

module _ {W : Type 0} (patience : W → ℕ) (pending : W → Bytes) where
  -- read(2) takes a first part of the bytes that are pending, no longer than asked for. `patience`
  -- bounds the interruptions still to come.
  abbrev pub Delivers : ℕ → W → Bytes → W → Type 0
  Delivers n w bs w' = (pending w ≡ bs ++ pending w') × (length bs ≤ n) × (patience w' ≤ patience w)

  -- A read that fails takes nothing.
  abbrev pub Keeps : W → W → Type 0
  Keeps w w' = (pending w' ≡ pending w) × (patience w' ≤ patience w)

  -- How `read_all` of `n` bytes ends: with the next `n` pending bytes behind those in the buffer,
  -- or by an exception after fewer.
  abbrev pub ReadAll : ℕ → Bytes → W → Outcome Bytes × W → Type 0
  ReadAll n buf w (ok out, w') =
      (chunk : Bytes) × (out ≡ buf ++ chunk)
      × (length chunk ≡ n)
      × (pending w ≡ chunk ++ pending w')
  ReadAll n buf w (throw x, w') =
      (chunk : Bytes) × (length chunk < n) × (pending w ≡ chunk ++ pending w')
  ReadAll n buf w (spins, w') = ⊥

  -- The bytes of one read in front of those of the reads after it.
  extend :
      (bs : Bytes) (n : ℕ) (buf : Bytes) (w w' : W) (r : Outcome Bytes × W)
      → pending w ≡ bs ++ pending w'
      → length bs ≤ n
      → ReadAll (n - length bs) (buf ++ bs) w' r
      → ReadAll n buf w r
  extend bs n buf w w' (ok out, v) e h (chunk, o, l, p) = (
    bs ++ chunk,
    o ∙ append_assoc buf bs chunk,
    omega (arith, length-append bs chunk),
    e ∙ ap (λ t. bs ++ t) p ∙ sym (append_assoc bs chunk (pending v)),
  )
  extend bs n buf w w' (throw x, v) e h (chunk, l, p) = (
    bs ++ chunk,
    omega (arith, length-append bs chunk),
    e ∙ ap (λ t. bs ++ t) p ∙ sym (append_assoc bs chunk (pending v)),
  )
  extend bs n buf w w' (spins, v) e h r = r

module _ {W : Type 0} (k : Syscalls W) (auto_restart : Bool) (fd : ℕ) (patience : W → ℕ)
    (pending : W → Bytes)
    (reads : (n : ℕ) (w : W)
      → Answer patience
          (Delivers patience pending n)
          (Keeps patience pending)
          w
          (k.sys_read fd n w)) where
  read_lem :
      (fuel n : ℕ) (w : W)
      → Result patience
          (Delivers patience pending n)
          (Keeps patience pending)
          fuel
          w
          (read k auto_restart fd fuel n w)
  unfolding read
  read_lem fuel n =
      restart-Result patience (Delivers patience pending n) (Keeps patience pending)
        (λ w w' v bs q d. (sym q.0 ∙ d.0, d.1, omega arith))
        (λ w w' v q r. (r.0 ∙ q.0, omega arith)) auto_restart "read()" (k.sys_read fd n) (reads n)
        fuel

  -- One round of `readAll`, over what its `read` gave and over the rounds after it.
  next_read :
      (fuel n : ℕ) (buf : Bytes) (w : W) (p : Outcome Bytes × W)
      → suc n + patience w < suc fuel
      → Result patience (Delivers patience pending (suc n)) (Keeps patience pending) fuel w p
      → ((res : Bytes) (w' : W)
          → (suc n - length res) + patience w' < fuel
          → ReadAll patience pending
              (suc n - length res)
              (buf ++ res)
              w'
              (read_all k auto_restart fd fuel (suc n - length res) (buf ++ res) w'))
      → ReadAll patience pending (suc n) buf w (
          next p.0 p.1 (λ res w'.
            let rest = read_all k auto_restart fd fuel (suc n - length res) (buf ++ res) in
            if is_empty res then (throw (runtime_error "unexpected EOF" []), w') else rest w'))
  next_read fuel n buf w (ok [], w') h r ih = ([], omega arith, r.0)
  next_read fuel n buf w (ok (b ∷ bs), w') h r ih =
      extend patience pending (b ∷ bs) (suc n) buf w w' _ r.0 r.1 (ih (b ∷ bs) w' (omega arith))
  next_read fuel n buf w (throw x, w') h r ih = ([], omega arith, sym r.0)
  next_read fuel n buf w (spins, w') h r ih = absurd (omega arith)

  -- `readAll` of `length` bytes, with fuel for each byte and each interruption, always ends. It
  -- either returns exactly the next `length` bytes that were pending, in order, behind those that
  -- the buffer holds, and leaves the bytes after them, or it throws after taking fewer. This holds
  -- for every kernel whose read(2) takes a first part of the pending bytes or fails and takes none.
  pub read_all_lem :
      (fuel n : ℕ) (buf : Bytes) (w : W)
      → n + patience w < fuel
      → ReadAll patience pending n buf w (read_all k auto_restart fd fuel n buf w)
  unfolding read_all
  read_all_lem zero n buf w h = absurd (omega arith)
  read_all_lem (suc fuel) zero buf w h = ([], sym (append-nil buf), refl, refl)
  read_all_lem (suc fuel) (suc n) buf w h =
      next_read fuel n buf w (read k auto_restart fd fuel (suc n) w) h (read_lem fuel (suc n) w)
        λ res w' g. read_all_lem fuel (suc n - length res) (buf ++ res) w' g
