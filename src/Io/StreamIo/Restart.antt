-- ===== src/Io/StreamIo/Restart.antt =====
-- The restart loop of src/io/StreamIO.cxx: how it ends, and with which answer.
use libcosmos.Prelude.{
  ℕ, zero, suc, ◌<◌, ◌≤◌, ◌≡◌, refl, sym, subst, ◌∙◌, Bool, true, false, ◌&&◌, String, arith, ◌==◌,
  if◌then◌else◌, inl, inr, Bool-cases,
}
use libcosmos.Outcome.{api_error, would_block, Outcome, ok, throw, spins, Reply, done, failed, Comp}
use libcosmos.Outcome.Errno
use libcosmos.Io.StreamIo.{handle_io_error, settle, restart}

-- Whether a failure makes the loop call again.
abbrev pub restarts : {A : Type 0} → Bool → Reply A → Bool
restarts auto_restart (done a) = false
restarts auto_restart (failed e) = auto_restart && e == Errno.interrupted

-- How a final answer is reported.
abbrev pub report : {A : Type 0} → String → Reply A → Outcome A
report operation (done a) = ok a
report operation (failed e) =
    if e == Errno.again then throw (would_block operation) else throw (api_error operation e)

module _ {W A : Type 0} (auto_restart : Bool) (call : W → Reply A × W) where
  -- The first answer, from the state `w` on, that is no interruption.
  pub data Answers : W → Reply A → W → Type 0 where
    final :
        {w w' : W} {r : Reply A}
        → call w ≡ (r, w')
        → restarts auto_restart r ≡ false
        → Answers w r w'
    again :
        {w w' : W} {r : Reply A}
        → restarts auto_restart (call w).0 ≡ true
        → Answers (call w).1 r w'
        → Answers w r w'

module _ {W A : Type 0} (auto_restart : Bool) (operation : String) (k : Comp W A) where
  settle_final :
      (p : Reply A × W)
      → restarts auto_restart p.0 ≡ false
      → settle auto_restart operation p k ≡ (report operation p.0, p.1)
  unfolding handle_io_error
  settle_final (done a, w) h = refl
  settle_final (failed e, w) h = ground arith

  settle_again :
      (p : Reply A × W)
      → restarts auto_restart p.0 ≡ true
      → settle auto_restart operation p k ≡ k p.1
  unfolding handle_io_error
  settle_again (done a, w) h = cc
  settle_again (failed e, w) h = ground arith

module _ {W A : Type 0} (auto_restart : Bool) (call : W → Reply A × W) (patience : W → ℕ)
    (wears : (w : W)
      → restarts auto_restart (call w).0 ≡ true
      → patience (call w).1 < patience w) where
  -- If each interruption lowers the number `patience`, which bounds how many are still to come, a
  -- restart loop with more fuel than that ends with the report of the first answer that is no
  -- interruption, in the state that this answer leaves.
  pub restart_lem :
      (operation : String) (fuel : ℕ) (w : W)
      → patience w < fuel
      → (r : Reply A) × (w' : W) × Answers auto_restart call w r w'
        × (restart fuel auto_restart operation call w ≡ (report operation r, w'))
  unfolding restart
  restart_lem operation zero w h = absurd (omega arith)
  restart_lem operation (suc fuel) w h = elim (Bool-cases (restarts auto_restart (call w).0)) [
    | inl more ↦
        let (r, w', a, e) = restart_lem operation fuel (call w).1 (omega (arith, wears w more)) in
        (r, w', again more a, settle_again auto_restart operation _ (call w) more ∙ e)
    | inr last ↦ (
      (call w).0,
      (call w).1,
      final refl last,
      settle_final auto_restart operation _ (call w) last,
    )
  ]

module _ {W A : Type 0} {auto_restart : Bool} {call : W → Reply A × W} where
  Answers-kept :
      {w w' : W} {r : Reply A} → Answers auto_restart call w r w' → restarts auto_restart r ≡ false
  Answers-kept (final e h) = h
  Answers-kept (again h a) = Answers-kept a

-- A rule for the loop: `Done w a w'` is what an answer `a` does to the state, `Quiet w w'` what a
-- failure does.
module _ {W A : Type 0} (patience : W → ℕ) (Done : W → A → W → Type 0)
    (Quiet : W → W → Type 0) where
  abbrev pub Answer : W → Reply A × W → Type 0
  Answer w (done a, w') = Done w a w'
  Answer w (failed e, w') = Quiet w w' × (e ≡ Errno.interrupted → patience w' < patience w)

  abbrev pub Result : ℕ → W → Outcome A × W → Type 0
  Result fuel w (ok a, w') = Done w a w'
  Result fuel w (throw x, w') = Quiet w w'
  Result fuel w (spins, w') = fuel ≤ patience w

module _ {W A : Type 0} (patience : W → ℕ) (Done : W → A → W → Type 0) (Quiet : W → W → Type 0)
    (quiet_done : (w w' v : W) (a : A) → Quiet w w' → Done w' a v → Done w a v)
    (quiet_trans : (w w' v : W) → Quiet w w' → Quiet w' v → Quiet w v) (auto_restart : Bool)
    (operation : String) where
  report-Result :
      (fuel : ℕ) (w w' : W) (e : ℕ)
      → Quiet w w'
      → Result patience Done Quiet (suc fuel) w (report operation (failed e), w')
  report-Result fuel w w' e q = elim (Bool-cases (e == Errno.again)) [
    | inl same ↦ rw same q
    | inr other ↦ rw other q
  ]

  later-Result :
      (fuel : ℕ) (w w' : W) (r : Outcome A × W)
      → Quiet w w'
      → patience w' < patience w
      → Result patience Done Quiet fuel w' r
      → Result patience Done Quiet (suc fuel) w r
  later-Result fuel w w' (ok a, v) q p r = quiet_done w w' v a q r
  later-Result fuel w w' (throw x, v) q p r = quiet_trans w w' v q r
  later-Result fuel w w' (spins, v) q p r = omega arith

  settle-Result :
      (fuel : ℕ) (w : W) (p : Reply A × W) (rest : Comp W A)
      → Answer patience Done Quiet w p
      → Result patience Done Quiet fuel p.1 (rest p.1)
      → Result patience Done Quiet (suc fuel) w (settle auto_restart operation p rest)
  settle-Result fuel w (done a, w') rest h r = h
  settle-Result fuel w (failed e, w') rest h r =
      elim (Bool-cases (restarts {A = A} auto_restart (failed e))) [
        | inl more ↦
            subst (Result patience Done Quiet (suc fuel) w)
              (sym (settle_again auto_restart operation rest (failed e, w') more))
              (later-Result fuel w w' (rest w') h.0 (h.1 (ground arith)) r)
        | inr last ↦
            subst (Result patience Done Quiet (suc fuel) w)
              (sym (settle_final auto_restart operation rest (failed e, w') last))
              (report-Result fuel w w' e h.0)
      ]

  pub restart-Result :
      (call : W → Reply A × W) (answers : (w : W) → Answer patience Done Quiet w (call w))
      (fuel : ℕ) (w : W)
      → Result patience Done Quiet fuel w (restart fuel auto_restart operation call w)
  unfolding restart
  restart-Result call answers zero w = omega arith
  restart-Result call answers (suc fuel) w =
      settle-Result fuel w (call w) _ (answers w) (restart-Result call answers fuel (call w).1)
