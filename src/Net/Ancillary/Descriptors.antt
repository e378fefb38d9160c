-- ===== src/Net/Ancillary/Descriptors.antt =====
-- Received descriptors are closed or handed out, and never both.
use libcosmos.Prelude.{
  ℕ, ◌+◌, ◌≡◌, ◌≢◌, inl, inr, refl, sym, ◌∙◌, ap, arith, false, List, [], ◌∷◌, ◌++◌, ◌==◌, ==_iff,
  Bool-cases, if◌then◌else◌,
}
use libcosmos.Outcome.{Outcome, ok, throw, spins, Reply, done}
use libcosmos.Net.Ancillary.{
  ControlMessage, Rights, close_all, close_unclaimed, clear_fds, take_fds, invalid_fd, none_left,
  add_fd, read_fds, data_length, received, then_read, deserialize, if_checked, check_msg,
}

-- How often a descriptor stands in a list.
abbrev pub occurrences : ℕ → List ℕ → ℕ
occurrences x [] = 0
occurrences x (y ∷ ys) = (if x == y then 1 else 0) + occurrences x ys

occurrences-append :
    (x : ℕ) (xs ys : List ℕ) → occurrences x (xs ++ ys) ≡ occurrences x xs + occurrences x ys
occurrences-append x [] ys = omega arith
occurrences-append x (y ∷ xs) ys = omega (arith, occurrences-append x xs ys)

-- The descriptors that a message still has to close or hand out.
abbrev pub held : Rights → List ℕ
held m = if m.unclaimed then m.fds else []

-- The descriptors in a message.
abbrev pub sent : ControlMessage → List ℕ
sent msg = read_fds (data_length msg) (data_length msg) msg.payload

module _ {W : Type 0} (sys_close : ℕ → W → Reply (Unit {0}) × W) (log : W → List ℕ)
    (logs : (fd : ℕ) (w : W)
      → (v : W) × (sys_close fd w ≡ (done tt, v)) × (log v ≡ fd ∷ log w)) where
  -- The states of a message that receives descriptors, hands them out, drops them and is given
  -- others to send, with the descriptors handed out and the descriptors received so far.
  pub data Reached : Rights → W → List ℕ → List ℕ → Type 0 where
    fresh : {w : W} → log w ≡ [] → Reached none_left w [] []
    receives :
        {m m' : Rights} {w v : W} {taken got : List ℕ} (msg : ControlMessage)
        → Reached m w taken got
        → deserialize sys_close m msg w ≡ ((ok tt, m'), v)
        → Reached m' v taken (sent msg ++ got)
    takes :
        {m : Rights} {w : W} {taken got : List ℕ}
        → Reached m w taken got
        → Reached (take_fds m).1 w ((take_fds m).0 ++ taken) got
    clears :
        {m m' : Rights} {w v : W} {taken got : List ℕ}
        → Reached m w taken got
        → clear_fds sys_close m w ≡ ((ok tt, m'), v)
        → Reached m' v taken got
    adds :
        {m : Rights} {w : W} {taken got : List ℕ} (fd : ℕ)
        → Reached m w taken got
        → m.unclaimed ≡ false
        → Reached (add_fd m fd) w taken got

  close_all_lem :
      (x : ℕ) (fds : List ℕ) (w : W)
      → x ≢ invalid_fd
      → (v : W) × (close_all sys_close fds w ≡ (ok tt, v))
        × (occurrences x (log v) ≡ occurrences x fds + occurrences x (log w))
  unfolding close_all
  close_all_lem x [] w n = (w, refl, omega arith)
  close_all_lem x (fd ∷ fds) w n = elim (Bool-cases (fd == invalid_fd)) [
    | inl i ↦
        let (v, e, o) = close_all_lem x fds w n in
        let no : (x == fd) ≡ false = ground (arith, n, (==_iff fd invalid_fd).0 i) in
        (v, rw i e, rw no (omega (arith, o)))
    | inr open_fd ↦
        let (u, c, l) = logs fd w in
        let (v, e, o) = close_all_lem x fds u n in
        (v, rw (open_fd, c) e, omega (arith, o, ap (occurrences x) l))
  ]

  -- Behind a clear there is nothing left, and what was held is closed.
  clear_lem :
      (x : ℕ) (m : Rights) (w : W)
      → x ≢ invalid_fd
      → (v : W) × (clear_fds sys_close m w ≡ ((ok tt, none_left), v))
        × (occurrences x (log v) ≡ occurrences x (held m) + occurrences x (log w))
  unfolding clear_fds close_unclaimed
  clear_lem x m w n = elim (Bool-cases m.unclaimed) [
    | inl u ↦ let (v, e, o) = close_all_lem x m.fds w n in (v, rw (u, e) refl, rw u o)
    | inr u ↦ (w, rw u refl, rw u (omega arith))
  ]

  -- The descriptor `x` was received as often as it was closed, handed out or is held.
  abbrev pub Accounted : ℕ → Rights → W → List ℕ → List ℕ → Type 0
  Accounted x m w taken got =
      occurrences x got ≡ occurrences x (log w) + (occurrences x taken + occurrences x (held m))

  if_passed :
      (c : Outcome (Unit {0})) (m m' : Rights) (w v : W) (r : (Outcome (Unit {0}) × Rights) × W)
      → if_checked sys_close c m w r ≡ ((ok tt, m'), v)
      → r ≡ ((ok tt, m'), v)
  if_passed (ok _) m m' w v r h = h
  if_passed (throw x) m m' w v r h = ground (arith, ap (λ s. s.0.0) h)
  if_passed spins m m' w v r h = ground (arith, ap (λ s. s.0.0) h)

  passed_check :
      (m m' : Rights) (msg : ControlMessage) (w v : W)
      → deserialize sys_close m msg w ≡ ((ok tt, m'), v)
      → then_read sys_close (sent msg) (clear_fds sys_close m w) ≡ ((ok tt, m'), v)
  unfolding deserialize
  passed_check m m' msg w v h = if_passed (check_msg 1 msg 1) m m' w v _ h

  held-received : (new : List ℕ) → held (received sys_close new none_left) ≡ new
  unfolding received
  held-received [] = refl
  held-received (fd ∷ fds) = refl

  takes_held :
      (x : ℕ) (m : Rights) (taken : List ℕ)
      → occurrences x ((take_fds m).0 ++ taken) + occurrences x (held (take_fds m).1)
        ≡ occurrences x taken + occurrences x (held m)
  unfolding take_fds
  takes_held x m taken = elim (Bool-cases m.unclaimed) [
    | inl u ↦ rw u (omega (arith, occurrences-append x m.fds taken))
    | inr u ↦ rw u refl
  ]

  adds_held : (m : Rights) (fd : ℕ) → m.unclaimed ≡ false → held (add_fd m fd) ≡ held m
  unfolding add_fd
  adds_held m fd u = rw u refl

  -- In every state that a message of descriptors reaches, a valid descriptor was received exactly as
  -- often as it was closed, was handed out, or is still held. This holds where every close(2) succeeds, and
  -- where descriptors to send are added only to a message that holds no received ones.
  pub accounted_lem :
      {m : Rights} {w : W} {taken got : List ℕ} (x : ℕ)
      → x ≢ invalid_fd
      → Reached m w taken got
      → Accounted x m w taken got
  accounted_lem x n (fresh e) = rw e refl
  accounted_lem x n (receives {m} {m'} {w} {v} {taken} {got} msg r e) =
      let new = sent msg in
      let (v', c, o) = clear_lem x m w n in
      let q : ◌≡◌ {A = (Outcome (Unit {0}) × Rights) × W}
          ((ok tt, received sys_close new none_left), v') ((ok tt, m'), v) =
        sym (ap (then_read sys_close new) c) ∙ passed_check m m' msg w v e in
      omega (
        arith,
        accounted_lem x n r,
        o,
        occurrences-append x new got,
        ap (λ r. occurrences x (log r.1)) q,
        ap (λ r. occurrences x (held r.0.1)) q,
        ap (occurrences x) (held-received new),
      )
  accounted_lem x n (takes {m} {w} {taken} {got} r) =
      omega (arith, accounted_lem x n r, takes_held x m taken)
  accounted_lem x n (clears {m} {m'} {w} {v} {taken} {got} r e) =
      let (v', c, o) = clear_lem x m w n in
      let q : ◌≡◌ {A = (Outcome (Unit {0}) × Rights) × W} ((ok tt, none_left), v')
          ((ok tt, m'), v) =
        sym c ∙ e in
      omega (
        arith,
        accounted_lem x n r,
        o,
        ap (λ r. occurrences x (log r.1)) q,
        ap (λ r. occurrences x (held r.0.1)) q,
      )
  accounted_lem x n (adds {m} {w} {taken} {got} fd r u) =
      omega (arith, accounted_lem x n r, ap (occurrences x) (adds_held m fd u))
