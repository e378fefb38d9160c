-- ===== src/Runtime/InfoBase/Lookup.antt =====
-- How a lookup in the user database ends.
use libcosmos.Prelude.{
  ℕ, zero, suc, ◌*◌, ◌^◌, ◌≤◌, ◌<◌, ◌≡◌, ◌≢◌, inl, inr, refl, Option, none, ◌==◌, ltb,
  if◌then◌else◌, Bool, true, false, Bool-cases, arith, [], sym, subst, ==_iff,
}
use libcosmos.Outcome.{runtime_error, Outcome, ok, throw, spins}
use libcosmos.Outcome.Errno
use libcosmos.BitMask.Digits.{power_pos}
use libcosmos.Runtime.InfoBase.{get_info, rounds, switched, limited, buf_max_size, buf_init_size}

size_bound : (size k : ℕ) → size * 2 ^ k ≡ 32768 → size ≤ 32768
size_bound size k e = grind (arith, e, power_pos k)

limit_reached : (size : ℕ) → size * 2 ^ 0 ≡ 32768 → ltb buf_max_size (size * 2) ≡ true
limit_reached size e = ground (arith, e)

below_limit : (size k : ℕ) → size * 2 ^ suc k ≡ 32768 → ltb buf_max_size (size * 2) ≡ false
below_limit size k e = ground (arith, size_bound (size * 2) k (grind (arith, e)))

doubled : (size k j : ℕ) → size * 2 ^ k ≡ 32768 → k ≡ suc j → size * 2 * 2 ^ j ≡ 32768
doubled size k j e q = grind (arith, subst (λ i. size * 2 ^ i ≡ 32768) q e)

differs : (a b : ℕ) → a ≢ b → (a == b) ≡ false
differs a b n = elim (Bool-cases (a == b)) [ inl h ↦ absurd (n ((==_iff a b).0 h)) | inr h ↦ h ]

within_limit : (size : ℕ) → size ≤ buf_max_size → ltb buf_max_size size ≡ false
within_limit size l = ground (arith, l)

module _ {W A : Type 0} (get_func : ℕ → W → (ℕ × Option A) × W) where
  -- The database wants a buffer of `need` bytes for its answer `o`.
  abbrev pub Needs : ℕ → Option A → Type 0
  Needs need o =
      (n : ℕ) (w : W)
      → (get_func n w).0 ≡ (if ltb n need then (Errno.range, none) else (Errno.no_error, o))

  abbrev pub Settled : ℕ → Option A → Outcome (Option A) × W → Type 0
  Settled need o r =
      (need ≤ 32768 → r.0 ≡ ok o)
      × (32768 < need → r.0 ≡ throw (runtime_error "buffer size limit reached" []))

  answered :
      (need size k : ℕ) (o : Option A) (w : W) (again : ℕ → W → Outcome (Option A) × W)
      → size * 2 ^ k ≡ 32768
      → ((j : ℕ) (v : W) → k ≡ suc j → Settled need o (again (size * 2) v))
      → (b : Bool) → ltb size need ≡ b
      → Settled need o (
          switched get_func size again
            ((if b then (Errno.range, none) else (Errno.no_error, o)), w))
  unfolding switched limited
  answered need size k o w again e ih false h =
      (λ _. refl, λ big. ground (arith, h, big, size_bound size k e))
  answered need size zero o w again e ih true h =
      rw (limit_reached size e) ((λ small. ground (arith, h, small, e)), (λ _. refl))
  answered need size (suc k) o w again e ih true h = rw (below_limit size k e) (ih k w refl)

  settle :
      (k fuel size need : ℕ) (o : Option A) (w : W)
      → Needs need o
      → size * 2 ^ k ≡ 32768
      → k < fuel
      → Settled need o (rounds get_func fuel size w)
  unfolding rounds
  settle k zero size need o w laws e l = absurd (omega arith)
  settle k (suc fuel) size need o w laws e l =
      subst
        (λ r.
          Settled need o (switched get_func size (rounds get_func fuel) (r, (get_func size w).1)))
        (sym (laws size w))
        (answered need size k o _ (rounds get_func fuel) e
          (λ j v q.
            settle j fuel (size * 2) need o v laws (doubled size k j e q) (omega (arith, q, l)))
          (ltb size need) refl)

  -- A lookup for which the database needs a buffer of at most 32768 bytes returns the entry that the
  -- database has, and nothing if it has none; one that needs more throws a `RuntimeError`. Seven
  -- rounds are enough for both.
  pub get_info-Settled :
      (fuel need : ℕ) (o : Option A) (w : W)
      → Needs need o
      → 6 < fuel
      → Settled need o (get_info get_func fuel w)
  unfolding get_info
  get_info-Settled fuel need o w laws l = settle 6 fuel 512 need o w laws refl l

  -- The world behind so many calls with a buffer of this size.
  abbrev pub asked : ℕ → ℕ → W → W
  asked zero size w = w
  asked (suc n) size w = asked n size (get_func size w).1

  stuck :
      (fuel size : ℕ) (w : W)
      → ((n : ℕ) (w : W)
          → ((get_func n w).0.0 ≢ Errno.no_error) × ((get_func n w).0.0 ≢ Errno.range))
      → size ≤ buf_max_size
      → rounds get_func fuel size w ≡ (spins, asked fuel size w)
  unfolding rounds switched limited
  stuck zero size w h l = refl
  stuck (suc fuel) size w h l =
      rw (differs _ _ (h size w).0, differs _ _ (h size w).1, within_limit size l)
        (stuck fuel size (get_func size w).1 h l)

  -- An error of the database other than that the buffer is too small is never reported: while it
  -- lasts, the lookup makes in each of its rounds, however many it is given, one call with the buffer
  -- of the initial size, and does not end.
  pub get_info_stuck :
      (fuel : ℕ) (w : W)
      → ((n : ℕ) (w : W)
          → ((get_func n w).0.0 ≢ Errno.no_error) × ((get_func n w).0.0 ≢ Errno.range))
      → get_info get_func fuel w ≡ (spins, asked fuel buf_init_size w)
  unfolding get_info
  get_info_stuck fuel w h = stuck fuel 512 w h (omega arith)
