-- ===== src/Proc/SigAction/Kept.antt =====
-- An action that was set, asked for again and carried out.
use libcosmos.Prelude.{
  ℕ, ◌≡◌, ◌≢◌, refl, sym, ap, subst, arith, true, false, ◌||◌, ◌==◌, ==_iff, Option, none, some,
  Bool-cases, inl, inr, if◌then◌else◌,
}
use libcosmos.Outcome.{ok, Reply, done}
use libcosmos.Proc.SigAction.{
  Entry, sig_dfl, sig_ign, simple_handler, info_handler, custom, Raw, Handler, simple, info,
  SigAction, Tables, default_handler, ignore, unknown, entry_for, set_simple_handler,
  set_info_handler, handler_from, update_from_old, stored, written, acted, set_action, gotten,
  get_action, Run, with_signal, with_info, nothing, deliver_simple, deliver_info,
}

-- The actions that the two forms of `setHandler` make.
pub data Made : SigAction → Type 0 where
  simply : (h : ℕ) (a : SigAction) → h ≢ unknown → Made (set_simple_handler h a).1
  with_data : (h : ℕ) (a : SigAction) → Made (set_info_handler h a)

same_signal : (n h : ℕ) (t : ℕ → ℕ) → stored n h t n ≡ h
same_signal n h t = rw (refl_test n) refl
  where
    refl_test : (n : ℕ) → (n == n) ≡ true
    refl_test n = ground arith

-- The entry point that the system calls for an action runs its callback.
abbrev pub runs : Tables → ℕ → SigAction → Run
runs t sig a = by a.raw.entry
  where
    by : Entry → Run
    by sig_dfl = nothing
    by sig_ign = nothing
    by simple_handler = deliver_simple t sig
    by info_handler = deliver_info t sig
    by (custom f) = nothing

-- The callback of an action, where it has one.
abbrev pub callback : Handler → Run
callback (simple h) = if h == ignore || h == default_handler then nothing else with_signal h
callback (info h) = if h == 0 then nothing else with_info h

-- What a simple callback becomes, by the kinds of its number.
module _ (sig h : ℕ) (a : SigAction) (t : Tables) (n : h ≢ unknown) where
  not_unknown : (h == unknown) ≡ false
  not_unknown = ground (arith, n)

  simple_kept :
      handler_from
        (record { entry = entry_for h; siginfo = false; flags = a.raw.flags; mask = a.raw.mask })
        ((written sig (simple h) t).info_handlers sig)
        ((written sig (simple h) t).simple_handlers sig)
      ≡ simple h
  unfolding handler_from written entry_for
  simple_kept = elim (Bool-cases (h == ignore)) [
    | inl i ↦ rw i (ap simple (sym ((==_iff h ignore).0 i)))
    | inr ni ↦ elim (Bool-cases (h == default_handler)) [
      | inl d ↦ rw (ni, d) (ap simple (sym ((==_iff h default_handler).0 d)))
      | inr nd ↦ rw (ni, nd, not_unknown, same_signal sig h t.simple_handlers) refl
    ]
  ]

  simple_runs :
      runs (written sig (simple h) t) sig (record {
        raw = record {
          entry = entry_for h;
          siginfo = false;
          flags = a.raw.flags;
          mask = a.raw.mask;
        };
        handler = simple h;
      })
      ≡ callback (simple h)
  unfolding written entry_for deliver_simple
  simple_runs = elim (Bool-cases (h == ignore)) [
    | inl i ↦ rw i refl
    | inr ni ↦ elim (Bool-cases (h == default_handler)) [
      | inl d ↦ rw (ni, d) refl
      | inr nd ↦ rw (ni, nd, not_unknown, same_signal sig h t.simple_handlers, nd) refl
    ]
  ]

  simple_made : (set_simple_handler h a).1 ≡ record {
    raw = record { entry = entry_for h; siginfo = false; flags = a.raw.flags; mask = a.raw.mask };
    handler = simple h;
  }
  unfolding set_simple_handler
  simple_made = rw not_unknown refl

Kept : ℕ → SigAction → Tables → Type 0
Kept sig a t =
    (handler_from a.raw ((written sig a.handler t).info_handlers sig)
        ((written sig a.handler t).simple_handlers sig)
      ≡ a.handler)
    × (runs (written sig a.handler t) sig a ≡ callback a.handler)

made-Kept : (sig : ℕ) (a : SigAction) (t : Tables) → Made a → Kept sig a t
unfolding Kept handler_from written set_info_handler deliver_info
made-Kept sig _ t (simply h a n) =
    subst (λ b. Kept sig b t) (sym (simple_made sig h a t n))
      (simple_kept sig h a t n, simple_runs sig h a t n)
made-Kept sig _ t (with_data h a) = rw (same_signal sig h t.info_handlers) (refl, refl)

module _ {W : Type 0} (sigaction : ℕ → Option Raw → W → Reply Raw × W) where
  -- An action made by `setHandler` and set without an error is what `get_action` gives back, with its
  -- callback, and what the system then calls for the signal runs this callback: none for the special
  -- ones. This holds where sigaction(2) answers the raw action that was set last.
  pub get_action-set_action :
      (sig : ℕ) (a : SigAction) (t : Tables) (old : Raw) (w v : W)
      → Made a
      → sigaction sig (some a.raw) w ≡ (done old, v)
      → sigaction sig none v ≡ (done a.raw, v)
      → ((set_action sigaction sig a t w).2 ≡ v)
        × (get_action sigaction sig (set_action sigaction sig a t w).1 v ≡ (ok a, v))
        × (runs (set_action sigaction sig a t w).1 sig a ≡ callback a.handler)
  unfolding set_action acted get_action gotten update_from_old Kept
  get_action-set_action sig a t old w v made set again =
      let kept = made-Kept sig a t made in
      rw (set, again) (refl, ap (λ h. (ok (record { raw = a.raw; handler = h }), v)) kept.0, kept.1)
