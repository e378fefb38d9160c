-- ===== src/Proc/SigInfo/Reports.antt =====
-- Which reports of a `SigInfo` have data, and which.
use libcosmos.Prelude.{
  ℕ, ◌-◌, ◌^◌, ◌<◌, ◌≡◌, ◌≢◌, ◌⊎◌, inl, inr, refl, ◌∙◌, sym, subst, ◌%◌, arith, true, ◌||◌, [], ◌∷◌,
  Option, none, some, ◌==◌, ==_iff, ltb, if◌then◌else◌, Bool-cases,
}
use libcosmos.Proc.ChildState.{ProcessCtx}
use libcosmos.Proc.SigInfo.{
  Details, SysData, PollData, FaultData, SegfaultData, BusData, TimerData, poll_data, proc_ctx,
  source, user_sig_data, queue_sig_data, msg_queue_data, timer_data, sys_data, ill_data, fpe_data,
  segfault_data, bus_data, is_trusted_source, in_list, special_sigs, kernel,
}

-- A report has these data where a condition holds, and none where it does not.
abbrev pub Tells : {A : Type 0} → Option A → A → Type 0 → Type 0
Tells o a P = ((o ≡ some a) × P) ⊎ ((o ≡ none) × (P → ⊥))

-- SIGILL, SIGTRAP, SIGBUS, SIGFPE, SIGSEGV, SIGCHLD, SIGPOLL and SIGSYS: the signals for which
-- sigaction(2) lists codes of the kernel.
abbrev pub Special : ℕ → Type 0
Special s = (s ≡ 4) ⊎ (s ≡ 5) ⊎ (s ≡ 7) ⊎ (s ≡ 8) ⊎ (s ≡ 11) ⊎ (s ≡ 17) ⊎ (s ≡ 29) ⊎ (s ≡ 31)

pub tells : {A : Type 0} (x c : ℕ) (a : A) → Tells (if x == c then some a else none) a (x ≡ c)
tells x c a = elim (Bool-cases (x == c)) [
  | inl h ↦ rw h (inl (refl, (==_iff x c).0 h))
  | inr h ↦ rw h (inr (refl, λ e. ground (arith, h, e)))
]

Special-iff : (s : ℕ) → in_list s special_sigs ≡ true → Special s
unfolding in_list
Special-iff s h = ground arith

Special-back : (s : ℕ) → Special s → in_list s special_sigs ≡ true
unfolding in_list
Special-back s h = ground arith

tells_as :
    {A : Type 0} {P Q : Type 0} (o : Option A) (a : A)
    → (P → Q)
    → (Q → P)
    → Tells o a P
    → Tells o a Q
tells_as o a f g (inl (e, p)) = inl (e, f p)
tells_as o a f g (inr (e, n)) = inr (e, λ q. n (g q))

-- A signal that only the kernel sends with a code that is not negative.
abbrev pub FromKernel : ℕ → ℕ → Type 0
FromKernel signo code = Special signo × (code < 2 ^ 31)

module _ (si : Details) where
  -- The code is this one, and not from the kernel.
  abbrev pub Sent : ℕ → Type 0
  Sent c = (si.basic.si_code ≡ c) × (FromKernel si.basic.si_signo si.basic.si_code → ⊥)

  abbrev pub sender : ProcessCtx
  sender = record { pid = si.basic.si_pid; uid = si.basic.si_uid }

  abbrev pub fault_of : FaultData
  fault_of = record { addr = si.si_addr; reason = si.basic.si_code }

  abbrev pub system_call : SysData
  system_call = record {
    reason = si.basic.si_code;
    call_addr = si.si_call_addr;
    call_nr = si.si_syscall;
    arch = si.si_arch;
    error = si.basic.si_errno;
  }

  abbrev pub timer_of : TimerData
  timer_of = record { id = si.si_timerid; overrun = si.si_overrun }

  abbrev pub poll_of : PollData
  poll_of = record { reason = si.basic.si_code; fd = si.si_fd; events = si.si_band % 2 ^ 16 }

  -- `SEGV_BNDERR` is 3 and `SEGV_PKUERR` 4.
  abbrev pub segfault_of : SegfaultData
  segfault_of = record {
    fault = fault_of;
    bound = if si.basic.si_code == 3 then some (si.si_lower, si.si_upper) else none;
    key = if si.basic.si_code == 4 then some si.si_pkey else none;
  }

  -- `BUS_MCEERR_AR` is 4 and `BUS_MCEERR_AO` 5.
  abbrev pub bus_of : BusData
  bus_of = record {
    fault = fault_of;
    addr_lsb = if si.basic.si_code == 4 || si.basic.si_code == 5 then some si.si_addr_lsb else none;
  }

  trusted : FromKernel si.basic.si_signo si.basic.si_code → source si ≡ kernel
  unfolding source is_trusted_source
  trusted k = rw (small k.1, Special-back si.basic.si_signo k.0) refl
    where
      small : si.basic.si_code < 2 ^ 31 → ltb si.basic.si_code (2 ^ 31) ≡ true
      small h = ground (arith, h)

  not_trusted : (FromKernel si.basic.si_signo si.basic.si_code → ⊥) → source si ≡ si.basic.si_code
  unfolding source is_trusted_source
  not_trusted n = elim (Bool-cases (ltb si.basic.si_code (2 ^ 31))) [
    | inl t ↦ elim (Bool-cases (in_list si.basic.si_signo special_sigs)) [
      | inl s ↦ absurd (n (Special-iff si.basic.si_signo s, ground (arith, t)))
      | inr s ↦ rw (t, s) refl
    ]
    | inr t ↦ rw t refl
  ]

  decided :
      FromKernel si.basic.si_signo si.basic.si_code
      ⊎ (FromKernel si.basic.si_signo si.basic.si_code → ⊥)
  decided = ground arith

  -- The source is a number other than the kernel's exactly if the code is, and not the kernel's.
  pub source_to :
      (c : ℕ)
      → c ≢ kernel
      → source si ≡ c
      → (si.basic.si_code ≡ c) × (FromKernel si.basic.si_signo si.basic.si_code → ⊥)
  source_to c n e =
      let other : FromKernel si.basic.si_signo si.basic.si_code → ⊥ = λ k. n (sym e ∙ trusted k) in
      (sym (not_trusted other) ∙ e, other)

  pub source_from :
      (c : ℕ)
      → (si.basic.si_code ≡ c) × (FromKernel si.basic.si_signo si.basic.si_code → ⊥)
      → source si ≡ c
  source_from c (e, n) = not_trusted n ∙ e

  -- A report on a sender, by its code.
  pub sender_lem :
      {A : Type 0} (c : ℕ) (a : A)
      → c ≢ kernel
      → Tells (if source si == c then some a else none) a (Sent c)
  sender_lem c a n = tells_as _ a (source_to c n) (source_from c) (tells (source si) c a)

bus_reason :
    (r : ℕ) (n : ℕ)
    → (if in_list r (4 ∷ 5 ∷ []) then some n else none)
      ≡ (if r == 4 || r == 5 then some n else none)
unfolding in_list
bus_reason r n = ground arith

pub either :
    {A : Type 0} (s : ℕ) (a : A) → Tells (if s == 29 || s == 29 then some a else none) a (s ≡ 29)
either s a = elim (Bool-cases (s == 29)) [
  | inl h ↦ rw h (inl (refl, (==_iff s 29).0 h))
  | inr h ↦ rw h (inr (refl, λ e. ground (arith, h, e)))
]

-- The reports on the sender have their data exactly for the codes of sigaction(2): `SI_USER` (0),
-- `SI_QUEUE` (-1), `SI_MESGQ` (-3) and `SI_TIMER` (-2), and `SI_USER` only for signals that the
-- kernel does not send with codes of its own.
-- The other reports have theirs exactly for their signal: SIGSYS, SIGPOLL, SIGILL, SIGFPE, SIGSEGV
-- with the bounds for `SEGV_BNDERR` and the key for `SEGV_PKUERR`, and SIGBUS with the bits for the
-- two machine checks.
pub reports_lem :
    (si : Details)
    → Tells (user_sig_data si) (sender si) (Sent si 0)
      × Tells (queue_sig_data si) (sender si, si.si_value) (Sent si (2 ^ 32 - 1))
      × Tells (msg_queue_data si) (sender si, si.si_value) (Sent si (2 ^ 32 - 3))
      × Tells (timer_data si) (timer_of si) (Sent si (2 ^ 32 - 2))
      × Tells (sys_data si) (system_call si) (si.basic.si_signo ≡ 31)
      × Tells (poll_data si) (poll_of si) (si.basic.si_signo ≡ 29)
      × Tells (ill_data si) (fault_of si) (si.basic.si_signo ≡ 4)
      × Tells (fpe_data si) (fault_of si) (si.basic.si_signo ≡ 8)
      × Tells (segfault_data si) (segfault_of si) (si.basic.si_signo ≡ 11)
      × Tells (bus_data si) (bus_of si) (si.basic.si_signo ≡ 7)
unfolding user_sig_data queue_sig_data msg_queue_data timer_data sys_data poll_data ill_data
    fpe_data segfault_data bus_data proc_ctx
reports_lem si = (
  sender_lem si 0 (sender si) (omega arith),
  sender_lem si (2 ^ 32 - 1) (sender si, si.si_value) (omega arith),
  sender_lem si (2 ^ 32 - 3) (sender si, si.si_value) (omega arith),
  sender_lem si (2 ^ 32 - 2) _ (omega arith),
  tells si.basic.si_signo 31 _,
  either si.basic.si_signo _,
  tells si.basic.si_signo 4 _,
  tells si.basic.si_signo 8 _,
  tells si.basic.si_signo 11 _,
  subst
      (λ l.
        Tells (if si.basic.si_signo == 7 then some (with_bits l) else none) (bus_of si)
          (si.basic.si_signo ≡ 7))
      (sym (bus_reason si.basic.si_code si.si_addr_lsb)) (tells si.basic.si_signo 7 (bus_of si)),
)
  where
    with_bits : Option ℕ → BusData
    with_bits l = record { fault = fault_of si; addr_lsb = l }
