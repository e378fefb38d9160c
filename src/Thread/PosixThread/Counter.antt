-- ===== src/Thread/PosixThread/Counter.antt =====
-- The counter `num_threads` over the objects of a program.
use libcosmos.Prelude.{
  subst, ◌≤◌, ℕ, suc, ◌+◌, ◌-◌, ◌≡◌, refl, sym, ap, true, List, [], ◌∷◌, ◌++◌, Option, none, some,
  ◌==◌, if◌then◌else◌, arith, Bool-cases, inl, inr,
}
use libcosmos.Outcome.{
  Bytes, api_error, file_error, link_error, would_block, runtime_error, usage_error,
  forwarded_error, foreign, Outcome, ok, throw, spins,
}
use libcosmos.Outcome.Errno
use libcosmos.Thread.PosixThread.{
  Thread, Counted, empty_thread, joinable, create, reset, join, try_join, join_timed, detach, moved,
  move_assign, destroy,
}
use libcosmos.Thread.PosixThread.Joins.{Joined, joins-Joined}

-- The objects that exist, the counter, and how many creations failed.
pub record Program : Type 0 where
  pub objects : List Thread
  pub num_threads : ℕ
  pub failures : ℕ

abbrev pub failure : ℕ → ℕ
failure error = if error == Errno.no_error then 0 else 1

abbrev pub one : Thread → ℕ
one t = if joinable t then 1 else 0

abbrev pub joinables : List Thread → ℕ
joinables [] = 0
joinables (t ∷ ts) = one t + joinables ts

-- The result of one of the operations that release a thread.
pub data Releases (c : Counted) : Counted → Type 0 where
  by_join : (caller error value : ℕ) → Releases c (join caller error value c).1
  by_try_join : (caller error value : ℕ) → Releases c (try_join caller error value c).1
  by_join_timed : (caller error value : ℕ) → Releases c (join_timed caller error value c).1
  by_detach : (error : ℕ) → Releases c (detach error c).1

pub data Step : Program → Program → Type 0 where
  constructs_empty :
      {ts : List Thread} {n f : ℕ}
      → Step
          record { objects = ts; num_threads = n; failures = f }
          record { objects = empty_thread ∷ ts; num_threads = n; failures = f }
  creates :
      {ts : List Thread} {n f : ℕ} (name : Bytes) (handle error : ℕ) (c : Counted)
      → create name handle error n ≡ ok c
      → Step
          record { objects = ts; num_threads = n; failures = f }
          record {
            objects = c.thread ∷ ts;
            num_threads = c.num_threads;
            failures = failure error + f;
          }
  releases :
      {n f : ℕ} (ts us : List Thread) (t : Thread) (c : Counted)
      → Releases record { thread = t; num_threads = n } c
      → Step
          record { objects = ts ++ t ∷ us; num_threads = n; failures = f }
          record { objects = ts ++ c.thread ∷ us; num_threads = c.num_threads; failures = f }
  moves_down :
      {n f : ℕ} (ts us vs : List Thread) (t o t' o' : Thread)
      → move_assign t o ≡ moved t' o'
      → Step
          record { objects = ts ++ t ∷ (us ++ o ∷ vs); num_threads = n; failures = f }
          record { objects = ts ++ t' ∷ (us ++ o' ∷ vs); num_threads = n; failures = f }
  moves_up :
      {n f : ℕ} (ts us vs : List Thread) (t o t' o' : Thread)
      → move_assign t o ≡ moved t' o'
      → Step
          record { objects = ts ++ o ∷ (us ++ t ∷ vs); num_threads = n; failures = f }
          record { objects = ts ++ o' ∷ (us ++ t' ∷ vs); num_threads = n; failures = f }
  destroys :
      {n f : ℕ} (ts us : List Thread) (t : Thread)
      → destroy t ≡ true
      → Step
          record { objects = ts ++ t ∷ us; num_threads = n; failures = f }
          record { objects = ts ++ us; num_threads = n; failures = f }

pub data Reaches : Program → Program → Type 0 where
  here : {p : Program} → Reaches p p
  further : {p q r : Program} → Reaches p q → Step q r → Reaches p r

abbrev pub Counts : Program → Type 0
Counts p = p.num_threads ≡ joinables p.objects + p.failures

joinables-append : (ts us : List Thread) → joinables (ts ++ us) ≡ joinables ts + joinables us
joinables-append [] us = omega arith
joinables-append (t ∷ ts) us = omega (arith, joinables-append ts us)

abbrev Balanced : Counted → Counted → Type 0
Balanced c d = d.num_threads + one c.thread ≡ c.num_threads + one d.thread

same : {c d : Counted} → d ≡ c → Balanced c d
same {c = c} e = subst (Balanced c) (sym e) refl

released :
    (c : Counted)
    → joinable c.thread ≡ true
    → one c.thread ≤ c.num_threads
    → Balanced c record { thread = empty_thread; num_threads = c.num_threads - 1 }
released c j l = ground (arith, j)

Joined-Balanced :
    (caller error value : ℕ) (soft : Option ℕ) (c : Counted) (r : Outcome (Option ℕ) × Counted)
    → Joined caller error value soft c r
    → one c.thread ≤ c.num_threads
    → Balanced c r.1
Joined-Balanced caller error value soft c (ok (some v), d) (j, i, e, v', q) l =
    subst (Balanced c) (sym q) (released c j l)
Joined-Balanced caller error value soft c (ok none, d) h l = same h.1
Joined-Balanced caller error value soft c (throw (api_error call e), d) h l = same h.3
Joined-Balanced caller error value soft c (throw (file_error path call e), d) h l = same h.1
Joined-Balanced caller error value soft c (throw (link_error path call old e), d) h l = same h.1
Joined-Balanced caller error value soft c (throw (would_block m), d) h l = same h.1
Joined-Balanced caller error value soft c (throw (runtime_error m s), d) h l = same h.1
Joined-Balanced caller error value soft c (throw (usage_error m), d) h l = same h.1
Joined-Balanced caller error value soft c (throw (forwarded_error e m), d) h l = same h.1
Joined-Balanced caller error value soft c (throw foreign, d) h l = same h.1
Joined-Balanced caller error value soft c (spins, d) h l = elim h [ ]

detach-Balanced :
    (error : ℕ) (c : Counted) → one c.thread ≤ c.num_threads → Balanced c (detach error c).1
unfolding detach reset
detach-Balanced error c l = elim (Bool-cases (joinable c.thread)) [
  | inr n ↦ ground (arith, n)
  | inl j ↦ elim (Bool-cases (error == Errno.no_error)) [
    | inl e ↦ ground (arith, j, e)
    | inr e ↦ ground (arith, j, e)
  ]
]

releases-Balanced : (c d : Counted) → Releases c d → one c.thread ≤ c.num_threads → Balanced c d
releases-Balanced c d (by_join caller error value) l =
    Joined-Balanced caller error value none c (join caller error value c)
      (joins-Joined caller error value c).0 l
releases-Balanced c d (by_try_join caller error value) l =
    Joined-Balanced caller error value (some Errno.busy) c (try_join caller error value c)
      (joins-Joined caller error value c).1 l
releases-Balanced c d (by_join_timed caller error value) l =
    Joined-Balanced caller error value (some Errno.timed_out) c (join_timed caller error value c)
      (joins-Joined caller error value c).2 l
releases-Balanced c d (by_detach error) l = detach-Balanced error c l

moved_handles :
    (h k : Option ℕ) (a b : Bytes) (t' o' : Thread)
    → move_assign record { handle = h; name = a } record { handle = k; name = b } ≡ moved t' o'
    → one record { handle = h; name = a } + one record { handle = k; name = b } ≡ one t' + one o'
unfolding move_assign
moved_handles (some h) k a b t' o' e = ground (arith, e)
moved_handles none none a b t' o' e = ground (arith, e)
moved_handles none (some k) a b t' o' e =
    let p : record { handle = some k; name = b } ≡ t' = cc in
    let q : empty_thread ≡ o' = cc in omega (arith, ap one p, ap one q)

same_value : {c d : Counted} → ok c ≡ ok d → c ≡ d
same_value e = cc

create_lem :
    (name : Bytes) (handle error n : ℕ) (c : Counted)
    → create name handle error n ≡ ok c
    → (c.num_threads ≡ suc n) × (one c.thread + failure error ≡ 1)
unfolding create
create_lem name handle error n c h =
    subst (λ d. (d.num_threads ≡ suc n) × (one d.thread + failure error ≡ 1)) (same_value h)
      (refl, ground arith)

preserved : (p q : Program) → Step p q → Counts p → Counts q
unfolding destroy
preserved p q constructs_empty h = omega (arith, h)
preserved p q (creates name handle error c e) h =
    let (k, f) = create_lem name handle error p.num_threads c e in omega (arith, k, f, h)
preserved p q (releases ts us t c r) h =
    let a = joinables-append ts (t ∷ us) in
    omega (arith, joinables-append ts (c.thread ∷ us), releases-Balanced _ c r (omega arith))
preserved p q (moves_down ts us vs t o t' o' e) h = omega (
  arith,
  moved_handles t.handle o.handle t.name o.name t' o' e,
  joinables-append ts (t ∷ (us ++ o ∷ vs)),
  joinables-append us (o ∷ vs),
  joinables-append ts (t' ∷ (us ++ o' ∷ vs)),
  joinables-append us (o' ∷ vs),
)
preserved p q (moves_up ts us vs t o t' o' e) h = omega (
  arith,
  moved_handles t.handle o.handle t.name o.name t' o' e,
  joinables-append ts (o ∷ (us ++ t ∷ vs)),
  joinables-append us (t ∷ vs),
  joinables-append ts (o' ∷ (us ++ t' ∷ vs)),
  joinables-append us (t' ∷ vs),
)
preserved p q (destroys ts us t d) h =
    ground (arith, d, joinables-append ts (t ∷ us), joinables-append ts us)

abbrev pub started : Program
started = record { objects = []; num_threads = 0; failures = 0 }

-- Whatever thread objects a program constructs, joins, detaches, moves and destroys, in any order and
-- with any answers of the pthread functions: the counter of threads is the number of joinable objects
-- and of the creations that failed.
pub counter_lem : (p : Program) → Reaches started p → Counts p
counter_lem p here = omega arith
counter_lem p (further {q = q} r s) = preserved q p s (counter_lem q r)
