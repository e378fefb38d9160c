-- ===== src/Proc/Ptrace/Tests.antt =====
-- Requests with fixed answers, and the theorems at them.
use libcosmos.Prelude.{ℕ, suc, ◌+◌, ◌*◌, ◌≡◌, refl, arith, [], ◌∷◌, Option, none, some}
use libcosmos.Outcome.{Exception, runtime_error, usage_error, api_error, ok, throw}
use libcosmos.Proc.Ptrace.{
  Answer, minus_one, peek_data, trace, peek_sig_info, get_syscall_info, get_seccomp_filter,
  decode_event,
}
use libcosmos.Proc.Ptrace.Requests.{peek_sig_info_lem, get_seccomp_filter_lem}
use libcosmos.Proc.Ptrace.Events.{decode_event_lem}

abbrev answers : ℕ → Option ℕ → ℕ → Answer × ℕ
answers n e w = (record { ret = n; sets = e }, suc w)

-- The value -1, and not an error, although `errno` held one.
peeked : trace peek_data (answers minus_one none) 5 0 ≡ (ok (some minus_one), 1)
unfolding trace
peeked = refl

peek_fails :
    trace peek_data (answers minus_one (some 14)) 0 0 ≡ (throw (api_error "ptrace()" 14), 1)
unfolding trace
peek_fails = refl

syscall_info_fits : get_syscall_info (answers 24 none) 88 0 0 ≡ (ok tt, 1)
unfolding get_syscall_info
syscall_info_fits = refl

not_a_stop : decode_event 5 ≡ throw (usage_error "this is not a ptrace-event-stop signal")
unfolding decode_event
not_a_stop = refl

no_records :
    (x : Exception) × ((peek_sig_info {A = ℕ} (answers 2 none) (λ w. 1 ∷ 2 ∷ []) 0 0).0 ≡ throw x)
no_records = peek_sig_info_lem (answers 2 none) (λ w. 1 ∷ 2 ∷ []) 0 0

filter_refused :
    get_seccomp_filter (λ size. answers 12 none) 0 0 0
    ≡ (throw (runtime_error "seccomp filter array size inconsistency" []), 2)
filter_refused =
    get_seccomp_filter_lem (λ size. answers 12 none) 0 12 0 1 2 none none (omega arith) refl refl

decoded : decode_event (5 + 3 * 256) ≡ ok (5, 3)
decoded = decode_event_lem 5 3 (omega arith) (omega arith)
