-- ===== src/Proc/Ptrace/Requests.antt =====
-- The requests whose number the callers of `trace` read.
use libcosmos.Prelude.{
  ℕ, ◌^◌, ◌<◌, ◌≡◌, refl, arith, true, false, ◌||◌, List, [], Option, none, some, ◌==◌, leb,
  Bool-cases, inl, inr,
}
use libcosmos.Outcome.{Exception, runtime_error, throw}
use libcosmos.Proc.Ptrace.{
  Answer, minus_one, is_peek, has_value, judged, trace, value_of, peek_sig_info, get_seccomp_filter,
  fetch_filter,
}

not_minus : (n : ℕ) → n < 2 ^ 63 → (n == minus_one) ≡ false
not_minus n h = ground (arith, h)

too_many : (n : ℕ) → (leb (2 ^ 63) n || leb n n) ≡ true
too_many n = ground arith

module _ {W : Type 0} where
  -- `peekSigInfo` never returns: where the request fails it throws an `ApiError`, and else it reads
  -- the number of records from an empty optional.
  pub peek_sig_info_lem :
      {A : Type 0} (ptrace : W → Answer × W) (records : W → List A) (errno : ℕ) (w : W)
      → (x : Exception) × ((peek_sig_info ptrace records errno w).0 ≡ throw x)
  unfolding peek_sig_info trace judged value_of has_value is_peek
  peek_sig_info_lem ptrace records errno w = elim (Bool-cases ((ptrace w).0.ret == minus_one)) [
    | inl f ↦ rw f (_, refl)
    | inr n ↦ rw n (_, refl)
  ]

  fetched :
      (ptrace : Option ℕ → W → Answer × W) (errno n : ℕ) (w v : W) (s : Option ℕ)
      → n < 2 ^ 63
      → ptrace (some n) w ≡ (record { ret = n; sets = s }, v)
      → fetch_filter ptrace errno n w
        ≡ (throw (runtime_error "seccomp filter array size inconsistency" []), v)
  unfolding fetch_filter trace judged value_of has_value is_peek
  fetched ptrace errno n w v s h e = rw (e, not_minus n h, too_many n) refl

  -- `getSeccompFilter` of an empty vector throws a `RuntimeError` where the system answers the same
  -- number of instructions for both requests, as it does for a filter that stays the same.
  pub get_seccomp_filter_lem :
      (ptrace : Option ℕ → W → Answer × W) (errno n : ℕ) (w v u : W) (r s : Option ℕ)
      → n < 2 ^ 63
      → ptrace none w ≡ (record { ret = n; sets = r }, v)
      → ptrace (some n) v ≡ (record { ret = n; sets = s }, u)
      → get_seccomp_filter ptrace errno 0 w
        ≡ (throw (runtime_error "seccomp filter array size inconsistency" []), u)
  unfolding get_seccomp_filter trace judged value_of has_value is_peek
  get_seccomp_filter_lem ptrace errno n w v u r s h first second =
      rw (first, not_minus n h) (fetched ptrace errno n v u s h second)
