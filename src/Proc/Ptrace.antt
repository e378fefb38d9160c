-- ===== src/Proc/Ptrace.antt =====
-- src/proc/ptrace.cxx, and the functions of src/proc/Tracee.cxx that use what a request answers.
-- ptrace(2) is a parameter, for each request with the arguments that it takes. A `long` is its bit
-- pattern of 64 bits.
pub mod Requests
pub mod Events
mod Tests
use libcosmos.Prelude.{
  ℕ, ◌-◌, ◌/◌, ◌%◌, ◌^◌, Bool, true, false, ◌&&◌, ◌||◌, List, [], ◌∷◌, Option, none, some, ◌==◌,
  ltb, leb, length, take, is_empty, if◌then◌else◌,
}
use libcosmos.Outcome.{
  api_error, usage_error, runtime_error, foreign, Outcome, ok, throw, Comp, next, ◌>>=◌,
}

abbrev pub peek_text : ℕ
peek_text = 1

abbrev pub peek_data : ℕ
peek_data = 2

abbrev pub peek_user : ℕ
peek_user = 3

abbrev pub peek_sig_info_request : ℕ
peek_sig_info_request = 0x4209

abbrev pub seccomp_get_filter : ℕ
seccomp_get_filter = 0x420c

abbrev pub get_syscall_info_request : ℕ
get_syscall_info_request = 0x420e

-- What ptrace(2) returns, and `errno` if it sets it.
pub record Answer : Type 0 where
  pub ret : ℕ
  pub sets : Option ℕ

abbrev pub minus_one : ℕ
minus_one = 2 ^ 64 - 1

unfoldable pub is_peek : ℕ → Bool
is_peek req = req == peek_data || req == peek_text || req == peek_user

-- The requests whose result is passed on.
unfoldable pub has_value : ℕ → Bool
unfolding is_peek
has_value req = is_peek req || req == seccomp_get_filter || req == get_syscall_info_request

-- `errno` behind the call: a peek has reset it before.
unfoldable pub errno_behind : Bool → ℕ → Option ℕ → ℕ
errno_behind peek errno (some e) = e
errno_behind peek errno none = if peek then 0 else errno

module _ {W : Type 0} where
  -- What `trace` makes of the answer.
  unfoldable pub judged : ℕ → ℕ → Answer × W → Outcome (Option ℕ) × W
  unfolding is_peek has_value errno_behind
  judged req errno (a, w) =
      if a.ret == minus_one
      then if is_peek req && errno_behind (is_peek req) errno a.sets == 0
        then (ok (some a.ret), w)
        else (throw (api_error "ptrace()" (errno_behind (is_peek req) errno a.sets)), w)
      else if has_value req
      then (ok (some a.ret), w)
      else (ok none, w)

  -- `errno` is its value before the call.
  unfoldable pub trace : ℕ → (W → Answer × W) → ℕ → Comp W (Option ℕ)
  unfolding judged
  trace req ptrace errno w = judged req errno (ptrace w)

  -- Reading an empty optional has no meaning, and stands here as a foreign exception.
  unfoldable pub value_of : Option ℕ → Comp W ℕ
  value_of none w = (throw foreign, w)
  value_of (some n) w = (ok n, w)

  -- `peekSigInfo`: the call writes the records, which are those that `records` reads.
  unfoldable pub peek_sig_info :
      {A : Type 0} → (W → Answer × W) → (W → List A) → ℕ → Comp W (List A)
  unfolding trace value_of
  peek_sig_info ptrace records errno w =
      (trace peek_sig_info_request ptrace errno >>= λ num_entries.
      value_of num_entries >>= λ n. λ v. (ok (take n (records v)), v))
        w

  -- `getSyscallInfo`; the record is of `info_size` bytes.
  unfoldable pub get_syscall_info : (W → Answer × W) → ℕ → ℕ → Comp W (Unit {0})
  unfolding trace value_of
  get_syscall_info ptrace info_size errno w =
      (trace get_syscall_info_request ptrace errno >>= λ obtained. value_of obtained >>= λ n. λ v.
          if leb (2 ^ 63) n || ltb info_size n
          then (throw (runtime_error "excess SYSCALL_INFO data, truncation occurred!" []), v)
          else (ok tt, v))
        w

  -- The second request of `getSeccompFilter`, for a vector of this many instructions.
  unfoldable pub fetch_filter : (Option ℕ → W → Answer × W) → ℕ → ℕ → Comp W ℕ
  unfolding trace value_of
  fetch_filter ptrace errno size w =
      (trace seccomp_get_filter (ptrace (some size)) errno >>= λ num_progs.
      value_of num_progs >>= λ n. λ v.
        if leb (2 ^ 63) n || leb size n
        then (throw (runtime_error "seccomp filter array size inconsistency" []), v)
        else (ok size, v))
        w

  -- `getSeccompFilter` of a vector with so many instructions; the answer is their number then. A
  -- request without a buffer asks for the number alone.
  unfoldable pub get_seccomp_filter : (Option ℕ → W → Answer × W) → ℕ → ℕ → Comp W ℕ
  unfolding trace value_of fetch_filter
  get_seccomp_filter ptrace errno size w =
      if size == 0
      then (trace seccomp_get_filter (ptrace none) errno >>= λ num_progs.
            value_of num_progs >>= λ n. fetch_filter ptrace errno n)
          w
      else fetch_filter ptrace errno size w

-- `SignalNr::MAXIMUM`.
abbrev pub maximum : ℕ
maximum = 65

unfoldable pub is_ptrace_event_stop : ℕ → Bool
is_ptrace_event_stop sig = ltb maximum sig

-- The signal and the event, for numbers that are not negative.
unfoldable pub decode_event : ℕ → Outcome (ℕ × ℕ)
unfolding is_ptrace_event_stop
decode_event sig =
    if is_ptrace_event_stop sig
    then ok (sig % 256, sig / 256)
    else throw (usage_error "this is not a ptrace-event-stop signal")
