-- ===== src/Proc/WaitStatus.antt =====
-- `WaitStatus` of include/proc/process.hxx and src/proc/process.cxx: the status word of wait(2).
-- The macros of <sys/wait.h> are written out by division and remainder; words are not negative.
pub mod Encoding
mod Tests
use Prim.Native.Nat.{bit_or}
use libcosmos.Prelude.{
  ℕ, ◌+◌, ◌*◌, ◌/◌, ◌%◌, Bool, true, false, ◌&&◌, ◌||◌, not, Option, none, some, ◌==◌, ltb,
  if◌then◌else◌,
}
use libcosmos.Proc.ChildState.{ChildState, exited, killed, dumped, trapped, continued, stopped}

-- `*opt`, where the value is there.
abbrev pub value : Option ℕ → ℕ
value (some n) = n
value none = 0

-- `__WCOREFLAG`, `__W_CONTINUED`, `__W_STOPCODE` and `__W_EXITCODE`.
abbrev wcoreflag : ℕ
wcoreflag = 0x80

abbrev w_continued : ℕ
w_continued = 0xffff

w_stopcode : ℕ → ℕ
w_stopcode sig = bit_or (sig * 256) 0x7f

w_exitcode : ℕ → ℕ → ℕ
w_exitcode ret sig = bit_or (ret * 256) sig

-- `WaitStatus(const ChildState&)`.
pub of_child_state : ChildState → ℕ
unfolding dumped stopped trapped continued killed exited w_stopcode w_exitcode
of_child_state state =
    if dumped state
    then bit_or (bit_or 0 (value state.signal)) wcoreflag
    else if stopped state || trapped state
    then w_stopcode (value state.signal)
    else if continued state
    then w_continued
    else if killed state
    then bit_or 0 (value state.signal)
    else if exited state
    then w_exitcode (value state.status) 0
    else 0

wtermsig : ℕ → ℕ
wtermsig status = status % 128

wexitstatus : ℕ → ℕ
wexitstatus status = (status / 256) % 256

pub has_exited : ℕ → Bool
unfolding wtermsig
has_exited status = wtermsig status == 0

-- `((signed char)((status & 0x7f) + 1) >> 1) > 0`: the sum is at most 128, which is negative.
pub was_signaled : ℕ → Bool
was_signaled status = let c = status % 128 + 1 in ltb c 128 && not (c / 2 == 0)

pub has_dumped : ℕ → Bool
unfolding was_signaled
has_dumped status = was_signaled status && not ((status / 128) % 2 == 0)

pub was_stopped : ℕ → Bool
was_stopped status = status % 256 == 0x7f

pub was_continued : ℕ → Bool
was_continued status = status == w_continued

pub exit_status : ℕ → Option ℕ
unfolding has_exited wexitstatus
exit_status status = if not (has_exited status) then none else some (wexitstatus status)

pub term_sig : ℕ → Option ℕ
unfolding was_signaled wtermsig
term_sig status = if not (was_signaled status) then none else some (wtermsig status)

pub stop_sig : ℕ → Option ℕ
unfolding was_stopped wexitstatus
stop_sig status = if not (was_stopped status) then none else some (wexitstatus status)
