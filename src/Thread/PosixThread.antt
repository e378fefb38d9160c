-- ===== src/Thread/PosixThread.antt =====
-- `PosixThread`: include/thread/PosixThread.hxx and src/thread/PosixThread.cxx. What the pthread
-- functions answer is an argument of each operation. A handle is a number.
pub mod Joins
pub mod Counter
mod Tests
use libcosmos.Prelude.{
  ℕ, zero, suc, ◌+◌, ◌-◌, ◌/◌, ◌%◌, Bool, true, false, not, List, [], ◌∷◌, ◌++◌, Option, none, some,
  ◌==◌, is_empty, if◌then◌else◌, codes, String,
}
use libcosmos.Outcome.{Bytes, Exception, api_error, usage_error, Outcome, ok, throw, spins}
use libcosmos.Outcome.Errno

pub record Thread : Type 0 where
  pub handle : Option ℕ
  pub name : Bytes

abbrev pub empty_thread : Thread
empty_thread = record { handle = none; name = [] }

abbrev pub has_value : Option ℕ → Bool
has_value none = false
has_value (some h) = true

abbrev pub joinable : Thread → Bool
joinable t = has_value t.handle

-- `std::to_string`, with fuel for the digits.
unfoldable pub decimal : ℕ → ℕ → Bytes → Bytes
decimal zero n digits = digits
decimal (suc fuel) n digits =
    let more = decimal fuel (n / 10) ((b'0' + n % 10) ∷ digits) in
    if n / 10 == 0 then (b'0' + n % 10) ∷ digits else more

unfoldable pub build_name : Bytes → ℕ → Bytes
unfolding decimal
build_name name nr =
    if not (is_empty name) then name else codes "thread<" ++ (decimal 20 nr [] ++ codes ">")

-- An object and the counter `num_threads`.
pub record Counted : Type 0 where
  pub thread : Thread
  pub num_threads : ℕ

-- Both constructors: the exception of `create_thread` is caught and not thrown again. `error` and
-- `handle` are pthread_create()'s.
unfoldable pub create : Bytes → ℕ → ℕ → ℕ → Outcome Counted
unfolding build_name
create name handle error num_threads = ok record {
  thread = record {
    handle = if error == Errno.no_error then some handle else none;
    name = build_name name (suc num_threads);
  };
  num_threads = suc num_threads;
}

abbrev pub is_handle : Option ℕ → ℕ → Bool
is_handle none caller = false
is_handle (some h) caller = h == caller

unfoldable pub assert_join_conditions : ℕ → Thread → Outcome (Unit {0})
assert_join_conditions caller t =
    if not (joinable t)
    then throw (usage_error "Attempted to join non-joinable thread (empty or detached)")
    else if is_handle t.handle caller
    then throw (usage_error "Attempted to join self")
    else ok tt

unfoldable pub reset : Counted → Counted
reset c =
    if joinable c.thread
    then record { thread = empty_thread; num_threads = c.num_threads - 1 }
    else c

-- What a join function makes of the error number; `soft` is the one that is no failure.
unfoldable pub join_result : String → Option ℕ → ℕ → ℕ → Counted → Outcome (Option ℕ) × Counted
unfolding reset
join_result call soft error value c =
    if error == Errno.no_error
    then (ok (some value), reset c)
    else if is_handle soft error
    then (ok none, c)
    else (throw (api_error call error), c)

abbrev pub checked_join :
    Outcome (Unit {0}) → Counted → Outcome (Option ℕ) × Counted → Outcome (Option ℕ) × Counted
checked_join (throw x) c r = (throw x, c)
checked_join spins c r = (spins, c)
checked_join (ok _) c r = r

-- `join` returns the value itself, which is there whenever it returns.
unfoldable pub join : ℕ → ℕ → ℕ → Counted → Outcome (Option ℕ) × Counted
unfolding assert_join_conditions join_result
join caller error value c =
    checked_join (assert_join_conditions caller c.thread) c
      (join_result "pthread_join()" none error value c)

unfoldable pub try_join : ℕ → ℕ → ℕ → Counted → Outcome (Option ℕ) × Counted
unfolding assert_join_conditions join_result
try_join caller error value c =
    checked_join (assert_join_conditions caller c.thread) c
      (join_result "pthread_tryjoin_np()" (some Errno.busy) error value c)

unfoldable pub join_timed : ℕ → ℕ → ℕ → Counted → Outcome (Option ℕ) × Counted
unfolding assert_join_conditions join_result
join_timed caller error value c =
    checked_join (assert_join_conditions caller c.thread) c
      (join_result "pthread_timedjoin_np()" (some Errno.timed_out) error value c)

unfoldable pub detach : ℕ → Counted → Outcome (Unit {0}) × Counted
unfolding reset
detach error c =
    if not (joinable c.thread)
    then (
      throw (usage_error "Attempted to detach a non-joinable thread (empty or already detached)"),
      c,
    )
    else if error == Errno.no_error
    then (ok tt, reset c)
    else (throw (api_error "pthread_detach()" error), c)

-- `fatal_error` ends the process. Reading the handle of an empty object is undefined behaviour.
pub data Moved : Type 0 where
  moved : Thread → Thread → Moved
  aborts : Moved
  undefined : Moved

abbrev pub take_handle : Option ℕ → Bytes → Moved
take_handle none name = undefined
take_handle (some h) name = moved record { handle = some h; name = name } empty_thread

-- The move assignment into `t`.
unfoldable pub move_assign : Thread → Thread → Moved
move_assign t other = if joinable t then aborts else take_handle other.handle other.name

-- The destructor: whether it returns.
unfoldable pub destroy : Thread → Bool
destroy t = not (joinable t)
