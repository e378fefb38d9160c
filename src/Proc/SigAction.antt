-- ===== src/Proc/SigAction.antt =====
-- include/proc/SigAction.hxx and src/proc/SigAction.cxx: the actions for signals and the tables of
-- callbacks behind the two functions that the system calls. sigaction(2) is a parameter. A callback is
-- a number; the numbers 0, 1 and 2 are the special ones.
pub mod Kept
mod Tests
use libcosmos.Prelude.{ℕ, Bool, true, false, ◌||◌, ◌==◌, Option, none, some, if◌then◌else◌}
use libcosmos.Outcome.{api_error, usage_error, Outcome, ok, throw, Reply, done, failed}

-- `SigAction::DEFAULT`, `IGNORE` and `UNKNOWN`.
abbrev pub default_handler : ℕ
default_handler = 0

abbrev pub ignore : ℕ
ignore = 1

abbrev pub unknown : ℕ
unknown = 2

-- What `sa_handler` or `sa_sigaction` holds: `SIG_DFL`, `SIG_IGN`, one of the two entry points of
-- the library, or another function.
pub data Entry : Type 0 where
  sig_dfl : Entry
  sig_ign : Entry
  simple_handler : Entry
  info_handler : Entry
  custom : ℕ → Entry

-- `m_raw`, with the flag `SA_SIGINFO` apart from the other flags; `sa_mask` is the number of its bits.
pub record Raw : Type 0 where
  pub entry : Entry
  pub siginfo : Bool
  pub flags : ℕ
  pub mask : ℕ

-- `m_handler`.
pub data Handler : Type 0 where
  simple : ℕ → Handler
  info : ℕ → Handler

pub record SigAction : Type 0 where
  pub raw : Raw
  pub handler : Handler

-- `setFlags`, for flags with and without `SIGINFO`: that bit stays what it is.
unfoldable pub set_flags : ℕ → SigAction → SigAction
set_flags flags a = record {
  raw = record { entry = a.raw.entry; siginfo = a.raw.siginfo; flags = flags; mask = a.raw.mask };
  handler = a.handler;
}

unfoldable pub entry_for : ℕ → Entry
entry_for handler =
    if handler == ignore
    then sig_ign
    else if handler == default_handler
    then sig_dfl
    else simple_handler

-- `setHandler`, for each of the two kinds of callbacks.
unfoldable pub set_simple_handler : ℕ → SigAction → Outcome (Unit {0}) × SigAction
unfolding entry_for
set_simple_handler handler a =
    if handler == unknown then (throw (usage_error "Cannot set UNKNOWN type handler"), a) else (
      ok tt,
      record {
        raw = record {
          entry = entry_for handler;
          siginfo = false;
          flags = a.raw.flags;
          mask = a.raw.mask;
        };
        handler = simple handler;
      },
    )

unfoldable pub set_info_handler : ℕ → SigAction → SigAction
set_info_handler handler a = record {
  raw = record { entry = info_handler; siginfo = true; flags = a.raw.flags; mask = a.raw.mask };
  handler = info handler;
}

unfoldable pub get_simple_handler : SigAction → Option ℕ
get_simple_handler a = from a.handler
  where
    from : Handler → Option ℕ
    from (simple h) = some h
    from (info h) = none

unfoldable pub get_info_handler : SigAction → Option ℕ
get_info_handler a = from a.handler
  where
    from : Handler → Option ℕ
    from (simple h) = none
    from (info h) = some h

-- `updateFromOld`: the handler that a raw action stands for, where the callbacks were these.
unfoldable pub handler_from : Raw → ℕ → ℕ → Handler
handler_from raw info_callback simple_callback =
    if raw.siginfo then from_info raw.entry else from_simple raw.entry
  where
    from_info : Entry → Handler
    from_info info_handler = info info_callback
    from_info sig_dfl = simple unknown
    from_info sig_ign = simple unknown
    from_info simple_handler = simple unknown
    from_info (custom f) = simple unknown

    from_simple : Entry → Handler
    from_simple sig_dfl = simple default_handler
    from_simple sig_ign = simple ignore
    from_simple simple_handler = simple simple_callback
    from_simple info_handler = simple unknown
    from_simple (custom f) = simple unknown

unfoldable pub update_from_old : Raw → ℕ → ℕ → SigAction
unfolding handler_from
update_from_old raw info_callback simple_callback = record {
  raw = raw;
  handler = handler_from raw info_callback simple_callback;
}

-- The two tables, by signal numbers.
pub record Tables : Type 0 where
  pub simple_handlers : ℕ → ℕ
  pub info_handlers : ℕ → ℕ

abbrev pub stored : ℕ → ℕ → (ℕ → ℕ) → ℕ → ℕ
stored sig callback table n = if n == sig then callback else table n

-- What `set_action` writes into the tables.
unfoldable pub written : ℕ → Handler → Tables → Tables
written sig (simple h) t =
    if h == ignore || h == default_handler || h == unknown
    then record {
      simple_handlers = stored sig 0 t.simple_handlers;
      info_handlers = stored sig 0 t.info_handlers;
    }
    else record {
      simple_handlers = stored sig h t.simple_handlers;
      info_handlers = t.info_handlers;
    }
written sig (info h) t = record {
  simple_handlers = t.simple_handlers;
  info_handlers = stored sig h t.info_handlers;
}

module _ {W : Type 0} (sigaction : ℕ → Option Raw → W → Reply Raw × W) where
  -- The state is the tables and the rest of the world. The value is what `old` becomes.
  unfoldable pub acted : ℕ → SigAction → Tables → Reply Raw × W → Outcome SigAction × Tables × W
  unfolding written update_from_old
  acted sig action t (done old, w) = (
    ok (update_from_old old (t.info_handlers sig) (t.simple_handlers sig)),
    written sig action.handler t,
    w,
  )
  acted sig action t (failed e, w) = (throw (api_error "sigaction()" e), t, w)

  unfoldable pub set_action : ℕ → SigAction → Tables → W → Outcome SigAction × Tables × W
  unfolding acted
  set_action sig action t w = acted sig action t (sigaction sig (some action.raw) w)

  unfoldable pub gotten : ℕ → Tables → Reply Raw × W → Outcome SigAction × W
  unfolding update_from_old
  gotten sig t (done raw, w) =
      (ok (update_from_old raw (t.info_handlers sig) (t.simple_handlers sig)), w)
  gotten sig t (failed e, w) = (throw (api_error "sigaction()" e), w)

  unfoldable pub get_action : ℕ → Tables → W → Outcome SigAction × W
  unfolding gotten
  get_action sig t w = gotten sig t (sigaction sig none w)

-- What a signal runs: a callback with the signal or with its data, or nothing.
pub data Run : Type 0 where
  with_signal : ℕ → Run
  with_info : ℕ → Run
  nothing : Run

-- The bodies of `simple_handler` and `info_handler`.
unfoldable pub deliver_simple : Tables → ℕ → Run
deliver_simple t sig =
    if t.simple_handlers sig == 0 then nothing else with_signal (t.simple_handlers sig)

unfoldable pub deliver_info : Tables → ℕ → Run
deliver_info t sig = if t.info_handlers sig == 0 then nothing else with_info (t.info_handlers sig)
