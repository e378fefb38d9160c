-- ===== src/Proc/SigAction/Tests.antt =====
-- Actions for the signal 10, and the theorem at one; the state is what the system holds for it.
use libcosmos.Prelude.{ℕ, ◌≡◌, refl, arith, false, Option, none, some}
use libcosmos.Outcome.{ok, throw, usage_error, Reply, done}
use libcosmos.Proc.SigAction.{
  Raw, sig_dfl, custom, simple, SigAction, Tables, unknown, set_simple_handler, set_info_handler,
  set_action, get_action,
}
use libcosmos.Proc.SigAction.Kept.{simply, runs, callback, get_action-set_action}

abbrev sigaction : ℕ → Option Raw → Raw → Reply Raw × Raw
sigaction sig none w = (done w, w)
sigaction sig (some new) w = (done w, new)

abbrev initial : Raw
initial = record { entry = sig_dfl; siginfo = false; flags = 0; mask = 6 }

abbrev foreign : Raw
foreign = record { entry = custom 7; siginfo = false; flags = 0; mask = 6 }

abbrev no_callbacks : Tables
no_callbacks = record { simple_handlers = λ n. 0; info_handlers = λ n. 0 }

abbrev plain : SigAction
plain = record { raw = initial; handler = simple 0 }

foreign_function :
    get_action sigaction 10 no_callbacks foreign
    ≡ (ok (record { raw = foreign; handler = simple unknown }), foreign)
unfolding get_action
foreign_function = refl

unknown_refused :
    set_simple_handler 2 plain ≡ (throw (usage_error "Cannot set UNKNOWN type handler"), plain)
unfolding set_simple_handler
unknown_refused = refl

old_action : (set_action sigaction 10 (set_info_handler 9 plain) no_callbacks initial).0 ≡ ok plain
unfolding set_action
old_action = refl

get_action-set_action_example :
    ((set_action sigaction 10 (set_simple_handler 5 plain).1 no_callbacks initial).2
      ≡ (set_simple_handler 5 plain).1.raw)
    × (get_action sigaction 10
          (set_action sigaction 10 (set_simple_handler 5 plain).1 no_callbacks initial).1
          (set_simple_handler 5 plain).1.raw
        ≡ (ok (set_simple_handler 5 plain).1, (set_simple_handler 5 plain).1.raw))
    × (runs
          (set_action sigaction 10 (set_simple_handler 5 plain).1 no_callbacks initial).1
          10
          (set_simple_handler 5 plain).1
        ≡ callback (set_simple_handler 5 plain).1.handler)
get_action-set_action_example =
    get_action-set_action sigaction 10 (set_simple_handler 5 plain).1 no_callbacks initial initial
      (set_simple_handler 5 plain).1.raw (simply 5 plain (omega arith)) refl refl
