-- ===== src/Io/Logger/Tests.antt =====
-- Strings that configure a logger, and the theorem at one of them.
use libcosmos.Prelude.{◌≡◌, refl, true, false, List, none, codes, arith}
use libcosmos.Outcome.{Bytes, ok, throw, runtime_error}
use libcosmos.Text.Strip.{strip}
use libcosmos.Text.Split.{split}
use libcosmos.Io.Logger.{Channels, config_flags, config_from_string, config_from_env_var}
use libcosmos.Io.Logger.Config.{Configured, config_from_string-Configured}

abbrev initial : Channels
initial = record { error = true; warn = true; info = true; debug = false }

debug_on :
    config_from_string 30 (codes " Debug,!INFO ,") initial
    ≡ (ok tt, record { error = true; warn = true; info = false; debug = true })
unfolding config_from_string strip
debug_on = refl

unknown :
    config_from_string 30 (codes "debug,trace") initial
    ≡ (throw (runtime_error "Bad logger channel name '%s'" (codes "trace")), initial)
unfolding config_from_string strip
unknown = refl

not_set : config_from_env_var 30 none initial ≡ (ok false, initial)
unfolding config_from_env_var
not_set = refl

config_from_string-Configured_example :
    (ps : List Bytes) × (split 30 (codes "debug,!info") (codes ",") config_flags 0 ≡ ok ps)
    × Configured ps initial (config_from_string 30 (codes "debug,!info") initial)
config_from_string-Configured_example =
    config_from_string-Configured 30 (codes "debug,!info") initial (omega arith)
