-- ===== src/Io/Logger.antt =====
-- The channels of `ILogger`: include/io/ILogger.hxx and src/io/ILogger.cxx. Streams, colors and
-- prefixes are left out.
pub mod Parts
pub mod Config
mod Tests
use libcosmos.Prelude.{
  ℕ, Bool, true, false, List, [], ◌∷◌, ◌++◌, Option, none, some, ◌==◌, if◌then◌else◌, bytes_eq,
  codes,
}
use libcosmos.Outcome.{Bytes, Outcome, ok, throw, spins, runtime_error}
use libcosmos.Text.Chars.{to_lower}
use libcosmos.Text.Split.{SplitFlags, split}

-- The `enabled` flags of the four streams.
pub record Channels : Type 0 where
  pub error : Bool
  pub warn : Bool
  pub info : Bool
  pub debug : Bool

-- `settings.find(channel)`, and the assignment through the pointer that it finds.
unfoldable pub assign : Bytes → Bool → Channels → Option Channels
assign channel enabled c =
    if bytes_eq channel (codes "error")
    then some record c { error = enabled }
    else if bytes_eq channel (codes "warn")
    then some record c { warn = enabled }
    else if bytes_eq channel (codes "info")
    then some record c { info = enabled }
    else if bytes_eq channel (codes "debug")
    then some record c { debug = enabled }
    else none

abbrev pub found : Bytes → Option Channels → Outcome Channels
found channel (some c) = ok c
found channel none = throw (runtime_error "Bad logger channel name '%s'" channel)

abbrev pub lookup : Bytes → Bool → Channels → Outcome Channels
lookup channel enabled c = found channel (assign channel enabled c)

-- A round on the channel in lower case: a leading exclamation mark disables it. `channel[0]` of the
-- empty string is its terminating zero.
unfoldable pub apply_channel : Bytes → Channels → Outcome Channels
unfolding assign
apply_channel [] c = lookup [] true c
apply_channel (x ∷ channel) c =
    if x == b'!' then lookup channel false c else lookup (x ∷ channel) true c

abbrev pub and_then : Outcome Channels → (Channels → Outcome Channels) → Outcome Channels
and_then (ok c) f = f c
and_then (throw x) f = throw x
and_then spins f = spins

unfoldable pub apply_all : List Bytes → Channels → Outcome Channels
unfolding apply_channel to_lower
apply_all [] c = ok c
apply_all (channel ∷ rest) c = and_then (apply_channel (to_lower channel) c) (apply_all rest)

abbrev pub config_flags : SplitFlags
config_flags = record { strip_parts = true; keep_empty = false }

abbrev pub apply_parts : Outcome (List Bytes) → Channels → Outcome Channels
apply_parts (ok parts) c = apply_all parts c
apply_parts (throw x) c = throw x
apply_parts spins c = spins

-- `setChannels`, which is called only behind the loop.
abbrev pub set_channels : Outcome Channels → Channels → Outcome (Unit {0}) × Channels
set_channels (ok c) old = (ok tt, c)
set_channels (throw x) old = (throw x, old)
set_channels spins old = (spins, old)

unfoldable pub config_from_string : ℕ → Bytes → Channels → Outcome (Unit {0}) × Channels
unfolding apply_all split
config_from_string fuel var c =
    set_channels (apply_parts (split fuel var (codes ",") config_flags 0) c) c

-- `configFromEnvVar`, with the value of the variable.
unfoldable pub config_from_env_var : ℕ → Option Bytes → Channels → Outcome Bool × Channels
unfolding config_from_string
config_from_env_var fuel none c = (ok false, c)
config_from_env_var fuel (some var) c = configured (config_from_string fuel var c)
  where
    configured : Outcome (Unit {0}) × Channels → Outcome Bool × Channels
    configured (ok _, d) = (ok true, d)
    configured (throw x, d) = (throw x, d)
    configured (spins, d) = (spins, d)
