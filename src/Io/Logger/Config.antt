-- ===== src/Io/Logger/Config.antt =====
-- What `configFromString` makes of the channels.
use libcosmos.Prelude.{
  ℕ, suc, ◌<◌, ◌≡◌, refl, ◌∙◌, Bool, List, [], ◌∷◌, ◌⊎◌, inl, inr, length, codes,
}
use libcosmos.Outcome.{Bytes, Outcome, ok, throw, spins}
use libcosmos.Text.Chars.{to_lower}
use libcosmos.Text.Split.{split}
use libcosmos.Text.Split.Total.{split_total}
use libcosmos.Io.Logger.{
  Channels, apply_channel, apply_all, and_then, set_channels, config_flags, config_from_string,
}
use libcosmos.Io.Logger.Parts.{
  Channel, enabled, changed, each, Says, Applied, apply_channel-Applied,
}

-- What the string comes to.
unfoldable pub settled : List (Channel × Bool) → (Channel → Bool) → Channel → Bool
settled [] f = f
settled ((k, b) ∷ ss) f = settled ss (changed k b f)

abbrev pub EachSays : List Bytes → List (Channel × Bool) → Type 0
EachSays [] [] = Unit
EachSays [] (s ∷ ss) = ⊥
EachSays (p ∷ ps) [] = ⊥
EachSays (p ∷ ps) (s ∷ ss) = Says (to_lower p) s.0 s.1 × EachSays ps ss

abbrev pub SomeSaysNothing : List Bytes → Type 0
SomeSaysNothing [] = ⊥
SomeSaysNothing (p ∷ ps) = ((k : Channel) (b : Bool) → ¬ Says (to_lower p) k b) ⊎ SomeSaysNothing ps

abbrev AppliedAll : List Bytes → (Channel → Bool) → Outcome Channels → Type 0
AppliedAll ps f (ok d) =
    (ss : List (Channel × Bool)) × EachSays ps ss × ((j : Channel) → enabled d j ≡ settled ss f j)
AppliedAll ps f (throw x) = SomeSaysNothing ps
AppliedAll ps f spins = ⊥

changed_ext :
    (k : Channel) (b : Bool) (f g : Channel → Bool)
    → ((j : Channel) → f j ≡ g j)
    → (j : Channel) → changed k b f j ≡ changed k b g j
changed_ext Channel.errors b f g h = each _ refl (h _) (h _) (h _)
changed_ext Channel.warnings b f g h = each _ (h _) refl (h _) (h _)
changed_ext Channel.infos b f g h = each _ (h _) (h _) refl (h _)
changed_ext Channel.debugging b f g h = each _ (h _) (h _) (h _) refl

settled_ext :
    (ss : List (Channel × Bool)) (f g : Channel → Bool)
    → ((j : Channel) → f j ≡ g j)
    → (j : Channel) → settled ss f j ≡ settled ss g j
unfolding settled
settled_ext [] f g h = h
settled_ext ((k, b) ∷ ss) f g h = settled_ext ss _ _ (changed_ext k b f g h)

then-AppliedAll :
    (p : Bytes) (ps : List Bytes) (c : Channels) (r : Outcome Channels)
    → Applied (to_lower p) c r
    → ((d : Channels) → AppliedAll ps (enabled d) (apply_all ps d))
    → AppliedAll (p ∷ ps) (enabled c) (and_then r (apply_all ps))
unfolding settled
then-AppliedAll p ps c (ok d) (k, b, s, f) rest = more (apply_all ps d) (rest d)
  where
    more : (r : Outcome Channels) → AppliedAll ps (enabled d) r → AppliedAll (p ∷ ps) (enabled c) r
    more (ok e) (ss, es, g) = ((k, b) ∷ ss, (s, es), λ j. g j ∙ settled_ext ss _ _ f j)
    more (throw x) h = inr h
    more spins h = elim h [ ]
then-AppliedAll p ps c (throw x) h rest = inl h
then-AppliedAll p ps c spins h rest = elim h [ ]

apply_all-AppliedAll : (ps : List Bytes) (c : Channels) → AppliedAll ps (enabled c) (apply_all ps c)
unfolding apply_all settled
apply_all-AppliedAll [] c = ([], tt, λ j. refl)
apply_all-AppliedAll (p ∷ ps) c =
    then-AppliedAll p ps c (apply_channel (to_lower p) c) (apply_channel-Applied (to_lower p) c)
      (apply_all-AppliedAll ps)

-- The channels behind a call: all parts of the string took effect, or none did.
abbrev pub Configured : List Bytes → Channels → Outcome (Unit {0}) × Channels → Type 0
Configured ps c (ok _, d) =
    (ss : List (Channel × Bool)) × EachSays ps ss
    × ((j : Channel) → enabled d j ≡ settled ss (enabled c) j)
Configured ps c (throw x, d) = SomeSaysNothing ps × (d ≡ c)
Configured ps c (spins, d) = ⊥

set_channels-Configured :
    (ps : List Bytes) (c : Channels) (r : Outcome Channels)
    → AppliedAll ps (enabled c) r
    → Configured ps c (set_channels r c)
set_channels-Configured ps c (ok d) h = h
set_channels-Configured ps c (throw x) h = (h, refl)
set_channels-Configured ps c spins h = elim h [ ]

-- `configFromString` always ends. If each comma separated part names a channel, in any case and with
-- or without an exclamation mark, each channel is as the last part says that names it, and one that
-- no part names is as before. Otherwise it throws and all channels are as before.
pub config_from_string-Configured :
    (fuel : ℕ) (var : Bytes) (c : Channels)
    → suc (length var) < fuel
    → (ps : List Bytes) × (split fuel var (codes ",") config_flags 0 ≡ ok ps)
      × Configured ps c (config_from_string fuel var c)
unfolding config_from_string
config_from_string-Configured fuel var c h =
    let (ps, e) = split_total b',' [] config_flags 0 fuel var h in
    (ps, e, rw e (set_channels-Configured ps c (apply_all ps c) (apply_all-AppliedAll ps c)))
