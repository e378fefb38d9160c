-- ===== src/Io/Logger/Parts.antt =====
-- One part of the string that `configFromString` reads.
use libcosmos.Prelude.{
  ◌≡◌, ◌≢◌, refl, ap, sym, subst, Bool, true, false, [], ◌∷◌, Option, none, some, ◌==◌, ==_iff,
  bytes_eq, bytes_eq→eq, bytes_eq_refl, codes, arith, Bool-cases, inl, inr,
}
use libcosmos.Outcome.{Bytes, Outcome, ok, throw, spins}
use libcosmos.Io.Logger.{Channels, assign, found, apply_channel}

pub data Channel : Type 0 where
  errors warnings infos debugging : Channel

abbrev pub name_of : Channel → Bytes
name_of Channel.errors = codes "error"
name_of Channel.warnings = codes "warn"
name_of Channel.infos = codes "info"
name_of Channel.debugging = codes "debug"

abbrev pub enabled : Channels → Channel → Bool
enabled c Channel.errors = c.error
enabled c Channel.warnings = c.warn
enabled c Channel.infos = c.info
enabled c Channel.debugging = c.debug

abbrev pub changed : Channel → Bool → (Channel → Bool) → Channel → Bool
changed Channel.errors b f Channel.errors = b
changed Channel.warnings b f Channel.warnings = b
changed Channel.infos b f Channel.infos = b
changed Channel.debugging b f Channel.debugging = b
changed k b f other = f other

abbrev Assigned : Bytes → Bool → Channels → Option Channels → Type 0
Assigned q b c (some d) =
    (k : Channel) × (q ≡ name_of k) × ((j : Channel) → enabled d j ≡ changed k b (enabled c) j)
Assigned q b c none = (k : Channel) → bytes_eq q (name_of k) ≡ false

pub each :
    (P : Channel → Type 0)
    → P Channel.errors
    → P Channel.warnings
    → P Channel.infos
    → P Channel.debugging
    → (k : Channel) → P k
each P a b c d Channel.errors = a
each P a b c d Channel.warnings = b
each P a b c d Channel.infos = c
each P a b c d Channel.debugging = d

pub assign-Assigned : (q : Bytes) (b : Bool) (c : Channels) → Assigned q b c (assign q b c)
unfolding assign
assign-Assigned q b c = elim (Bool-cases (bytes_eq q (codes "error"))) [
  | inl e ↦ rw e (Channel.errors, bytes_eq→eq q _ e, each _ refl refl refl refl)
  | inr e ↦ elim (Bool-cases (bytes_eq q (codes "warn"))) [
    | inl w ↦ rw (e, w) (Channel.warnings, bytes_eq→eq q _ w, each _ refl refl refl refl)
    | inr w ↦ elim (Bool-cases (bytes_eq q (codes "info"))) [
      | inl i ↦ rw (e, w, i) (Channel.infos, bytes_eq→eq q _ i, each _ refl refl refl refl)
      | inr i ↦ elim (Bool-cases (bytes_eq q (codes "debug"))) [
        | inl d ↦ rw (e, w, i, d) (Channel.debugging, bytes_eq→eq q _ d, each _ refl refl refl refl)
        | inr d ↦ rw (e, w, i, d) (each _ e w i d)
      ]
    ]
  ]
]

-- What a part of the string says in lower case: a name enables the channel, an exclamation mark and
-- a name disable it.
abbrev pub Says : Bytes → Channel → Bool → Type 0
Says p k true = p ≡ name_of k
Says p k false = p ≡ b'!' ∷ name_of k

abbrev pub Applied : Bytes → Channels → Outcome Channels → Type 0
Applied p c (ok d) =
    (k : Channel) × (b : Bool) × Says p k b
    × ((j : Channel) → enabled d j ≡ changed k b (enabled c) j)
Applied p c (throw x) = (k : Channel) (b : Bool) → ¬ Says p k b
Applied p c spins = ⊥

differs : (p q : Bytes) → bytes_eq p q ≡ false → p ≢ q
differs p q h e = ground (arith, subst (λ t. bytes_eq p t ≡ true) e (bytes_eq_refl p))

no_mark : (p : Bytes) (k : Channel) → (b'!' ∷ p) ≢ name_of k
no_mark p Channel.errors e = ground (arith, e)
no_mark p Channel.warnings e = ground (arith, e)
no_mark p Channel.infos e = ground (arith, e)
no_mark p Channel.debugging e = ground (arith, e)

no_setting :
    (p : Bytes)
    → ((k : Channel) → bytes_eq p (name_of k) ≡ false)
    → ((k : Channel) → p ≢ b'!' ∷ name_of k)
    → (k : Channel) (b : Bool) → ¬ Says p k b
no_setting p h m k true = differs p (name_of k) (h k)
no_setting p h m k false = m k

found_enabled :
    (p : Bytes) (c : Channels) (o : Option Channels)
    → Assigned p true c o
    → ((k : Channel) → p ≢ b'!' ∷ name_of k)
    → Applied p c (found p o)
found_enabled p c (some d) (k, e, f) m = (k, true, e, f)
found_enabled p c none h m = no_setting p h m

found_disabled :
    (q : Bytes) (c : Channels) (o : Option Channels)
    → Assigned q false c o
    → Applied (b'!' ∷ q) c (found q o)
found_disabled q c (some d) (k, e, f) = (k, false, ap (λ t. b'!' ∷ t) e, f)
found_disabled q c none h = λ k b e. nothing k b e
  where
    nothing : (k : Channel) (b : Bool) → ¬ Says (b'!' ∷ q) k b
    nothing k true e = no_mark q k e
    nothing k false e = differs q (name_of k) (h k) (cc)

pub apply_channel-Applied : (p : Bytes) (c : Channels) → Applied p c (apply_channel p c)
unfolding apply_channel
apply_channel-Applied [] c =
    found_enabled [] c (assign [] true c) (assign-Assigned [] true c) (λ k. cc)
apply_channel-Applied (x ∷ p) c = elim (Bool-cases (x == b'!')) [
  | inl mark ↦ rw mark (
      subst (λ y. Applied (y ∷ p) c (found p (assign p false c))) (sym ((==_iff x b'!').0 mark))
        (found_disabled p c (assign p false c) (assign-Assigned p false c)))
  | inr plain ↦ rw plain (
      found_enabled (x ∷ p) c (assign (x ∷ p) true c) (assign-Assigned (x ∷ p) true c)
        (λ k e. ground (arith, plain)))
]
