-- ===== src/Fs/Ownership/Resolved.antt =====
-- The numbers that reach chown(2).
use libcosmos.Prelude.{ℕ, ◌≤◌, ◌<◌, ◌∙◌, ap, String, ◌≡◌, refl, [], ◌∷◌, Option, none, some}
use libcosmos.Outcome.{
  Bytes, runtime_error, file_error, Outcome, ok, throw, Reply, checked, next, Comp, ◌>>=◌,
}
use libcosmos.Fs.Ownership.{
  change_owner_by_name, by_names, change_owner, resolve_user, resolve_group, invalid_id, valid_id,
}
use libcosmos.Runtime.InfoBase.{get_info, passwd_info, group_info}
use libcosmos.Runtime.InfoBase.Lookup.{Needs, get_info-Settled}

-- A name as a number, by a table of the names: none for the empty name, which leaves the owner as it is.
abbrev pub number_in : (Bytes → Option ℕ) → Bytes → Option ℕ
number_in table [] = some invalid_id
number_in table (c ∷ s) = table (c ∷ s)

-- The world behind one lookup in a database: the empty name is in none.
abbrev pub looked_up :
    {W : Type 0} {A : Type 0} → (Bytes → ℕ → W → (ℕ × Option A) × W) → ℕ → Bytes → W → W
looked_up database fuel [] w = w
looked_up database fuel (c ∷ s) w = (get_info (database (c ∷ s)) fuel w).1

-- The world behind both lookups: the group is looked up, by `f`, only if there is a user.
abbrev pub behind : {W : Type 0} → Option ℕ → (W → W) → W → W
behind none f u = u
behind (some uid) f u = f u

-- The outcome by the numbers of both names. The group is looked at only if there is a user.
abbrev pub Changed :
    {W : Type 0}
    → (Bytes → ℕ → ℕ → W → Reply (Unit {0}) × W)
    → Bytes
    → Bytes
    → Bytes
    → Option ℕ
    → Option ℕ
    → W
    → Outcome (Unit {0}) × W
Changed chown path user group none g w = (throw (runtime_error " does not exist" user), w)
Changed chown path user group (some uid) none w = (throw (runtime_error "does not exist" group), w)
Changed chown path user group (some uid) (some gid) w =
    checked (file_error path "chown()") (chown path uid gid w)

module _ {W : Type 0} (getpwnam getgrnam : Bytes → ℕ → W → (ℕ × Option ℕ) × W)
    (users groups : Bytes → Option ℕ) where
  -- The databases answer by the tables, for buffers that are large enough.
  abbrev pub Answer : Type 0
  Answer =
      ((p : Bytes) → (need : ℕ) × (need ≤ 32768) × Needs (getpwnam p) need (users p))
      × ((p : Bytes) → (need : ℕ) × (need ≤ 32768) × Needs (getgrnam p) need (groups p))

  abbrev outcome_of : String → Bytes → Option ℕ → Outcome ℕ
  outcome_of message name none = throw (runtime_error message name)
  outcome_of message name (some id) = ok id

  valid_id_lem :
      (message : String) (name : Bytes) (o : Option ℕ) (v : W)
      → valid_id message name o v ≡ (outcome_of message name o, v)
  valid_id_lem message name none v = refl
  valid_id_lem message name (some id) v = refl

  found :
      (message : String) (name : Bytes) (o : Option ℕ) (r : Outcome (Option ℕ) × W)
      → r.0 ≡ ok o
      → next r.0 r.1 (valid_id message name) ≡ (outcome_of message name o, r.1)
  found message name o r h =
      ap (λ q. next q r.1 (valid_id message name)) h ∙ valid_id_lem message name o r.1

  user_found :
      (fuel : ℕ) (user : Bytes) (w : W)
      → Answer
      → 6 < fuel
      → resolve_user getpwnam getgrnam fuel user w
        ≡ (outcome_of " does not exist" user (number_in users user), looked_up getpwnam fuel user w)
  unfolding resolve_user passwd_info
  user_found fuel [] w h l = refl
  user_found fuel (c ∷ s) w h l =
      let (need, small, laws) = h.0 (c ∷ s) in
      found " does not exist" (c ∷ s) (users (c ∷ s)) (get_info (getpwnam (c ∷ s)) fuel w)
        ((get_info-Settled (getpwnam (c ∷ s)) fuel need (users (c ∷ s)) w laws l).0 small)

  group_found :
      (fuel : ℕ) (group : Bytes) (w : W)
      → Answer
      → 6 < fuel
      → resolve_group getpwnam getgrnam fuel group w ≡ (
        outcome_of "does not exist" group (number_in groups group),
        looked_up getgrnam fuel group w,
      )
  unfolding resolve_group group_info
  group_found fuel [] w h l = refl
  group_found fuel (c ∷ s) w h l =
      let (need, small, laws) = h.1 (c ∷ s) in
      found "does not exist" (c ∷ s) (groups (c ∷ s)) (get_info (getgrnam (c ∷ s)) fuel w)
        ((get_info-Settled (getgrnam (c ∷ s)) fuel need (groups (c ∷ s)) w laws l).0 small)

  changed_from :
      (chown : Bytes → ℕ → ℕ → W → Reply (Unit {0}) × W) (path user group : Bytes) (o p : Option ℕ)
      (f : Comp W ℕ) (g : W → W) (u : W)
      → ((x : W) → f x ≡ (outcome_of "does not exist" group p, g x))
      → next
          (outcome_of " does not exist" user o)
          u
          (λ uid. f >>= λ gid. change_owner chown path uid gid)
        ≡ Changed chown path user group o p (behind o g u)
  unfolding change_owner
  changed_from chown path user group none p f g u h = refl
  changed_from chown path user group (some uid) none f g u h = rw (h u) refl
  changed_from chown path user group (some uid) (some gid) f g u h = rw (h u) refl

  -- `change_owner` by names looks up the user and then the group and, as the only call behind that,
  -- calls chown(2) with the numbers that the databases have for the names and with `INVALID` for an
  -- empty name; it fails as chown(2) does. If a name is in no database, the user's first, it throws
  -- a `RuntimeError` and calls nothing behind the lookup. The databases need
  -- buffers of at most 32768 bytes; seven rounds for a lookup are enough.
  pub change_owner_by_name-Changed :
      (chown : Bytes → ℕ → ℕ → W → Reply (Unit {0}) × W) (fuel : ℕ) (path user group : Bytes)
      (w : W)
      → Answer
      → 6 < fuel
      → change_owner_by_name getpwnam getgrnam fuel chown path user group w
        ≡ Changed chown path user group (number_in users user) (number_in groups group) (
            behind
              (number_in users user)
              (looked_up getgrnam fuel group)
              (looked_up getpwnam fuel user w))
  unfolding change_owner_by_name by_names
  change_owner_by_name-Changed chown fuel path user group w h l =
      let u = looked_up getpwnam fuel user w in
      ap
        (λ r. next r.0 r.1 (λ uid.
          resolve_group getpwnam getgrnam fuel group >>= λ gid. change_owner chown path uid gid))
        (user_found fuel user w h l)
      ∙ (changed_from chown path user group (number_in users user) (number_in groups group)
          (resolve_group getpwnam getgrnam fuel group) (looked_up getgrnam fuel group) u
          (λ x. group_found fuel group x h l))
