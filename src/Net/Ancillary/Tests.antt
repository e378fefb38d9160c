-- ===== src/Net/Ancillary/Tests.antt =====
-- A message of two descriptors, and the theorems at this input.
use libcosmos.Prelude.{ℕ, ◌≡◌, refl, true, false, List, [], ◌∷◌, arith}
use libcosmos.Outcome.{ok, throw, usage_error, runtime_error, Reply, done}
use libcosmos.Net.Ancillary.{
  ControlMessage, Credentials, serialize, deserialize, serialize_creds, deserialize_creds,
  none_left, clear_fds,
}
use libcosmos.Net.Ancillary.RoundTrip.{deserialize-serialize, deserialize_creds-serialize_creds}
use libcosmos.Net.Ancillary.Descriptors.{Reached, Accounted, accounted_lem, fresh, receives, clears}

-- The world is the list of the closed descriptors.
abbrev sys_close : ℕ → List ℕ → Reply (Unit {0}) × List ℕ
sys_close fd w = (done tt, fd ∷ w)

nothing_to_send :
    serialize none_left ≡ throw (usage_error "Attempt to serialize empty vector of FileNum")
unfolding serialize
nothing_to_send = refl

closes_the_old :
    deserialize sys_close
      (record { fds = 7 ∷ 8 ∷ []; unclaimed = true })
      (record { level = 1; type = 1; len = 22; payload = 9 ∷ 0 ∷ 0 ∷ 0 ∷ 1 ∷ 2 ∷ [] })
      []
    ≡ ((ok tt, record { fds = 9 ∷ []; unclaimed = true }), 8 ∷ 7 ∷ [])
unfolding deserialize
closes_the_old = refl

other_message :
    deserialize sys_close none_left (record { level = 1; type = 2; len = 16; payload = [] }) []
    ≡ ((throw (runtime_error "ancillary message type mismatch" []), none_left), [])
unfolding deserialize
other_message = refl

deserialize-serialize_example :
    (msg : ControlMessage) × (serialize (record { fds = 5 ∷ 300 ∷ []; unclaimed = false }) ≡ ok msg)
    × (deserialize sys_close (record { fds = []; unclaimed = false }) msg []
        ≡ ((ok tt, record { fds = 5 ∷ 300 ∷ []; unclaimed = true }), []))
deserialize-serialize_example = deserialize-serialize sys_close (5 ∷ 300 ∷ []) [] []

abbrev someone : Credentials
someone = record { pid = 4000; uid = 1000; gid = 100 }

credentials_back : deserialize_creds (serialize_creds someone) ≡ ok someone
credentials_back = deserialize_creds-serialize_creds someone

abbrev recorded : List ℕ → List ℕ
recorded w = w

logs :
    (fd : ℕ) (w : List ℕ)
    → (v : List ℕ) × (sys_close fd w ≡ (done tt, v)) × (recorded v ≡ fd ∷ recorded w)
logs fd w = (fd ∷ w, refl, refl)

abbrev two_fds : ControlMessage
two_fds = record { level = 1; type = 1; len = 24; payload = 5 ∷ 0 ∷ 0 ∷ 0 ∷ 6 ∷ 0 ∷ 0 ∷ 0 ∷ [] }

-- Received, then dropped.
dropped : Reached sys_close recorded logs none_left (6 ∷ 5 ∷ []) [] (5 ∷ 6 ∷ [])
unfolding clear_fds deserialize
dropped = clears (receives two_fds (fresh refl) refl) refl

accounted_lem_example : Accounted sys_close recorded logs 5 none_left (6 ∷ 5 ∷ []) [] (5 ∷ 6 ∷ [])
accounted_lem_example = accounted_lem sys_close recorded logs 5 (λ e. omega (arith, e)) dropped
