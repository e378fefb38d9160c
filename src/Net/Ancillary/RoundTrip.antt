-- ===== src/Net/Ancillary/RoundTrip.antt =====
-- What is put into a message comes out of it.
use libcosmos.Prelude.{
  ℕ, zero, suc, ◌+◌, ◌-◌, ◌*◌, ◌≤◌, ◌≡◌, refl, ◌∙◌, ap, arith, true, false, List, [], ◌∷◌, ◌++◌,
  ltb, length, if_false, word_lem,
}
use libcosmos.Outcome.{Bytes, ok, throw, usage_error, Reply}
use libcosmos.Net.Ancillary.{
  ControlMessage, serialize, deserialize, words, read_fds, Credentials, serialize_creds,
  deserialize_creds, clear_fds, close_unclaimed, control_message, copied_to, data_length, check_msg,
  received,
}

length-words : (fds : List ℕ) → length (words fds) ≡ 4 * length fds
length-words [] = refl
length-words (fd ∷ fds) = omega (arith, length-words fds)

cons_ext : {x y : ℕ} {xs ys : List ℕ} → x ≡ y → xs ≡ ys → ◌≡◌ {A = List ℕ} (x ∷ xs) (y ∷ ys)
cons_ext p q = cc

read_fds-words :
    (fuel : ℕ) (fds : List ℕ) (s : Bytes)
    → 4 * length fds ≤ fuel
    → read_fds fuel (4 * length fds) (words fds ++ s) ≡ fds
unfolding read_fds
read_fds-words zero [] s h = refl
read_fds-words zero (fd ∷ fds) s h = absurd (omega arith)
read_fds-words (suc fuel) [] s h = refl
read_fds-words (suc fuel) (fd ∷ fds) s h =
    if_false (ltb (4 * length (fd ∷ fds)) 4) [] _ (ground arith)
    ∙ cons_ext (word_lem fd) (
        ap (λ n. read_fds fuel n (words fds ++ s)) (omega arith)
        ∙ read_fds-words fuel fds s (omega (arith, h)))

all_read :
    (n : ℕ) (fds : List ℕ) (s : Bytes) → n ≡ 4 * length fds → read_fds n n (words fds ++ s) ≡ fds
all_read n fds s h =
    ap (λ m. read_fds n m (words fds ++ s)) h ∙ read_fds-words n fds s (omega (arith, h))

module _ {W : Type 0} (sys_close : ℕ → W → Reply (Unit {0}) × W) where
  -- What is made of a list of descriptors, and what a receiver has of that.
  abbrev pub Passed : List ℕ → List ℕ → W → Type 0
  Passed [] old w =
      serialize (record { fds = []; unclaimed = false })
      ≡ throw (usage_error "Attempt to serialize empty vector of FileNum")
  Passed (fd ∷ fds) old w =
      (msg : ControlMessage) × (serialize (record { fds = fd ∷ fds; unclaimed = false }) ≡ ok msg)
      × (deserialize sys_close (record { fds = old; unclaimed = false }) msg w
          ≡ ((ok tt, record { fds = fd ∷ fds; unclaimed = true }), w))

  -- The descriptors that a message was made of come out of it, for a receiver that holds no unclaimed
  -- descriptors, which then are unclaimed; nothing is closed. An empty list makes no message but a
  -- `UsageError`.
  pub deserialize-serialize : (fds old : List ℕ) (w : W) → Passed fds old w
  unfolding serialize deserialize control_message copied_to check_msg clear_fds close_unclaimed
      data_length received
  deserialize-serialize [] old w = refl
  deserialize-serialize (fd ∷ fds) old w = (
    _,
    refl,
    ap (λ l. ((ok tt, received sys_close l (record { fds = []; unclaimed = false })), w))
        (all_read (16 + 4 * length (fd ∷ fds) - 16) (fd ∷ fds) _ (omega arith)),
  )

creds_ext :
    {a b c a' b' c' : ℕ}
    → a ≡ a'
    → b ≡ b'
    → c ≡ c'
    → ◌≡◌ {A = Credentials}
        (record { pid = a; uid = b; gid = c })
        (record { pid = a'; uid = b'; gid = c' })
creds_ext p q r = cc

-- The credentials that a message was made of come out of it.
pub deserialize_creds-serialize_creds :
    (c : Credentials) → deserialize_creds (serialize_creds c) ≡ ok c
unfolding serialize_creds deserialize_creds control_message copied_to check_msg data_length
deserialize_creds-serialize_creds c =
    ap ok (creds_ext (word_lem c.pid) (word_lem c.uid) (word_lem c.gid))
