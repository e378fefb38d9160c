-- ===== src/Net/Ancillary.antt =====
-- Control messages: include/net/message_header.hxx and src/net/message_header.cxx, and the messages
-- of UNIX domain sockets in include/net/unix/aux.hxx and src/net/unix/aux.cxx. A message is its
-- header and the bytes behind the header; the sizes are those of the C library on 64 bit machines.
pub mod RoundTrip
pub mod Descriptors
mod Tests
use libcosmos.Prelude.{
  ℕ, zero, suc, ◌+◌, ◌-◌, ◌*◌, ◌/◌, ◌^◌, Bool, true, false, ◌&&◌, ◌||◌, not, List, [], ◌∷◌, ◌++◌,
  Option, none, some, ◌==◌, ltb, is_empty, length, drop, take, if◌then◌else◌, word, word_at,
}
use libcosmos.Outcome.{
  Bytes, api_error, usage_error, runtime_error, Outcome, ok, throw, spins, Reply, done, failed,
  Comp, and_then,
}

-- `sizeof(cmsghdr)`, `CMSG_LEN` and `CMSG_SPACE`.
abbrev pub header_size : ℕ
header_size = 16

abbrev pub cmsg_len : ℕ → ℕ
cmsg_len n = header_size + n

abbrev pub cmsg_space : ℕ → ℕ
cmsg_space n = header_size + (n + 7) / 8 * 8

-- `cmsghdr`, and the bytes from `CMSG_DATA` on.
pub record ControlMessage : Type 0 where
  pub level : ℕ
  pub type : ℕ
  pub len : ℕ
  pub payload : Bytes

-- `OptLevel::SOCKET`, `IP` and `IPV6`; `UnixMessage::RIGHTS` and `CREDENTIALS`.
abbrev pub socket_level : ℕ
socket_level = 1

abbrev pub ip_level : ℕ
ip_level = 0

abbrev pub ip6_level : ℕ
ip6_level = 41

abbrev pub rights : ℕ
rights = 1

abbrev pub credentials : ℕ
credentials = 2

abbrev pub zeros : ℕ → Bytes
zeros zero = []
zeros (suc n) = 0 ∷ zeros n

-- The constructor of `SendMessageHeader::ControlMessage`: the buffer is zeroed.
unfoldable pub control_message : ℕ → ℕ → ℕ → ControlMessage
control_message level type data_len = record {
  level = level;
  type = type;
  len = cmsg_len data_len;
  payload = zeros (cmsg_space data_len - header_size);
}

-- `std::memcpy` to the beginning of the data.
unfoldable pub copied_to : Bytes → ControlMessage → ControlMessage
copied_to bytes msg = record {
  level = msg.level;
  type = msg.type;
  len = msg.len;
  payload = bytes ++ drop (length bytes) msg.payload;
}

unfoldable pub data_length : ControlMessage → ℕ
data_length msg = msg.len - header_size

unfoldable pub as_unix_message : ControlMessage → Option ℕ
as_unix_message msg = if msg.level == socket_level then some msg.type else none

unfoldable pub as_ip4_message : ControlMessage → Option ℕ
as_ip4_message msg = if msg.level == ip_level then some msg.type else none

unfoldable pub as_ip6_message : ControlMessage → Option ℕ
as_ip6_message msg = if msg.level == ip6_level then some msg.type else none

unfoldable pub check_msg : ℕ → ControlMessage → ℕ → Outcome (Unit {0})
check_msg level msg type =
    if not (msg.level == level) || not (type == msg.type)
    then throw (runtime_error "ancillary message type mismatch" [])
    else ok tt

-- `UnixRightsMessage`: `m_fds` and `m_unclaimed_fds`.
pub record Rights : Type 0 where
  pub fds : List ℕ
  pub unclaimed : Bool

unfoldable pub add_fd : Rights → ℕ → Rights
add_fd m fd = record { fds = m.fds ++ fd ∷ []; unclaimed = m.unclaimed }

unfoldable pub num_fds : Rights → ℕ
num_fds m = if m.unclaimed then length m.fds else 0

abbrev pub none_left : Rights
none_left = record { fds = []; unclaimed = false }

-- The descriptors that the caller gets, and the message behind the call.
unfoldable pub take_fds : Rights → List ℕ × Rights
take_fds m = if not m.unclaimed then ([], m) else (m.fds, none_left)

-- The bytes of the descriptors, one behind the other.
abbrev pub words : List ℕ → Bytes
words [] = []
words (fd ∷ fds) = word fd ++ words fds

unfoldable pub serialize : Rights → Outcome ControlMessage
unfolding control_message copied_to
serialize m =
    if is_empty m.fds
    then throw (usage_error "Attempt to serialize empty vector of FileNum")
    else ok (copied_to (words m.fds) (control_message socket_level rights (4 * length m.fds)))

-- `while (left >= sizeof(fd))`: as many descriptors as fit in the length, which is the fuel too.
unfoldable pub read_fds : ℕ → ℕ → Bytes → List ℕ
read_fds zero left payload = []
read_fds (suc fuel) left bytes =
    let rest = read_fds fuel (left - 4) (drop 4 bytes) in
    if ltb left 4 then [] else word_at bytes ∷ rest

-- `FileNum::INVALID`.
abbrev pub invalid_fd : ℕ
invalid_fd = 2 ^ 32 - 1

module _ {W : Type 0} (sys_close : ℕ → W → Reply (Unit {0}) × W) where
  -- `FileDescriptor::close` of a descriptor.
  abbrev pub closed : Reply (Unit {0}) × W → (W → Outcome (Unit {0}) × W) → Outcome (Unit {0}) × W
  closed (done _, w) rest = rest w
  closed (failed e, w) rest = (throw (api_error "close()" e), w)

  unfoldable pub close_all : List ℕ → Comp W (Unit {0})
  close_all [] w = (ok tt, w)
  close_all (fd ∷ fds) w =
      let rest = close_all fds in if fd == invalid_fd then rest w else closed (sys_close fd w) rest

  -- The message keeps its descriptors where one cannot be closed.
  abbrev pub after_close : Rights → Outcome (Unit {0}) × W → (Outcome (Unit {0}) × Rights) × W
  after_close m (ok _, w) = ((ok tt, none_left), w)
  after_close m (throw x, w) = ((throw x, m), w)
  after_close m (spins, w) = ((spins, m), w)

  unfoldable pub close_unclaimed : Rights → W → (Outcome (Unit {0}) × Rights) × W
  unfolding close_all
  close_unclaimed m w = if m.unclaimed then after_close m (close_all m.fds w) else ((ok tt, m), w)

  abbrev pub then_clear : (Outcome (Unit {0}) × Rights) × W → (Outcome (Unit {0}) × Rights) × W
  then_clear ((ok _, m), w) = ((ok tt, record { fds = []; unclaimed = m.unclaimed }), w)
  then_clear ((throw x, m), w) = ((throw x, m), w)
  then_clear ((spins, m), w) = ((spins, m), w)

  unfoldable pub clear_fds : Rights → W → (Outcome (Unit {0}) × Rights) × W
  unfolding close_unclaimed
  clear_fds m w = then_clear (close_unclaimed m w)

  unfoldable pub received : List ℕ → Rights → Rights
  received new m = record {
    fds = m.fds ++ new;
    unclaimed = if is_empty (m.fds ++ new) then m.unclaimed else true;
  }

  abbrev pub then_read :
      List ℕ → (Outcome (Unit {0}) × Rights) × W → (Outcome (Unit {0}) × Rights) × W
  then_read new ((ok _, m), w) = ((ok tt, received new m), w)
  then_read new ((throw x, m), w) = ((throw x, m), w)
  then_read new ((spins, m), w) = ((spins, m), w)

  abbrev pub if_checked :
      Outcome (Unit {0})
      → Rights
      → W
      → (Outcome (Unit {0}) × Rights) × W
      → (Outcome (Unit {0}) × Rights) × W
  if_checked (ok _) m w r = r
  if_checked (throw x) m w r = ((throw x, m), w)
  if_checked spins m w r = ((spins, m), w)

  unfoldable pub deserialize : Rights → ControlMessage → W → (Outcome (Unit {0}) × Rights) × W
  unfolding check_msg clear_fds read_fds received data_length
  deserialize m msg w =
      if_checked (check_msg socket_level msg rights) m w
        (then_read (read_fds (data_length msg) (data_length msg) msg.payload) (clear_fds m w))

-- `UnixCredentialsMessage`: a process, a user and a group.
pub record Credentials : Type 0 where
  pub pid : ℕ
  pub uid : ℕ
  pub gid : ℕ

abbrev pub creds_size : ℕ
creds_size = 12

unfoldable pub serialize_creds : Credentials → ControlMessage
unfolding control_message copied_to
serialize_creds c =
    copied_to (word c.pid ++ (word c.uid ++ word c.gid))
      (control_message socket_level credentials creds_size)

abbrev pub creds_at : Bytes → Credentials
creds_at s = record { pid = word_at s; uid = word_at (drop 4 s); gid = word_at (drop 8 s) }

unfoldable pub deserialize_creds : ControlMessage → Outcome Credentials
unfolding check_msg data_length
deserialize_creds msg = and_then (check_msg socket_level msg credentials) λ _.
    if data_length msg == creds_size
    then ok (creds_at msg.payload)
    else throw (runtime_error "SCM_CREDS message with mismatching length encountered" [])
