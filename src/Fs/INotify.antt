-- ===== src/Fs/INotify.antt =====
-- `INotify` of include/fs/INotify.hxx and src/fs/INotify.cxx: the events that are read out of a
-- buffer, which holds what the last read(2) gave. `struct inotify_event` is four little-endian words
-- and the name.
pub mod Order
mod Tests
use Prim.Native.Nat.{bit_and, bit_or}
use libcosmos.Prelude.{
  ℕ, zero, suc, ◌+◌, word_at, Bool, true, false, List, [], ◌∷◌, ◌++◌, Option, none, some, ◌==◌, leb,
  length, take, drop, if◌then◌else◌, String,
}
use libcosmos.Outcome.{
  Bytes, Exception, api_error, would_block, Outcome, ok, throw, spins, Reply, done, failed, Comp,
  checked, link_error, file_error,
}
use libcosmos.Outcome.Errno
use libcosmos.BitMask.{Mask}
use libcosmos.BitMask.Digits.{complement}
use libcosmos.Io.StreamIo.{Syscalls, read}

-- `struct inotify_event`, with the bytes of the name field.
pub record Event : Type 0 where
  pub wd : ℕ
  pub mask : ℕ
  pub cookie : ℕ
  pub padded : Bytes

-- `IN_ALL_EVENTS`.
abbrev pub all_events : ℕ
all_events = 0xfff

unfoldable pub event_types : Event → Mask
event_types e = bit_and e.mask all_events

unfoldable pub event_flags : Event → Mask
event_flags e = bit_and e.mask (complement 32 all_events)

abbrev kept : ℕ → Bytes → Bytes
kept c (d ∷ s) = c ∷ d ∷ s
kept c [] = if c == 0 then [] else c ∷ []

-- `ret.substr(0, ret.find_last_not_of(0) + 1)`: without the zeros at the end.
unfoldable pub name : Bytes → Bytes
name [] = []
name (c ∷ s) = kept c (name s)

-- `reinterpret_cast` of a place in the buffer.
unfoldable pub event_at : Bytes → Event
event_at s = record {
  wd = word_at s;
  mask = word_at (drop 4 s);
  cookie = word_at (drop 8 s);
  padded = take (word_at (drop 12 s)) (drop 16 s);
}

-- `m_io_buffer_size`, `m_buffer` and `m_offset`.
pub record State : Type 0 where
  pub io_buffer_size : ℕ
  pub buffer : Bytes
  pub offset : ℕ

abbrev pub zeros : ℕ → Bytes
zeros zero = []
zeros (suc n) = 0 ∷ zeros n

-- `std::vector::resize`.
abbrev pub resized : Bytes → ℕ → Bytes
resized s n = take n (s ++ zeros n)

unfoldable pub next_event : State → Outcome Event × State
unfolding event_at
next_event st =
    let rest = drop st.offset st.buffer in
    (
      ok (event_at rest),
      record {
        io_buffer_size = st.io_buffer_size;
        buffer = st.buffer;
        offset = st.offset + (16 + word_at (drop 12 rest));
      },
    )

module _ {W : Type 0} (k : Syscalls W) (auto_restart : Bool) (fd : ℕ) where
  -- Behind the read; while it throws, the offset is at the end of the resized buffer.
  unfoldable pub refilled : State → Outcome Bytes × W → (Outcome Event × State) × W
  unfolding next_event
  refilled st (ok bytes, w) =
      (next_event (record { io_buffer_size = st.io_buffer_size; buffer = bytes; offset = 0 }), w)
  refilled st (throw x, w) = (
    (
      throw x,
      record {
        io_buffer_size = st.io_buffer_size;
        buffer = resized st.buffer st.io_buffer_size;
        offset = st.io_buffer_size;
      },
    ),
    w,
  )
  refilled st (spins, w) = ((spins, st), w)

  -- The read restarts as `StreamIO::read` does, with fuel.
  unfoldable pub read_event : ℕ → State → W → (Outcome Event × State) × W
  unfolding refilled next_event read
  read_event fuel st w =
      if leb (length st.buffer) st.offset
      then refilled st (read k auto_restart fd fuel st.io_buffer_size w)
      else (next_event st, w)

  -- `WouldBlock` is an `ApiError` for `EAGAIN`, and so is what a file reports of it.
  unfoldable pub unless_again : Exception → Outcome (Option Event)
  unless_again (api_error call e) = if e == Errno.again then ok none else throw (api_error call e)
  unless_again (would_block call) = ok none
  unless_again x = throw x

  unfoldable pub attempted : (Outcome Event × State) × W → (Outcome (Option Event) × State) × W
  unfolding unless_again
  attempted ((ok e, st), w) = ((ok (some e), st), w)
  attempted ((throw x, st), w) = ((unless_again x, st), w)
  attempted ((spins, st), w) = ((spins, st), w)

  unfoldable pub try_read_event : ℕ → State → W → (Outcome (Option Event) × State) × W
  unfolding read_event attempted
  try_read_event fuel st w = attempted (read_event fuel st w)

-- The file is opened by the constructor; watches are added to it and removed.
module _ {W : Type 0} where
  unfoldable pub made : ℕ → Reply ℕ × W → Outcome (ℕ × State) × W
  made io_buffer_size (done fd, w) =
      (ok (fd, record { io_buffer_size = io_buffer_size; buffer = []; offset = 0 }), w)
  made io_buffer_size (failed e, w) = (throw (api_error "inotify_init1()" e), w)

  unfoldable pub create : (ℕ → W → Reply ℕ × W) → ℕ → ℕ → W → Outcome (ℕ × State) × W
  unfolding made
  create inotify_init io_buffer_size flags w = made io_buffer_size (inotify_init flags w)

  unfoldable pub add_watch :
      (ℕ → Bytes → Mask → W → Reply ℕ × W) → ℕ → Bytes → Mask → Mask → Comp W ℕ
  add_watch inotify_add_watch fd path mask flags w =
      checked (api_error "inotify_add_watch()") (inotify_add_watch fd path (bit_or mask flags) w)

  unfoldable pub remove_watch : (ℕ → ℕ → W → Reply (Unit {0}) × W) → ℕ → ℕ → Comp W (Unit {0})
  remove_watch inotify_rm_watch fd id w =
      checked (api_error "inotify_rm_watch()") (inotify_rm_watch fd id w)
