-- ===== src/Fs/DirStream.antt =====
-- `DirStream`, `DirEntry` and `DirIterator` of include/fs and src/fs/DirStream.cxx. A `DIR*` is a
-- number, and a stream that is not open is `none`. The calls of the C library are the fields of
-- `Calls`.
mod Tests
use libcosmos.Prelude.{
  String, ℕ, zero, suc, Bool, true, false, ◌||◌, List, [], ◌∷◌, Option, none, some, ◌==◌,
  if◌then◌else◌,
}
use libcosmos.Outcome.{
  Bytes, Exception, usage_error, api_error, Outcome, ok, throw, spins, Reply, done, failed, Comp,
  checked, next, pure, raise, ◌>>=◌, ◌>>◌,
}
use libcosmos.BitMask.{Mask}
use libcosmos.Fs.Open.{open_at, read_only, directory_flag}

-- `struct dirent`: the name up to its terminator, `d_type` and `d_ino`.
pub record Entry : Type 0 where
  pub name : Bytes
  pub d_type : ℕ
  pub d_ino : ℕ

-- A `readdir` that fails sets `errno`, one at the end of the stream does not.
pub record Calls (W : Type 0) : Type 0 where
  pub sys_open : Bytes → ℕ → W → Reply ℕ × W
  pub sys_openat : ℕ → Bytes → ℕ → ℕ → W → Reply ℕ × W
  pub dup_fd : ℕ → W → Reply ℕ × W
  pub close_fd : ℕ → W → Reply (Unit {0}) × W
  pub fdopendir : ℕ → W → Reply ℕ × W
  pub closedir : ℕ → W → Reply (Unit {0}) × W
  pub rewinddir : ℕ → W → W
  pub readdir : ℕ → W → Reply (Option Entry) × W
  pub dirfd : ℕ → W → Reply ℕ × W
  pub telldir : ℕ → W → Reply ℕ × W

-- The flags of `DirStream::open` for a path.
abbrev pub stream_flags : Bool → ℕ
stream_flags follow = if follow then 0x9_0000 else 0xb_0000

-- `DirEntry::isDotEntry` looks at the first three characters, the terminator counted.
unfoldable pub is_dot_entry : Bytes → Bool
is_dot_entry [] = false
is_dot_entry (a ∷ []) = a == b'.'
is_dot_entry (a ∷ b ∷ []) = if a == b'.' then b == b'.' else false
is_dot_entry (a ∷ b ∷ c ∷ s) = false

module _ {W : Type 0} (k : Calls W) where
  -- The member `m_stream` behind a call, and how the call ended.
  abbrev pub Opening : Type 0
  Opening = W → (Outcome (Unit {0}) × Option ℕ) × W

  -- `closedir(m_stream); m_stream = nullptr;`.
  unfoldable pub close : Option ℕ → Comp W (Unit {0})
  close none w = (ok tt, w)
  close (some s) w = checked (api_error "closedir()") (k.closedir s w)

  -- The destructor only reports an exception.
  unfoldable pub destroy : Option ℕ → W → W
  unfolding close
  destroy stream w = (close stream w).1

  unfoldable pub opened_stream : Reply ℕ × W → (Outcome (Unit {0}) × Option ℕ) × W
  opened_stream (done s, w) = ((ok tt, some s), w)
  opened_stream (failed e, w) = ((throw (api_error "fdopendir()" e), none), w)

  -- `open` of a descriptor number.
  unfoldable pub open_raw : ℕ → Opening
  unfolding opened_stream
  open_raw fd w = opened_stream (k.fdopendir fd w)

  -- The descriptor is closed again where `fdopendir` fails.
  unfoldable pub or_close :
      ℕ → (Outcome (Unit {0}) × Option ℕ) × W → (Outcome (Unit {0}) × Option ℕ) × W
  or_close fd ((ok _, stream), w) = ((ok tt, stream), w)
  or_close fd ((throw x, stream), w) = ((throw x, stream), (k.close_fd fd w).1)
  or_close fd ((spins, stream), w) = ((spins, stream), w)

  -- Where a call in front of `fdopendir` throws, the object holds no stream: it was closed.
  abbrev pub with_fd : Outcome ℕ × W → (ℕ → Opening) → (Outcome (Unit {0}) × Option ℕ) × W
  with_fd (ok fd, w) f = f fd w
  with_fd (throw x, w) f = ((throw x, none), w)
  with_fd (spins, w) f = ((spins, none), w)

  abbrev pub closed : Outcome (Unit {0}) × W → Opening → (Outcome (Unit {0}) × Option ℕ) × W
  closed (ok _, w) f = f w
  closed (throw x, w) f = ((throw x, none), w)
  closed (spins, w) f = ((spins, none), w)

  -- `open` of a path.
  unfoldable pub open_path : Option ℕ → Bytes → Bool → Opening
  unfolding close open_raw or_close
  open_path stream path follow w = closed (close stream w) λ w.
      with_fd (checked (api_error "open(O_DIRECTORY)") (k.sys_open path (stream_flags follow) w))
        λ fd w. or_close fd (open_raw fd w)

  -- `open` of a descriptor works on a duplicate.
  unfoldable pub open_fd : Option ℕ → ℕ → Opening
  unfolding close open_raw
  open_fd stream fd w =
      closed (close stream w)
        λ w. with_fd (checked (api_error "fcntl(F_DUPFD)") (k.dup_fd fd w)) open_raw

  -- `open` of a path relative to a descriptor.
  unfoldable pub open_subpath : ℕ → Bytes → Opening
  unfolding open_at open_raw
  open_subpath dir_fd subpath w =
      with_fd (open_at k.sys_openat dir_fd subpath read_only directory_flag none w) open_raw

  unfoldable pub require_open : String → Option ℕ → Comp W ℕ
  require_open message none = raise (usage_error message)
  require_open message (some s) = pure s

  -- `FileDescriptor::invalid` of what dirfd(3) answers is its failure.
  unfoldable pub fd : Option ℕ → Comp W ℕ
  unfolding require_open
  fd stream = require_open "fd on unassociated DirStream instance" stream >>= λ s.
      λ w. checked (api_error "dirfd()") (k.dirfd s w)

  unfoldable pub tell : Option ℕ → Comp W ℕ
  unfolding require_open
  tell stream = require_open "tell on unassociated DirStream instance" stream >>= λ s.
      λ w. checked (api_error "telldir()") (k.telldir s w)

  unfoldable pub next_entry : Option ℕ → Comp W (Option Entry)
  unfolding require_open
  next_entry stream = require_open "nextEntry on unassociated DirStream instance" stream >>= λ s.
      λ w. checked (api_error "readdir()") (k.readdir s w)

  -- `begin(DirStream &)`: rewinds an open stream.
  unfoldable pub begin : Option ℕ → W → W
  begin none w = w
  begin (some s) w = k.rewinddir s w
