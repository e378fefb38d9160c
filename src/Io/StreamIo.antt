-- ===== src/Io/StreamIo.antt =====
-- src/io/StreamIO.cxx and the loops of include/io/StreamIO.hxx: reading and writing on a file
-- descriptor. The system calls are fields of a parameter. A `while (true)` loop takes fuel.
pub mod Restart
pub mod ReadAll
pub mod WriteAll
pub mod Vectored
mod Tests
use libcosmos.Prelude.{
  ℕ, zero, suc, ◌-◌, Bool, true, false, ◌&&◌, ◌||◌, List, [], ◌∷◌, ◌++◌, String, ◌==◌,
  if◌then◌else◌, length, drop, is_empty,
}
use libcosmos.Outcome.{
  Bytes, api_error, would_block, runtime_error, Outcome, ok, throw, spins, Reply, done, failed,
  Comp, next, checked,
}
use libcosmos.Outcome.Errno
use libcosmos.Io.Iovector.{Region, update}

-- The system calls that the class wraps, over the state `W` of the kernel. A read answers the bytes
-- that it put into the buffer, the vectored calls how many bytes they moved.
pub record Syscalls (W : Type 0) : Type 0 where
  pub sys_read : ℕ → ℕ → W → Reply Bytes × W
  pub sys_pread : ℕ → ℕ → ℕ → W → Reply Bytes × W
  pub sys_write : ℕ → Bytes → W → Reply ℕ × W
  pub sys_pwrite : ℕ → Bytes → ℕ → W → Reply ℕ × W
  pub sys_readv : ℕ → List Region → W → Reply ℕ × W
  pub sys_preadv : ℕ → List Region → ℕ → ℕ → W → Reply ℕ × W
  pub sys_writev : ℕ → List Region → W → Reply ℕ × W
  pub sys_pwritev : ℕ → List Region → ℕ → ℕ → W → Reply ℕ × W
  pub sys_lseek : ℕ → ℕ → ℕ → W → Reply ℕ × W

-- A normal return tells the caller to make the call again.
pub handle_io_error : Bool → String → ℕ → Outcome (Unit {0})
handle_io_error auto_restart operation error =
    if auto_restart && error == Errno.interrupted
    then ok tt
    else if error == Errno.again || error == Errno.would_block
    then throw (would_block operation)
    else throw (api_error operation error)

-- What one round of a restart loop makes of the answer and of the rounds after it.
abbrev pub settle : {W A : Type 0} → Bool → String → Reply A × W → Comp W A → Outcome A × W
settle auto_restart operation (done a, w) again = (ok a, w)
settle auto_restart operation (failed e, w) again =
    next (handle_io_error auto_restart operation e) w (λ _. again)

-- The loop that every wrapper of a system call runs.
unfoldable pub restart : {W A : Type 0} → ℕ → Bool → String → (W → Reply A × W) → Comp W A
unfolding handle_io_error
restart zero auto_restart operation call w = (spins, w)
restart (suc fuel) auto_restart operation call w =
    let again = restart fuel auto_restart operation call in
    settle auto_restart operation (call w) again

-- The vectored calls hand their answer to `IOVector::update`.
updated : {W : Type 0} → List Region → Outcome ℕ × W → (Outcome Bool × List Region) × W
updated iovec (ok res, w) = (update iovec res, w)
updated iovec (throw x, w) = ((throw x, iovec), w)
updated iovec (spins, w) = ((spins, iovec), w)

-- What a round of `while (!write(iovec)) { ; }` makes of its call and of the rounds after it.
abbrev looped :
    {W : Type 0}
    → (Outcome Bool × List Region) × W
    → (List Region → W → (Outcome (Unit {0}) × List Region) × W)
    → (Outcome (Unit {0}) × List Region) × W
looped ((ok true, iovec), w) rest = ((ok tt, iovec), w)
looped ((ok false, iovec), w) rest = rest iovec w
looped ((throw x, iovec), w) rest = ((throw x, iovec), w)
looped ((spins, iovec), w) rest = ((spins, iovec), w)

-- That loop, and the same over `read`, for one step of either.
until_finished :
    {W : Type 0}
    → ℕ
    → (ℕ → List Region → W → (Outcome Bool × List Region) × W)
    → List Region
    → W
    → (Outcome (Unit {0}) × List Region) × W
until_finished zero step iovec w = ((spins, iovec), w)
until_finished (suc fuel) step iovec w =
    let rest = until_finished fuel step in looped (step fuel iovec w) rest

module _ {W : Type 0} (k : Syscalls W) (auto_restart : Bool) (fd : ℕ) where
  unfoldable pub read : ℕ → ℕ → Comp W Bytes
  unfolding restart
  read fuel length = restart fuel auto_restart "read()" (k.sys_read fd length)

  pub read_at_pos : ℕ → ℕ → ℕ → Comp W Bytes
  unfolding restart
  read_at_pos fuel length offset =
      restart fuel auto_restart "pread64()" (k.sys_pread fd length offset)

  pub write : ℕ → Bytes → Comp W ℕ
  unfolding restart
  write fuel buf = restart fuel auto_restart "write()" (k.sys_write fd buf)

  pub write_at_pos : ℕ → Bytes → ℕ → Comp W ℕ
  unfolding restart
  write_at_pos fuel buf offset = restart fuel auto_restart "pwrite64()" (k.sys_pwrite fd buf offset)

  -- `length` bytes are missing; the bytes in the buffer so far come first in the result.
  pub read_all : ℕ → ℕ → Bytes → Comp W Bytes
  read_all zero length buf w = (spins, w)
  read_all (suc fuel) zero buf w = (ok buf, w)
  read_all (suc fuel) (suc n) buf w = next (read fuel (suc n) w).0 (read fuel (suc n) w).1 λ res w'.
      let rest = read_all fuel (suc n - length res) (buf ++ res) in
      if is_empty res then (throw (runtime_error "unexpected EOF" []), w') else rest w'

  pub write_all : ℕ → Bytes → Comp W (Unit {0})
  write_all zero buf w = (spins, w)
  write_all (suc fuel) [] w = (ok tt, w)
  write_all (suc fuel) (b ∷ buf) w =
      next (write fuel (b ∷ buf) w).0 (write fuel (b ∷ buf) w).1
        λ res. write_all fuel (drop res (b ∷ buf))

  pub read_vector : ℕ → List Region → W → (Outcome Bool × List Region) × W
  unfolding restart updated
  read_vector fuel iovec w =
      updated iovec (restart fuel auto_restart "readv()" (k.sys_readv fd iovec) w)

  pub write_vector : ℕ → List Region → W → (Outcome Bool × List Region) × W
  unfolding restart updated
  write_vector fuel iovec w =
      updated iovec (restart fuel auto_restart "writev()" (k.sys_writev fd iovec) w)

  pub read_vector_at_pos : ℕ → List Region → ℕ → ℕ → W → (Outcome Bool × List Region) × W
  unfolding restart updated
  read_vector_at_pos fuel iovec offset flags w =
      updated iovec (restart fuel auto_restart "readv()" (k.sys_preadv fd iovec offset flags) w)

  pub write_vector_at_pos : ℕ → List Region → ℕ → ℕ → W → (Outcome Bool × List Region) × W
  unfolding restart updated
  write_vector_at_pos fuel iovec offset flags w =
      updated iovec (restart fuel auto_restart "pwritev2()" (k.sys_pwritev fd iovec offset flags) w)

  pub read_all_vector : ℕ → List Region → W → (Outcome (Unit {0}) × List Region) × W
  unfolding until_finished
  read_all_vector fuel = until_finished fuel read_vector

  pub write_all_vector : ℕ → List Region → W → (Outcome (Unit {0}) × List Region) × W
  unfolding until_finished
  write_all_vector fuel = until_finished fuel write_vector

  pub seek : ℕ → ℕ → Comp W ℕ
  seek type off w = checked (api_error "lseek()") (k.sys_lseek fd off type w)
