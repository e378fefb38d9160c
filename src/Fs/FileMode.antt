-- ===== src/Fs/FileMode.antt =====
-- `FileType` and `FileMode` of include/fs/types.hxx and src/fs/FileStatus.cxx: the two parts of a
-- `ModeT`, a word of 32 bits.
pub mod Symbolic
mod Tests
use Prim.Native.Nat.{bit_and}
use libcosmos.Prelude.{ℕ, ◌^◌, Bool, List, [], ◌∷◌, ◌++◌, ◌==◌, if◌then◌else◌}
use libcosmos.Outcome.{Bytes, Outcome, ok, and_then}
use libcosmos.BitMask.{Mask, test, any_of}
use libcosmos.BitMask.Digits.{complement}

-- `FileT`, as octal `S_IFMT` and the types under it.
abbrev pub type_mask : ℕ
type_mask = 0xf000

abbrev pub socket : ℕ
socket = 0xc000

abbrev pub symlink : ℕ
symlink = 0xa000

abbrev pub regular : ℕ
regular = 0x8000

abbrev pub blockdev : ℕ
blockdev = 0x6000

abbrev pub directory : ℕ
directory = 0x4000

abbrev pub chardev : ℕ
chardev = 0x2000

abbrev pub fifo : ℕ
fifo = 0x1000

-- The constructors of `FileType` and `FileMode` that take a `ModeT`.
unfoldable pub file_type : ℕ → ℕ
file_type raw = bit_and raw type_mask

unfoldable pub file_mode : ℕ → Mask
file_mode raw = bit_and raw (complement 32 type_mask)

unfoldable pub is_regular : ℕ → Bool
is_regular t = t == regular

unfoldable pub is_directory : ℕ → Bool
is_directory t = t == directory

unfoldable pub is_chardev : ℕ → Bool
is_chardev t = t == chardev

unfoldable pub is_blockdev : ℕ → Bool
is_blockdev t = t == blockdev

unfoldable pub is_fifo : ℕ → Bool
is_fifo t = t == fifo

unfoldable pub is_link : ℕ → Bool
is_link t = t == symlink

unfoldable pub is_socket : ℕ → Bool
is_socket t = t == socket

-- `FileType::symbolic`.
unfoldable pub type_symbol : ℕ → ℕ
type_symbol t =
    if t == 0
    then b'-'
    else if t == socket
    then b's'
    else if t == symlink
    then b'l'
    else if t == regular
    then b'-'
    else if t == blockdev
    then b'b'
    else if t == directory
    then b'd'
    else if t == chardev
    then b'c'
    else if t == fifo
    then b'p'
    else b'?'

-- The mode bits: `S_ISUID`, `S_ISGID`, `S_ISVTX` and the permissions.
unfoldable pub is_set_uid : Mask → Outcome Bool
unfolding test
is_set_uid m = test m (2 ^ 11)

unfoldable pub is_set_gid : Mask → Outcome Bool
unfolding test
is_set_gid m = test m (2 ^ 10)

unfoldable pub is_sticky : Mask → Outcome Bool
unfolding test
is_sticky m = test m (2 ^ 9)

unfoldable pub can_owner_read : Mask → Outcome Bool
unfolding test
can_owner_read m = test m (2 ^ 8)

unfoldable pub can_owner_write : Mask → Outcome Bool
unfolding test
can_owner_write m = test m (2 ^ 7)

unfoldable pub can_owner_exec : Mask → Outcome Bool
unfolding test
can_owner_exec m = test m (2 ^ 6)

unfoldable pub can_group_read : Mask → Outcome Bool
unfolding test
can_group_read m = test m (2 ^ 5)

unfoldable pub can_group_write : Mask → Outcome Bool
unfolding test
can_group_write m = test m (2 ^ 4)

unfoldable pub can_group_exec : Mask → Outcome Bool
unfolding test
can_group_exec m = test m (2 ^ 3)

unfoldable pub can_others_read : Mask → Outcome Bool
unfolding test
can_others_read m = test m (2 ^ 2)

unfoldable pub can_others_write : Mask → Outcome Bool
unfolding test
can_others_write m = test m (2 ^ 1)

unfoldable pub can_others_exec : Mask → Outcome Bool
unfolding test
can_others_exec m = test m (2 ^ 0)

unfoldable pub can_any_read : Mask → Outcome Bool
unfolding any_of
can_any_read m = any_of m (2 ^ 8 ∷ 2 ^ 5 ∷ 2 ^ 2 ∷ [])

unfoldable pub can_any_write : Mask → Outcome Bool
unfolding any_of
can_any_write m = any_of m (2 ^ 7 ∷ 2 ^ 4 ∷ 2 ^ 1 ∷ [])

unfoldable pub can_any_exec : Mask → Outcome Bool
unfolding any_of
can_any_exec m = any_of m (2 ^ 6 ∷ 2 ^ 3 ∷ 2 ^ 0 ∷ [])

-- The third character of a class: `s` or `t` where the special bit is set, in upper case where the
-- `x` is not present.
unfoldable pub exec_symbol : ℕ → ℕ → Bool → Bool → ℕ
exec_symbol lower upper special exec =
    if special then if exec then lower else upper else if exec then b'x' else b'-'

-- What `symbolic` appends for the owner, the group or the others.
unfoldable pub class_symbols :
    ℕ → ℕ → Outcome Bool → Outcome Bool → Outcome Bool → Outcome Bool → Bytes → Outcome Bytes
unfolding exec_symbol
class_symbols lower upper read write special exec ret = and_then read (λ r. and_then write (λ w.
    and_then special (λ s. and_then exec (λ x. ok (
      ret
      ++ (if r then b'r' else b'-')
        ∷ (if w then b'w' else b'-')
        ∷ exec_symbol lower upper s x
        ∷ [])))))

-- `FileMode::symbolic`.
unfoldable pub symbolic : Mask → Outcome Bytes
unfolding class_symbols is_set_uid is_set_gid is_sticky can_owner_read can_owner_write
    can_owner_exec can_group_read can_group_write can_group_exec can_others_read can_others_write
    can_others_exec
symbolic m =
    and_then
      (class_symbols b's' b'S' (can_owner_read m) (can_owner_write m) (is_set_uid m)
        (can_owner_exec m) [])
      (λ owner.
        and_then
          (class_symbols b's' b'S' (can_group_read m) (can_group_write m) (is_set_gid m)
            (can_group_exec m) owner)
          (λ group.
            class_symbols b't' b'T' (can_others_read m) (can_others_write m) (is_sticky m)
              (can_others_exec m) group))
