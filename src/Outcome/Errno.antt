-- ===== src/Outcome/Errno.antt =====
-- The values of `Errno` that the modelled code names (include/error/errno.hxx), as Linux numbers them.
use Prim.Native.Nat.{ℕ}

abbrev pub no_error : ℕ
no_error = 0

abbrev pub no_entry : ℕ
no_entry = 2

abbrev pub interrupted : ℕ
interrupted = 4

abbrev pub bad_fd : ℕ
bad_fd = 9

abbrev pub no_child : ℕ
no_child = 10

abbrev pub again : ℕ
again = 11

abbrev pub would_block : ℕ
would_block = 11

abbrev pub access : ℕ
access = 13

abbrev pub busy : ℕ
busy = 16

abbrev pub exists : ℕ
exists = 17

abbrev pub not_a_dir : ℕ
not_a_dir = 20

abbrev pub invalid_arg : ℕ
invalid_arg = 22

abbrev pub range : ℕ
range = 34

abbrev pub name_too_long : ℕ
name_too_long = 36

abbrev pub link_loop : ℕ
link_loop = 40

abbrev pub not_executable : ℕ
not_executable = 8

abbrev pub timed_out : ℕ
timed_out = 110
