-- ===== src/Fs/FileMode/Tests.antt =====
-- The text of some modes, and the theorem at one.
use libcosmos.Prelude.{◌≡◌, refl, length, codes, arith}
use libcosmos.Outcome.{Bytes, ok}
use libcosmos.Fs.FileMode.{symbolic, type_symbol, file_type, file_mode}
use libcosmos.Fs.FileMode.Symbolic.{read_mode, symbolic-read_mode}

-- The mode 04750.
set_uid_mode : symbolic 0b1001_1110_1000 ≡ ok (codes "rwsr-x---")
unfolding symbolic
set_uid_mode = refl

-- The mode 01666 of a directory.
sticky_mode :
    (symbolic (file_mode 0x43b6) ≡ ok (codes "rw-rw-rwT")) × (type_symbol (file_type 0x43b6) ≡ b'd')
unfolding symbolic file_mode file_type type_symbol
sticky_mode = (refl, refl)

symbolic-read_mode_example :
    (s : Bytes) × (symbolic 0b1001_1110_1000 ≡ ok s)
    × (length s ≡ 9)
    × (read_mode s ≡ 0b1001_1110_1000)
symbolic-read_mode_example = symbolic-read_mode 0b1001_1110_1000 (omega arith)
