-- ===== src/Text/Chars.antt =====
-- The character classes of <cctype> in the C locale, and the case functions of src/string.cxx.
use libcosmos.Prelude.{ℕ, ◌+◌, ◌-◌, Bool, ◌&&◌, ◌||◌, map, ◌==◌, leb, if◌then◌else◌}
use libcosmos.Outcome.{Bytes}

is_upper : ℕ → Bool
is_upper c = leb b'A' c && leb c b'Z'

is_lower : ℕ → Bool
is_lower c = leb b'a' c && leb c b'z'

-- `::tolower` and `::toupper`.
tolower : ℕ → ℕ
unfolding is_upper
tolower c = if is_upper c then c + 32 else c

toupper : ℕ → ℕ
unfolding is_lower
toupper c = if is_lower c then c - 32 else c

-- `std::isspace`: the blank, and tab to carriage return.
unfoldable pub isspace : ℕ → Bool
isspace c = c == 32 || (leb 9 c && leb c 13)

unfoldable pub to_lower : Bytes → Bytes
unfolding tolower
to_lower s = map tolower s

pub to_upper : Bytes → Bytes
unfolding toupper
to_upper s = map toupper s
