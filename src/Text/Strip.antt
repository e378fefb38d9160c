-- ===== src/Text/Strip.antt =====
-- `strip` of src/string.cxx, and `stripped` of include/string.hxx.
pub mod Trim
use mathlib.Core.List.{reverse}
use libcosmos.Prelude.{ℕ, Bool, false, ◌||◌, [], ◌∷◌, ◌==◌, is_empty, if◌then◌else◌}
use libcosmos.Outcome.{Bytes}
use libcosmos.Text.Chars.{isspace}

-- `strip_set.find(ch) != npos`.
pub contains : Bytes → ℕ → Bool
contains [] ch = false
contains (c ∷ s) ch = ch == c || contains s ch

pub stripit : Bytes → ℕ → Bool
unfolding isspace contains
stripit strip_set ch = if is_empty strip_set then isspace ch else contains strip_set ch

-- The first loop: as long as the first character is to be stripped, erase it.
pub strip_front : Bytes → Bytes → Bytes
strip_front strip_set [] = []
strip_front strip_set (c ∷ s) = if stripit strip_set c then strip_front strip_set s else c ∷ s

-- The second loop does the same at the back, which is the front of the reversed string.
unfoldable pub strip : Bytes → Bytes → Bytes
unfolding strip_front stripit
strip s strip_set = reverse (strip_front strip_set (reverse (strip_front strip_set s)))
