-- ===== src/Text/Split.antt =====
-- `split` of src/string.cxx. A position in the string stands as the rest of the string from there
-- on, `npos` as `none`. Both loops take fuel.
pub mod Find
pub mod Join
pub mod Parts
pub mod Limits
pub mod Total
use libcosmos.Prelude.{
  ℕ, zero, suc, ◌+◌, Bool, true, false, ◌&&◌, ◌||◌, not, List, [], ◌∷◌, ◌++◌, Option, none, some,
  ◌==◌, is_empty, length, take, drop, if◌then◌else◌,
}
use libcosmos.Outcome.{Bytes, Outcome, ok, throw, spins}
use libcosmos.Text.Strip.{strip}

pub record SplitFlags : Type 0 where
  pub strip_parts : Bool
  pub keep_empty : Bool

-- `str.substr(pos1, sep.size()) == sep`, and `starts_with`.
unfoldable pub is_prefix : Bytes → Bytes → Bool
is_prefix [] s = true
is_prefix (p ∷ ps) [] = false
is_prefix (p ∷ ps) (c ∷ s) = p == c && is_prefix ps s

abbrev next_position : Option ℕ → Option ℕ
next_position none = none
next_position (some n) = some (suc n)

-- `std::string::find`: how far on the separator is.
unfoldable pub find : Bytes → Bytes → Option ℕ
unfolding is_prefix
find sep [] = if is_prefix sep [] then some 0 else none
find sep (c ∷ s) =
    let later = next_position (find sep s) in if is_prefix sep (c ∷ s) then some 0 else later

-- `while (str.substr(pos1, sep.size()) == sep) pos1 += sep.size();`
pub skip : ℕ → Bytes → Bytes → Outcome Bytes
skip zero sep s = spins
skip (suc fuel) sep s =
    let rest = skip fuel sep (drop (length sep) s) in if is_prefix sep s then rest else ok s

-- The part of the string up to the next separator, stripped if the flags say so.
pub token : SplitFlags → Bytes → Option ℕ → Bytes
token flags s none = if flags.strip_parts then strip s [] else s
token flags s (some zero) = []
token flags s (some (suc n)) =
    if flags.strip_parts then strip (take (suc n) s) [] else take (suc n) s

pub push : SplitFlags → List Bytes → Bytes → List Bytes
push flags parts t = if not (is_empty t) || flags.keep_empty then parts ++ t ∷ [] else parts

-- `max_reached ? str.npos : str.find(sep, pos1)`.
pub find_next : ℕ → Bytes → List Bytes → Bytes → Option ℕ
unfolding find
find_next max_splits sep parts s =
    if not (max_splits == 0) && length parts == max_splits then none else find sep s

-- What one round does from the start `s` of a token, the rounds after it included.
pub cut :
    SplitFlags
    → Bytes
    → List Bytes
    → Bytes
    → Option ℕ
    → (List Bytes → Bytes → Outcome (List Bytes))
    → Outcome (List Bytes)
unfolding token push
cut flags sep parts s none rest = ok (push flags parts (token flags s none))
cut flags sep parts s (some n) rest =
    rest (push flags parts (token flags s (some n))) (drop (n + length sep) s)

abbrev from_start : Outcome Bytes → (Bytes → Outcome (List Bytes)) → Outcome (List Bytes)
from_start (ok s) f = f s
from_start (throw x) f = throw x
from_start spins f = spins

-- The loop, at the end `s` of the last token.
pub rounds : ℕ → SplitFlags → ℕ → Bytes → List Bytes → Bytes → Outcome (List Bytes)
unfolding skip cut find_next
rounds zero flags max_splits sep parts s = spins
rounds (suc fuel) flags max_splits sep parts s =
    let rest = rounds fuel flags max_splits sep in
    let start = if flags.keep_empty then ok s else skip fuel sep s in
    from_start start (λ s'. cut flags sep parts s' (find_next max_splits sep parts s') rest)

unfoldable pub split : ℕ → Bytes → Bytes → SplitFlags → ℕ → Outcome (List Bytes)
unfolding rounds
split fuel str sep flags max_splits = rounds fuel flags max_splits sep [] str
