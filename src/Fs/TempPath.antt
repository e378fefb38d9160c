-- ===== src/Fs/TempPath.antt =====
-- `expand_temp_path` of src/fs/filesystem.cxx.
pub mod Template
mod Tests
use libcosmos.Prelude.{
  ℕ, Bool, true, false, List, [], ◌∷◌, ◌++◌, Option, none, some, ◌==◌, is_empty, length, drop,
  if◌then◌else◌, codes,
}
use libcosmos.Outcome.{Bytes, Outcome, ok, throw, usage_error}
use libcosmos.Text.Split.{is_prefix}

abbrev pub xs : Bytes
xs = codes "XXXXXX"

abbrev pub placeholder : Bytes
placeholder = codes "{}"

abbrev grow_path : ℕ → Bytes × Bytes → Bytes × Bytes
grow_path c ([], base) = if c == b'/' then (c ∷ [], base) else ([], c ∷ base)
grow_path c (d ∷ path, base) = (c ∷ d ∷ path, base)

-- The template up to its last slash, and the text behind it.
unfoldable pub split_path : Bytes → Bytes × Bytes
split_path [] = ([], [])
split_path (c ∷ s) = grow_path c (split_path s)

abbrev grow_base : ℕ → Bytes → Option (Bytes × Bytes) → Option (Bytes × Bytes)
grow_base c s (some (before, behind)) = some (c ∷ before, behind)
grow_base c s none = if is_prefix placeholder (c ∷ s) then some ([], drop 2 (c ∷ s)) else none

-- `base.rfind("{}")`: the text before the last placeholder and the text behind it.
unfoldable pub find_placeholder : Bytes → Option (Bytes × Bytes)
unfolding is_prefix
find_placeholder [] = none
find_placeholder (c ∷ s) = grow_base c s (find_placeholder s)

unfoldable pub expand_base : Bytes → Bytes → Option (Bytes × Bytes) → Bytes × ℕ
expand_base path base none = (path ++ (base ++ xs), 0)
expand_base path base (some (before, behind)) = (path ++ (before ++ (xs ++ behind)), length behind)

unfoldable pub expand_temp_path : Bytes → Outcome (Bytes × ℕ)
unfolding split_path find_placeholder expand_base
expand_temp_path template =
    if is_empty (split_path template).1
    then throw (usage_error "empty basename not allowed")
    else ok (
        expand_base (split_path template).0 (split_path template).1
          (find_placeholder (split_path template).1))
