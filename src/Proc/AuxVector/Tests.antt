-- ===== src/Proc/AuxVector/Tests.antt =====
-- A small vector, and the theorem on it.
use libcosmos.Prelude.{Option, ◌≡◌, refl, true, List, [], ◌∷◌, none, some}
use libcosmos.Proc.AuxVector.{
  RawEntry, user_id, truth, number, string_at, make_data, lookup_value, as_map,
}
use libcosmos.Proc.AuxVector.Lookup.{First, data_of, find, find-as_map}

-- A page size, a user, a second page size, the terminator, and an entry behind it.
abbrev vector : List RawEntry
vector =
    record { type_of = 6; value = 4096 }
    ∷ record { type_of = 11; value = 1000 }
    ∷ record { type_of = 6; value = 8192 }
    ∷ record { type_of = 0; value = 0 }
    ∷ record { type_of = 23; value = 1 }
    ∷ []

first_page_size : lookup_value vector 6 ≡ some (number 4096)
unfolding lookup_value
first_page_size = refl

behind_the_end : lookup_value vector 23 ≡ none
unfolding lookup_value
behind_the_end = refl

table : as_map vector ≡ (6, number 4096) ∷ (11, user_id 1000) ∷ []
unfolding as_map
table = refl

executable : make_data (record { type_of = 31; value = 4198400 }) ≡ string_at 4198400
unfolding make_data
executable = refl

secure : make_data (record { type_of = 23; value = 2 }) ≡ truth true
unfolding make_data
secure = refl

find-as_map_example :
    (o : Option RawEntry) × First 11 vector o
    × (lookup_value vector 11 ≡ data_of o)
    × (find 11 (as_map vector) ≡ data_of o)
find-as_map_example = find-as_map 11 vector
