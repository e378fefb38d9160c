-- ===== src/Net/UnixAddress/Tests.antt =====
-- Runs on small addresses, and the theorems at these inputs.
use libcosmos.Prelude.{
  ℕ, ◌-◌, ◌^◌, ◌≡◌, ◌↔◌, refl, inl, arith, true, false, [], ◌∷◌, ◌++◌, codes, if◌then◌else◌,
}
use libcosmos.Outcome.{Bytes, ok, throw, runtime_error}
use libcosmos.Net.UnixAddress.{
  Address, set_path, of_path, of_raw, get_path, size, update, is_unnamed, equal, label,
  starts_with_null,
}
use libcosmos.Net.UnixAddress.Paths.{get_path-set_path}
use libcosmos.Net.UnixAddress.Lengths.{update_lem, of_raw-size}
use libcosmos.Net.UnixAddress.Equality.{equal-of_path}

abbrev memory : Bytes
memory = 7 ∷ 7 ∷ 7 ∷ 7 ∷ 7 ∷ 7 ∷ []

-- The path `/s`.
abbrev socket : Address
socket = record { sun_family = 1; sun_path = codes "/s" ++ 0 ∷ 7 ∷ 7 ∷ 7 ∷ []; path_len = 2 }

placed_path : of_path (codes "/s") false memory ≡ (ok tt, socket)
unfolding of_path
placed_path = refl

abstract_label : label (of_path (codes "ab") true memory).1 ≡ codes "@ab"
unfolding label of_path
abstract_label = refl

unprintable : label (of_path (codes "/" ++ 10 ∷ 0 ∷ []) false memory).1 ≡ codes "/?"
unfolding label of_path
unprintable = refl

-- The length for an address without a path.
unnamed_length : (update 2 socket).1.path_len ≡ 2 ^ 64 - 1
unfolding update
unnamed_length = refl

too_short : (update 1 socket).0 ≡ throw (runtime_error "short address on update" [])
unfolding update
too_short = refl

get_path-set_path_example :
    ((set_path (codes "a") true socket).0 ≡ ok tt)
    × (get_path (set_path (codes "a") true socket).1 ≡ 0 ∷ [])
get_path-set_path_example = get_path-set_path (codes "a") true socket (omega arith) (inl refl)

update_lem_example :
    ((update 2 socket).0 ≡ ok tt)
    × (size (update 2 socket).1 ≡ 2)
    × ((is_unnamed (update 2 socket).1 ≡ true) ↔ ◌≡◌ {A = ℕ} 2 3)
update_lem_example = update_lem 2 socket (omega arith) (omega arith)

raw_length :
    (of_raw 1 (codes "/s" ++ 0 ∷ 7 ∷ 7 ∷ 7 ∷ []) (size socket)).path_len
    ≡ (if starts_with_null (codes "/s" ++ 0 ∷ 7 ∷ 7 ∷ 7 ∷ []) then 2 else 3)
raw_length = of_raw-size socket (omega arith) (omega arith)

equal-of_path_example :
    (equal (of_path (codes "/s") false memory).1 (of_path (codes "/s") false (0 ∷ memory)).1 ≡ true)
    ↔ (codes "/s" ≡ codes "/s")
equal-of_path_example =
    equal-of_path (codes "/s") (codes "/s") false memory (0 ∷ memory) (omega arith) (omega arith)
