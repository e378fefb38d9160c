-- ===== src/Net/UnixAddress/Paths.antt =====
-- The path of an address, set and read back.
use libcosmos.Prelude.{
  ℕ, suc, ◌≤◌, ◌≡◌, ◌⊎◌, inl, inr, ap, refl, arith, Bool, true, false, ◌&&◌, [], ◌∷◌, ◌++◌, length,
  drop, take_front, ◌==◌, ltb, if◌then◌else◌,
}
use libcosmos.Outcome.{Bytes, ok}
use libcosmos.Net.UnixAddress.{
  Address, max_path_len, overwrite, placed, set_path, get_path, is_abstract, starts_with_null,
}

pub overwrite-end :
    (path rest : Bytes) → overwrite (length path) (0 ∷ []) (path ++ rest) ≡ path ++ 0 ∷ drop 1 rest
unfolding overwrite
overwrite-end [] rest = refl
overwrite-end (c ∷ path) rest = ap (λ s. c ∷ s) (overwrite-end path rest)

-- What `setPath` leaves in the address.
abbrev pub stored : Bytes → Bool → Address → Address
stored path is_abstract_path a = record {
  sun_family = a.sun_family;
  sun_path = placed path is_abstract_path a.sun_path;
  path_len = length path;
}

pub set_path-stored :
    (path : Bytes) (b : Bool) (a : Address)
    → length path ≤ max_path_len
    → set_path path b a ≡ (ok tt, stored path b a)
unfolding set_path
set_path-stored path b a h = rw (fits path h) refl
  where
    fits : (path : Bytes) → length path ≤ max_path_len → ltb max_path_len (length path) ≡ false
    fits path h = ground (arith, h)

-- The path that an address shows for the one that was set.
abbrev pub shown : Bytes → Bool → Bytes
shown path b = if b && (length path == 1) then 0 ∷ [] else path

and_false : (b : Bool) → (b && false) ≡ false
and_false true = refl
and_false false = refl

longer : (n : ℕ) → ltb 1 (suc (suc n)) ≡ true
longer n = ground arith

not_one : (n : ℕ) → (suc (suc n) == 1) ≡ false
not_one n = ground arith

get_path-abstract : (path : Bytes) (a : Address) → get_path (stored path true a) ≡ shown path true
unfolding get_path is_abstract starts_with_null placed overwrite
get_path-abstract [] a = refl
get_path-abstract (c ∷ []) a = refl
get_path-abstract (c ∷ d ∷ path) a =
    rw (longer (length path), not_one (length path)) (ap (λ s. c ∷ d ∷ s) (take_front path _))

get_path-plain :
    (path : Bytes) (a : Address)
    → starts_with_null path ≡ false
    → get_path (stored path false a) ≡ path
unfolding get_path is_abstract starts_with_null placed overwrite
get_path-plain [] a h = refl
get_path-plain (c ∷ path) a h =
    rw
      (
        h,
        and_false (ltb 1 (suc (length path))),
        overwrite-end path (drop (suc (length path)) a.sun_path),
      )
      (ap (λ s. c ∷ s) (take_front path _))

-- A path that fits, set as a path or as an abstract one, is read back, unless it is abstract and has
-- one character: then a null character is read. A path that is not abstract must not start with one.
pub get_path-set_path :
    (path : Bytes) (b : Bool) (a : Address)
    → length path ≤ max_path_len
    → (b ≡ true) ⊎ (starts_with_null path ≡ false)
    → ((set_path path b a).0 ≡ ok tt) × (get_path (set_path path b a).1 ≡ shown path b)
get_path-set_path path true a fits plain =
    rw (set_path-stored path true a fits) (refl, get_path-abstract path a)
get_path-set_path path false a fits (inl h) = ground (arith, h)
get_path-set_path path false a fits (inr h) =
    rw (set_path-stored path false a fits) (refl, get_path-plain path a h)
