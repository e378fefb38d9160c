-- ===== src/Proc/AuxVector.antt =====
-- src/proc/AuxVector.cxx: the auxiliary vector, as the list of the whole entries in its buffer. An
-- address stays a number.
pub mod Lookup
mod Tests
use libcosmos.Prelude.{
  ℕ, ◌%◌, ◌^◌, Bool, true, false, not, ◌||◌, List, [], ◌∷◌, Option, none, some, ◌==◌, if◌then◌else◌,
}

pub record RawEntry : Type 0 where
  pub type_of : ℕ
  pub value : ℕ

-- `AuxVector::Data`. A string starts at its address, a buffer there is of 16 bytes.
pub data Data : Type 0 where
  string_at : ℕ → Data
  pointer : ℕ → Data
  user_id : ℕ → Data
  group_id : ℕ → Data
  buffer_at : ℕ → Data
  truth : Bool → Data
  file_num : ℕ → Data
  number : ℕ → Data

-- `AT_BASE_PLATFORM`, `AT_EXECFN` and `AT_PLATFORM`.
unfoldable pub is_string : RawEntry → Bool
is_string e = e.type_of == 24 || e.type_of == 31 || e.type_of == 15

-- `AT_BASE`, `AT_ENTRY`, `AT_PHDR`, `AT_SYSINFO` and `AT_SYSINFO_EHDR`.
unfoldable pub is_pointer : RawEntry → Bool
is_pointer e =
    e.type_of == 7 || e.type_of == 9 || e.type_of == 3 || e.type_of == 32 || e.type_of == 33

-- `AT_EXECFD`.
unfoldable pub is_file_num : RawEntry → Bool
is_file_num e = e.type_of == 2

-- `AT_RANDOM`.
unfoldable pub is_buffer : RawEntry → Bool
is_buffer e = e.type_of == 25

-- `AT_UID` and `AT_EUID`.
unfoldable pub is_uid : RawEntry → Bool
is_uid e = e.type_of == 11 || e.type_of == 12

-- `AT_GID` and `AT_EGID`.
unfoldable pub is_gid : RawEntry → Bool
is_gid e = e.type_of == 13 || e.type_of == 14

-- `AT_SECURE`.
unfoldable pub is_bool : RawEntry → Bool
is_bool e = e.type_of == 23

-- `AT_NULL`.
unfoldable pub is_null : RawEntry → Bool
is_null e = e.type_of == 0

-- The casts to the numbers of users, groups and files keep the low 32 bits.
unfoldable pub make_data : RawEntry → Data
unfolding is_string is_pointer is_uid is_gid is_buffer is_bool is_file_num
make_data e =
    if is_string e
    then string_at e.value
    else if is_pointer e
    then pointer e.value
    else if is_uid e
    then user_id (e.value % 2 ^ 32)
    else if is_gid e
    then group_id (e.value % 2 ^ 32)
    else if is_buffer e
    then buffer_at e.value
    else if is_bool e
    then truth (not (e.value == 0))
    else if is_file_num e
    then file_num (e.value % 2 ^ 32)
    else number e.value

-- The callback takes what it has captured and answers whether to go on, and what it then holds.
unfoldable pub iterate : {S : Type 0} → (RawEntry → S → Bool × S) → List RawEntry → S → S
unfolding is_null
iterate cb [] s = s
iterate cb (e ∷ entries) s =
    let rest = iterate cb entries (cb e s).1 in
    if is_null e then s else if (cb e s).0 then rest else (cb e s).1

-- The callback of `lookupValue`.
abbrev pub seek : ℕ → RawEntry → Option Data → Bool × Option Data
seek type_of e ret = if e.type_of == type_of then (false, some (make_data e)) else (true, ret)

unfoldable pub lookup_value : List RawEntry → ℕ → Option Data
unfolding iterate make_data
lookup_value view type_of = iterate (seek type_of) view none

-- `std::map`: its keys with their values. An insertion leaves a key that is there as it is.
abbrev pub Table : Type 0
Table = List (ℕ × Data)

unfoldable pub insert : ℕ → Data → Table → Table
insert key d [] = (key, d) ∷ []
insert key d ((k, x) ∷ m) =
    let rest = insert key d m in if k == key then (k, x) ∷ m else (k, x) ∷ rest

-- The callback of `asMap`.
abbrev pub collect : RawEntry → Table → Bool × Table
collect e m = (true, insert e.type_of (make_data e) m)

unfoldable pub as_map : List RawEntry → Table
unfolding iterate insert make_data
as_map view = iterate collect view []
