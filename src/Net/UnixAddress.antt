-- ===== src/Net/UnixAddress.antt =====
-- `UnixAddress` of include/net/unix/UnixAddress.hxx and src/net/unix/UnixAddress.cxx. The memory of
-- `sun_path` is a list of bytes; a range that reaches behind it, which the code would read all the
-- same, ends where it ends.
pub mod Paths
pub mod Lengths
pub mod Equality
mod Tests
use libcosmos.Prelude.{
  ℕ, zero, suc, ◌+◌, ◌-◌, ◌^◌, ◌%◌, Bool, true, false, ◌&&◌, List, [], ◌∷◌, ◌++◌, length, take,
  drop, bytes_eq, map, ◌==◌, ltb, leb, codes, if◌then◌else◌,
}
use libcosmos.Outcome.{Bytes, runtime_error, Outcome, ok, throw}

-- `m_addr.sun_family`, `m_addr.sun_path` and `m_path_len`.
pub record Address : Type 0 where
  pub sun_family : ℕ
  pub sun_path : Bytes
  pub path_len : ℕ

-- `AF_UNIX`.
abbrev pub family : ℕ
family = 1

-- `BASE_SIZE`, the size of the family, and the size of `sockaddr_un`.
abbrev pub base_size : ℕ
base_size = 2

abbrev pub max_size : ℕ
max_size = 110

abbrev pub max_path_len : ℕ
max_path_len = max_size - base_size - 1

-- memcpy(3) to an offset of the memory.
unfoldable pub overwrite : ℕ → Bytes → Bytes → Bytes
overwrite zero src mem = src ++ drop (length src) mem
overwrite (suc n) src [] = []
overwrite (suc n) src (c ∷ mem) = c ∷ overwrite n src mem

unfoldable pub empty_address : Bytes → Address
unfolding overwrite
empty_address mem = record {
  sun_family = family;
  sun_path = overwrite 0 (0 ∷ []) mem;
  path_len = 0;
}

unfoldable pub size : Address → ℕ
size a = (base_size + a.path_len + 1) % 2 ^ 64

unfoldable pub starts_with_null : Bytes → Bool
starts_with_null [] = false
starts_with_null (c ∷ mem) = c == 0

unfoldable pub is_abstract : Address → Bool
unfolding starts_with_null
is_abstract a = ltb 1 a.path_len && starts_with_null a.sun_path

unfoldable pub is_unnamed : Address → Bool
is_unnamed a = a.path_len == 0

unfoldable pub get_path : Address → Bytes
unfolding is_abstract
get_path a =
    if is_abstract a then take a.path_len (drop 1 a.sun_path) else take a.path_len a.sun_path

-- The memory behind the two calls of `setPath` that write.
unfoldable pub placed : Bytes → Bool → Bytes → Bytes
unfolding overwrite
placed path true mem = overwrite 1 path (overwrite 0 (0 ∷ []) mem)
placed path false mem = overwrite (length path) (0 ∷ []) (overwrite 0 path mem)

unfoldable pub set_path : Bytes → Bool → Address → Outcome (Unit {0}) × Address
unfolding placed
set_path path is_abstract_path a =
    if ltb max_path_len (length path)
    then (throw (runtime_error "UNIX address path too long" []), a)
    else (
      ok tt,
      record {
        sun_family = a.sun_family;
        sun_path = placed path is_abstract_path a.sun_path;
        path_len = length path;
      },
    )

-- The constructor from a path.
unfoldable pub of_path : Bytes → Bool → Bytes → Outcome (Unit {0}) × Address
unfolding set_path empty_address
of_path path is_abstract_path mem = set_path path is_abstract_path (empty_address mem)

-- The constructor from a `sockaddr_un` and its length.
unfoldable pub of_raw : ℕ → Bytes → ℕ → Address
unfolding is_abstract
of_raw sun_family sun_path len =
    let all : Address = record {
      sun_family = sun_family;
      sun_path = sun_path;
      path_len = len - base_size;
    } in
    if leb base_size len
    then if is_abstract all
      then record { sun_family = sun_family; sun_path = sun_path; path_len = all.path_len - 1 }
      else all
    else record { sun_family = sun_family; sun_path = sun_path; path_len = 0 }

-- Once the system has written the address: `new_length` is the length that it reports.
unfoldable pub update : ℕ → Address → Outcome (Unit {0}) × Address
update new_length a =
    if ltb new_length base_size
    then (
      throw (runtime_error "short address on update" []),
      record { sun_family = family; sun_path = a.sun_path; path_len = 0 },
    )
    else (
      ok tt,
      record {
        sun_family = a.sun_family;
        sun_path = a.sun_path;
        path_len = (new_length - base_size + (2 ^ 64 - 1)) % 2 ^ 64;
      },
    )

unfoldable pub equal : Address → Address → Bool
equal a b =
    (a.path_len == b.path_len)
    && (a.sun_family == b.sun_family)
    && bytes_eq (take (suc a.path_len) a.sun_path) (take (suc a.path_len) b.sun_path)

unfoldable pub unless_null : ℕ → Bytes → Bytes
unless_null c [] = if c == 0 then [] else c ∷ []
unless_null c (d ∷ t) = c ∷ d ∷ t

-- Without the null characters at the end. The code asks for the last character of a text that has none left, which has no
-- meaning; here such a text stays empty.
unfoldable pub cut_nulls : Bytes → Bytes
unfolding unless_null
cut_nulls [] = []
cut_nulls (c ∷ s) = unless_null c (cut_nulls s)

-- isprint(3) in the C locale.
unfoldable pub printable : ℕ → ℕ
printable c = if leb 32 c && ltb c 127 then c else b'?'

unfoldable pub label : Address → Bytes
unfolding is_unnamed is_abstract get_path cut_nulls printable
label a =
    if is_unnamed a
    then codes "<unnamed>"
    else map printable (cut_nulls (if is_abstract a then b'@' ∷ get_path a else get_path a))
