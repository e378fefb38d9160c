-- ===== src/Net/UnixAddress/Lengths.antt =====
-- The length that the system reports for an address, and the length of the path.
use libcosmos.Prelude.{
  ℕ, suc, ◌+◌, ◌-◌, ◌^◌, ◌%◌, ◌≤◌, ◌<◌, ◌≡◌, ◌↔◌, refl, arith, true, false, ◌==◌, ==_iff, ltb, leb,
  inl, inr, Bool-cases, if◌then◌else◌,
}
use libcosmos.Outcome.{ok}
use libcosmos.Net.UnixAddress.{
  Address, base_size, max_path_len, size, update, is_unnamed, of_raw, is_abstract, starts_with_null,
}

not_short : (n : ℕ) → 2 ≤ n → ltb n base_size ≡ false
not_short n h = ground (arith, h)

pub update-size_back :
    (n : ℕ) → 2 ≤ n → n < 2 ^ 64 → (2 + (n - 2 + (2 ^ 64 - 1)) % 2 ^ 64 + 1) % 2 ^ 64 ≡ n
update-size_back n h l = omega (arith, h, l)

len_zero : (n : ℕ) → 2 ≤ n → n < 2 ^ 64 → (((n - 2 + (2 ^ 64 - 1)) % 2 ^ 64 == 0) ≡ true) ↔ (n ≡ 3)
len_zero n h l = (
  λ e. omega (arith, h, l, (==_iff ((n - 2 + (2 ^ 64 - 1)) % 2 ^ 64) 0).0 e),
  λ e. (==_iff ((n - 2 + (2 ^ 64 - 1)) % 2 ^ 64) 0).1 (omega (arith, e)),
)

-- After `update` with a length that holds the family, `size` is this length; the address counts as
-- unnamed exactly for the length 3, and so not for 2, the one that the system reports for an unnamed
-- address.
pub update_lem :
    (n : ℕ) (a : Address)
    → base_size ≤ n
    → n < 2 ^ 64
    → ((update n a).0 ≡ ok tt)
      × (size (update n a).1 ≡ n)
      × ((is_unnamed (update n a).1 ≡ true) ↔ (n ≡ 3))
unfolding update size is_unnamed
update_lem n a h l = rw (not_short n h) (refl, update-size_back n h l, len_zero n h l)

size_three : (p : ℕ) → p ≤ max_path_len → (2 + p + 1) % 2 ^ 64 ≡ p + 3
size_three p h = omega (arith, h)

len_back : (p : ℕ) → p ≤ max_path_len → (p + 3 - 2 + (2 ^ 64 - 1)) % 2 ^ 64 ≡ p
len_back p h = omega (arith, h)

-- An address gives its own length to `update` and stays what it is.
pub update-size : (a : Address) → a.path_len ≤ max_path_len → update (size a) a ≡ (ok tt, a)
unfolding update size
update-size a h =
    rw (size_three a.path_len h, not_short (a.path_len + 3) (omega arith), len_back a.path_len h)
      refl

holds_family : (p : ℕ) → leb 2 (p + 3) ≡ true
holds_family p = ground arith

longer : (p : ℕ) → 0 < p → ltb 1 (p + 3 - 2) ≡ true
longer p h = ground (arith, h)

-- The constructor from a `sockaddr_un` with the length that an address has gives an abstract
-- address its length back, and one with a path a length that counts the terminator too.
pub of_raw-size :
    (a : Address)
    → 0 < a.path_len
    → a.path_len ≤ max_path_len
    → (of_raw a.sun_family a.sun_path (size a)).path_len
      ≡ (if starts_with_null a.sun_path then a.path_len else suc a.path_len)
unfolding of_raw size is_abstract
of_raw-size a p h = elim (Bool-cases (starts_with_null a.sun_path)) [
  | inl n ↦
      rw (size_three a.path_len h, holds_family a.path_len, longer a.path_len p, n) (omega arith)
  | inr n ↦
      rw (size_three a.path_len h, holds_family a.path_len, longer a.path_len p, n) (omega arith)
]
