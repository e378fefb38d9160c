-- ===== src/SizedArray.antt =====
-- `SizedArray` of include/SizedArray.hxx: an array of fixed size with a count of the elements in use.
pub mod Stack
mod Tests
use libcosmos.Prelude.{
  ℕ, zero, suc, ◌+◌, ◌-◌, Bool, true, false, String, List, [], ◌∷◌, Option, none, some, ◌==◌, ltb,
  leb, length, get_elem?, if◌then◌else◌,
}

-- The exceptions of the standard library that the class throws.
pub data Failure : Type 0 where
  out_of_range : String → Failure
  bad_alloc : Failure
  runtime_error : String → Failure

pub data Result {ℓ} (A : Type ℓ) : Type ℓ where
  value : A → Result A
  fails : Failure → Result A

module _ {A : Type 0} where
  -- `n` times the same element: `m_array.fill`.
  unfoldable pub filled : ℕ → A → List A
  filled zero x = []
  filled (suc n) x = x ∷ filled n x

  unfoldable pub set_elem : ℕ → A → List A → List A
  set_elem i t [] = []
  set_elem zero t (x ∷ xs) = t ∷ xs
  set_elem (suc i) t (x ∷ xs) = x ∷ set_elem i t xs

-- `m_array` and `m_used`.
pub record SizedArray (A : Type 0) : Type 0 where
  pub array : List A
  pub used : ℕ

module _ {A : Type 0} where
  -- The constructor, for an array of `capacity` elements.
  unfoldable pub create : ℕ → A → ℕ → Result (SizedArray A)
  unfolding filled
  create capacity init size =
      if ltb capacity size
      then fails (out_of_range "excess array init size")
      else value (record { array = filled capacity init; used = size })

  unfoldable pub clear : SizedArray A → SizedArray A
  clear s = record { array = s.array; used = 0 }

  unfoldable pub empty : SizedArray A → Bool
  empty s = s.used == 0

  unfoldable pub size : SizedArray A → ℕ
  size s = s.used

  unfoldable pub max_size : SizedArray A → ℕ
  max_size s = length s.array

  -- An index in use that the array does not have is its own exception.
  abbrev pub or_range : Option A → Result A
  or_range none = fails (out_of_range "array::at")
  or_range (some x) = value x

  unfoldable pub at : ℕ → SizedArray A → Result A
  at i s =
      if leb s.used i
      then fails (out_of_range "access beyond used elements")
      else or_range (get_elem? s.array i)

  unfoldable pub push_back : A → SizedArray A → Result (Unit {0}) × SizedArray A
  unfolding set_elem max_size
  push_back t s =
      if s.used == max_size s
      then (fails bad_alloc, s)
      else (value tt, record { array = set_elem s.used t s.array; used = suc s.used })

  unfoldable pub pop_back : SizedArray A → Result (Unit {0}) × SizedArray A
  pop_back s =
      if s.used == 0
      then (fails (runtime_error "pop on empty array"), s)
      else (value tt, record { array = s.array; used = s.used - 1 })

  -- The first element, in use or not.
  unfoldable pub front : SizedArray A → Option A
  front s = get_elem? s.array 0

  -- `*rbegin()`: the reverse iterator skips the elements that are not in use. With none in use it is
  -- the end, which has no element.
  unfoldable pub back : SizedArray A → Option A
  back s = if s.used == 0 then none else get_elem? s.array (s.used - 1)
