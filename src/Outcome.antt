-- ===== src/Outcome.antt =====
-- How an operation of the library ends, and computations over a world: include/error and the
-- exceptions that the sources throw.
pub mod Errno
use libcosmos.Prelude.{ℕ, ◌≡◌, refl, String, List}

-- A `std::string` or `std::string_view` as its bytes.
abbrev pub Bytes : Type 0
Bytes = List ℕ

-- The exception classes. A message is the literal of the source and the text that it is formatted
-- with. `link_error` is a `FileError` whose operation
-- names a second path, `forwarded_error` an `ApiError` with the text that `setMessage` put in, `foreign` an
-- exception that is no `std::exception`.
pub data Exception : Type 0 where
  api_error : String → ℕ → Exception
  file_error : Bytes → String → ℕ → Exception
  link_error : Bytes → String → Bytes → ℕ → Exception
  would_block : String → Exception
  runtime_error : String → Bytes → Exception
  usage_error : String → Exception
  forwarded_error : ℕ → Bytes → Exception
  foreign : Exception

-- `spins` is a loop that used up its fuel.
pub data Outcome {ℓ} (A : Type ℓ) : Type ℓ where
  ok : A → Outcome A
  throw : Exception → Outcome A
  spins : Outcome A

-- What a call of the operating system answers: its value, or the `errno` that it sets.
pub data Reply {ℓ} (A : Type ℓ) : Type ℓ where
  done : A → Reply A
  failed : ℕ → Reply A

module _ {ℓ κ} {A : Type ℓ} {B : Type κ} where
  abbrev pub and_then : Outcome A → (A → Outcome B) → Outcome B
  and_then (ok a) f = f a
  and_then (throw x) f = throw x
  and_then spins f = spins

-- A computation over the state `W` of everything outside the library.
abbrev pub Comp : Type 0 → Type 0 → Type 0
Comp W A = W → Outcome A × W

module _ {W A B : Type 0} where
  abbrev pub next : Outcome A → W → (A → Comp W B) → Outcome B × W
  next (ok a) w f = f a w
  next (throw x) w f = (throw x, w)
  next spins w f = (spins, w)

  pub next_ext :
      (r : Outcome A) (w : W) {f g : A → Comp W B}
      → ((a : A) (v : W) → f a v ≡ g a v)
      → next r w f ≡ next r w g
  next_ext (ok a) w e = e a w
  next_ext (throw x) w e = refl
  next_ext spins w e = refl

  infixl 5 ◌>>=◌
  abbrev pub ◌>>=◌ : Comp W A → (A → Comp W B) → Comp W B
  ◌>>=◌ m f w = next (m w).0 (m w).1 f

module _ {W B : Type 0} where
  infixl 5 ◌>>◌
  abbrev pub ◌>>◌ : Comp W (Unit {0}) → Comp W B → Comp W B
  m >> k = m >>= λ _. k

abbrev pub pure : {W A : Type 0} → A → Comp W A
pure a w = (ok a, w)

abbrev pub raise : {W A : Type 0} → Exception → Comp W A
raise x w = (throw x, w)

-- A call whose failure is an exception, as `if (::call() != 0) throw …` is.
abbrev pub checked : {W A : Type 0} → (ℕ → Exception) → Reply A × W → Outcome A × W
checked x (done a, w) = (ok a, w)
checked x (failed e, w) = (throw (x e), w)
