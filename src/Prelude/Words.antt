-- ===== src/Prelude/Words.antt =====
-- Words of 32 bits as four little-endian bytes in memory, and texts laid one behind the other.
use Prim.Native.Nat.{ℕ, ◌+◌, ◌*◌, ◌/◌, ◌%◌}
use mathlib.Core.Path.{◌≡◌, refl, ap}
use mathlib.Core.List.{List, [], ◌∷◌, ◌++◌}
use native.Mathlib.Omega.{arith}
use libcosmos.Prelude.Lists.{length, take, drop}

-- The bytes of a number below `2 ^ 32`.
abbrev pub word : ℕ → List ℕ
word n = n % 256 ∷ n / 256 % 256 ∷ n / 65536 % 256 ∷ n / 16777216 ∷ []

-- The number that four bytes stand for.
abbrev pub word_at : List ℕ → ℕ
word_at (a ∷ b ∷ c ∷ d ∷ s) = a + 256 * (b + 256 * (c + 256 * d))
word_at _ = 0

pub word_lem :
    (n : ℕ) → n % 256 + 256 * (n / 256 % 256 + 256 * (n / 65536 % 256 + 256 * (n / 16777216))) ≡ n
word_lem n = omega arith

module _ {ℓ} {A : Type ℓ} where
  pub take_front : (s t : List A) → take (length s) (s ++ t) ≡ s
  take_front [] t = refl
  take_front (c ∷ s) t = ap (λ x. c ∷ x) (take_front s t)

  pub drop_front : (s t : List A) → drop (length s) (s ++ t) ≡ t
  drop_front [] t = refl
  drop_front (c ∷ s) t = drop_front s t
