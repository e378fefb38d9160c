-- ===== src/Prelude/Tables.antt =====
-- Facts about all numbers under a small bound, by evaluation.
use Prim.Native.Nat.{ℕ, zero, suc, ◌<◌}
use mathlib.Core.Path.{◌≡◌}
use mathlib.Core.Bool.{Bool, true, false}
use native.Mathlib.Omega.{arith}
use libcosmos.Prelude.Tests.{if◌then◌else◌, ==_iff, ◌==◌}

unfoldable pub passes : (ℕ → Bool) → ℕ → Bool
passes test zero = true
passes test (suc k) = if test k then passes test k else false

passes-at :
    (test : ℕ → Bool) (bound : ℕ) {x : ℕ} → passes test bound ≡ true → x < bound → test x ≡ true
unfolding passes
passes-at test zero all under = elim under [ ]
passes-at test (suc k) {x} all under = ground (arith, passes-at test k {x = x})

-- Two functions that agree under a bound, by a table.
pub tabulated :
    (f g : ℕ → ℕ) (bound : ℕ) {x : ℕ}
    → passes (λ k. f k == g k) bound ≡ true
    → x < bound
    → f x ≡ g x
tabulated f g bound {x} all under = (==_iff (f x) (g x)).0 (passes-at _ bound all under)
