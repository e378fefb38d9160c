-- ===== src/Io/Iovector/Tests.antt =====
-- Runs of `IOVector::update`.
use libcosmos.Prelude.{false, ◌≡◌, refl, List, [], ◌∷◌}
use libcosmos.Outcome.{ok}
use libcosmos.Io.Iovector.{Region, update}

abbrev three_regions : List Region
three_regions =
    record { base = 10; length = 2 }
    ∷ record { base = 50; length = 0 }
    ∷ record { base = 90; length = 4 }
    ∷ []

partial_update : update three_regions 3 ≡ (
  ok false,
  record { base = 12; length = 0 }
      ∷ record { base = 50; length = 0 }
      ∷ record { base = 91; length = 3 }
      ∷ [],
)
unfolding update
partial_update = refl
