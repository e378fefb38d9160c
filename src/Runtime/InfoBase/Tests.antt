-- ===== src/Runtime/InfoBase/Tests.antt =====
-- Lookups in databases that want a larger buffer, and that fail.
use libcosmos.Prelude.{ℕ, suc, ◌≡◌, refl, Option, none, some, ltb, if◌then◌else◌, arith}
use libcosmos.Outcome.{ok, spins}
use libcosmos.Outcome.Errno
use libcosmos.Runtime.InfoBase.{get_info}
use libcosmos.Runtime.InfoBase.Lookup.{Settled, get_info-Settled, get_info_stuck}

-- The world counts the calls.
abbrev large_entry : ℕ → ℕ → (ℕ × Option ℕ) × ℕ
large_entry n w = ((if ltb n 3000 then (Errno.range, none) else (Errno.no_error, some 1000)), suc w)

abbrev broken : ℕ → ℕ → (ℕ × Option ℕ) × ℕ
broken n w = ((5, none), suc w)

fourth_call : get_info large_entry 7 0 ≡ (ok (some 1000), 4)
unfolding get_info
fourth_call = refl

get_info-Settled_example : Settled large_entry 3000 (some 1000) (get_info large_entry 7 0)
get_info-Settled_example =
    get_info-Settled large_entry 7 3000 (some 1000) 0 (λ n w. refl) (omega arith)

get_info_stuck_example : get_info broken 9 0 ≡ (spins, 9)
get_info_stuck_example =
    get_info_stuck broken 9 0 (λ n w. ((λ e. omega (arith, e)), (λ e. omega (arith, e))))
