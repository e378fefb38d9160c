-- ===== src/BitMask/Tests.antt =====
-- Runs of the operations of `BitMask`, and the theorems at these inputs.
use libcosmos.Prelude.{◌≡◌, refl, [], ◌∷◌, codes, true, false, arith}
use libcosmos.Outcome.{ok, usage_error, throw}
use libcosmos.BitMask.{steal, to_string, any_of, any_of_mask, of_flags}
use libcosmos.BitMask.Members.{Stolen, steal_lem}

steals_both_bits : steal 8 0b1110 0b0110 ≡ (ok true, 0b1000)
unfolding steal
steals_both_bits = refl

keeps_one_bit : steal 8 0b1010 0b0110 ≡ (ok false, 0b1010)
unfolding steal
keeps_one_bit = refl

steal_lem_example : Stolen 0b1110 0b0110 (steal 8 0b1110 0b0110)
steal_lem_example = steal_lem 8 0b1110 0b0110 (omega arith) (omega arith)

-- A flag of two bits: the list asks for both, the mask for one.
flags_differ_from_mask :
    (any_of 0b0100 (0b1100 ∷ []) ≡ ok false) × (any_of_mask 0b0100 (of_flags (0b1100 ∷ [])) ≡ true)
unfolding any_of any_of_mask of_flags
flags_differ_from_mask = (refl, refl)

no_flag : any_of 0b0100 (0 ∷ []) ≡ throw (usage_error "test for zero")
unfolding any_of
no_flag = refl

written_out : to_string 8 0b0010_1100 ≡ ok (codes "00101100")
unfolding to_string
written_out = refl
