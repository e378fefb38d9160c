-- ===== src/Io/Iovector.antt =====
-- include/io/iovector.hxx and src/io/iovector.cxx: the memory regions of scatter/gather I/O. Bases
-- are addresses; `size_t` has 64 bits.
pub mod Update
mod Tests
use libcosmos.Prelude.{
  ℕ, ◌+◌, ◌-◌, ◌%◌, ◌^◌, min, Bool, true, false, List, [], ◌∷◌, ◌==◌, if◌then◌else◌,
}
use libcosmos.Outcome.{Outcome, ok, throw, runtime_error}

abbrev pub size_mod : ℕ
size_mod = 2 ^ 64

pub record Region : Type 0 where
  pub base : ℕ
  pub length : ℕ

pub finished : Region → Bool
finished r = r.length == 0

-- The region behind the processed bytes, and how many of them are accounted for.
pub update_region : Region → ℕ → Region × ℕ
update_region r processed =
    let to_reduce = min processed r.length in
    (record { base = r.base + to_reduce; length = r.length - to_reduce }, to_reduce)

add_lengths : ℕ → List Region → ℕ
add_lengths ret [] = ret
add_lengths ret (r ∷ rs) = add_lengths ((ret + r.length) % size_mod) rs

pub left_bytes : List Region → ℕ
unfolding add_lengths
left_bytes rs = add_lengths 0 rs

-- What the loop over the entries leaves: the entries, the bytes not accounted for, and
-- `vec_finished`.
pub record Walk : Type 0 where
  pub entries : List Region
  pub processed : ℕ
  pub vec_finished : Bool

pub walk : List Region → ℕ → Walk
unfolding update_region finished
walk [] processed = record { entries = []; processed = processed; vec_finished = true }
walk (r ∷ rs) processed =
    let (r', reduced) = update_region r processed in
    let left = processed - reduced in
    let rest = walk rs left in
    if finished r'
    then record rest { entries = r' ∷ rest.entries }
    else record { entries = r' ∷ rs; processed = left; vec_finished = false }

unfoldable pub update : List Region → ℕ → Outcome Bool × List Region
unfolding walk
update rs processed =
    let w = walk rs processed in
    if w.processed == 0
    then (ok w.vec_finished, w.entries)
    else (throw (runtime_error "inconsistency while updating IOVector" []), w.entries)
