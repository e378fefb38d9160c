-- ===== src/Io/Iovector/Update.antt =====
-- What `IOVector::update` and `IOVector::leftBytes` do (src/io/iovector.cxx).
use libcosmos.Prelude.{
  ℕ, zero, suc, ◌+◌, ◌-◌, ◌%◌, ◌≤◌, ◌<◌, min, ◌≡◌, refl, sym, ◌∙◌, ap, List, [], ◌∷◌, ◌++◌, map,
  drop, arith, ◌==◌,
}
use libcosmos.Outcome.{ok, throw, runtime_error}
use libcosmos.Io.Iovector.{Region, Walk, add_lengths, left_bytes, walk, update, size_mod}

-- The bytes left, in unbounded arithmetic.
abbrev pub total : List Region → ℕ
total [] = 0
total (r ∷ rs) = r.length + total rs

add_lengths-total :
    (ret : ℕ) (rs : List Region) → ret + total rs < size_mod → add_lengths ret rs ≡ ret + total rs
unfolding add_lengths
add_lengths-total ret [] h = omega arith
add_lengths-total ret (r ∷ rs) h =
    omega (arith, add_lengths-total (ret + r.length) rs (omega arith), fits)
  where
    fits : add_lengths ((ret + r.length) % size_mod) rs ≡ add_lengths (ret + r.length) rs
    fits = ap (λ n. add_lengths n rs) (omega arith)

-- `leftBytes` is the sum of the lengths as long as the sum fits in `size_t`.
pub left_bytes-total : (rs : List Region) → total rs < size_mod → left_bytes rs ≡ total rs
unfolding left_bytes
left_bytes-total rs h = add_lengths-total 0 rs (omega arith) ∙ omega arith

-- What a walk takes off the entries.
record Taken (rs : List Region) (n : ℕ) (w : Walk) : Type 0 where
  rest : total w.entries + (n - w.processed) ≡ total rs
  excess : w.processed ≡ n - total rs
  flag : w.vec_finished ≡ (total w.entries == 0)

walk-Taken : (rs : List Region) (n : ℕ) → Taken rs n (walk rs n)
unfolding walk
walk-Taken [] n = record { rest = omega arith; excess = omega arith; flag = refl }
walk-Taken (r ∷ rs) n = ground (arith, walk-Taken rs (n - min n r.length))

-- If at most the bytes that are left were processed, `update` takes exactly these off, and answers
-- whether none is left.
pub update_within :
    (rs : List Region) (n : ℕ)
    → n ≤ total rs
    → ((update rs n).0 ≡ ok (total (update rs n).1 == 0)) × (total (update rs n).1 + n ≡ total rs)
unfolding update
update_within rs n h = ground (arith, walk-Taken rs n)

-- If more bytes are reported than were left, `update` throws, and every region is used up.
pub update_beyond :
    (rs : List Region) (n : ℕ)
    → total rs < n
    → ((update rs n).0 ≡ throw (runtime_error "inconsistency while updating IOVector" []))
      × (total (update rs n).1 ≡ 0)
unfolding update
update_beyond rs n h = ground (arith, walk-Taken rs n)

-- The addresses of `n` bytes from `base` on.
abbrev pub span : ℕ → ℕ → List ℕ
span base zero = []
span base (suc n) = base ∷ span (base + 1) n

-- The addresses that the regions stand for, in the order in which a system call uses them.
abbrev pub addresses : List Region → List ℕ
addresses [] = []
addresses (r ∷ rs) = span r.base r.length ++ addresses rs

-- The first address behind a region.
abbrev pub limit : Region → ℕ
limit r = r.base + r.length

drop-span_lt :
    (n base len : ℕ) (rest : List ℕ)
    → n ≤ len
    → drop n (span base len ++ rest) ≡ span (base + n) (len - n) ++ rest
drop-span_lt zero base len rest h = ground arith
drop-span_lt (suc n) base zero rest h = absurd (omega arith)
drop-span_lt (suc n) base (suc len) rest h = ground (arith, drop-span_lt n (base + 1) len rest)

drop-span_ge :
    (n base len : ℕ) (rest : List ℕ)
    → len ≤ n
    → drop n (span base len ++ rest) ≡ drop (n - len) rest
drop-span_ge n base zero rest h = ground arith
drop-span_ge zero base (suc len) rest h = absurd (omega arith)
drop-span_ge (suc n) base (suc len) rest h = ground (arith, drop-span_ge n (base + 1) len rest)

drop-nil : (n : ℕ) → ◌≡◌ {A = List ℕ} (drop n []) []
drop-nil zero = refl
drop-nil (suc n) = refl

walk-addresses : (rs : List Region) (n : ℕ) → addresses (walk rs n).entries ≡ drop n (addresses rs)
unfolding walk
walk-addresses [] n = sym (drop-nil n)
walk-addresses (r ∷ rs) n = ground (
  arith,
  walk-addresses rs (n - min n r.length),
  drop-span_lt n r.base r.length (addresses rs),
  drop-span_ge n r.base r.length (addresses rs),
)

walk-limits : (rs : List Region) (n : ℕ) → map limit (walk rs n).entries ≡ map limit rs
unfolding walk
walk-limits [] n = refl
walk-limits (r ∷ rs) n = ground (arith, walk-limits rs (n - min n r.length))

-- For any count, the addresses left after `update` are the old ones without the first `n`, and no
-- region ends elsewhere than before.
pub addresses-update :
    (rs : List Region) (n : ℕ)
    → (addresses (update rs n).1 ≡ drop n (addresses rs))
      × (map limit (update rs n).1 ≡ map limit rs)
unfolding update
addresses-update rs n = ground (arith, walk-addresses rs n, walk-limits rs n)
