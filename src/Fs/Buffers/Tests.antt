-- ===== src/Fs/Buffers/Tests.antt =====
-- Runs of the two functions, and the theorems at these inputs.
use libcosmos.Prelude.{
  ℕ, ◌≤◌, ◌≡◌, refl, false, [], ◌∷◌, ◌++◌, codes, take, length, arith, ltb, lt→ltb, if◌then◌else◌,
}
use libcosmos.Outcome.{Bytes, ok, Reply, done, failed}
use libcosmos.Outcome.Errno
use libcosmos.Fs.Buffers.{read_link, dir_rounds}
use libcosmos.Fs.Buffers.Growth.{FillsBuffer}

abbrev target : Bytes
target = codes "../lib/x"

abbrev readlink : ℕ → ℕ → Reply Bytes × ℕ
readlink n w = (done (take n target), w)

abbrev getcwd : ℕ → ℕ → Reply Bytes × ℕ
getcwd n w =
    if ltb (length target) n then (done (target ++ 0 ∷ 120 ∷ []), w) else (failed Errno.range, w)

-- From a buffer that is too small.
grows : read_link readlink 20 (codes "/l") "readlink()" 2 0 ≡ (ok target, 0)
unfolding read_link
grows = refl

doubles : dir_rounds getcwd 4 2 0 ≡ (ok target, 0)
unfolding dir_rounds
doubles = refl

fills : FillsBuffer getcwd target 0
fills = record { small = λ n h. rw (small_test n h); large = λ n h. (120 ∷ [], rw (lt→ltb _ n h)) }
  where
    small_test : (n : ℕ) → n ≤ length target → ltb (length target) n ≡ false
    small_test n h = ground arith
