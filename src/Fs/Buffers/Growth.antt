-- ===== src/Fs/Buffers/Growth.antt =====
-- The buffers get large enough.
use libcosmos.Prelude.{
  String, ℕ, zero, suc, ◌+◌, ◌*◌, ◌<◌, ◌≤◌, ◌≡◌, refl, ap, false, [], ◌∷◌, ◌++◌, ◌==◌, ltb, length,
  take, length-take, arith, Bool-cases, inl, inr, All, ltb→lt,
}
use libcosmos.Outcome.{Bytes, ok, Reply, done, failed}
use libcosmos.Outcome.Errno
use libcosmos.Fs.Buffers.{
  link_result, read_link, read_symlink, cut_at_zero, dir_result, dir_rounds, get_working_dir,
}

take_all : (n : ℕ) (t : Bytes) → length t ≤ n → take n t ≡ t
take_all zero [] h = refl
take_all (suc n) [] h = refl
take_all zero (x ∷ t) h = absurd (omega arith)
take_all (suc n) (x ∷ t) h = ap (λ s. x ∷ s) (take_all n t (omega arith))

not_less : (n : ℕ) → ltb n n ≡ false
not_less n = ground arith

module _ {W : Type 0} (readlink : ℕ → W → Reply Bytes × W) where
  read_link_lem :
      (fuel size : ℕ) (path : Bytes) (call : String) (target : Bytes) (w : W)
      → ((n : ℕ) → readlink n w ≡ (done (take n target), w))
      → suc (length target) < size + fuel
      → 0 < fuel
      → read_link readlink fuel path call size w ≡ (ok target, w)
  unfolding read_link link_result
  read_link_lem zero size path call target w law l p = absurd (omega arith)
  read_link_lem (suc fuel) size path call target w law l p =
      elim (Bool-cases (ltb (length target) size)) [
        | inl fits ↦ let a = take_all size target (ground arith) in rw (law size, a, fits)
        | inr big ↦
            let short : length (take size target) ≡ size =
              ground (arith, length-take size target) in
            rw (law size, short, not_less size)
              (read_link_lem fuel (size + 1) path call target w law (ground arith) (ground arith))
      ]

  -- For a link that does not change, `read_symlink` with one round for each byte of the target
  -- beyond 126 returns the whole target, however long it is.
  pub read_symlink_lem :
      (fuel : ℕ) (path target : Bytes) (w : W)
      → ((n : ℕ) → readlink n w ≡ (done (take n target), w))
      → suc (length target) < 128 + fuel
      → 0 < fuel
      → read_symlink readlink fuel path w ≡ (ok target, w)
  unfolding read_symlink
  read_symlink_lem fuel path target w law l p =
      read_link_lem fuel 128 path "readlink()" target w law l p

cut_at_zero-append :
    (s rest : Bytes) → All (λ c. (c == 0) ≡ false) s → cut_at_zero (s ++ 0 ∷ rest) ≡ s
unfolding cut_at_zero
cut_at_zero-append [] rest h = refl
cut_at_zero-append (c ∷ s) rest h = rw h.0 (ap (λ t. c ∷ t) (cut_at_zero-append s rest h.1))

-- getcwd(3): a buffer too small for the path and its terminating zero is refused with `ERANGE`.
pub record FillsBuffer {W : Type 0} (getcwd : ℕ → W → Reply Bytes × W) (dir : Bytes) (w : W)
    : Type 0 where
  pub small : (n : ℕ) → n ≤ length dir → getcwd n w ≡ (failed Errno.range, w)
  pub large : (n : ℕ) → length dir < n → (rest : Bytes) × (getcwd n w ≡ (done (dir ++ 0 ∷ rest), w))

module _ {W : Type 0} (getcwd : ℕ → W → Reply Bytes × W) where
  dir_rounds_lem :
      (fuel size : ℕ) (dir : Bytes) (w : W)
      → FillsBuffer getcwd dir w
      → All (λ c. (c == 0) ≡ false) dir
      → 0 < size
      → suc (length dir) < size + fuel
      → 0 < fuel
      → dir_rounds getcwd fuel size w ≡ (ok dir, w)
  unfolding dir_rounds dir_result
  dir_rounds_lem zero size dir w laws n z l p = absurd (omega arith)
  dir_rounds_lem (suc fuel) size dir w laws n z l p = elim (Bool-cases (ltb (length dir) size)) [
    | inl fits ↦
        let (rest, e) = laws.large size (ltb→lt _ _ fits) in
        rw e (ap (λ s. (ok s, w)) (cut_at_zero-append dir rest n))
    | inr big ↦
        rw (laws.small size (ground arith))
          (dir_rounds_lem fuel (size * 2) dir w laws n (omega arith) (ground arith) (ground arith))
  ]

  -- Where the working directory does not change, `get_working_dir` with one round for each byte of
  -- its path beyond 126 returns the whole path, however long it is.
  pub get_working_dir_lem :
      (fuel : ℕ) (dir : Bytes) (w : W)
      → FillsBuffer getcwd dir w
      → All (λ c. (c == 0) ≡ false) dir
      → suc (length dir) < 128 + fuel
      → 0 < fuel
      → get_working_dir getcwd fuel w ≡ (ok dir, w)
  unfolding get_working_dir
  get_working_dir_lem fuel dir w laws n l p = dir_rounds_lem fuel 128 dir w laws n (omega arith) l p
