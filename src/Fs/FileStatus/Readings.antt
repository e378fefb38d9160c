-- ===== src/Fs/FileStatus/Readings.antt =====
-- For which types of files the readings of a `FileStatus` have a meaning.
use libcosmos.Prelude.{
  ℕ, ◌≡◌, ◌≢◌, ◌⊎◌, inl, inr, refl, ◌∙◌, false, ◌||◌, ◌==◌, ==_iff, if◌then◌else◌, Bool-cases,
  arith,
}
use libcosmos.Outcome.{usage_error, Outcome, ok, throw}
use libcosmos.Fs.FileMode.{regular, symlink, directory, blockdev, chardev}
use libcosmos.Fs.FileStatus.{Stat, type_of, size, represented_device}

-- The types that hold a size, those that stand for a device, and the rest.
pub data Kind (t : ℕ) : Type 0 where
  sized : (t ≡ regular) ⊎ (t ≡ symlink) ⊎ (t ≡ directory) → Kind t
  device : (t ≡ blockdev) ⊎ (t ≡ chardev) → Kind t
  other : t ≢ regular → t ≢ symlink → t ≢ directory → t ≢ blockdev → t ≢ chardev → Kind t

abbrev pub no_size : Outcome ℕ
no_size = throw (usage_error "invalid type for st_size")

abbrev pub no_device : Outcome ℕ
no_device = throw (usage_error "attempted to get st_rdev but this is no dev!")

-- What the two readings answer for a kind of file.
abbrev pub Answers : (st : Stat) → Kind (type_of st) → Type 0
Answers st (sized _) = (size st ≡ ok st.st_size) × (represented_device st ≡ no_device)
Answers st (device _) = (size st ≡ no_size) × (represented_device st ≡ ok st.st_rdev)
Answers st (other _ _ _ _ _) = (size st ≡ no_size) × (represented_device st ≡ no_device)

size_lem :
    (st : Stat) (t : ℕ)
    → type_of st ≡ t
    → size st ≡ (if t == regular || t == symlink || t == directory then ok st.st_size else no_size)
unfolding size
size_lem st t e = rw e refl

device_lem :
    (st : Stat) (t : ℕ)
    → type_of st ≡ t
    → represented_device st ≡ (if t == blockdev || t == chardev then ok st.st_rdev else no_device)
unfolding represented_device
device_lem st t e = rw e refl

other_than : (t c : ℕ) → (t == c) ≡ false → t ≢ c
other_than t c h e = ground (arith, h, e)

-- Of every status at most one of `size` and `representedDevice` has an answer: the size for regular
-- files, symbolic links and directories, the device for block and character devices, none for the
-- other types. Where a reading has no answer it throws a `UsageError`.
pub readings_lem : (st : Stat) → (k : Kind (type_of st)) × Answers st k
readings_lem st = elim (Bool-cases (type_of st == regular)) [
  | inl r ↦
      let e = (==_iff (type_of st) regular).0 r in
      (sized (inl e), (size_lem st regular e, device_lem st regular e))
  | inr nr ↦ elim (Bool-cases (type_of st == symlink)) [
    | inl l ↦
        let e = (==_iff (type_of st) symlink).0 l in
        (sized (inr (inl e)), (size_lem st symlink e, device_lem st symlink e))
    | inr nl ↦ elim (Bool-cases (type_of st == directory)) [
      | inl d ↦
          let e = (==_iff (type_of st) directory).0 d in
          (sized (inr (inr e)), (size_lem st directory e, device_lem st directory e))
      | inr nd ↦ elim (Bool-cases (type_of st == blockdev)) [
        | inl b ↦
            let e = (==_iff (type_of st) blockdev).0 b in
            (device (inl e), (size_lem st blockdev e, device_lem st blockdev e))
        | inr nb ↦ elim (Bool-cases (type_of st == chardev)) [
          | inl c ↦
              let e = (==_iff (type_of st) chardev).0 c in
              (device (inr e), (size_lem st chardev e, device_lem st chardev e))
          | inr nc ↦ (
            other (other_than _ _ nr) (other_than _ _ nl) (other_than _ _ nd) (other_than _ _ nb)
                (other_than _ _ nc),
            (
              size_lem st (type_of st) refl ∙ rw (nr, nl, nd) refl,
              device_lem st (type_of st) refl ∙ rw (nb, nc) refl,
            ),
          )
        ]
      ]
    ]
  ]
]
