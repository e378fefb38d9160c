-- ===== src/Fs/Open/Guard.antt =====
-- The flags and the mode that reach open(2) and openat(2).
use Prim.Native.Nat.{bit_or}
use libcosmos.Prelude.{
  ℕ, ◌≡◌, ◌⊎◌, ◌↔◌, subst, inl, inr, refl, Bool, true, false, ◌&&◌, ◌||◌, Option, none, some,
  if◌then◌else◌, Bool-cases, arith,
}
use libcosmos.Outcome.{Bytes, usage_error, file_error, Outcome, ok, throw, Reply, checked, and_then}
use libcosmos.BitMask.{Mask, holds_all, test, any_of}
use libcosmos.BitMask.Members.{Within, holds_all_iff}
use libcosmos.Fs.Open.{open_fd, lacks_mode, create, tmpfile, permissions, is_missing}

-- The flags make a file: they hold the bit of `CREATE`, or all bits of `TMPFILE`.
abbrev pub Creates : Mask → Type 0
Creates flags = Within create flags ⊎ Within tmpfile flags

-- Either there is a mode, or the flags make no file.
abbrev pub HasMode : Mask → Option ℕ → Type 0
HasMode flags none = Creates flags → ⊥
HasMode flags (some m) = Unit

pub creates : Mask → Bool
creates flags = holds_all flags create || holds_all flags tmpfile

either :
    (b c m : Bool)
    → and_then
        (and_then
          (ok b)
          (λ x. if x then ok true else and_then (ok c) (λ y. if y then ok true else ok false)))
        (λ x. ok (x && m))
      ≡ ok ((b || c) && m)
either true c m = refl
either false true m = refl
either false false m = refl

pub lacks_mode_lem :
    (flags : Mask) (fmode : Option ℕ)
    → lacks_mode flags fmode ≡ ok (creates flags && is_missing fmode)
unfolding lacks_mode any_of test creates
lacks_mode_lem flags fmode =
    either (holds_all flags create) (holds_all flags tmpfile) (is_missing fmode)

creates_iff : (flags : Mask) → (creates flags ≡ true) ↔ Creates flags
unfolding creates
creates_iff flags = elim (Bool-cases (holds_all flags create)) [
  | inl c ↦ (λ h. inl ((holds_all_iff flags create).0 c), λ h. rw c refl)
  | inr nc ↦ (
    λ h.
        inr (
          (holds_all_iff flags tmpfile).0
            (subst (λ b. (b || holds_all flags tmpfile) ≡ true) nc h)),
    λ h. elim h [
      | inl k ↦ ground (arith, nc, (holds_all_iff flags create).1 k)
      | inr k ↦ rw nc ((holds_all_iff flags tmpfile).1 k)
    ],
  )
]

-- What `open_fd` makes of its arguments.
abbrev pub Opened :
    {W : Type 0}
    → (Bytes → ℕ → ℕ → W → Reply ℕ × W)
    → Bytes
    → ℕ
    → Mask
    → Option ℕ
    → W
    → Outcome ℕ × W
    → Type 0
Opened sys_open path mode flags fmode w r =
    (Creates flags
      × (fmode ≡ none)
      × (r ≡ (throw (usage_error "the given open flags require an fmode argument"), w)))
    ⊎ (HasMode flags fmode
        × (r
            ≡ checked (file_error path "open")
                (sys_open path (bit_or flags mode) (permissions fmode) w)))

-- Flags that make a file reach open(2) only together with a mode: without one `open` throws a
-- `UsageError` and calls nothing. Every other call is passed on once, with the access mode among
-- the flags and 0 for a mode that is not given, and a failure is a `FileError`. This holds whatever
-- open(2) does.
pub open_fd-Opened :
    {W : Type 0} (sys_open : Bytes → ℕ → ℕ → W → Reply ℕ × W) (path : Bytes) (mode : ℕ)
    (flags : Mask) (fmode : Option ℕ) (w : W)
    → Opened sys_open path mode flags fmode w (open_fd sys_open path mode flags fmode w)
unfolding open_fd
open_fd-Opened sys_open path mode flags none w =
    rw (lacks_mode_lem flags none) (elim (Bool-cases (creates flags)) [
      | inl c ↦ rw c (inl ((creates_iff flags).0 c, refl, refl))
      | inr nc ↦ rw nc (inr (λ k. ground (arith, nc, (creates_iff flags).1 k), refl))
    ])
open_fd-Opened sys_open path mode flags (some m) w =
    rw (lacks_mode_lem flags (some m)) (elim (Bool-cases (creates flags)) [
      | inl c ↦ rw c (inr (tt, refl))
      | inr nc ↦ rw nc (inr (tt, refl))
    ])
