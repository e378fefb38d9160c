-- ===== src/Fs/FileMode/Symbolic.antt =====
-- The mode that stands in the text of `FileMode::symbolic`.
use libcosmos.Prelude.{
  ℕ, ◌+◌, ◌*◌, ◌<◌, ◌≡◌, inl, inr, refl, ◌∙◌, ap, arith, Bool, true, false, [], ◌∷◌, ◌++◌, ◌==◌,
  ==_iff, Bool-cases, if◌then◌else◌, length,
}
use libcosmos.Outcome.{Bytes, Outcome, ok, and_then}
use libcosmos.BitMask.{Mask}
use libcosmos.BitMask.Digits.{bit, bit-small}
use libcosmos.BitMask.Count.{test_power, low_all, low_top}
use libcosmos.Fs.FileMode.{
  symbolic, exec_symbol, class_symbols, is_set_uid, is_set_gid, is_sticky, can_owner_read,
  can_owner_write, can_owner_exec, can_group_read, can_group_write, can_group_exec, can_others_read,
  can_others_write, can_others_exec,
}

-- The mode that the nine characters stand for, as ls(1) writes it: the permissions, and with `s`, `S`, `t` and `T` the special bits.
abbrev pub permission : ℕ → ℕ → ℕ
permission c w = if c == b'-' then 0 else w

abbrev pub execution : ℕ → ℕ → ℕ → ℕ
execution c x special =
    if c == b's'
    then x + special
    else if c == b't'
    then x + special
    else if c == b'S'
    then special
    else if c == b'T'
    then special
    else if c == b'x'
    then x
    else 0

abbrev pub read_mode : Bytes → ℕ
read_mode (a ∷ b ∷ c ∷ d ∷ e ∷ f ∷ g ∷ h ∷ i ∷ []) =
    permission a 256
    + permission b 128
    + execution c 64 2048
    + (permission d 32 + permission e 16 + execution f 8 1024)
    + (permission g 4 + permission h 2 + execution i 1 512)
read_mode _ = 0

zero_bit : (k m : ℕ) → (bit k m == 1) ≡ false → bit k m ≡ 0
zero_bit k m h = ground (arith, bit-small k m)

-- A tested bit as a number.
abbrev worth : Bool → ℕ → ℕ
worth b w = if b then w else 0

worth_lem : (k m w : ℕ) → worth (bit k m == 1) w ≡ bit k m * w
worth_lem k m w = elim (Bool-cases (bit k m == 1)) [
  | inl one ↦ rw one (grind (arith, (==_iff (bit k m) 1).0 one))
  | inr other ↦ rw other (grind (arith, zero_bit k m other))
]

read_bit :
    (b : Bool) (c w : ℕ) → (c == b'-') ≡ false → permission (if b then c else b'-') w ≡ worth b w
read_bit true c w h = rw h refl
read_bit false c w h = refl

read_exec :
    (s x : Bool) (w special : ℕ)
    → execution (exec_symbol b's' b'S' s x) w special ≡ worth x w + worth s special
unfolding exec_symbol
read_exec true true w special = refl
read_exec true false w special = omega arith
read_exec false true w special = omega arith
read_exec false false w special = refl

read_sticky :
    (s x : Bool) (w special : ℕ)
    → execution (exec_symbol b't' b'T' s x) w special ≡ worth x w + worth s special
unfolding exec_symbol
read_sticky true true w special = refl
read_sticky true false w special = omega arith
read_sticky false true w special = omega arith
read_sticky false false w special = refl

-- The characters of one class.
abbrev class_of : ℕ → ℕ → Bool → Bool → Bool → Bool → Bytes
class_of lower upper r w s x =
    (if r then b'r' else b'-') ∷ (if w then b'w' else b'-') ∷ exec_symbol lower upper s x ∷ []

abbrev is_set : Mask → ℕ → Bool
is_set m k = bit k m == 1

abbrev owner_class : Mask → Bytes
owner_class m = class_of b's' b'S' (is_set m 8) (is_set m 7) (is_set m 11) (is_set m 6)

abbrev group_class : Mask → Bytes
group_class m = class_of b's' b'S' (is_set m 5) (is_set m 4) (is_set m 10) (is_set m 3)

abbrev others_class : Mask → Bytes
others_class m = class_of b't' b'T' (is_set m 2) (is_set m 1) (is_set m 9) (is_set m 0)

abbrev symbols : Mask → Bytes
symbols m = (owner_class m ++ group_class m) ++ others_class m

class_symbols-class_of :
    (lower upper : ℕ) {a b c d : Outcome Bool} {r w s x : Bool} (ret : Bytes)
    → a ≡ ok r
    → b ≡ ok w
    → c ≡ ok s
    → d ≡ ok x
    → class_symbols lower upper a b c d ret ≡ ok (ret ++ class_of lower upper r w s x)
unfolding class_symbols
class_symbols-class_of lower upper ret ha hb hc hd = rw (ha, hb, hc, hd) refl

symbolic-symbols : (m : Mask) → symbolic m ≡ ok (symbols m)
unfolding symbolic is_set_uid is_set_gid is_sticky can_owner_read can_owner_write can_owner_exec
    can_group_read can_group_write can_group_exec can_others_read can_others_write can_others_exec
symbolic-symbols m =
    ap
      (λ o. and_then o (λ owner.
        and_then
          (class_symbols b's' b'S' (can_group_read m) (can_group_write m) (is_set_gid m)
            (can_group_exec m) owner)
          (λ group.
            class_symbols b't' b'T' (can_others_read m) (can_others_write m) (is_sticky m)
              (can_others_exec m) group)))
      (class_symbols-class_of b's' b'S' [] (test_power m 8) (test_power m 7) (test_power m 11)
        (test_power m 6))
    ∙ ap
        (λ o. and_then o (λ group.
          class_symbols b't' b'T' (can_others_read m) (can_others_write m) (is_sticky m)
            (can_others_exec m) group))
        (class_symbols-class_of b's' b'S' (owner_class m) (test_power m 5) (test_power m 4)
          (test_power m 10) (test_power m 3))
    ∙ class_symbols-class_of b't' b'T' (owner_class m ++ group_class m) (test_power m 2)
        (test_power m 1) (test_power m 9) (test_power m 0)

bits_sum :
    (m : ℕ)
    → m < 4096
    → bit 8 m * 256
        + bit 7 m * 128
        + (bit 6 m * 64 + bit 11 m * 2048)
        + (bit 5 m * 32 + bit 4 m * 16 + (bit 3 m * 8 + bit 10 m * 1024))
        + (bit 2 m * 4 + bit 1 m * 2 + (bit 0 m * 1 + bit 9 m * 512))
      ≡ m
bits_sum m h = omega (
  arith,
  low_all 12 m h,
  low_top 11 m,
  low_top 10 m,
  low_top 9 m,
  low_top 8 m,
  low_top 7 m,
  low_top 6 m,
  low_top 5 m,
  low_top 4 m,
  low_top 3 m,
  low_top 2 m,
  low_top 1 m,
  low_top 0 m,
)

read_symbols : (m : Mask) → m < 4096 → read_mode (symbols m) ≡ m
read_symbols m h =
    rw
      (
        read_bit (is_set m 8) b'r' 256 refl,
        read_bit (is_set m 7) b'w' 128 refl,
        read_exec (is_set m 11) (is_set m 6) 64 2048,
        read_bit (is_set m 5) b'r' 32 refl,
        read_bit (is_set m 4) b'w' 16 refl,
        read_exec (is_set m 10) (is_set m 3) 8 1024,
        read_bit (is_set m 2) b'r' 4 refl,
        read_bit (is_set m 1) b'w' 2 refl,
        read_sticky (is_set m 9) (is_set m 0) 1 512,
        worth_lem 0 m 1,
        worth_lem 1 m 2,
        worth_lem 2 m 4,
        worth_lem 3 m 8,
        worth_lem 4 m 16,
        worth_lem 5 m 32,
        worth_lem 6 m 64,
        worth_lem 7 m 128,
        worth_lem 8 m 256,
        worth_lem 9 m 512,
        worth_lem 10 m 1024,
        worth_lem 11 m 2048,
      )
      (bits_sum m h)

-- `FileMode::symbolic` of twelve mode bits never throws, and its nine characters, read the way ls(1)
-- writes them, give the mode back.
pub symbolic-read_mode :
    (m : Mask) → m < 4096 → (s : Bytes) × (symbolic m ≡ ok s) × (length s ≡ 9) × (read_mode s ≡ m)
symbolic-read_mode m h = (symbols m, symbolic-symbols m, refl, read_symbols m h)
