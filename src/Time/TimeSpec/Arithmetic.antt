-- ===== src/Time/TimeSpec/Arithmetic.antt =====
-- Sums and differences of times.
use libcosmos.Prelude.{
  ℕ, ◌+◌, ◌-◌, ◌*◌, ◌<◌, ◌≤◌, ◌≡◌, sym, subst, leb→le, true, false, not, leb, arith, ◌∙◌,
  Bool-cases, inl, inr,
}
use libcosmos.Time.TimeSpec.{
  TimeSpec, word, sign_bit, nanosecond_base, plus, minus, signed_less, borrow, carry, subtract, add,
  set_as_milliseconds, to_milliseconds,
}

-- Words, with less than a second of nanoseconds.
abbrev pub Normal : TimeSpec → Type 0
Normal t = (t.tv_sec < word) × (t.tv_nsec < nanosecond_base)

minus_small : (x y : ℕ) → x < nanosecond_base → y ≤ x → minus x y ≡ x - y
minus_small x y h l = omega arith

not_negative : (x y : ℕ) → x < nanosecond_base → y ≤ x → leb sign_bit (minus x y) ≡ false
not_negative x y h l = ground (arith, minus_small x y h l)

negative : (x y : ℕ) → y < nanosecond_base → x < y → leb sign_bit (minus x y) ≡ true
negative x y h l = ground arith

borrowed :
    (x y : ℕ)
    → y < nanosecond_base
    → x < y
    → plus (minus x y) nanosecond_base ≡ (x + nanosecond_base) - y
borrowed x y h l = omega arith

subtract_enough :
    (a b : TimeSpec)
    → Normal a
    → b.tv_nsec ≤ a.tv_nsec
    → subtract a b ≡ record { tv_sec = minus a.tv_sec b.tv_sec; tv_nsec = a.tv_nsec - b.tv_nsec }
unfolding subtract borrow
subtract_enough a b h l =
    rw (not_negative a.tv_nsec b.tv_nsec h.1 l, minus_small a.tv_nsec b.tv_nsec h.1 l)

subtract_borrow :
    (a b : TimeSpec)
    → Normal b
    → a.tv_nsec < b.tv_nsec
    → subtract a b ≡ record {
      tv_sec = minus (minus a.tv_sec b.tv_sec) 1;
      tv_nsec = (a.tv_nsec + nanosecond_base) - b.tv_nsec;
    }
unfolding subtract borrow
subtract_borrow a b h l =
    rw (negative a.tv_nsec b.tv_nsec h.1 l, borrowed a.tv_nsec b.tv_nsec h.1 l)

plus_small : (x y : ℕ) → x + y < 2 * nanosecond_base → plus x y ≡ x + y
plus_small x y l = omega arith

fits : (x y : ℕ) → x + y < nanosecond_base → not (signed_less (plus x y) nanosecond_base) ≡ false
fits x y l = ground (arith, plus_small x y (omega arith))

too_much :
    (x y : ℕ)
    → x + y < 2 * nanosecond_base
    → nanosecond_base ≤ x + y
    → not (signed_less (plus x y) nanosecond_base) ≡ true
too_much x y l g = ground (arith, plus_small x y l)

carried :
    (x y : ℕ)
    → x + y < 2 * nanosecond_base
    → nanosecond_base ≤ x + y
    → minus (plus x y) nanosecond_base ≡ (x + y) - nanosecond_base
carried x y l g = omega (arith, plus_small x y l)

add_small :
    (a b : TimeSpec)
    → a.tv_nsec + b.tv_nsec < nanosecond_base
    → add a b ≡ record { tv_sec = plus a.tv_sec b.tv_sec; tv_nsec = a.tv_nsec + b.tv_nsec }
unfolding add carry
add_small a b l = rw (fits a.tv_nsec b.tv_nsec l, plus_small a.tv_nsec b.tv_nsec (omega arith))

add_carry :
    (a b : TimeSpec)
    → nanosecond_base ≤ a.tv_nsec + b.tv_nsec
    → a.tv_nsec + b.tv_nsec < 2 * nanosecond_base
    → add a b ≡ record {
      tv_sec = plus (plus a.tv_sec b.tv_sec) 1;
      tv_nsec = (a.tv_nsec + b.tv_nsec) - nanosecond_base;
    }
unfolding add carry
add_carry a b l u = rw (too_much a.tv_nsec b.tv_nsec u l, carried a.tv_nsec b.tv_nsec u l)

same_time :
    {s s' n n' : ℕ}
    → s ≡ s'
    → n ≡ n'
    → ◌≡◌ {A = TimeSpec} (record { tv_sec = s; tv_nsec = n }) (record { tv_sec = s'; tv_nsec = n' })
same_time e f = rw (e, f)

seconds_back : (x y : ℕ) → x < word → y < word → plus (minus x y) y ≡ x
seconds_back x y h k = omega arith

seconds_back_carried : (x y : ℕ) → x < word → y < word → plus (plus (minus (minus x y) 1) y) 1 ≡ x
seconds_back_carried x y h k = omega arith

enough_back :
    (a b : TimeSpec) → Normal a → Normal b → b.tv_nsec ≤ a.tv_nsec → add (subtract a b) b ≡ a
enough_back a b ha hb l = rw (subtract_enough a b ha l) (
    add_small record { tv_sec = minus a.tv_sec b.tv_sec; tv_nsec = a.tv_nsec - b.tv_nsec } b
      (omega arith)
    ∙ same_time (seconds_back a.tv_sec b.tv_sec ha.0 hb.0) (omega arith))

borrow_back :
    (a b : TimeSpec) → Normal a → Normal b → a.tv_nsec < b.tv_nsec → add (subtract a b) b ≡ a
borrow_back a b ha hb l = rw (subtract_borrow a b hb l) (
    add_carry
      record {
        tv_sec = minus (minus a.tv_sec b.tv_sec) 1;
        tv_nsec = (a.tv_nsec + nanosecond_base) - b.tv_nsec;
      }
      b (omega arith) (omega arith)
    ∙ same_time (seconds_back_carried a.tv_sec b.tv_sec ha.0 hb.0) (omega arith))

-- For times with less than a second of nanoseconds, the difference has less than a second of
-- nanoseconds too, and the difference and the subtrahend add up to the minuend.
pub add-subtract :
    (a b : TimeSpec) → Normal a → Normal b → Normal (subtract a b) × (add (subtract a b) b ≡ a)
add-subtract a b ha hb = elim (Bool-cases (leb b.tv_nsec a.tv_nsec)) [
  | inl e ↦ (
    subst Normal (sym (subtract_enough a b ha (leb→le _ _ e))) (omega arith, omega arith),
    enough_back a b ha hb (leb→le _ _ e),
  )
  | inr e ↦
      let l : a.tv_nsec < b.tv_nsec = ground (arith, e) in
      (
        subst Normal (sym (subtract_borrow a b hb l)) (omega arith, omega arith),
        borrow_back a b ha hb l,
      )
]

-- `setAsMilliseconds` makes a time with less than a second of nanoseconds, and `toMilliseconds` of it
-- is the number of milliseconds again.
pub to_milliseconds-set_as_milliseconds :
    (n : ℕ)
    → n < word
    → Normal (set_as_milliseconds n) × (to_milliseconds (set_as_milliseconds n) ≡ n)
unfolding to_milliseconds set_as_milliseconds
to_milliseconds-set_as_milliseconds n h = ((omega arith, omega arith), omega arith)
