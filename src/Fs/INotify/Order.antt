-- ===== src/Fs/INotify/Order.antt =====
-- The events come out of the buffer in the order in which the kernel wrote them.
use libcosmos.Prelude.{
  ℕ, zero, suc, ◌+◌, ◌≤◌, ◌≡◌, refl, sym, ◌∙◌, ap, subst, arith, Bool, true, false, List, [], ◌∷◌,
  ◌++◌, append-nil, word, word_at, word_lem, take_front, drop_front, append_assoc, leb, length,
  length-append, take, drop, if◌then◌else◌, if_false,
}
use libcosmos.Outcome.{Bytes, Outcome, ok, throw, spins}
use libcosmos.Io.StreamIo.{Syscalls, read}
use libcosmos.Fs.INotify.{Event, State, event_at, next_event, read_event, refilled}

-- An event as the kernel writes it.
abbrev pub written : Event → Bytes
written e = word e.wd ++ (word e.mask ++ (word e.cookie ++ (word (length e.padded) ++ e.padded)))

abbrev event : ℕ → ℕ → ℕ → Bytes → Event
event a b c s = record { wd = a; mask = b; cookie = c; padded = s }

event_ext :
    {a b c a' b' c' : ℕ} {s s' : Bytes}
    → a ≡ a'
    → b ≡ b'
    → c ≡ c'
    → s ≡ s'
    → event a b c s ≡ event a' b' c' s'
event_ext p q r t = cc

event_at-written : (e : Event) (t : Bytes) → event_at (written e ++ t) ≡ e
unfolding event_at
event_at-written e t =
    event_ext (word_lem e.wd) (word_lem e.mask) (word_lem e.cookie)
      (ap (λ n. take n (e.padded ++ t)) (word_lem (length e.padded)) ∙ take_front e.padded t)

length-written : (e : Event) → length (written e) ≡ 16 + length e.padded
length-written e = omega arith

-- The state at a place in a buffer.
abbrev at_place : ℕ → Bytes → ℕ → State
at_place size buffer offset = record { io_buffer_size = size; buffer = buffer; offset = offset }

step_ext :
    {a a' : Outcome Event} {size o o' : ℕ} {buffer : Bytes}
    → a ≡ a'
    → o ≡ o'
    → ◌≡◌ {A = Outcome Event × State} (a, at_place size buffer o) (a', at_place size buffer o')
step_ext p q = cc

word_at_length : (e : Event) (t : Bytes) → word_at (drop 12 (written e ++ t)) ≡ length e.padded
word_at_length e t = word_lem (length e.padded)

next_event-written :
    (size : ℕ) (front t : Bytes) (e : Event)
    → next_event (at_place size (front ++ (written e ++ t)) (length front))
      ≡ (ok e, at_place size (front ++ (written e ++ t)) (length front + length (written e)))
unfolding next_event
next_event-written size front t e =
    ap
      (λ r. (
        ok (event_at r),
        at_place size (front ++ (written e ++ t)) (length front + (16 + word_at (drop 12 r))),
      ))
      (drop_front front (written e ++ t))
    ∙ step_ext (ap ok (event_at-written e t)) (omega (arith, word_at_length e t, length-written e))

more_left :
    (front t : Bytes) (e : Event) → leb (length (front ++ (written e ++ t))) (length front) ≡ false
more_left front t e =
    ground
      (arith, length-append front (written e ++ t), length-append (written e) t, length-written e)

all_taken : (st : State) → length st.buffer ≤ st.offset → leb (length st.buffer) st.offset ≡ true
all_taken st h = ground (arith, h)

abbrev appended :
    {W : Type 0} → Event → (Outcome (List Event) × State) × W → (Outcome (List Event) × State) × W
appended e ((ok es, st), w) = ((ok (e ∷ es), st), w)
appended e ((throw x, st), w) = ((throw x, st), w)
appended e ((spins, st), w) = ((spins, st), w)

abbrev pub all_written : List Event → Bytes
all_written [] = []
all_written (e ∷ es) = written e ++ all_written es

module _ {W : Type 0} (k : Syscalls W) (auto_restart : Bool) (fd fuel : ℕ) where
  -- A client that reads a number of events.
  abbrev pub and_events :
      (Outcome Event × State) × W
      → (State → W → (Outcome (List Event) × State) × W)
      → (Outcome (List Event) × State) × W
  and_events ((ok e, st), w) rest = appended e (rest st w)
  and_events ((throw x, st), w) rest = ((throw x, st), w)
  and_events ((spins, st), w) rest = ((spins, st), w)

  unfoldable pub read_events : ℕ → State → W → (Outcome (List Event) × State) × W
  read_events zero st w = ((ok [], st), w)
  read_events (suc n) st w = and_events (read_event k auto_restart fd fuel st w) (read_events n)

  inside :
      (size : ℕ) (front t : Bytes) (e : Event) (w : W)
      → read_event k auto_restart fd fuel
          (at_place size (front ++ (written e ++ t)) (length front))
          w
        ≡ ((ok e, at_place size (front ++ (written e ++ t)) (length front + length (written e))), w)
  unfolding read_event
  inside size front t e w =
      if_false _ _ _ (more_left front t e) ∙ ap (λ r. (r, w)) (next_event-written size front t e)

  inside_at :
      (size : ℕ) {buffer : Bytes} {offset : ℕ} (front t : Bytes) (e : Event) (w : W)
      → front ++ (written e ++ t) ≡ buffer
      → length front ≡ offset
      → read_event k auto_restart fd fuel (at_place size buffer offset) w
        ≡ ((ok e, at_place size buffer (offset + length (written e))), w)
  inside_at size {buffer} {offset} front t e w p q =
      subst
        (λ o.
          read_event k auto_restart fd fuel (at_place size buffer o) w
          ≡ ((ok e, at_place size buffer (o + length (written e))), w))
        q
        (subst
          (λ b.
            read_event k auto_restart fd fuel (at_place size b (length front)) w
            ≡ ((ok e, at_place size b (length front + length (written e))), w))
          p (inside size front t e w))

  all_inside :
      (size : ℕ) (buffer : Bytes) (offset : ℕ) (front : Bytes) (es : List Event) (w : W)
      → front ++ all_written es ≡ buffer
      → length front ≡ offset
      → read_events (length es) (at_place size buffer offset) w
        ≡ ((ok es, at_place size buffer (length buffer)), w)
  unfolding read_events
  all_inside size buffer offset front [] w p q =
      ap (λ o. ((ok [], at_place size buffer o), w))
        (sym q ∙ ap length (sym (append-nil front) ∙ p))
  all_inside size buffer offset front (e ∷ es) w p q =
      rw
        (
          inside_at size front (all_written es) e w p q,
          all_inside size buffer (offset + length (written e)) (front ++ written e) es w
              (append_assoc front (written e) (all_written es) ∙ p)
              (length-append front (written e) ∙ ap (λ o. o + length (written e)) q),
        )
        refl

  first_event :
      (st : State) (e : Event) (t : Bytes) (w v : W)
      → length st.buffer ≤ st.offset
      → read k auto_restart fd fuel st.io_buffer_size w ≡ (ok (written e ++ t), v)
      → read_event k auto_restart fd fuel st w
        ≡ ((ok e, at_place st.io_buffer_size (written e ++ t) (0 + length (written e))), v)
  unfolding read_event refilled
  first_event st e t w v taken given =
      ap
        (λ b.
          if b
          then refilled k auto_restart fd st (read k auto_restart fd fuel st.io_buffer_size w)
          else (next_event st, w))
        (all_taken st taken)
      ∙ ap (refilled k auto_restart fd st) given
      ∙ ap (λ r. (r, v)) (next_event-written st.io_buffer_size [] t e)

  -- If every event in the buffer was taken and the next read gives the bytes of a sequence of
  -- events, that many calls of `readEvent` answer exactly these events, in order, with the read as
  -- the only call of the system; then every event in the buffer is taken again.
  pub read_events-written :
      (st : State) (e : Event) (es : List Event) (w v : W)
      → length st.buffer ≤ st.offset
      → read k auto_restart fd fuel st.io_buffer_size w ≡ (ok (all_written (e ∷ es)), v)
      → read_events (length (e ∷ es)) st w ≡ (
        (
          ok (e ∷ es),
          at_place st.io_buffer_size (all_written (e ∷ es)) (length (all_written (e ∷ es))),
        ),
        v,
      )
  unfolding read_events
  read_events-written st e es w v taken given =
      ap (λ r. and_events r (read_events (length es)))
        (first_event st e (all_written es) w v taken given)
      ∙ ap (appended e) (
          all_inside st.io_buffer_size (written e ++ all_written es) (0 + length (written e))
            (written e) es v refl (omega arith))
