-- ===== src/Fs/Which/First.antt =====
-- `which` finds the first candidate that can be executed.
use libcosmos.Prelude.{
  ℕ, suc, ◌<◌, ◌^◌, ◌≡◌, inl, inr, refl, sym, ◌∙◌, ap, Bool, true, false, ◌||◌, List, [], ◌∷◌, ◌++◌,
  map, Option, none, some, ◌==◌, is_empty, length, if◌then◌else◌, Bool-cases,
}
use libcosmos.Outcome.{Bytes, Exception, Outcome, ok, Reply, done, failed, checked, and_then}
use libcosmos.BitMask.{Mask, any_of, holds_all, test}
use libcosmos.BitMask.Digits.{bit}
use libcosmos.BitMask.Count.{test_power}
use libcosmos.Text.Split.Parts.{Cuts, split-Cuts}
use libcosmos.Fs.FileMode.{file_type, file_mode, is_regular, can_any_exec}
use libcosmos.Fs.Open.{open_fd, lacks_mode, cloexec}
use libcosmos.Fs.Which.{
  has_slash, runs, inspected, when_open, check_executable, or_next, try_all, search_path,
  only_itself, which,
}

-- A file that can be executed: a regular one with one of the bits 6, 3 and 0 of its mode.
abbrev pub executes : Option ℕ → Bool
executes none = false
executes (some mode) =
    let m = file_mode mode in
    if is_regular (file_type mode) then bit 6 m == 1 || bit 3 m == 1 || bit 0 m == 1 else false

-- The first path whose file can be executed.
abbrev pub first_executable : (Bytes → Option ℕ) → List Bytes → Option Bytes
first_executable mode_of [] = none
first_executable mode_of (p ∷ ps) =
    let rest = first_executable mode_of ps in if executes (mode_of p) then some p else rest

-- What a name without a slash is looked for as, by the parts of `PATH`.
abbrev pub InPath : Bytes → Option Bytes → List Bytes → Type 0
InPath name none ps = ps ≡ []
InPath name (some pathvar) ps =
    (dirs : List Bytes) × Cuts (b':' ∷ []) pathvar dirs
    × (ps ≡ map (λ dir. dir ++ b'/' ∷ name) dirs)

-- The candidates: none for the empty name, the name itself where it has a slash.
abbrev pub Candidates : Option Bytes → Bytes → List Bytes → Type 0
Candidates pathvar name ps =
    if is_empty name
    then ps ≡ []
    else if has_slash name
    then ps ≡ name ∷ []
    else InPath name pathvar ps

-- There is fuel to split the value of `PATH`.
abbrev pub PathFits : ℕ → Option Bytes → Type 0
PathFits fuel none = Unit
PathFits fuel (some pathvar) = suc (length pathvar) < fuel

-- open(2) and fstat(2) show one `st_mode` for each path, wherever `Inv` holds of the world; `none`
-- stands for a path that cannot be opened or read.
module _ {W : Type 0} (fstat : ℕ → W → Reply ℕ × W) (close : ℕ → W → Reply (Unit {0}) × W)
    (Inv : W → Type 0) where
  abbrev pub ShowsMode : Option ℕ → ℕ → Reply ℕ × W → Type 0
  ShowsMode o fd (done mode, w) = (o ≡ some mode) × Inv (close fd w).1
  ShowsMode o fd (failed e, w) = (o ≡ none) × Inv (close fd w).1

  abbrev pub Shows : Option ℕ → Reply ℕ × W → Type 0
  Shows o (done fd, w) = ShowsMode o fd (fstat fd w)
  Shows o (failed e, w) = (o ≡ none) × Inv w

abbrev any_of_three : Outcome Bool → Outcome Bool → Outcome Bool → Outcome Bool
any_of_three a b c = and_then a (λ x.
    if x
    then ok true
    else and_then b (λ y. if y then ok true else and_then c (λ z. if z then ok true else ok false)))

any_of_three_lem : (x y z : Bool) → any_of_three (ok x) (ok y) (ok z) ≡ ok (x || y || z)
any_of_three_lem true y z = refl
any_of_three_lem false true z = refl
any_of_three_lem false false true = refl
any_of_three_lem false false false = refl

any_exec_lem : (m : Mask) → can_any_exec m ≡ ok (bit 6 m == 1 || bit 3 m == 1 || bit 0 m == 1)
unfolding can_any_exec any_of
any_exec_lem m =
    ap (λ a. any_of_three a (test m (2 ^ 3)) (test m (2 ^ 0))) (test_power m 6)
    ∙ ap (λ b. any_of_three (ok (bit 6 m == 1)) b (test m (2 ^ 0))) (test_power m 3)
    ∙ ap (λ c. any_of_three (ok (bit 6 m == 1)) (ok (bit 3 m == 1)) c) (test_power m 0)
    ∙ any_of_three_lem (bit 6 m == 1) (bit 3 m == 1) (bit 0 m == 1)

runs_lem : (mode : ℕ) → runs mode ≡ executes (some mode)
unfolding runs
runs_lem mode = rw (any_exec_lem (file_mode mode)) refl

module _ {W : Type 0} (sys_open : Bytes → ℕ → ℕ → W → Reply ℕ × W) (fstat : ℕ → W → Reply ℕ × W)
    (close : ℕ → W → Reply (Unit {0}) × W) (Inv : W → Type 0) (mode_of : Bytes → Option ℕ)
    (shows : (p : Bytes) (flags mode : ℕ) (w : W)
      → Inv w
      → Shows fstat close Inv (mode_of p) (sys_open p flags mode w)) where
  abbrev Checked : Option ℕ → Bool × W → Type 0
  Checked o r = (r.0 ≡ executes o) × Inv r.1

  inspected-Checked :
      (o : Option ℕ) (fd : ℕ) (r : Reply ℕ × W)
      → ShowsMode fstat close Inv o fd r
      → Checked o (inspected sys_open fstat close fd r)
  unfolding inspected
  inspected-Checked o fd (done mode, w) h = (runs_lem mode ∙ ap executes (sym h.0), h.1)
  inspected-Checked o fd (failed e, w) h = (ap executes (sym h.0), h.1)

  opened-Checked :
      (o : Option ℕ) (p : Bytes) (r : Reply ℕ × W) (x : ℕ → Exception)
      → Shows fstat close Inv o r
      → Checked o (when_open sys_open fstat close (checked x r))
  unfolding when_open
  opened-Checked o p (done fd, w) x h = inspected-Checked o fd (fstat fd w) h
  opened-Checked o p (failed e, w) x h = (ap executes (sym h.0), h.1)

  check-Checked :
      (p : Bytes) (w : W) → Inv w → Checked (mode_of p) (check_executable sys_open fstat close p w)
  unfolding check_executable open_fd lacks_mode any_of test holds_all
  check-Checked p w h =
      opened-Checked (mode_of p) p (sys_open p cloexec 0 w) _ (shows p cloexec 0 w h)

  next_found :
      (o : Option ℕ) (p : Bytes) (r : Bool × W) (rest : W → Option Bytes × W) (q : Option Bytes)
      → Checked o r
      → ((w : W) → Inv w → (rest w).0 ≡ q)
      → (or_next sys_open fstat close p r rest).0 ≡ (if executes o then some p else q)
  next_found o p (true, w) rest q h k = rw (sym h.0) refl
  next_found o p (false, w) rest q h k = rw (sym h.0) (k w h.1)

  try_all_lem :
      (dirs : List Bytes) (name : Bytes) (w : W)
      → Inv w
      → (try_all sys_open fstat close dirs name w).0
        ≡ first_executable mode_of (map (λ dir. dir ++ b'/' ∷ name) dirs)
  unfolding try_all
  try_all_lem [] name w h = refl
  try_all_lem (dir ∷ dirs) name w h =
      next_found (mode_of (dir ++ b'/' ∷ name)) _ _ _ _ (check-Checked (dir ++ b'/' ∷ name) w h)
        (try_all_lem dirs name)

  only_itself_lem :
      (name : Bytes) (r : Bool × W)
      → Checked (mode_of name) r
      → (only_itself sys_open fstat close name r).0 ≡ ok (first_executable mode_of (name ∷ []))
  unfolding only_itself
  only_itself_lem name (true, w) h = rw (sym h.0) refl
  only_itself_lem name (false, w) h = rw (sym h.0) refl

  abbrev pub Finds : Option Bytes → Bytes → Outcome (Option Bytes) → Type 0
  Finds pathvar name r =
      (ps : List Bytes) × Candidates pathvar name ps × (r ≡ ok (first_executable mode_of ps))

  parts_found :
      (fuel : ℕ) (pathvar : Option Bytes) (name : Bytes) (w : W)
      → PathFits fuel pathvar
      → Inv w
      → (ps : List Bytes) × InPath name pathvar ps
        × ((search_path sys_open fstat close fuel pathvar name w).0
            ≡ ok (first_executable mode_of ps))
  unfolding search_path
  parts_found fuel none name w l h = ([], refl, refl)
  parts_found fuel (some pathvar) name w l h =
      let (dirs, e, c) = split-Cuts b':' [] fuel pathvar l in
      (
        map (λ dir. dir ++ b'/' ∷ name) dirs,
        (dirs, c, refl),
        rw e (ap ok (try_all_lem dirs name w h)),
      )

  -- Where open(2), fstat(2) and close(2) show one mode for each path, `which` returns the first of
  -- its candidates whose file is a regular one with an execute permission, and nothing if there is
  -- none. The candidates are the name itself if it has a slash, else the name in each part of `PATH`
  -- in order; the empty name has none. Two steps more than `PATH` has characters are enough to split it.
  pub which-Finds :
      (fuel : ℕ) (pathvar : Option Bytes) (name : Bytes) (w : W)
      → PathFits fuel pathvar
      → Inv w
      → Finds pathvar name (which sys_open fstat close fuel pathvar name w).0
  unfolding which
  which-Finds fuel pathvar [] w l h = ([], refl, refl)
  which-Finds fuel pathvar (c ∷ name) w l h = elim (Bool-cases (has_slash (c ∷ name))) [
    | inl slash ↦
        rw slash
          ((c ∷ name) ∷ [], refl, only_itself_lem (c ∷ name) _ (check-Checked (c ∷ name) w h))
    | inr plain ↦ rw plain (parts_found fuel pathvar (c ∷ name) w l h)
  ]
