-- ===== src/Fs/Which/Tests.antt =====
-- `which` in a path of two directories, and the theorem at this input.
use libcosmos.Prelude.{ℕ, ◌≡◌, refl, Option, none, some, codes, bytes_eq, if◌then◌else◌, arith}
use libcosmos.Outcome.{Bytes, ok, Reply, done, failed}
use libcosmos.Fs.Which.{which}
use libcosmos.Fs.Which.First.{Shows, Finds, which-Finds}

-- /bin/ls is a program, /opt/ls a text.
abbrev modes : Bytes → Option ℕ
modes p =
    if bytes_eq p (codes "/bin/ls")
    then some 0x81ed
    else if bytes_eq p (codes "/opt/ls")
    then some 0x81a4
    else none

-- A descriptor is the mode of its file.
abbrev reply : Option ℕ → Reply ℕ
reply none = failed 2
reply (some mode) = done mode

abbrev sys_open : Bytes → ℕ → ℕ → Unit {0} → Reply ℕ × Unit {0}
sys_open p flags mode w = (reply (modes p), w)

abbrev fstat : ℕ → Unit {0} → Reply ℕ × Unit {0}
fstat fd w = (done fd, w)

abbrev close : ℕ → Unit {0} → Reply (Unit {0}) × Unit {0}
close fd w = (done tt, w)

abbrev Holds : Unit {0} → Type 0
Holds w = Unit

shows_reply : (o : Option ℕ) → Shows fstat close Holds o (reply o, tt)
shows_reply none = (refl, tt)
shows_reply (some mode) = (refl, tt)

finds_the_program :
    which sys_open fstat close 30 (some (codes "/opt:/bin")) (codes "ls") tt
    ≡ (ok (some (codes "/bin/ls")), tt)
unfolding which
finds_the_program = refl

which-Finds_example :
    Finds sys_open fstat close Holds modes
      (λ p flags mode w h. shows_reply (modes p))
      (some (codes "/opt:/bin"))
      (codes "ls")
      (which sys_open fstat close 30 (some (codes "/opt:/bin")) (codes "ls") tt).0
which-Finds_example =
    which-Finds sys_open fstat close Holds modes (λ p flags mode w h. shows_reply (modes p)) 30
      (some (codes "/opt:/bin")) (codes "ls") tt (omega arith) tt
