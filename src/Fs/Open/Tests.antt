-- ===== src/Fs/Open/Tests.antt =====
-- Runs of `open`, `make_tempfile` and `Directory::open`, and the theorem at one input.
use libcosmos.Prelude.{ℕ, ◌≡◌, refl, none, some, codes, ◌+◌}
use libcosmos.Outcome.{Bytes, ok, throw, usage_error, api_error, Reply, done, failed}
use libcosmos.Fs.Open.{open_fd, open_directory, make_tempfile, create, cloexec, tmpfile}
use libcosmos.Fs.Open.Guard.{Opened, open_fd-Opened}

-- The world is the number of calls; each call answers the flags and the mode that it saw.
abbrev sys_open : Bytes → ℕ → ℕ → ℕ → Reply ℕ × ℕ
sys_open path flags mode w = (done (flags + mode), w + 1)

abbrev mkostemps : Bytes → ℕ → ℕ → ℕ → Reply (ℕ × Bytes) × ℕ
mkostemps path suffix flags w = (failed 17, w + 1)

no_mode :
    open_fd sys_open (codes "/x") 1 create none 0
    ≡ (throw (usage_error "the given open flags require an fmode argument"), 0)
unfolding open_fd
no_mode = refl

-- `O_DIRECTORY` is one of the bits of `O_TMPFILE`, and not taken for it.
directory_is_no_tmpfile : open_directory sys_open (codes "/x") 0 cloexec 0 ≡ (ok 0x9_0000, 1)
unfolding open_directory
directory_is_no_tmpfile = refl

no_temporary :
    make_tempfile mkostemps (codes "/tmp/a") 0 0 ≡ (throw (api_error "mkostemps()" 17), 1)
unfolding make_tempfile
no_temporary = refl

open_fd-Opened_example :
    Opened sys_open
      (codes "/x")
      1
      tmpfile
      (some 384)
      0
      (open_fd sys_open (codes "/x") 1 tmpfile (some 384) 0)
open_fd-Opened_example = open_fd-Opened sys_open (codes "/x") 1 tmpfile (some 384) 0
