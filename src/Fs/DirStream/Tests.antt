-- ===== src/Fs/DirStream/Tests.antt =====
-- Runs of `DirStream`. The world is the number of open descriptors; fdopendir(3) fails.
use libcosmos.Prelude.{ℕ, ◌+◌, ◌-◌, ◌≡◌, refl, none, codes, false}
use libcosmos.Outcome.{throw, api_error, usage_error, done, failed}
use libcosmos.Fs.DirStream.{Calls, open_path, open_fd, next_entry, is_dot_entry}

abbrev full_table : Calls ℕ
full_table = record {
  sys_open = λ p flags w. (done 5, w + 1);
  sys_openat = λ d p flags mode w. (done 5, w + 1);
  dup_fd = λ d w. (done 5, w + 1);
  close_fd = λ d w. (done tt, w - 1);
  fdopendir = λ d w. (failed 12, w);
  closedir = λ s w. (done tt, w - 1);
  rewinddir = λ s w. w;
  readdir = λ s w. (done none, w);
  dirfd = λ s w. (done s, w);
  telldir = λ s w. (done 0, w);
}

closes_again :
    open_path full_table none (codes "/d") false 3 ≡ ((throw (api_error "fdopendir()" 12), none), 3)
unfolding open_path
closes_again = refl

-- The duplicate stays open.
leaks_duplicate : open_fd full_table none 4 3 ≡ ((throw (api_error "fdopendir()" 12), none), 4)
unfolding open_fd
leaks_duplicate = refl

closed_stream :
    next_entry full_table none 3
    ≡ (throw (usage_error "nextEntry on unassociated DirStream instance"), 3)
unfolding next_entry
closed_stream = refl

dot_entries :
    (is_dot_entry (codes "..") ≡ is_dot_entry (codes "."))
    × (is_dot_entry (codes ".a") ≡ false)
    × (is_dot_entry (codes "...") ≡ false)
unfolding is_dot_entry
dot_entries = (refl, refl, refl)
