-- ===== src/Fs/Calls/Tests.antt =====
-- Runs of the functions that pass a call on. The world counts the calls.
use libcosmos.Prelude.{ℕ, suc, ◌≡◌, refl, false, Option, none, some, codes}
use libcosmos.Outcome.{ok, throw, usage_error, link_error, Reply, done, failed}
use libcosmos.Fs.Calls.Nodes.{set_umask, exists_file}
use libcosmos.Fs.Calls.Links.{link}
use libcosmos.Fs.Calls.Copies.{Copied, copy_file_range_at}

-- The masks 022 and 01000.
masks :
    (set_umask {W = ℕ} (λ m w. (18, suc w)) 18 0 ≡ (ok 18, 1))
    × (set_umask {W = ℕ} (λ m w. (18, suc w)) 512 0
        ≡ (throw (usage_error "invalid bits set in umask"), 0))
unfolding set_umask
masks = (refl, refl)

no_entry : exists_file {W = ℕ} (λ p w. (failed 2, suc w)) (codes "/x") 0 ≡ (ok false, 1)
unfolding exists_file
no_entry = refl

both_paths :
    link {W = ℕ} (λ a b w. (failed 17, suc w)) (codes "a") (codes "b") 0
    ≡ (throw (link_error (codes "b") "link() for " (codes "a") 17), 1)
unfolding link
both_paths = refl

abbrev copies_four : ℕ → Option ℕ → ℕ → Option ℕ → ℕ → ℕ → Reply Copied × ℕ
copies_four i a o b n w = (done (record { bytes = 4; off_in = some 14; off_out = none }), suc w)

rest_to_copy :
    copy_file_range_at copies_four
      (record { fd_in = 3; off_in = some 10; fd_out = 4; off_out = none; len = 9 })
      0
    ≡ ((ok 4, record { fd_in = 3; off_in = some 14; fd_out = 4; off_out = none; len = 5 }), 1)
unfolding copy_file_range_at
rest_to_copy = refl
