-- ===== src/Fs/TempPath/Tests.antt =====
-- Templates expanded, and the theorem at one of them.
use libcosmos.Prelude.{◌≡◌, refl, codes}
use libcosmos.Outcome.{ok, throw, usage_error}
use libcosmos.Fs.TempPath.{expand_temp_path}

last_placeholder : expand_temp_path (codes "/t/{}/a{}b{}.c") ≡ ok (codes "/t/{}/a{}bXXXXXX.c", 2)
unfolding expand_temp_path
last_placeholder = refl

no_placeholder : expand_temp_path (codes "/t/{}/a") ≡ ok (codes "/t/{}/aXXXXXX", 0)
unfolding expand_temp_path
no_placeholder = refl

directory : expand_temp_path (codes "/t/") ≡ throw (usage_error "empty basename not allowed")
unfolding expand_temp_path
directory = refl
