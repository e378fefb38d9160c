-- ===== src/Fs/Calls/Copies.antt =====
-- `copy_file_range` of src/fs/filesystem.cxx. An offset that is given is moved on by the call.
use libcosmos.Prelude.{ℕ, ◌-◌, Option, none}
use libcosmos.Outcome.{api_error, Outcome, ok, throw, spins, Reply, Comp, checked}

-- `CopyFileRangeParameters`.
pub record Parameters : Type 0 where
  pub fd_in : ℕ
  pub off_in : Option ℕ
  pub fd_out : ℕ
  pub off_out : Option ℕ
  pub len : ℕ

-- What copy_file_range(2) answers: the bytes copied and the offsets behind it.
pub record Copied : Type 0 where
  pub bytes : ℕ
  pub off_in : Option ℕ
  pub off_out : Option ℕ

module _ {W : Type 0} (sys_copy : ℕ → Option ℕ → ℕ → Option ℕ → ℕ → W → Reply Copied × W) where
  unfoldable pub copy_range : ℕ → Option ℕ → ℕ → Option ℕ → ℕ → Comp W Copied
  copy_range fd_in off_in fd_out off_out len w =
      checked (api_error "copy_file_range()") (sys_copy fd_in off_in fd_out off_out len w)

  abbrev pub only_bytes : Outcome Copied × W → Outcome ℕ × W
  only_bytes (ok c, w) = (ok c.bytes, w)
  only_bytes (throw x, w) = (throw x, w)
  only_bytes (spins, w) = (spins, w)

  -- Without offsets, at the positions of the files.
  unfoldable pub copy_file_range : ℕ → ℕ → ℕ → Comp W ℕ
  unfolding copy_range
  copy_file_range fd_in fd_out len w = only_bytes (copy_range fd_in none fd_out none len w)

  -- The parameters behind the call are those of the rest that is still to copy.
  unfoldable pub moved_on : Parameters → Outcome Copied × W → (Outcome ℕ × Parameters) × W
  moved_on pars (ok c, w) = (
    (
      ok c.bytes,
      record {
        fd_in = pars.fd_in;
        off_in = c.off_in;
        fd_out = pars.fd_out;
        off_out = c.off_out;
        len = pars.len - c.bytes;
      },
    ),
    w,
  )
  moved_on pars (throw x, w) = ((throw x, pars), w)
  moved_on pars (spins, w) = ((spins, pars), w)

  unfoldable pub copy_file_range_at : Parameters → W → (Outcome ℕ × Parameters) × W
  unfolding copy_range moved_on
  copy_file_range_at pars w =
      moved_on pars (copy_range pars.fd_in pars.off_in pars.fd_out pars.off_out pars.len w)
