-- ===== src/Fs/FileStatus/Tests.antt =====
-- The status of a block device and of a regular file.
use libcosmos.Prelude.{◌≡◌, refl, true, false}
use libcosmos.Outcome.{ok}
use libcosmos.Fs.FileStatus.{Stat, represented_device, valid, reset, is_same_file}

abbrev disk : Stat
disk = record {
  st_mode = 0x61b0;
  st_dev = 5;
  st_ino = 321;
  st_nlink = 1;
  st_uid = 0;
  st_gid = 6;
  st_size = 0;
  st_rdev = 0x801;
  st_blksize = 4096;
  st_blocks = 0;
}

device_number : represented_device disk ≡ ok 0x801
unfolding represented_device
device_number = refl

same_after_reset : (valid (reset disk) ≡ false) × (is_same_file disk (reset disk) ≡ true)
unfolding valid reset is_same_file
same_after_reset = (refl, refl)
