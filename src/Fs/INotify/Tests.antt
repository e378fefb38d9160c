-- ===== src/Fs/INotify/Tests.antt =====
-- Two events out of one read, and the theorem at this input.
use libcosmos.Prelude.{ℕ, zero, suc, ◌≡◌, refl, true, [], ◌∷◌, ◌++◌, codes, length, arith, none}
use libcosmos.Outcome.{Bytes, ok, Reply, done, failed}
use libcosmos.Io.StreamIo.{Syscalls, read}
use libcosmos.Fs.INotify.{Event, State, name, read_event, event_types, event_flags, try_read_event}
use libcosmos.Fs.INotify.Order.{read_events, all_written, read_events-written}

abbrev made_dir : Event
made_dir = record { wd = 1; mask = 0x4000_0100; cookie = 0; padded = codes "sub" ++ 0 ∷ 0 ∷ [] }

abbrev changed : Event
changed = record { wd = 2; mask = 2; cookie = 0; padded = [] }

-- The first read gives both events, the others would block; the world counts them.
abbrev answers : ℕ → ℕ → ℕ → Reply Bytes × ℕ
answers fd n zero = (done (all_written (made_dir ∷ changed ∷ [])), 1)
answers fd n (suc w) = (failed 11, suc (suc w))

abbrev calls : Syscalls ℕ
calls = record {
  sys_read = answers;
  sys_pread = λ fd n o w. (failed 9, w);
  sys_write = λ fd s w. (failed 9, w);
  sys_pwrite = λ fd s o w. (failed 9, w);
  sys_readv = λ fd rs w. (failed 9, w);
  sys_preadv = λ fd rs o f w. (failed 9, w);
  sys_writev = λ fd rs w. (failed 9, w);
  sys_pwritev = λ fd rs o f w. (failed 9, w);
  sys_lseek = λ fd o t w. (failed 9, w);
}

abbrev fresh : State
fresh = record { io_buffer_size = 64; buffer = []; offset = 0 }

reads_both : (read_events calls true 3 5 2 fresh 0).0.0 ≡ ok (made_dir ∷ changed ∷ [])
unfolding read_events read_event
reads_both = refl

parts :
    (name made_dir.padded ≡ codes "sub")
    × (event_types made_dir ≡ 0x100)
    × (event_flags made_dir ≡ 0x4000_0000)
unfolding name event_types event_flags
parts = (refl, refl, refl)

nothing_yet : (try_read_event calls true 3 5 fresh 1).0.0 ≡ ok none
unfolding try_read_event
nothing_yet = refl

read_events-written_example : read_events calls true 3 5 2 fresh 0 ≡ (
  (
    ok (made_dir ∷ changed ∷ []),
    record {
      io_buffer_size = 64;
      buffer = all_written (made_dir ∷ changed ∷ []);
      offset = length (all_written (made_dir ∷ changed ∷ []));
    },
  ),
  1,
)
unfolding read
read_events-written_example =
    read_events-written calls true 3 5 fresh made_dir (changed ∷ []) 0 1 (omega arith) refl
