-- ===== src/Io/StreamIo/Tests.antt =====
-- Runs of the stream operations over a small kernel, and the theorems at these inputs.
use libcosmos.Prelude.{
  ℕ, zero, suc, ◌≡◌, refl, sym, true, false, List, [], ◌∷◌, ◌++◌, arith, min, length, take, drop,
  codes, take-append-drop, length-take,
}
use libcosmos.Outcome.{Bytes, ok, throw, spins, Reply, done, failed, api_error, runtime_error}
use libcosmos.Outcome.Errno
use libcosmos.Io.Iovector.{Region}
use libcosmos.Io.Iovector.Update.{total}
use libcosmos.Io.StreamIo.{
  Syscalls, restart, read, read_all, write_all, write_all_vector, read_all_vector, seek,
}
use libcosmos.Io.StreamIo.Restart.{Answer, Answers, report, restart_lem}
use libcosmos.Io.StreamIo.ReadAll.{Delivers, Keeps, ReadAll, read_all_lem}
use libcosmos.Io.StreamIo.WriteAll.{Accepts, Refuses, WriteAll, write_all_lem}
use libcosmos.Io.StreamIo.Vectored.{
  Moves, Rests, AllMoved, write_all_vector_lem, read_all_vector_at_end,
}

-- A file of which two bytes move at a time, with some interruptions to come.
record World : Type 0 where
  interrupts : ℕ
  input : Bytes
  output : Bytes

abbrev interruptible : {A : Type 0} → World → Reply A × World → Reply A × World
interruptible w r = elim w.interrupts [
  | zero ↦ r
  | suc i ↦ (failed Errno.interrupted, record w { interrupts = i })
]

abbrev small_kernel : Syscalls World
small_kernel = record {
  sys_read = λ fd n w.
      interruptible w (done (take (min n 2) w.input), record w { input = drop (min n 2) w.input });
  sys_pread = λ fd n offset w. (failed Errno.invalid_arg, w);
  sys_write = λ fd buf w.
      interruptible w (
        done (min 2 (length buf)),
        record w { output = w.output ++ take (min 2 (length buf)) buf },
      );
  sys_pwrite = λ fd buf offset w. (failed Errno.invalid_arg, w);
  sys_readv = λ fd iovec w. (done 0, w);
  sys_preadv = λ fd iovec offset flags w. (done 0, w);
  sys_writev = λ fd iovec w. interruptible w (done (min 3 (total iovec)), w);
  sys_pwritev = λ fd iovec offset flags w. (failed Errno.invalid_arg, w);
  sys_lseek = λ fd off type w. (failed Errno.invalid_arg, w);
}

abbrev interruptions : World → ℕ
interruptions w = w.interrupts

abbrev input : World → Bytes
input w = w.input

abbrev output : World → Bytes
output w = w.output

reads_lem :
    (n : ℕ) (w : World)
    → Answer interruptions
        (Delivers interruptions input n)
        (Keeps interruptions input)
        w
        (small_kernel.sys_read 0 n w)
reads_lem n w =
    ground (arith, sym (take-append-drop (min n 2) w.input), length-take (min n 2) w.input)

writes_lem :
    (b : ℕ) (buf : Bytes) (w : World)
    → Answer interruptions
        (Accepts interruptions output (b ∷ buf))
        (Refuses interruptions output)
        w
        (small_kernel.sys_write 0 (b ∷ buf) w)
writes_lem b buf w = ground arith

moves_lem :
    (iovec : List Region) (w : World)
    → Answer interruptions
        (Moves interruptions iovec)
        (Rests interruptions)
        w
        (small_kernel.sys_writev 0 iovec w)
moves_lem iovec w = ground arith

abbrev five_bytes : World
five_bytes = record { interrupts = 1; input = codes "hello"; output = [] }

abbrev two_regions : List Region
two_regions = record { base = 100; length = 4 } ∷ record { base = 200; length = 1 } ∷ []

read_four :
    read_all small_kernel true 0 8 4 [] five_bytes
    ≡ (ok (codes "hell"), record { interrupts = 0; input = codes "o"; output = [] })
unfolding read_all read
read_four = refl

read_six :
    (read_all small_kernel true 0 9 6 [] five_bytes).0 ≡ throw (runtime_error "unexpected EOF" [])
unfolding read_all read
read_six = refl

read_interrupted : (read small_kernel false 0 9 6 five_bytes).0 ≡ throw (api_error "read()" 4)
unfolding read
read_interrupted = refl

seek_fails : (seek small_kernel true 0 0 7 five_bytes).0 ≡ throw (api_error "lseek()" 22)
unfolding seek
seek_fails = refl

restart_lem_example :
    (r : Reply Bytes) × (w' : World) × Answers true (small_kernel.sys_read 0 4) five_bytes r w'
    × (restart 3 true "read()" (small_kernel.sys_read 0 4) five_bytes ≡ (report "read()" r, w'))
restart_lem_example =
    restart_lem true (small_kernel.sys_read 0 4) interruptions (λ w h. ground arith) "read()" 3
      five_bytes (omega arith)

read_all_lem_example :
    ReadAll interruptions input 4 [] five_bytes (read_all small_kernel true 0 8 4 [] five_bytes)
read_all_lem_example =
    read_all_lem small_kernel true 0 interruptions input reads_lem 8 4 [] five_bytes (omega arith)

write_all_lem_example :
    WriteAll interruptions output
      (codes "abc")
      five_bytes
      (write_all small_kernel true 0 8 (codes "abc") five_bytes)
write_all_lem_example =
    write_all_lem small_kernel true 0 interruptions output writes_lem 8 (codes "abc") five_bytes
      (omega arith)

write_all_vector_lem_example :
    AllMoved interruptions two_regions
      (write_all_vector small_kernel true 0 9 two_regions five_bytes)
write_all_vector_lem_example =
    write_all_vector_lem small_kernel true 0 interruptions moves_lem 9 two_regions five_bytes
      (omega arith)

read_all_vector_at_end_example :
    (read_all_vector small_kernel true 0 50 two_regions five_bytes).0.0 ≡ spins
read_all_vector_at_end_example =
    read_all_vector_at_end small_kernel true 0 five_bytes (λ iovec. refl) 50 two_regions
      (omega arith)
