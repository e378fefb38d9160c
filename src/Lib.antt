-- ===== src/Lib.antt =====
-- Verification of libcosmos, a C++ library around the Linux system calls.
--
-- The library is a set of components that call the operating system and turn its error numbers into
-- exceptions. Outcome.antt holds what they share: the exception classes of include/error, the result
-- of an operation (a value, an exception, or a loop that ran out of fuel) and computations over the
-- state of everything outside the library. Prelude.antt holds the names and lemmas that all files use.
--
-- Where the code is:
--   Io/Iovector.antt: include/io/iovector.hxx and src/io/iovector.cxx. `update_region` and `walk` are
--     the methods `update` of a region and of the vector.
--   Io/StreamIo.antt: include/io/StreamIO.hxx and src/io/StreamIO.cxx. `restart` is the loop around
--     every call, `read_all` and `write_all` are readAll and writeAll, and the names with `vector` are
--     the overloads on vectors, which use the regions above.
--   Io/Logger.antt: include/io/ILogger.hxx and src/io/ILogger.cxx. `config_from_string` is
--     configFromString, which uses `split` and `to_lower` below.
--   Text/Chars.antt, Text/Strip.antt, Text/Split.antt: include/string.hxx and src/string.cxx.
--   Proc/ChildEvent.antt and Proc/ChildState.antt: include/proc/types.hxx and childData of
--     src/proc/SigInfo.cxx. Proc/WaitStatus.antt: WaitStatus of include/proc/process.hxx and
--     src/proc/process.cxx.
--   Proc/ChildCloner.antt: the settings of include/proc/ChildCloner.hxx. Proc/ChildCloner/Launch.antt
--     is the child (`post_fork`, `run_child`, `report_and_exit`) and Proc/ChildCloner/Parent.antt the
--     parent (`run`, `handle_pre_exec_error`) of src/proc/ChildCloner.cxx.
--   Proc/SubProc.antt: SubProc of include/proc/SubProc.hxx and src/proc/SubProc.cxx, with `wait` of
--     src/proc/process.cxx on a pidfd.
--   Fs/Path.antt: normalize_path of src/fs/path.cxx. Fs/MakeDirs.antt, Fs/Buffers.antt and
--     Fs/TempPath.antt: make_all_dirs, which uses normalize_path; read_symlink and get_working_dir; and
--     expand_temp_path of src/fs/filesystem.cxx.
--   Fs/Descriptor.antt: the locks, sizes, flags and sync of src/fs/FileDescriptor.cxx.
--   Fs/Open.antt: open and open_at of src/fs/filesystem.cxx, and what opens by them. Fs/FileMode.antt
--     and Fs/FileStatus.antt: the modes of include/fs/types.hxx, and include/fs/FileStatus.hxx, with
--     src/fs/FileStatus.cxx.
--   Fs/DirStream.antt: include/fs/DirStream.hxx and src/fs/DirStream.cxx. Fs/RemoveTree.antt,
--     Fs/Which.antt, Fs/Ownership.antt and Fs/Calls.antt: remove_tree, which walks such streams; which;
--     the changes of owners; and the calls that are passed on, of src/fs/filesystem.cxx.
--   Fs/INotify.antt: include/fs/INotify.hxx and src/fs/INotify.cxx.
--   Thread/PosixThread.antt: include/thread/PosixThread.hxx and src/thread/PosixThread.cxx.
--   Time/TimeSpec.antt: TimeSpec of include/time/types.hxx.
--   Proc/SigInfo.antt: the reports of include/proc/SigInfo.hxx and src/proc/SigInfo.cxx.
--   Proc/Process.antt: groups, sessions, credentials, environment, fork and the exec functions of
--     src/proc/process.cxx.
--   Proc/SubProc/Timed.antt: waitTimed, which uses the poller of Io/Poller.antt, for
--     include/io/Poller.hxx and src/io/Poller.cxx.
--   Proc/SignalFd.antt: include/proc/SignalFD.hxx and src/proc/SignalFD.cxx, with the types of the
--     reports of Proc/SigInfo.antt.
--   Proc/SigAction.antt: include/proc/SigAction.hxx and src/proc/SigAction.cxx.
--   Proc/Ptrace.antt: src/proc/ptrace.cxx and src/proc/Tracee.cxx. Proc/AuxVector.antt:
--     src/proc/AuxVector.cxx.
--   Net/UnixAddress.antt: include/net/unix/UnixAddress.hxx and src/net/unix/UnixAddress.cxx.
--   Net/Ancillary.antt: control messages, of src/net/message_header.cxx and src/net/unix/aux.cxx.
--   BitMask.antt: include/BitMask.hxx; a mask is the number of its bits.
--   SizedArray.antt: include/SizedArray.hxx.
--   Runtime/InfoBase.antt: src/cosmos/private/InfoBase.hxx with the lookups of src/PasswdInfo.cxx and
--     src/GroupInfo.cxx, which Fs/Ownership.antt uses.
--   Prelude/Words.antt: 32-bit words as bytes, lowest first, for the two parsers of messages.
--   Runtime/Init.antt: src/cosmos.cxx and src/cosmos/private/Initable.hxx.
-- The files below each of these prove what their names say, and the file Tests runs the definitions on
-- small inputs.
--
-- System calls are parameters: functions from the state to an answer, a value or an error number, and
-- a new state. What the code relies on is a record of laws beside the theorem that needs it. Byte
-- strings are lists of numbers. `size_t` wraps around where the code adds lengths or counts; lengths of
-- strings in memory do not reach its bound.
--
-- A loop that the text does not bound takes fuel, and `spins` is its end without fuel. The theorems say
-- how much is enough: one round for each byte and each interruption for reads and writes, two rounds
-- more than the length of the text for `split`, one more than the length for `normalize_path`, one for
-- each missing byte where a buffer grows, and one more than the entries that are read for `remove_tree`.
--
-- Not modelled: most wrappers of a single system call, output (messages, colors, streams), sockets and
-- IP addresses, memory mappings, clocks and timers. Of ChildCloner the clone itself is a
-- parameter; of PosixThread the function that the thread runs is left out.
pub mod Prelude
pub mod Outcome
pub mod Io
pub mod Text
pub mod Proc
pub mod Fs
pub mod Thread
pub mod Time
pub mod BitMask
pub mod SizedArray
pub mod Net
pub mod Runtime
