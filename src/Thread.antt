-- ===== src/Thread.antt =====
-- Threads: the headers of include/thread and the sources of src/thread.
pub mod PosixThread
