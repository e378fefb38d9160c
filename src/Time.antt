-- ===== src/Time.antt =====
-- Time: the headers of include/time.
pub mod TimeSpec
