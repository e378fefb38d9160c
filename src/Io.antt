-- ===== src/Io.antt =====
-- Input and output: the headers of include/io and the sources of src/io.
pub mod Iovector
pub mod StreamIo
pub mod Logger
pub mod Poller
