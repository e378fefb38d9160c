-- ===== src/Net.antt =====
-- Networking: the headers of include/net and the sources of src/net.
pub mod Ancillary
pub mod UnixAddress
