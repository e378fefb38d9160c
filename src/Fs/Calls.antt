-- ===== src/Fs/Calls.antt =====
-- The functions of src/fs/filesystem.cxx that pass a call on: for nodes, links, modes, access, locks
-- and copies. Each call of the system is a parameter.
pub mod Nodes
pub mod Links
pub mod Copies
mod Tests
