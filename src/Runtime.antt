-- ===== src/Runtime.antt =====
-- The library's own state: src/cosmos.cxx and src/cosmos/private.
pub mod Init
pub mod InfoBase
