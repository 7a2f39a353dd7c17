-- ===== src/Chain.antt =====
-- base/chain.go: the chain manager of one coin.
pub mod Types
pub mod Saving
pub mod Marking
pub mod Blocks
mod Tests
