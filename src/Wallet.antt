-- ===== src/Wallet.antt =====
-- base/base.go: what the wallets of the coins share.
pub mod Balance
pub mod Locking
pub mod Watching
mod Tests
