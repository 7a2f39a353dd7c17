-- ===== src/Coins.antt =====
-- The wallets of the coins (coins/): what each adds to the wallet base.
pub mod Scripts
pub mod Outpoints
pub mod Bitcoin
pub mod BitcoinCash
pub mod Litecoin
pub mod Zcash
pub mod Escrows
mod Tests
