-- ===== src/Keychain.antt =====
-- base/keys.go: the keychain of one coin.
pub mod Keys
pub mod Lookahead
pub mod Addresses
pub mod Passphrase
pub mod Opening
pub mod Tests
