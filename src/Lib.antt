-- ===== src/Lib.antt =====
-- A model of multiwallet, a wallet for several coins that share one SQL database: its keychains,
-- the transactions of the database below them, the providers of fees and exchange rates, and the
-- rebroadcaster.
--
-- Parts, and the files that model them:
--   Database    the records of database/models.go, a table as a list of rows under its primary key,
--               and the transactions of database/sqlitedb/sqlitedb.go. `view` and `update` are the
--               managed transactions `View` and `Update`; a call inside one has the type `Tx`.
--               Database.Laws has the rules by which the other parts reason about them.
--   Keychain    base/keys.go. Keychain.Keys has the key tree and the two chains of an account,
--               Keychain.Lookahead the window of unused addresses that `extendKeychain` keeps filled, with
--               what the window is, apart from how the code counts it, in Keychain.Lookahead.Meaning,
--               Keychain.Addresses the operations on addresses, Keychain.Passphrase the encryption of
--               the master key, the unlocking for a while, and sequences of such events, and
--               Keychain.Opening `NewKeychain`.
--   Chain       base/chain.go. Chain.Saving has `saveTransactionsAndUtxos`, its children what the
--               computed set of utxos is, what the table of utxos becomes, how the transaction map
--               keeps up with the table, and the whole call. Chain.Blocks has what
--               `chainHandler` does with a new block. Chain.Marking is the keychain as the
--               chain manager's.
--   Wallet      base/base.go. Wallet.Balance has `Balance` and `checkIfStxoIsConfirmed`,
--               Wallet.Locking the transactions `DBTx` of a wallet as steps of its callers, and
--               Wallet.Watching `WatchAddress`.
--   Coins       coins/bitcoin/wallet.go, coins/bitcoincash/wallet.go, coins/litecoin/wallet.go and
--               coins/zcash/wallet.go. Coins.Scripts has the escrow scripts and the reading of a lock
--               time, Coins.Outpoints the bytes of an outpoint, and a file for each coin its own calls.
--   Bus         base/bus.go: subscribing, closing and emitting, and in Bus.Closing what a closed
--               subscription leaves behind.
--   Rates       the fee providers of base/fees.go and the exchange rates of base/exchange_rates.go, each
--               with its cache of ten minutes. The answer of an HTTP request is an argument.
--   Rebroadcaster
--               a round of base/rebroadcaster.go over the unconfirmed transactions of a coin. The node is
--               a function of the transactions sent to it before and of the one sent now.
--   Prelude     the shared names: Boolean tests, lists, texts as lists of bytes, integers.
--
-- The keychain reads and writes the database only through a transaction: `ExtendKeychain`,
-- `NewAddress`, `HasKey` and `CurrentAddress` open their own, the other operations run in the
-- caller's.
--
-- The engine below gorm is a function `faults` on the number of the statement: it says which
-- statements fail, so a theorem about any `faults` covers every pattern of failures. An operation
-- that ends in an error keeps what it wrote, until the end of the transaction rolls it back.
--
-- BIP32 and the address format of a coin are packages outside the repository. They come as the record
-- `HdKeys` of operations; `IsDerivable` and `IsPaired` state what the keychain relies on: after an
-- invalid index a valid one follows within `gap`, an address stands at one place, and a private child
-- has the public child's key.
--
-- PBKDF2, AES in CFB mode, base64 and the random source come as the record `Crypto`; `IsCrypto` states
-- that decoding and decryption undo encoding and encryption, and how many bytes a read gives.
-- `IsChecked` stands for the checksum of a key's text: what opens to some key opens to the right one.
-- A closure of `Update` that also changes the keychain in memory runs on both (`Vault`): an error rolls
-- back the tables and not the memory. A timer is a number of pending runs in `Keyring`, and `expire`
-- is one of them.
--
-- The chain manager takes a keychain as the record `Keys` of the operations that it calls; `AreKeys`
-- says what it relies on, and `keychain_keys` is the keychain of base/keys.go. JSON is the record
-- `Codec`. A Go map is a list of rows under its key, in one order of its iteration.
--
-- The script builder and the public keys come as the record `Scripting`; `AreScripts` says that a
-- builder appends the bytes of each addition, up to 10000 of them. `Failure` has an error for each
-- way in which a wallet's call ends, Go's panic on an index included.
--
-- A wallet's transaction holds the mutex of the wallet; a call that would wait, panic or unlock a free
-- mutex gives `none`. The recursion of `checkIfStxoIsConfirmed` runs on fuel: any fuel above the length
-- of a chain of unconfirmed transactions is enough, which `IsRanked` says by a rank.
--
-- Loops over invalid keys have no bound in Go. Here they run on fuel; `CanExtend` asks for fuel of
-- the lookahead size times `gap + 1`, which is enough, and for as much room below the hardened
-- indices. A `uint32` conversion is written out as `% 2 ^ 32`.
--
-- Not modelled: a `Begin` that fails, the lock of a keychain (every operation here is one that holds
-- it), the fee provider that computes in floating point, the spending and the escrow fees of the
-- coins' wallets, the rest of the chain manager, the clients, and the construction of a multiwallet.
pub mod Bus
pub mod Chain
pub mod Coins
pub mod Database
pub mod Keychain
pub mod Prelude
pub mod Rates
pub mod Rebroadcaster
pub mod Wallet
