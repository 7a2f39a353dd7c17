-- ===== src/Database/Models.antt =====
-- The records of database/models.go, and the tables that hold them. A time is a number of seconds.
use multiwallet.Prelude.{ℕ, Bool, false, List, [], Text}

pub record CoinRecord : Type 0 where
  pub master_priv : Text
  pub encrypted_master_key : Bool
  pub kdf_rounds : ℕ
  pub kdf_key_len : ℕ
  pub salt : Text
  pub master_pub : Text
  pub coin : Text
  pub birthday : ℕ
  pub best_block_height : ℕ
  pub best_block_id : Text

pub record AddressRecord : Type 0 where
  pub addr : Text
  pub key_index : ℕ
  pub change : Bool
  pub used : Bool
  pub coin : Text

pub record WatchedAddressRecord : Type 0 where
  pub addr : Text
  pub coin : Text
  pub script : Text

pub record TransactionRecord : Type 0 where
  pub txid : Text
  pub serialized_transaction : Text
  pub block_height : ℕ
  pub timestamp : ℕ
  pub coin : Text

pub record UtxoRecord : Type 0 where
  pub outpoint : Text
  pub height : ℕ
  pub timestamp : ℕ
  pub amount : Text
  pub address : Text
  pub coin : Text

pub record UnconfirmedTransaction : Type 0 where
  pub txid : Text
  pub tx_bytes : Text
  pub timestamp : ℕ
  pub coin : Text

-- The tables that `InitializeDatabase` migrates.
pub record Tables : Type 0 where
  pub coins : List CoinRecord
  pub utxos : List UtxoRecord
  pub transactions : List TransactionRecord
  pub addresses : List AddressRecord
  pub watched : List WatchedAddressRecord
  pub unconfirmed : List UnconfirmedTransaction

-- What a `var record database.CoinRecord` holds before a query fills it.
abbrev pub zero_coin : CoinRecord
zero_coin = record {
  master_priv = [];
  encrypted_master_key = false;
  kdf_rounds = 0;
  kdf_key_len = 0;
  salt = [];
  master_pub = [];
  coin = [];
  birthday = 0;
  best_block_height = 0;
  best_block_id = [];
}

abbrev pub empty_tables : Tables
empty_tables = record {
  coins = [];
  utxos = [];
  transactions = [];
  addresses = [];
  watched = [];
  unconfirmed = [];
}
