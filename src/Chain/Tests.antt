-- ===== src/Chain/Tests.antt =====
-- The chain manager over the small keychain: a payment that is stored already, and a new
-- transaction that spends it.
use multiwallet.Prelude.{
  ℕ, ◌≡◌, refl, false, none, some, [], ◌∷◌, map, Text, codes, text_eq, if◌then◌else◌,
}
use multiwallet.Prelude.Int.{pos}
use multiwallet.Database.Models.{TransactionRecord, UtxoRecord, empty_tables}
use multiwallet.Database.Tables.{find_by, upsert, delete_by}
use multiwallet.Database.Tx.{Engine, query, statement, write, update, write_tx, finish}
use multiwallet.Database.Beside.{update_beside}
use multiwallet.Keychain.Keys.{derive, chain_key}
use multiwallet.Keychain.Lookahead.{
  find_addresses, save_address, extend_keychain, get_lookahead_windows, fill_windows,
  create_new_keys, create_loop, lookahead_windows, last_used, unused, last_record,
}
use multiwallet.Keychain.Addresses.{
  Address, record_address, get_addresses, find_address, mark_address_as_used,
}
use multiwallet.Keychain.Passphrase.{save_coin}
use multiwallet.Keychain.Tests.{tree, chain}
use multiwallet.Keychain.Tests.Runs.{rows}
use multiwallet.Chain.Types.{BlockInfo, SpendInfo, Transaction, Codec, Keys, AreKeys}
use multiwallet.Chain.Marking.{MarkError, keychain_keys, keychain_keys-AreKeys}
use multiwallet.Chain.Saving.{
  Manager, save_transactions_and_utxos, save_all, store_all, store_one, store_unknown, store_known,
  mark_outputs, own_total, decode_all, collect, collect_outputs, drop_spent, drop_inputs, utxo_set,
  delete_others, save_utxos, sync_utxos, save_transaction, save_utxo, delete_utxo,
}
use multiwallet.Chain.Blocks.{
  Tip, handle_block, save_best, clear_coin, delete_transactions, delete_transaction, delete_utxos,
}
use multiwallet.Chain.Blocks.Following.{IsHandled, handle_block-IsHandled}
use multiwallet.Chain.Saving.Atomic.{Saves, save_transactions_and_utxos-Saves}

abbrev place : Text → Address
place t = record { text = t; coin = codes "BTC" }

abbrev spend : ℕ → Text → ℕ → SpendInfo
spend n t amount = record { id = n ∷ []; address = place t; amount = pos amount }

-- 10 to the external address 0, at the outpoint 171.
abbrev payment : Transaction
payment = record {
  id = codes "p";
  from = spend 7 (codes "x") 11 ∷ [];
  to = spend 171 (0 ∷ 0 ∷ []) 10 ∷ [];
  height = 5;
  timestamp = 100;
  value = pos 10;
  block_info = none;
}

-- It goes on to a stranger, with 3 of change to the external address 2.
abbrev spending : Transaction
spending = record {
  id = codes "s";
  from = spend 171 (0 ∷ 0 ∷ []) 10 ∷ [];
  to = spend 18 (codes "y") 6 ∷ (spend 19 (2 ∷ 0 ∷ []) 3 ∷ []);
  height = 0;
  timestamp = 0;
  value = pos 0;
  block_info = none;
}

-- A transaction is stored as its id.
abbrev codec : Codec
codec = record {
  marshal = λ tx. some tx.id;
  unmarshal = λ t. if text_eq t (codes "p") then some payment else some spending;
  amount_text = λ a. [];
}

abbrev saved_row : TransactionRecord
saved_row = record {
  txid = codes "p";
  serialized_transaction = codes "p";
  block_height = 5;
  timestamp = 100;
  coin = codes "BTC";
}

abbrev utxo_row : Text → UtxoRecord
utxo_row o = record {
  outpoint = o;
  height = 5;
  timestamp = 100;
  amount = [];
  address = 0 ∷ 0 ∷ [];
  coin = codes "BTC";
}

abbrev manager : Manager
manager = record {
  engine = record {
    tables = record empty_tables {
      addresses = rows;
      transactions = saved_row ∷ [];
      utxos = utxo_row (codes "ab") ∷ [];
    };
    step = 0;
    faults = λ n. false;
  };
  unconfirmed = [];
  added = [];
  delivered = [];
}

abbrev keys : Keys
keys = keychain_keys tree chain 6

abbrev opened : Engine
opened = record manager.engine { step = 3 }

keychain_keys_example : AreKeys (keychain_keys tree chain 6) MarkError
keychain_keys_example = keychain_keys-AreKeys tree chain 6

-- The utxo of the payment goes, the one of the change comes.
run_result :
    map
      (λ (u : UtxoRecord). u.outpoint)
      ((save_transactions_and_utxos codec keys
        (codes "BTC")
        200
        (spending ∷ [])
        manager).1.engine.tables.utxos)
    ≡ codes "13" ∷ []
unfolding save_transactions_and_utxos save_all store_all store_one store_unknown store_known
    mark_outputs own_total decode_all collect collect_outputs drop_spent drop_inputs utxo_set
    delete_others save_utxos sync_utxos save_transaction save_utxo delete_utxo update_beside
    keychain_keys get_addresses update query statement write write_tx finish find_addresses text_eq
    find_by upsert delete_by mark_address_as_used find_address save_address extend_keychain
    get_lookahead_windows fill_windows create_new_keys create_loop lookahead_windows last_used
    unused last_record derive chain_key
run_result = refl

save_transactions_and_utxos_example :
    Saves codec
      (codes "BTC")
      (map record_address rows)
      (spending ∷ [])
      MarkError
      opened.tables
      (save_transactions_and_utxos codec keys (codes "BTC") 200 (spending ∷ []) manager)
unfolding keychain_keys get_addresses update query statement write_tx finish find_addresses text_eq
save_transactions_and_utxos_example =
    save_transactions_and_utxos-Saves codec keys (codes "BTC") (map record_address rows) 200
      (spending ∷ []) manager MarkError opened (keychain_keys-AreKeys tree chain 6) refl

-- A block whose predecessor is not the best block: the coin starts over.
abbrev tip : Tip
tip = record {
  engine = manager.engine;
  best = record { block_id = codes "b5"; prev_block = codes "b4"; height = 5; block_time = 0 };
  unconfirmed = spending ∷ [];
  updates = [];
  scans = [];
}

abbrev fork : BlockInfo
fork = record { block_id = codes "c6"; prev_block = codes "c5"; height = 6; block_time = 0 }

fork_result :
    ((handle_block (codes "BTC") fork tip).engine.tables.transactions ≡ [])
    × ((handle_block (codes "BTC") fork tip).engine.tables.utxos ≡ [])
    × ((handle_block (codes "BTC") fork tip).scans ≡ 0 ∷ [])
unfolding handle_block save_best clear_coin delete_transactions delete_transaction delete_utxos
    delete_utxo update query statement write write_tx finish text_eq find_by delete_by upsert
    save_coin
fork_result = (refl, refl, refl)

handle_block_example : IsHandled (codes "BTC") fork tip (handle_block (codes "BTC") fork tip)
handle_block_example = handle_block-IsHandled (codes "BTC") fork tip
