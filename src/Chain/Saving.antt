-- ===== src/Chain/Saving.antt =====
-- `saveTransactionsAndUtxos` of base/chain.go. A Go map is a list of rows under its key; `now` is the
-- time of the call.
pub mod Utxos
pub mod Sync
pub mod Synced
pub mod Stored
pub mod Atomic
use multiwallet.Prelude.{
  ℕ, suc, ◌+◌, Bool, true, false, ◌&&◌, ◌||◌, not, Option, none, some, List, [], ◌∷◌, ◌++◌, any,
  first, select, ◌==◌, if◌then◌else◌, Text, text_eq,
}
use multiwallet.Prelude.Int.{ℤ, pos, ◌+ℤ◌, ◌-ℤ◌}
use multiwallet.Database.Models.{Tables, TransactionRecord, UtxoRecord}
use multiwallet.Database.Tables.{find_by, upsert, delete_by}
use multiwallet.Database.Tx.{
  Result, ok, err, Tx, Exec, Engine, ◌>>=◌, ◌>>◌, pure, lift, or_error, query, write, bad_json,
}
use multiwallet.Database.Beside.{Beside, on_session, in_memory, update_beside}
use multiwallet.Keychain.Addresses.{Address}
use multiwallet.Chain.Types.{BlockInfo, SpendInfo, Transaction, Codec, hex, is_own, Keys}

-- What the call changes in memory: the transactions to tell the subscriber, the number of new ones,
-- `cm.unconfirmedTxs`, and the `addUnconfirmed` messages.
pub record Pending : Type 0 where
  pub new_or_updated : List Transaction
  pub num_new : ℕ
  pub unconfirmed : List Transaction
  pub added : List Transaction

abbrev pub note : Transaction → Pending → Pending
note tx p = record p { new_or_updated = p.new_or_updated ++ tx ∷ [] }

abbrev pub note_new : Transaction → Pending → Pending
note_new tx p = record p {
  new_or_updated = p.new_or_updated ++ tx ∷ [];
  num_new = p.num_new + 1;
  added = if tx.height == 0 then p.added ++ tx ∷ [] else p.added;
}

abbrev pub keep_unconfirmed : Transaction → Pending → Pending
keep_unconfirmed tx p =
    if tx.height == 0 then record p { unconfirmed = upsert (λ t. t.id) tx p.unconfirmed } else p

abbrev pub block_time_or : ℕ → Option BlockInfo → ℕ
block_time_or t none = t
block_time_or t (some b) = b.block_time

-- `Save` of a transaction record, and of a utxo.
unfoldable pub save_transaction : TransactionRecord → Tx (Unit {0})
save_transaction r = write (λ t. record t { transactions = upsert (λ x. x.txid) r t.transactions })

unfoldable pub save_utxo : UtxoRecord → Tx (Unit {0})
save_utxo r = write (λ t. record t { utxos = upsert (λ x. x.outpoint) r t.utxos })

unfoldable pub delete_utxo : Text → Tx (Unit {0})
delete_utxo o = write (λ t. record t { utxos = delete_by (λ x. x.outpoint) o t.utxos })

abbrev pub find_transactions : Text → Tables → List TransactionRecord
find_transactions coin t = select (λ r. text_eq r.coin coin) t.transactions

abbrev pub find_utxos : Text → Tables → List UtxoRecord
find_utxos coin t = select (λ r. text_eq r.coin coin) t.utxos

abbrev pub touches : List Address → List SpendInfo → Bool
touches own infos = any (λ i. is_own own i.address) infos

abbrev pub subtract_own : List Address → ℤ → List SpendInfo → ℤ
subtract_own own total [] = total
subtract_own own total (i ∷ infos) =
    subtract_own own (if is_own own i.address then total -ℤ i.amount else total) infos

abbrev pub add_own : List Address → ℤ → List SpendInfo → ℤ
add_own own total [] = total
add_own own total (i ∷ infos) =
    add_own own (if is_own own i.address then total +ℤ i.amount else total) infos

-- `total` after the two loops over a transaction.
unfoldable pub own_total : List Address → Transaction → ℤ
own_total own tx = add_own own (subtract_own own (pos 0) tx.from) tx.to

abbrev pub is_relevant : List Address → Transaction → Bool
is_relevant own tx = touches own tx.from || touches own tx.to

-- A stored transaction that is at another height now.
abbrev pub moved : ℕ → Option BlockInfo → TransactionRecord → TransactionRecord
moved height info r = record r { block_height = height; timestamp = block_time_or r.timestamp info }

-- A relevant transaction as it is stored.
abbrev pub valued : ℕ → ℤ → Transaction → Transaction
valued now total tx = record tx { value = total; timestamp = block_time_or now tx.block_info }

-- `delete` and `utxos[outpoint] = …` on the map of utxos.
abbrev pub put_utxo : UtxoRecord → List UtxoRecord → List UtxoRecord
put_utxo u us = upsert (λ x. x.outpoint) u us

abbrev pub drop_utxo : Text → List UtxoRecord → List UtxoRecord
drop_utxo o us = delete_by (λ x. x.outpoint) o us

unfoldable pub drop_inputs : List SpendInfo → List UtxoRecord → List UtxoRecord
drop_inputs [] us = us
drop_inputs (i ∷ infos) us = drop_inputs infos (drop_utxo (hex i.id) us)

-- The second loop.
unfoldable pub drop_spent : List Transaction → List UtxoRecord → List UtxoRecord
drop_spent [] us = us
drop_spent (tx ∷ txs) us = drop_spent txs (drop_inputs tx.from us)

abbrev pub is_in : List UtxoRecord → Text → Bool
is_in us o = any (λ u. text_eq u.outpoint o) us

-- Utxos of the database that are not in the set go.
unfoldable pub delete_others : List UtxoRecord → List UtxoRecord → Tx (Unit {0})
delete_others utxos [] = pure tt
delete_others utxos (r ∷ saved) = do
  if is_in utxos r.outpoint then pure tt else delete_utxo r.outpoint
  delete_others utxos saved

unfoldable pub save_utxos : List UtxoRecord → Tx (Unit {0})
save_utxos [] = pure tt
save_utxos (u ∷ us) = do save_utxo u; save_utxos us

-- From the utxos of the transaction map to the table of the coin.
unfoldable pub sync_utxos : Text → List UtxoRecord → Tx (Unit {0})
sync_utxos coin utxos = do
  saved ← query (λ t. ok (find_utxos coin t))
  delete_others utxos saved
  save_utxos utxos

module _ (codec : Codec) where
  abbrev pub cons_ok : Transaction → Result (List Transaction) → Result (List Transaction)
  cons_ok tx (ok txs) = ok (tx ∷ txs)
  cons_ok tx (err e) = err e

  -- `(*TransactionRecord).Transaction` of every record.
  unfoldable pub decode_all : List TransactionRecord → Result (List Transaction)
  decode_all [] = ok []
  decode_all (r ∷ records) =
      let rest = decode_all records in
      elim (codec.unmarshal r.serialized_transaction) [
        | none ↦ err bad_json
        | some tx ↦ cons_ok tx rest
      ]

module _ (codec : Codec) (keys : Keys) (coin : Text) (own : List Address) (now : ℕ) where
  -- `NewTransactionRecord` of database/models.go.
  abbrev pub record_of : Transaction → Text → TransactionRecord
  record_of tx text = record {
    txid = tx.id;
    serialized_transaction = text;
    block_height = tx.height;
    timestamp = tx.timestamp;
    coin = coin;
  }

  abbrev pub new_transaction_record : Transaction → Result TransactionRecord
  new_transaction_record tx = elim (codec.marshal tx) [
    | none ↦ err bad_json
    | some text ↦ ok (record_of tx text)
  ]

  unfoldable pub mark_outputs : List SpendInfo → Tx (Unit {0})
  mark_outputs [] = pure tt
  mark_outputs (to ∷ tos) = do
    if is_own own to.address then keys.mark_address_as_used to.address.text else pure tt
    mark_outputs tos

  -- The transaction map after a transaction whose id it does not hold; `(tx, map)`.
  unfoldable pub store_unknown :
      Transaction
      → List TransactionRecord
      → Exec (Beside Pending) (Transaction × List TransactionRecord)
  store_unknown tx map =
      if is_relevant own tx
      then (let tx' = valued now (own_total own tx) tx in
          do
            txr ← lift (new_transaction_record tx')
            on_session (save_transaction txr)
            in_memory (note_new tx')
            pure (tx', upsert (λ x. x.txid) txr map))
      else (do in_memory (note tx); pure (tx, map))

  -- The map keeps the record of before.
  unfoldable pub store_known :
      Transaction
      → TransactionRecord
      → List TransactionRecord
      → Exec (Beside Pending) (Transaction × List TransactionRecord)
  store_known tx saved map =
      if saved.block_height == tx.height
      then (do in_memory (if is_relevant own tx then (λ p. p) else note tx); pure (tx, map))
      else (do
        on_session (save_transaction (moved tx.height tx.block_info saved))
        in_memory (note tx)
        pure (tx, map))

  abbrev pub store_either :
      Transaction
      → List TransactionRecord
      → Option TransactionRecord
      → Exec (Beside Pending) (Transaction × List TransactionRecord)
  store_either tx map none = store_unknown tx map
  store_either tx map (some saved) = store_known tx saved map

  unfoldable pub store_one :
      Transaction → List TransactionRecord → Exec (Beside Pending) (List TransactionRecord)
  store_one tx map = do
    on_session (mark_outputs tx.to)
    (tx', map') ← store_either tx map (find_by (λ x. x.txid) tx.id map)
    in_memory (keep_unconfirmed tx')
    pure map'

  unfoldable pub store_all :
      List Transaction → List TransactionRecord → Exec (Beside Pending) (List TransactionRecord)
  store_all [] map = pure map
  store_all (tx ∷ txs) map = do map' ← store_one tx map; store_all txs map'

  abbrev pub utxo_of : Transaction → SpendInfo → UtxoRecord
  utxo_of tx to = record {
    outpoint = hex to.id;
    height = tx.height;
    timestamp = block_time_or now tx.block_info;
    amount = codec.amount_text to.amount;
    address = to.address.text;
    coin = coin;
  }

  unfoldable pub collect_outputs : Transaction → List SpendInfo → List UtxoRecord → List UtxoRecord
  collect_outputs tx [] us = us
  collect_outputs tx (to ∷ tos) us =
      collect_outputs tx tos (if is_own own to.address then put_utxo (utxo_of tx to) us else us)

  -- The first loop over the transaction map.
  unfoldable pub collect : List Transaction → List UtxoRecord → List UtxoRecord
  collect [] us = us
  collect (tx ∷ txs) us = collect txs (collect_outputs tx tx.to us)

  unfoldable pub utxo_set : List Transaction → List UtxoRecord
  utxo_set txs = drop_spent txs (collect txs [])

  -- The closure of `Update`.
  unfoldable pub save_all : List Transaction → Exec (Beside Pending) (Unit {0})
  save_all new_txs = do
    saved ← on_session (query (λ t. ok (find_transactions coin t)))
    map ← store_all new_txs saved
    txs ← lift (decode_all codec map)
    on_session (sync_utxos coin (utxo_set txs))

-- The chain manager's state that the call touches: the database, `cm.unconfirmedTxs`, the messages
-- that it sends itself, and what the subscriber was told.
pub record Manager : Type 0 where
  pub engine : Engine
  pub unconfirmed : List Transaction
  pub added : List Transaction
  pub delivered : List Transaction

abbrev pub fresh_pending : Manager → Pending
fresh_pending m = record {
  new_or_updated = [];
  num_new = 0;
  unconfirmed = m.unconfirmed;
  added = m.added;
}

-- After the update the subscriber is told, whether it failed or not; (numNew, err).
abbrev pub deliver :
    Manager → Result (Unit {0}) × (Engine × Pending) → (ℕ × Result (Unit {0})) × Manager
deliver m (r, (e, p)) = (
  (p.num_new, r),
  record {
    engine = e;
    unconfirmed = p.unconfirmed;
    added = p.added;
    delivered = m.delivered ++ p.new_or_updated;
  },
)

abbrev pub save_with :
    Codec
    → Keys
    → Text
    → ℕ
    → List Transaction
    → Manager
    → Result (List Address) × Engine
    → (ℕ × Result (Unit {0})) × Manager
save_with codec keys coin now new_txs m (err x, e) = ((0, err x), record m { engine = e })
save_with codec keys coin now new_txs m (ok own, e) =
    deliver m (update_beside (save_all codec keys coin own now new_txs) (e, fresh_pending m))

unfoldable pub save_transactions_and_utxos :
    Codec → Keys → Text → ℕ → List Transaction → Manager → (ℕ × Result (Unit {0})) × Manager
save_transactions_and_utxos codec keys coin now new_txs m =
    save_with codec keys coin now new_txs m (keys.get_addresses m.engine)
