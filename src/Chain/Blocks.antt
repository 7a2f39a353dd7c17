-- ===== src/Chain/Blocks.antt =====
-- A new block in `chainHandler` of base/chain.go: the best block, its record, and the clearing of the
-- coin's tables where the block does not follow the last one.
pub mod Clearing
pub mod Following
use multiwallet.Prelude.{ℕ, Bool, not, List, [], ◌∷◌, ◌++◌, Text, text_eq, if◌then◌else◌}
use multiwallet.Database.Models.{CoinRecord, TransactionRecord, UtxoRecord}
use multiwallet.Database.Tables.{delete_by}
use multiwallet.Database.Tx.{ok, Tx, Engine, ◌>>=◌, ◌>>◌, pure, query, write, update}
use multiwallet.Chain.Types.{BlockInfo, Transaction}
use multiwallet.Keychain.Passphrase.{find_coin, save_coin}
use multiwallet.Chain.Saving.{find_transactions, find_utxos, delete_utxo}

unfoldable pub delete_transaction : Text → Tx (Unit {0})
delete_transaction id =
    write (λ t. record t { transactions = delete_by (λ x. x.txid) id t.transactions })

-- The two loops of a possible reorganization.
unfoldable pub delete_transactions : List TransactionRecord → Tx (Unit {0})
delete_transactions [] = pure tt
delete_transactions (r ∷ rows) = do delete_transaction r.txid; delete_transactions rows

unfoldable pub delete_utxos : List UtxoRecord → Tx (Unit {0})
delete_utxos [] = pure tt
delete_utxos (r ∷ rows) = do delete_utxo r.outpoint; delete_utxos rows

abbrev pub clear_utxos : Text → Tx (Unit {0})
clear_utxos coin = query (λ t. ok (find_utxos coin t)) >>= delete_utxos

unfoldable pub clear_coin : Text → Tx (Unit {0})
clear_coin coin = do
  saved ← query (λ t. ok (find_transactions coin t))
  delete_transactions saved
  clear_utxos coin

abbrev pub with_best : BlockInfo → CoinRecord → CoinRecord
with_best block rec = record rec {
  best_block_height = block.height;
  best_block_id = block.block_id;
}

-- Without a record the one that is saved is new, with the empty text as its coin.
unfoldable pub save_best : Text → BlockInfo → Tx (Unit {0})
save_best coin block = do rec ← query (λ t. ok (find_coin coin t)); save_coin (with_best block rec)

-- The chain manager's state for a block: the database, `cm.best`, `cm.unconfirmedTxs`, the calls of
-- `updateUnconfirmed` and the heights of the scans that it started.
pub record Tip : Type 0 where
  pub engine : Engine
  pub best : BlockInfo
  pub unconfirmed : List Transaction
  pub updates : List (List Transaction)
  pub scans : List ℕ

-- The unconfirmed transactions are looked up again, if there are any.
abbrev pub updated_later : List Transaction → List (List Transaction) → List (List Transaction)
updated_later [] updates = updates
updated_later (tx ∷ txs) updates = updates ++ (tx ∷ txs) ∷ []

abbrev pub follows : BlockInfo → BlockInfo → Bool
follows best block = text_eq best.block_id block.prev_block

-- Errors of the two updates are logged only.
abbrev pub after_best : Text → BlockInfo → Tip → Engine → Tip
after_best coin block t e =
    if follows t.best block
    then record {
      engine = e;
      best = block;
      unconfirmed = t.unconfirmed;
      updates = updated_later t.unconfirmed t.updates;
      scans = t.scans;
    }
    else record {
      engine = (update (clear_coin coin) e).1;
      best = block;
      unconfirmed = t.unconfirmed;
      updates = updated_later t.unconfirmed t.updates;
      scans = t.scans ++ 0 ∷ [];
    }

unfoldable pub handle_block : Text → BlockInfo → Tip → Tip
handle_block coin block t = after_best coin block t (update (save_best coin block) t.engine).1
