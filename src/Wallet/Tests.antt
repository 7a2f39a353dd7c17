-- ===== src/Wallet/Tests.antt =====
-- The wallet base: the balance with an unconfirmed transaction that spends a confirmed one of the
-- wallet's own, the watching of addresses, and transactions of the wallet.
use mathlib.Core.Path.{subst}
use multiwallet.Prelude.{
  ℕ, zero, suc, ◌<◌, ◌≤◌, ◌≡◌, refl, ◌↔◌, Bool, true, false, none, some, List, [], ◌∷◌, ◌++◌, Text,
  codes, text_eq, arith, All, length, take, if◌then◌else◌,
}
use multiwallet.Prelude.Int.{ℤ, pos, ◌+ℤ◌}
use multiwallet.Database.Models.{TransactionRecord, UtxoRecord, empty_tables}
use multiwallet.Database.Tables.{find_by, upsert, All-find_by, find_by-key}
use multiwallet.Database.Tx.{Engine, Result, ok, query, statement, write, write_tx, finish}
use multiwallet.Keychain.Addresses.{Address, find_address}
use multiwallet.Chain.Types.{SpendInfo, Transaction, Codec, hex}
use multiwallet.Chain.Saving.{find_utxos, decode_all}
use multiwallet.Wallet.Balance.{check_if_stxo_is_confirmed, check_inputs, balance}
use multiwallet.Wallet.Balance.Settled.{IsSettled, IsRanked, confirmed-Answers, confirmed-IsSettled}
use multiwallet.Wallet.Balance.Sums.{total}
use multiwallet.Wallet.Balance.Given.{balance_adds}
use multiwallet.Database.Beside.{update_beside}
use multiwallet.Wallet.Locking.{DbTx, Shared, begin, commit}
use multiwallet.Wallet.Locking.Reach.{
  begins, Reachable, starts, steps, open_count, one_tx_open, open_tx_commits,
}
use multiwallet.Wallet.Watching.{Watch, watch_hook, watch_all, save_watched}
use multiwallet.Wallet.Watching.Kept.{Watches, watch_hook-Watches}
use multiwallet.Wallet.Watching.Deferred.{IsDeferred, watch_address-IsDeferred}

abbrev replicate : ℕ → ℕ → Text
replicate zero b = []
replicate (suc n) b = b ∷ replicate n b

abbrev spend : ℕ → ℕ → SpendInfo
spend n amount = record {
  id = replicate 36 n;
  address = record { text = []; coin = codes "BTC" };
  amount = pos amount;
}

abbrev txid : ℕ → Text
txid n = hex (replicate 32 n)

abbrev tx : ℕ → List SpendInfo → ℕ → Transaction
tx n from height = record {
  id = txid n;
  from = from;
  to = spend n 5 ∷ [];
  height = height;
  timestamp = 0;
  value = pos 0;
  block_info = none;
}

abbrev txs : List Transaction
txs = tx 1 [] 9 ∷ tx 2 (spend 1 5 ∷ []) 0 ∷ []

abbrev rank : Text → ℕ
rank id = if text_eq id (txid 2) then 1 else 0

txs-IsRanked : IsRanked txs rank
unfolding text_eq
txs-IsRanked = record {
  long = λ id t found.
      All-find_by (λ x. x.id) (λ (x : Transaction). All (λ i. 32 ≤ length i.id) x.from) id t txs
        (tt, ((omega arith, tt), tt)) found;
  falls = λ id t found.
      subst (λ (j : Text). All (λ i. rank (hex (take 32 i.id)) < rank j) t.from)
        (find_by-key (λ (x : Transaction). x.id) id t txs found)
        (All-find_by (λ x. x.id)
          (λ (x : Transaction). All (λ i. rank (hex (take 32 i.id)) < rank x.id) x.from) id t txs
          (tt, ((omega arith, tt), tt)) found);
}

answers_example : (c : Bool) × (check_if_stxo_is_confirmed 2 txs (txid 2) ≡ ok c)
unfolding text_eq
answers_example = confirmed-Answers txs rank txs-IsRanked 2 (txid 2) (omega arith)

settled_example : (check_if_stxo_is_confirmed 2 txs (txid 2) ≡ ok true) ↔ IsSettled txs (txid 2)
unfolding text_eq
settled_example = confirmed-IsSettled txs rank txs-IsRanked 2 (txid 2) (omega arith)

check_result : check_if_stxo_is_confirmed 2 txs (txid 2) ≡ ok true
unfolding check_if_stxo_is_confirmed check_inputs find_by text_eq
check_result = refl

abbrev codec : Codec
codec = record {
  marshal = λ t. some t.id;
  unmarshal = λ t. if text_eq t (txid 1) then some (tx 1 [] 9) else some (tx 2 (spend 1 5 ∷ []) 0);
  amount_text = λ a. [];
}

abbrev tx_row : ℕ → TransactionRecord
tx_row n = record {
  txid = txid n;
  serialized_transaction = txid n;
  block_height = 0;
  timestamp = 0;
  coin = codes "BTC";
}

abbrev utxo_row : ℕ → ℕ → UtxoRecord
utxo_row n height = record {
  outpoint = hex (replicate 36 n);
  height = height;
  timestamp = 0;
  amount = codes "5";
  address = [];
  coin = codes "BTC";
}

abbrev store : Engine
store = record {
  tables = record empty_tables {
    transactions = tx_row 1 ∷ (tx_row 2 ∷ []);
    utxos = utxo_row 2 0 ∷ (utxo_row 3 7 ∷ []);
  };
  step = 0;
  faults = λ n. false;
}

balance_example :
    (p : ℤ × ℤ) × (e' : Engine) × (balance codec (λ t. pos 5) 2 (codes "BTC") store ≡ (ok p, e'))
    × (p.0 +ℤ p.1 ≡ total codec (λ t. pos 5) (find_utxos (codes "BTC") store.tables))
unfolding text_eq decode_all upsert find_by
balance_example =
    balance_adds codec (λ t. pos 5) 2 rank (codes "BTC") store txs refl refl refl txs-IsRanked
      ((omega arith, omega arith), ((omega arith, omega arith), tt))

-- A wallet that watches one of three addresses already, owns another, and takes the third.
abbrev place : Text → Address
place t = record { text = t; coin = codes "BTC" }

abbrev watch : Shared Watch
watch = record {
  wallet = record {
    engine = record {
      tables = record empty_tables {
        addresses =
            record {
              addr = codes "a";
              key_index = 0;
              change = false;
              used = false;
              coin = codes "BTC";
            }
            ∷ [];
        watched = record { addr = codes "b"; coin = codes "BTC"; script = [] } ∷ [];
      };
      step = 0;
      faults = λ n. false;
    };
    told = [];
  };
  is_locked = false;
}

abbrev three : List Address
three = place (codes "a") ∷ (place (codes "b") ∷ (place (codes "c") ∷ []))

told_result : (watch_hook (codes "BTC") three watch.wallet).1.told ≡ place (codes "c") ∷ []
unfolding watch_hook watch_all save_watched find_address text_eq upsert update_beside query
    statement write write_tx finish
told_result = refl

watch_hook_example :
    Watches (codes "BTC") three watch.wallet (watch_hook (codes "BTC") three watch.wallet)
watch_hook_example = watch_hook-Watches (codes "BTC") three watch.wallet

watch_later_example : IsDeferred (codes "BTC") three watch
watch_later_example = watch_address-IsDeferred (codes "BTC") three watch refl

-- One transaction is begun, and another waits for it.
abbrev locked : Shared Watch
locked = record watch { is_locked = true }

abbrev opened : DbTx (List Address)
opened = record { is_closed = false; on_commit = none }

opened-Reachable :
    Reachable
      (watch_hook (codes "BTC"))
      watch.wallet
      (record { shared = locked; txs = [] ++ opened ∷ [] })
unfolding begin
opened-Reachable =
    steps (record { shared = watch; txs = [] }) (record { shared = locked; txs = opened ∷ [] })
      starts (begins (record { shared = watch; txs = [] }) opened locked refl)

one_open_example : open_count (opened ∷ []) ≡ (if locked.is_locked then 1 else 0)
one_open_example =
    one_tx_open (watch_hook (codes "BTC")) watch.wallet
      (record { shared = locked; txs = opened ∷ [] }) opened-Reachable

commit_example :
    (r : Result (Unit {0})) × (tx' : DbTx (List Address)) × (s' : Shared Watch) × (new : DbTx
      (List Address))
    × (t : Shared Watch) × (commit (watch_hook (codes "BTC")) opened locked ≡ some (r, (tx', s')))
    × (tx'.is_closed ≡ true)
    × (begin s' ≡ some (new, t))
commit_example =
    open_tx_commits (watch_hook (codes "BTC")) watch.wallet locked [] opened [] opened-Reachable
      refl
