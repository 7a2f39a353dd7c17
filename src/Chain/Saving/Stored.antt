-- ===== src/Chain/Saving/Stored.antt =====
-- The loop of `saveTransactionsAndUtxos` over the new transactions: the transaction map keeps up with
-- the table.
pub mod Loop
use multiwallet.Prelude.{
  ℕ, ◌≡◌, refl, sym, ◌∙◌, ap, ◌⊎◌, inl, inr, Bool, true, false, Option, none, some, List, [], ◌∷◌,
  arith, All, select, Bool-cases, Option-cases, if◌then◌else◌, Text, text_eq, text_eq_iff, ◌==◌,
}
use multiwallet.Database.Models.{TransactionRecord, Tables}
use multiwallet.Database.Tables.{
  find_by, upsert, find_by-upsert, find_by-key, All-find_by, All-upsert,
}
use multiwallet.Database.Tx.{Session, Error, ok, err, Exec, bad_json, pure, ◌>>=◌, ◌>>◌, lift}
use multiwallet.Database.Laws.{Ends, Becomes, bind-Ends, map-Ends, write-Ends}
use multiwallet.Database.Beside.{
  Beside, BesideEnds, on_session, in_memory, bind-BesideEnds, map-BesideEnds, on_session-BesideEnds,
  lift-bind-BesideEnds,
}
use multiwallet.Keychain.Addresses.{Address}
use multiwallet.Chain.Types.{SpendInfo, Transaction, Codec, Keys, KeepsOthers, AreKeys, is_own}
use multiwallet.Chain.Saving.{
  Pending, note, note_new, keep_unconfirmed, find_transactions, save_transaction, moved, valued,
  own_total, is_relevant, new_transaction_record, mark_outputs, store_unknown, store_known,
  store_either, store_one, store_all,
}

-- The text of the coin's record of a transaction.
abbrev pub text_of : Option TransactionRecord → Option Text
text_of none = none
text_of (some r) = some r.serialized_transaction

abbrev pub text_at : Text → List TransactionRecord → Option Text
text_at i rows = text_of (find_by (λ r. r.txid) i rows)

abbrev pub is_some : Option Text → Bool
is_some none = false
is_some (some t) = true

-- The coin's records have the transaction.
abbrev pub is_stored : Text → List TransactionRecord → Bool
is_stored i rows = is_some (text_at i rows)

-- No transaction goes, and a relevant new one is there.
pub record Stores (own : List Address) (tx : Transaction) (map map' : List TransactionRecord)
    : Type 0 where
  pub grows : (i : Text) → is_stored i map ≡ true → is_stored i map' ≡ true
  pub has : is_relevant own tx ≡ true → is_stored tx.id map' ≡ true

-- What holds of the map and the session inside the closure, which began with the tables `T`.
pub record KeepsUp (coin : Text) (T : Tables) (map : List TransactionRecord) (s : Session)
    : Type 0 where
  pub mirrors : (i : Text) → text_at i map ≡ text_at i (find_transactions coin s.tables)
  pub of_coin : All (λ r. r.coin ≡ coin) map
  pub utxos : s.tables.utxos ≡ T.utxos
  pub coins : s.tables.coins ≡ T.coins
  pub watched : s.tables.watched ≡ T.watched
  pub unconfirmed : s.tables.unconfirmed ≡ T.unconfirmed
  pub for_writes : s.for_writes ≡ true

module _ (coin : Text) (i : Text) (r : TransactionRecord) where
  find_by-select-upsert :
      (rows : List TransactionRecord)
      → r.coin ≡ coin
      → find_by (λ x. x.txid) i (select (λ x. text_eq x.coin coin) (upsert (λ x. x.txid) r rows))
        ≡ (if text_eq r.txid i
            then some r
            else find_by (λ x. x.txid) i (select (λ x. text_eq x.coin coin) rows))
  unfolding find_by upsert
  find_by-select-upsert [] h = rw ((text_eq_iff r.coin coin).1 h) refl
  find_by-select-upsert (x ∷ rows) h =
      let own = (text_eq_iff r.coin coin).1 h in
      let rest = find_by-select-upsert rows h in
      elim (Bool-cases (text_eq x.txid r.txid)) [
        | inl same ↦
            rw (same, own)
              (elim (Bool-cases (text_eq x.coin coin)) [
                | inl c ↦ rw c (ground (arith, text_eq_iff x.txid r.txid))
                | inr c ↦ rw c refl
              ])
        | inr other ↦ rw other (elim (Bool-cases (text_eq x.coin coin)) [
          | inl c ↦ rw c (
              ground (
                arith,
                rest,
                text_eq_iff x.txid i,
                text_eq_iff r.txid i,
                text_eq_iff x.txid r.txid,
              ))
          | inr c ↦ rw c rest
        ])
      ]

  -- Saving a record of the coin changes the text of its transaction only.
  pub text_at-upsert :
      (rows : List TransactionRecord)
      → text_at i (upsert (λ x. x.txid) r rows)
        ≡ (if text_eq r.txid i then some r.serialized_transaction else text_at i rows)
  text_at-upsert rows =
      ap text_of (find_by-upsert (λ (x : TransactionRecord). x.txid) i r rows) ∙ ground arith

  text_at-select-upsert :
      (rows : List TransactionRecord)
      → r.coin ≡ coin
      → text_at i (select (λ x. text_eq x.coin coin) (upsert (λ x. x.txid) r rows)) ≡ (
          if text_eq r.txid i
          then some r.serialized_transaction
          else text_at i (select (λ x. text_eq x.coin coin) rows))
  text_at-select-upsert rows h = ap text_of (find_by-select-upsert rows h) ∙ ground arith

module _ (coin : Text) (T : Tables) where
  pub save_transaction-Ends :
      (r : TransactionRecord) (map map' : List TransactionRecord) (s : Session)
      → r.coin ≡ coin
      → ((i : Text)
          → text_at i map'
            ≡ (if text_eq r.txid i then some r.serialized_transaction else text_at i map))
      → All (λ x. x.coin ≡ coin) map'
      → KeepsUp coin T map s
      → Ends (λ _ t. KeepsUp coin T map' t) (λ _. ⊥) (save_transaction r s)
  unfolding save_transaction
  save_transaction-Ends r map map' s c texts all k =
      map-Ends (λ _ t. Becomes s (saved s.tables) t) _ (λ _. ⊥) (λ _. ⊥) (save_transaction r s)
        (λ _ t h. record {
          mirrors = λ i.
              texts i
              ∙ ap
                  (λ (rest : Option Text).
                    if text_eq r.txid i then some r.serialized_transaction else rest)
                  (k.mirrors i)
              ∙ sym (text_at-select-upsert coin i r s.tables.transactions c)
              ∙ ap (λ (x : Tables). text_at i (find_transactions coin x)) (sym h.0);
          of_coin = all;
          utxos = ap (λ (x : Tables). x.utxos) h.0 ∙ k.utxos;
          coins = ap (λ (x : Tables). x.coins) h.0 ∙ k.coins;
          watched = ap (λ (x : Tables). x.watched) h.0 ∙ k.watched;
          unconfirmed = ap (λ (x : Tables). x.unconfirmed) h.0 ∙ k.unconfirmed;
          for_writes = h.1 ∙ k.for_writes;
        })
        (λ _ e. e) (write-Ends saved s k.for_writes)
    where
      saved : Tables → Tables
      saved t = record t { transactions = upsert (λ x. x.txid) r t.transactions }

  -- Marking addresses leaves the rest alone.
  pub others-KeepsUp :
      (map : List TransactionRecord) (s t : Session)
      → KeepsOthers s t
      → KeepsUp coin T map s
      → KeepsUp coin T map t
  others-KeepsUp map s t h k = record {
    mirrors = λ i.
        k.mirrors i
        ∙ ap (λ (rows : List TransactionRecord). text_at i (select (λ x. text_eq x.coin coin) rows))
            (sym h.transactions);
    of_coin = k.of_coin;
    utxos = h.utxos ∙ k.utxos;
    coins = h.coins ∙ k.coins;
    watched = h.watched ∙ k.watched;
    unconfirmed = h.unconfirmed ∙ k.unconfirmed;
    for_writes = h.for_writes ∙ k.for_writes;
  }
