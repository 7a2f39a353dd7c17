-- ===== src/Chain/Blocks/Clearing.antt =====
-- Clearing a coin: none of its transactions and utxos stay.
use mathlib.Core.Path.{subst}
use multiwallet.Prelude.{
  ◌≡◌, refl, sym, ◌∙◌, ap, inl, inr, Bool, true, false, List, [], ◌∷◌, any, All, All-map, select,
  arith, Text, text_eq, text_eq_iff, Bool-cases,
}
use multiwallet.Database.Models.{Tables, TransactionRecord, UtxoRecord}
use multiwallet.Database.Tables.{delete_by}
use multiwallet.Database.Tx.{Engine, update, write_tx, Session, ◌>>◌}
use multiwallet.Database.Laws.{
  Commits, update-Commits, Ends, Becomes, bind-Ends, map-Ends, write-Ends, read-bind-Ends,
}
use multiwallet.Chain.Saving.{find_transactions, find_utxos, delete_utxo}
use multiwallet.Chain.Blocks.{
  delete_transaction, delete_transactions, delete_utxos, clear_utxos, clear_coin,
}

module _ {Row : Type 0} (key : Row → Text) (own : Row → Bool) where
  -- Deleting by the keys of some rows, one after another.
  abbrev pub delete_all : List Row → List Row → List Row
  delete_all [] rows = rows
  delete_all (r ∷ gone) rows = delete_all gone (delete_by key (key r) rows)

  All-other :
      (P Q : Row → Type 0) (k : Text) (rows : List Row)
      → ((r : Row) → text_eq (key r) k ≡ false → P r → Q r)
      → All P rows
      → All Q (delete_by key k rows)
  unfolding delete_by
  All-other P Q k [] f h = tt
  All-other P Q k (r ∷ rows) f h = elim (Bool-cases (text_eq (key r) k)) [
    | inl same ↦ rw same (All-other P Q k rows f h.1)
    | inr other ↦ rw other (f r other h.0, All-other P Q k rows f h.1)
  ]

  -- Each row that is of the coin has its key among those to go.
  abbrev IsListed : List Row → Row → Type 0
  IsListed gone r = own r ≡ true → any (λ g. text_eq (key g) (key r)) gone ≡ true

  delete_all-others :
      (gone rows : List Row)
      → All (IsListed gone) rows
      → All (λ r. own r ≡ false) (delete_all gone rows)
  delete_all-others [] rows h =
      All-map (IsListed []) (λ r. own r ≡ false) rows
        (λ r k. elim (Bool-cases (own r)) [ inl o ↦ absurd (cc (k o)) | inr o ↦ o ]) h
  delete_all-others (g ∷ gone) rows h = delete_all-others gone (delete_by key (key g) rows) (
      All-other (IsListed (g ∷ gone)) (IsListed gone) (key g) rows
        (λ r other k o.
          (let there = k o in
            ground (arith, text_eq_iff (key g) (key r), text_eq_iff (key r) (key g))))
        h)

  select-IsListed : (rows : List Row) → All (IsListed (select own rows)) rows
  select-IsListed [] = tt
  select-IsListed (r ∷ rows) = elim (Bool-cases (own r)) [
    | inl mine ↦
        (let chosen : select own (r ∷ rows) ≡ r ∷ select own rows = rw mine refl in
          subst (λ (gone : List Row). All (IsListed gone) (r ∷ rows)) (sym chosen)
            (
              (λ o. let same = (text_eq_iff (key r) (key r)).1 refl in rw same refl),
              All-map (IsListed (select own rows)) (IsListed (r ∷ select own rows)) rows
                  (λ x h o. (let there = h o in ground arith)) (select-IsListed rows),
            ))
    | inr other ↦
        (let chosen : select own (r ∷ rows) ≡ select own rows = rw other refl in
          subst (λ (gone : List Row). All (IsListed gone) (r ∷ rows)) (sym chosen)
            (
              (λ o. (let no : true ≡ false = sym o ∙ other in absurd (cc (no)))),
              select-IsListed rows,
            ))
  ]

  select-none : (rows : List Row) → All (λ r. own r ≡ false) rows → select own rows ≡ []
  select-none [] h = refl
  select-none (r ∷ rows) h = rw (h.0) (select-none rows h.1)

  -- Deleting the rows of the coin leaves none of them.
  pub select-delete_all : (rows : List Row) → select own (delete_all (select own rows) rows) ≡ []
  select-delete_all rows =
      select-none (delete_all (select own rows) rows)
        (delete_all-others (select own rows) rows (select-IsListed rows))

abbrev with_transactions : Tables → List TransactionRecord → Tables
with_transactions T rows = record T { transactions = rows }

abbrev with_utxos : Tables → List UtxoRecord → Tables
with_utxos T rows = record T { utxos = rows }

abbrev tx_key : TransactionRecord → Text
tx_key r = r.txid

abbrev utxo_key : UtxoRecord → Text
utxo_key r = r.outpoint

module _ (coin : Text) where
  abbrev own_tx : TransactionRecord → Bool
  own_tx r = text_eq r.coin coin

  abbrev own_utxo : UtxoRecord → Bool
  own_utxo r = text_eq r.coin coin

  delete_transactions-Ends :
      (gone : List TransactionRecord) (s : Session)
      → s.for_writes ≡ true
      → Ends
          (λ _ t.
            Becomes s
              (with_transactions s.tables (delete_all tx_key own_tx gone s.tables.transactions))
              t)
          (λ _. ⊥)
          (delete_transactions gone s)
  unfolding delete_transactions delete_transaction
  delete_transactions-Ends [] s w = (refl, refl)
  delete_transactions-Ends (r ∷ gone) s w =
      bind-Ends (λ _ t. Becomes s (cut s.tables) t) _ (λ _. ⊥) (delete_transaction r.txid)
        (λ _. delete_transactions gone) s (write-Ends cut s w)
        (λ _ t h.
          map-Ends _ _ (λ _. ⊥) (λ _. ⊥) (delete_transactions gone t)
            (λ _ v k. (
              k.0
                  ∙ ap
                      (λ (T : Tables).
                        with_transactions T (delete_all tx_key own_tx gone T.transactions))
                      h.0,
              k.1 ∙ h.1,
            ))
            (λ _ e. e) (delete_transactions-Ends gone t (h.1 ∙ w)))
    where
      cut : Tables → Tables
      cut T = with_transactions T (delete_by tx_key r.txid T.transactions)

  delete_utxos-Ends :
      (gone : List UtxoRecord) (s : Session)
      → s.for_writes ≡ true
      → Ends
          (λ _ t.
            Becomes s (with_utxos s.tables (delete_all utxo_key own_utxo gone s.tables.utxos)) t)
          (λ _. ⊥)
          (delete_utxos gone s)
  unfolding delete_utxos delete_utxo
  delete_utxos-Ends [] s w = (refl, refl)
  delete_utxos-Ends (r ∷ gone) s w =
      bind-Ends (λ _ t. Becomes s (cut s.tables) t) _ (λ _. ⊥) (delete_utxo r.outpoint)
        (λ _. delete_utxos gone) s (write-Ends cut s w)
        (λ _ t h.
          map-Ends _ _ (λ _. ⊥) (λ _. ⊥) (delete_utxos gone t)
            (λ _ v k. (
              k.0
                  ∙ ap (λ (T : Tables). with_utxos T (delete_all utxo_key own_utxo gone T.utxos))
                      h.0,
              k.1 ∙ h.1,
            ))
            (λ _ e. e) (delete_utxos-Ends gone t (h.1 ∙ w)))
    where
      cut : Tables → Tables
      cut T = with_utxos T (delete_by utxo_key r.outpoint T.utxos)

  -- The tables without the coin's transactions and utxos.
  abbrev cleared : Tables → Tables
  cleared T =
      with_utxos
        (with_transactions T (delete_all tx_key own_tx (find_transactions coin T) T.transactions))
        (delete_all utxo_key own_utxo (find_utxos coin T) T.utxos)

  clear_coin-Ends :
      (s : Session)
      → s.for_writes ≡ true
      → Ends (λ _ t. t.tables ≡ cleared s.tables) (λ _. ⊥) (clear_coin coin s)
  unfolding clear_coin
  clear_coin-Ends s w =
      read-bind-Ends (find_transactions coin)
        (λ saved. delete_transactions saved >> clear_utxos coin) _ (λ _. ⊥) s
        (λ t h.
          bind-Ends
            (λ _ v.
              Becomes t
                (with_transactions t.tables (delete_all tx_key own_tx saved t.tables.transactions))
                v)
            _ (λ _. ⊥) (delete_transactions saved) (λ _. clear_utxos coin) t
            (delete_transactions-Ends saved t (h.1 ∙ w))
            (λ _ v k.
              read-bind-Ends (find_utxos coin) delete_utxos _ (λ _. ⊥) v
                (λ u l.
                  map-Ends _ _ (λ _. ⊥) (λ _. ⊥) (delete_utxos (find_utxos coin v.tables) u)
                    (λ _ z m.
                      m.0
                      ∙ ap
                          (λ (T : Tables).
                            with_utxos T
                              (delete_all utxo_key own_utxo (find_utxos coin v.tables) T.utxos))
                          l.0
                      ∙ ap
                          (λ (T : Tables).
                            with_utxos T (delete_all utxo_key own_utxo (find_utxos coin T) T.utxos))
                          k.0
                      ∙ ap
                          (λ (T : Tables).
                            with_utxos
                              (with_transactions T (delete_all tx_key own_tx saved T.transactions))
                              (delete_all utxo_key own_utxo (find_utxos coin T) T.utxos))
                          h.0)
                    (λ _ e. e)
                    (delete_utxos-Ends (find_utxos coin v.tables) u (l.1 ∙ k.1 ∙ h.1 ∙ w)))))
    where
      saved : List TransactionRecord
      saved = find_transactions coin s.tables

-- A coin that has no transactions and no utxos any more, beside tables that are as before.
pub record IsCleared (coin : Text) (before after : Tables) : Type 0 where
  pub no_transactions : find_transactions coin after ≡ []
  pub no_utxos : find_utxos coin after ≡ []
  pub coins : after.coins ≡ before.coins
  pub addresses : after.addresses ≡ before.addresses
  pub watched : after.watched ≡ before.watched
  pub unconfirmed : after.unconfirmed ≡ before.unconfirmed

pub clear_coin-IsCleared :
    (coin : Text) (e : Engine)
    → Commits (λ _ T. IsCleared coin e.tables T) (λ _. ⊥) e.tables (update (clear_coin coin) e)
unfolding write_tx
clear_coin-IsCleared coin e =
    update-Commits (λ _ T. IsCleared coin e.tables T) (λ _. ⊥) e (clear_coin coin)
      (map-Ends (λ _ t. t.tables ≡ cleared coin e.tables) (λ _ t. IsCleared coin e.tables t.tables)
        (λ _. ⊥) (λ _. ⊥) (clear_coin coin (write_tx e))
        (λ _ t h.
          subst (λ (T : Tables). IsCleared coin e.tables T) (sym h)
            (record {
              no_transactions = select-delete_all tx_key (own_tx coin) e.tables.transactions;
              no_utxos = select-delete_all utxo_key (own_utxo coin) e.tables.utxos;
              coins = refl;
              addresses = refl;
              watched = refl;
              unconfirmed = refl;
            }))
        (λ _ x. x) (clear_coin-Ends coin (write_tx e) refl))
