-- ===== src/Chain/Saving/Atomic.antt =====
-- The whole of `saveTransactionsAndUtxos`: what it commits, and what it leaves after an error.
use multiwallet.Prelude.{
  ℕ, ◌≡◌, refl, sym, ◌∙◌, ap, ◌⊎◌, inl, inr, true, List, [], ◌∷◌, arith, All, All-map, select,
  text_eq, text_eq_iff, Bool-cases, Option-cases, Text,
}
use mathlib.Core.Path.{subst}
use multiwallet.Database.Models.{TransactionRecord, UtxoRecord, Tables}
use multiwallet.Database.Tx.{
  Tx, Session, Engine, Error, Result, ok, err, Exec, bad_json, ◌>>=◌, lift, query, write_tx,
}
use multiwallet.Database.Laws.{Faulted, Becomes, map-Ends, read-Ends}
use multiwallet.Database.Beside.{
  Beside, BesideEnds, on_session, bind-BesideEnds, map-BesideEnds, on_session-BesideEnds,
  lift-bind-BesideEnds, update_beside, CommitsBeside, update_beside-CommitsBeside,
}
use multiwallet.Keychain.Addresses.{Address}
use multiwallet.Chain.Types.{Transaction, Codec, Keys, AreKeys}
use multiwallet.Chain.Saving.{
  Pending, Manager, fresh_pending, deliver, find_transactions, is_relevant, store_all, cons_ok,
  decode_all, utxo_set, sync_utxos, save_all, save_transactions_and_utxos,
}
use multiwallet.Chain.Saving.Synced.{IsSynced, synced_rows, sync_utxos-Ends, synced_rows-IsSynced}
use multiwallet.Chain.Saving.Sync.{with_utxos}
use multiwallet.Chain.Saving.Stored.{text_at, is_some, is_stored, KeepsUp}
use multiwallet.Chain.Saving.Stored.Loop.{AllKeepUp, store_all-BesideEnds}

-- What a call with these transactions makes of the tables: the coin's stored transactions include
-- those of before and the relevant new ones, they all decode, and the utxos of the coin are what the
-- decoded transactions leave unspent.
pub record IsSaved (codec : Codec) (coin : Text) (own : List Address) (new_txs : List Transaction)
    (before after : Tables) : Type 0 where
  pub records : List TransactionRecord
  pub txs : List Transaction
  pub mirrors : (i : Text) → text_at i records ≡ text_at i (find_transactions coin after)
  pub decoded : decode_all codec records ≡ ok txs
  pub synced : IsSynced coin own txs before.utxos after.utxos
  pub grows :
      (i : Text)
      → is_stored i (find_transactions coin before) ≡ true
      → is_stored i (find_transactions coin after) ≡ true
  pub has :
      All
        (λ tx. is_relevant own tx ≡ true → is_stored tx.id (find_transactions coin after) ≡ true)
        new_txs
  pub coins : after.coins ≡ before.coins
  pub watched : after.watched ≡ before.watched
  pub unconfirmed : after.unconfirmed ≡ before.unconfirmed

-- The outcome of a call that began with the tables `before`.
abbrev pub Saves :
    Codec
    → Text
    → List Address
    → List Transaction
    → (Error → Type 0)
    → Tables
    → (ℕ × Result (Unit {0})) × Manager
    → Type 0
Saves codec coin own new_txs MarkError before ((n, ok a), m) =
    IsSaved codec coin own new_txs before m.engine.tables
Saves codec coin own new_txs MarkError before ((n, err x), m) =
    (m.engine.tables ≡ before) × ((MarkError x ⊎ (x ≡ bad_json)) ⊎ Faulted x m.engine.faults)

module _ (codec : Codec) (keys : Keys) (coin : Text) (own : List Address) (now : ℕ)
    (new_txs : List Transaction) (MarkError : Error → Type 0) (are : AreKeys keys MarkError)
    (T : Tables) where
  abbrev Fails : Error → Type 0
  Fails e = MarkError e ⊎ (e ≡ bad_json)

  abbrev Saved : Unit {0} → Beside Pending → Type 0
  Saved _ v = IsSaved codec coin own new_txs T v.0.tables

  cons-err :
      (tx : Transaction) (rest : Result (List Transaction)) (x : Error)
      → cons_ok codec tx rest ≡ err x
      → rest ≡ err x
  cons-err tx (ok txs) x h = absurd (cc (h))
  cons-err tx (err e) x h = h

  decode-err :
      (map : List TransactionRecord) (x : Error) → decode_all codec map ≡ err x → x ≡ bad_json
  unfolding decode_all
  decode-err [] x h = absurd (cc (h))
  decode-err (r ∷ map) x h = elim (Option-cases (codec.unmarshal r.serialized_transaction)) [
    | inl e ↦ ground arith
    | inr (tx, e) ↦ decode-err map x (cons-err tx (decode_all codec map) x (ground arith))
  ]

  -- The rest of the closure after the transactions are decoded.
  sync-BesideEnds :
      (map : List TransactionRecord) (txs : List Transaction) (w : Beside Pending)
      → decode_all codec map ≡ ok txs
      → AllKeepUp coin T codec keys own now MarkError are new_txs (find_transactions coin T) map w
      → BesideEnds Saved Fails
          (on_session (sync_utxos coin (utxo_set codec keys coin own now txs)) w)
  sync-BesideEnds map txs w decoded h =
      map-BesideEnds (λ a v. Q a v.0 × (v.1 ≡ w.1)) Saved Fails (on_session run w) (λ a v q. q.0)
        (on_session-BesideEnds Q Fails w.1 run w.0 (
          map-Ends (λ _ t. Becomes w.0 (with_utxos w.0.tables (synced_rows coin set w.0.tables)) t)
            Q (λ _. ⊥) Fails (run w.0) (λ _ t b. saved t b.0) (λ e x. absurd x)
            (sync_utxos-Ends coin set w.0 h.0.for_writes)))
    where
      set : List UtxoRecord
      set = utxo_set codec keys coin own now txs

      run : Tx (Unit {0})
      run = sync_utxos coin set

      Q : Unit {0} → Session → Type 0
      Q _ t = IsSaved codec coin own new_txs T t.tables

      saved :
          (t : Session)
          → t.tables ≡ with_utxos w.0.tables (synced_rows coin set w.0.tables)
          → IsSaved codec coin own new_txs T t.tables
      saved t e =
          let text : (i : Text) → text_at i map ≡ text_at i (find_transactions coin t.tables) = λ i.
            h.0.mirrors i ∙ ap (λ (x : Tables). text_at i (find_transactions coin x)) (sym e) in
          let stored : (i : Text)
              → is_stored i map ≡ true
              → is_stored i (find_transactions coin t.tables) ≡ true =
            λ i k. sym (ap is_some (text i)) ∙ k in
          record {
            records = map;
            txs = txs;
            mirrors = text;
            decoded = decoded;
            synced =
                subst (λ (rows : List UtxoRecord). IsSynced coin own txs rows t.tables.utxos)
                  h.0.utxos
                  (subst (λ (rows : List UtxoRecord). IsSynced coin own txs w.0.tables.utxos rows)
                    (ap (λ (x : Tables). x.utxos) (sym e))
                    (synced_rows-IsSynced codec keys coin own now txs w.0.tables));
            grows = λ i k. stored i (h.1 i k);
            has =
                All-map
                  (λ (tx : Transaction). is_relevant own tx ≡ true → is_stored tx.id map ≡ true) _
                  new_txs (λ tx k r. stored tx.id (k r)) h.2;
            coins = ap (λ (x : Tables). x.coins) e ∙ h.0.coins;
            watched = ap (λ (x : Tables). x.watched) e ∙ h.0.watched;
            unconfirmed = ap (λ (x : Tables). x.unconfirmed) e ∙ h.0.unconfirmed;
          }

  start-KeepsUp :
      (s : Session)
      → s.tables ≡ T
      → s.for_writes ≡ true
      → KeepsUp coin T (find_transactions coin T) s
  start-KeepsUp s e w = record {
    mirrors = λ i. ap (λ (x : Tables). text_at i (find_transactions coin x)) (sym e);
    of_coin = select-All T.transactions;
    utxos = ap (λ (x : Tables). x.utxos) e;
    coins = ap (λ (x : Tables). x.coins) e;
    watched = ap (λ (x : Tables). x.watched) e;
    unconfirmed = ap (λ (x : Tables). x.unconfirmed) e;
    for_writes = w;
  }
    where
      select-All :
          (rows : List TransactionRecord)
          → All (λ r. r.coin ≡ coin) (select (λ r. text_eq r.coin coin) rows)
      select-All [] = tt
      select-All (r ∷ rows) = elim (Bool-cases (text_eq r.coin coin)) [
        | inl own ↦ rw own ((text_eq_iff r.coin coin).0 own, select-All rows)
        | inr other ↦ rw other (select-All rows)
      ]

  abbrev after_store : List TransactionRecord → Exec (Beside Pending) (Unit {0})
  after_store map = lift (decode_all codec map) >>= λ txs.
      on_session (sync_utxos coin (utxo_set codec keys coin own now txs))

  abbrev after_load : List TransactionRecord → Exec (Beside Pending) (Unit {0})
  after_load saved = store_all codec keys coin own now new_txs saved >>= after_store

  abbrev Loads : List TransactionRecord → Beside Pending → Type 0
  Loads saved v = (saved ≡ find_transactions coin T) × (v.0.tables ≡ T) × (v.0.for_writes ≡ true)

  load-BesideEnds :
      (v : Beside Pending)
      → v.0.tables ≡ T
      → v.0.for_writes ≡ true
      → BesideEnds Loads Fails (on_session (query (λ t. ok (find_transactions coin t))) v)
  load-BesideEnds v e w =
      map-BesideEnds (λ a u. Q a u.0 × (u.1 ≡ v.1)) Loads Fails (on_session run v) (λ a u q. q.0)
        (on_session-BesideEnds Q Fails v.1 run v.0 (
          map-Ends (λ a t. Becomes v.0 v.0.tables t × (a ≡ find_transactions coin v.0.tables)) Q
            Fails Fails (run v.0)
            (λ a t h. (h.1 ∙ ap (find_transactions coin) e, h.0.0 ∙ e, h.0.1 ∙ w)) (λ e x. x)
            (read-Ends (find_transactions coin) Fails v.0)))
    where
      run : Tx (List TransactionRecord)
      run = query (λ t. ok (find_transactions coin t))

      Q : List TransactionRecord → Session → Type 0
      Q saved t = (saved ≡ find_transactions coin T) × (t.tables ≡ T) × (t.for_writes ≡ true)

  save_all-BesideEnds :
      (v : Beside Pending)
      → v.0.tables ≡ T
      → v.0.for_writes ≡ true
      → BesideEnds Saved Fails (save_all codec keys coin own now new_txs v)
  unfolding save_all
  save_all-BesideEnds v e w =
      bind-BesideEnds Loads Saved Fails (on_session (query (λ t. ok (find_transactions coin t))))
        after_load v (load-BesideEnds v e w)
        (λ saved u h.
          subst (λ (rows : List TransactionRecord). BesideEnds Saved Fails (after_load rows u))
            (sym h.0)
            (bind-BesideEnds
              (AllKeepUp coin T codec keys own now MarkError are new_txs (find_transactions coin T))
              Saved Fails (store_all codec keys coin own now new_txs (find_transactions coin T))
              after_store u
              (store_all-BesideEnds coin T codec keys own now MarkError are new_txs
                (find_transactions coin T) u (start-KeepsUp u.0 h.1 h.2))
              (λ map z k.
                lift-bind-BesideEnds Saved Fails (decode_all codec map)
                  (λ txs. on_session (sync_utxos coin (utxo_set codec keys coin own now txs))) z
                  (λ x l. inr (decode-err map x l)) (λ txs l. sync-BesideEnds map txs z l k))))

module _ (codec : Codec) (keys : Keys) (coin : Text) (own : List Address)
    (new_txs : List Transaction) (MarkError : Error → Type 0) (before : Tables) (m : Manager) where
  deliver-Saves :
      (r : Result (Unit {0}) × (Engine × Pending))
      → CommitsBeside
          (λ _ T p. IsSaved codec coin own new_txs before T)
          (λ e. MarkError e ⊎ (e ≡ bad_json))
          before
          r
      → Saves codec coin own new_txs MarkError before (deliver m r)
  deliver-Saves (ok a, k) h = h
  deliver-Saves (err x, k) h = h

-- Saving transactions for a coin, with a keychain that lists the addresses `own` and whose marking of
-- an address changes no table but that of the addresses. Where the call returns no error, it commits:
-- every transaction that the coin's rows held is still there, every new one that pays to or spends
-- from `own` is there, the rows decode to some transactions, and the utxos are those of the decoded
-- transactions: an outpoint has a utxo, of the coin, where some output to `own` stands at it and no
-- input spends it, and elsewhere only utxos of other coins that were there before; the tables of
-- coins, of watched addresses and of unconfirmed transactions stay. Where it returns an error, no
-- table changes, and the error is one of marking, of the encoding, or of an engine that has faults.
pub save_transactions_and_utxos-Saves :
    (codec : Codec) (keys : Keys) (coin : Text) (own : List Address) (now : ℕ)
    (new_txs : List Transaction) (m : Manager) (MarkError : Error → Type 0) (e : Engine)
    → AreKeys keys MarkError
    → keys.get_addresses m.engine ≡ (ok own, e)
    → Saves codec coin own new_txs MarkError e.tables
        (save_transactions_and_utxos codec keys coin now new_txs m)
unfolding save_transactions_and_utxos write_tx
save_transactions_and_utxos-Saves codec keys coin own now new_txs m MarkError e are given =
    rw given (
      deliver-Saves codec keys coin own new_txs MarkError e.tables m
        (update_beside (save_all codec keys coin own now new_txs) (e, fresh_pending m))
        (update_beside-CommitsBeside (λ _ T p. IsSaved codec coin own new_txs e.tables T)
          (λ x. MarkError x ⊎ (x ≡ bad_json)) (save_all codec keys coin own now new_txs)
          (e, fresh_pending m)
          (save_all-BesideEnds codec keys coin own now new_txs MarkError are e.tables
            (write_tx e, fresh_pending m) refl refl)))
