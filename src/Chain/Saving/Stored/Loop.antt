-- ===== src/Chain/Saving/Stored/Loop.antt =====
-- The loop over the new transactions, call by call: each keeps the transaction map up with the table.
use multiwallet.Prelude.{
  ℕ, ◌≡◌, refl, sym, ◌∙◌, ap, ◌⊎◌, inl, inr, true, false, Option, none, some, List, [], ◌∷◌, arith,
  All, Bool-cases, Option-cases, if◌then◌else◌, Text, text_eq, text_eq_iff, ◌==◌,
}
use multiwallet.Database.Models.{TransactionRecord, Tables}
use multiwallet.Database.Tables.{find_by, upsert, find_by-key, All-find_by, All-upsert}
use multiwallet.Database.Tx.{Session, Error, ok, err, Exec, bad_json, pure, ◌>>=◌, ◌>>◌, lift}
use multiwallet.Database.Laws.{Ends, bind-Ends, map-Ends}
use multiwallet.Database.Beside.{
  Beside, BesideEnds, on_session, in_memory, bind-BesideEnds, map-BesideEnds, on_session-BesideEnds,
  lift-bind-BesideEnds,
}
use multiwallet.Keychain.Addresses.{Address}
use multiwallet.Chain.Types.{SpendInfo, Transaction, Codec, Keys, KeepsOthers, AreKeys, is_own}
use multiwallet.Chain.Saving.{
  Pending, note, note_new, keep_unconfirmed, save_transaction, moved, valued, own_total,
  is_relevant, new_transaction_record, mark_outputs, store_unknown, store_known, store_either,
  store_one, store_all,
}
use multiwallet.Chain.Saving.Stored.{
  text_of, text_at, is_some, is_stored, Stores, KeepsUp, text_at-upsert, save_transaction-Ends,
  others-KeepsUp,
}

module _ (coin : Text) (T : Tables) (codec : Codec) (keys : Keys) (own : List Address) (now : ℕ)
    (MarkError : Error → Type 0) (are : AreKeys keys MarkError) where
  mark_one-Ends :
      (to : SpendInfo) (map : List TransactionRecord) (s : Session)
      → KeepsUp coin T map s
      → Ends
          (λ _ t. KeepsUp coin T map t)
          MarkError
          ((if is_own own to.address then keys.mark_address_as_used to.address.text else pure tt) s)
  mark_one-Ends to map s k = elim (Bool-cases (is_own own to.address)) [
    | inl mine ↦ rw mine (
        map-Ends (λ _ t. KeepsOthers s t) _ MarkError MarkError
          (keys.mark_address_as_used to.address.text s) (λ _ t h. others-KeepsUp coin T map s t h k)
          (λ _ e. e) (are.marks to.address.text s k.for_writes))
    | inr other ↦ rw other k
  ]

  mark_outputs-Ends :
      (tos : List SpendInfo) (map : List TransactionRecord) (s : Session)
      → KeepsUp coin T map s
      → Ends (λ _ t. KeepsUp coin T map t) MarkError (mark_outputs codec keys coin own now tos s)
  unfolding mark_outputs
  mark_outputs-Ends [] map s k = k
  mark_outputs-Ends (to ∷ tos) map s k =
      bind-Ends (λ _ t. KeepsUp coin T map t) _ MarkError
        (if is_own own to.address then keys.mark_address_as_used to.address.text else pure tt)
        (λ _. mark_outputs codec keys coin own now tos) s (mark_one-Ends to map s k)
        (λ _ t h. mark_outputs-Ends tos map t h)

  -- An error is the keychain's or the codec's.
  abbrev pub SaveError : Error → Type 0
  SaveError e = MarkError e ⊎ (e ≡ bad_json)

  save_beside-BesideEnds :
      (r : TransactionRecord) (map map' : List TransactionRecord) (v : Beside Pending)
      → r.coin ≡ coin
      → ((i : Text)
          → text_at i map'
            ≡ (if text_eq r.txid i then some r.serialized_transaction else text_at i map))
      → All (λ x. x.coin ≡ coin) map'
      → KeepsUp coin T map v.0
      → BesideEnds (λ _ w. KeepsUp coin T map' w.0) SaveError (on_session (save_transaction r) v)
  save_beside-BesideEnds r map map' v c texts all k =
      map-BesideEnds (λ _ w. KeepsUp coin T map' w.0 × (w.1 ≡ v.1)) (λ _ w. KeepsUp coin T map' w.0)
        SaveError (on_session (save_transaction r) v) (λ _ w h. h.0)
        (on_session-BesideEnds (λ _ t. KeepsUp coin T map' t) SaveError v.1 (save_transaction r) v.0
          (map-Ends _ (λ _ t. KeepsUp coin T map' t) (λ _. ⊥) SaveError (save_transaction r v.0)
            (λ _ t h. h) (λ e x. absurd x)
            (save_transaction-Ends coin T r map map' v.0 c texts all k)))

  -- The value of both `store_unknown` and `store_known`.
  abbrev PairKeepsUp :
      Transaction
      → List TransactionRecord
      → Transaction × List TransactionRecord
      → Beside Pending
      → Type 0
  PairKeepsUp tx map p w = KeepsUp coin T p.1 w.0 × Stores own tx map p.1

  -- The map with the new record has the transaction.
  put-Stores :
      (tx : Transaction) (r : TransactionRecord) (map : List TransactionRecord)
      → r.txid ≡ tx.id
      → Stores own tx map (upsert (λ x. x.txid) r map)
  put-Stores tx r map h = record {
    grows = λ i k. ap is_some (text_at-upsert coin i r map) ∙ ground arith;
    has = λ k.
        ap is_some (text_at-upsert coin tx.id r map) ∙ rw ((text_eq_iff r.txid tx.id).1 h) refl;
  }

  -- So does the map that had it.
  same-Stores :
      (tx : Transaction) (saved : TransactionRecord) (map : List TransactionRecord)
      → find_by (λ x. x.txid) tx.id map ≡ some saved
      → Stores own tx map map
  same-Stores tx saved map found = record {
    grows = λ i k. k;
    has = λ k. ap (λ o. is_some (text_of o)) found;
  }

  marshal-ok :
      (tx : Transaction) (r : TransactionRecord)
      → new_transaction_record codec keys coin own now tx ≡ ok r
      → r.coin ≡ coin
  marshal-ok tx r h = elim (Option-cases (codec.marshal tx)) [
    | inl e ↦ absurd (ground arith)
    | inr (text, e) ↦ ground arith
  ]

  marshal-id :
      (tx : Transaction) (r : TransactionRecord)
      → new_transaction_record codec keys coin own now tx ≡ ok r
      → r.txid ≡ tx.id
  marshal-id tx r h = elim (Option-cases (codec.marshal tx)) [
    | inl e ↦ absurd (ground arith)
    | inr (text, e) ↦ ground arith
  ]

  marshal-err :
      (tx : Transaction) (x : Error)
      → new_transaction_record codec keys coin own now tx ≡ err x
      → x ≡ bad_json
  marshal-err tx x h = elim (Option-cases (codec.marshal tx)) [
    | inl e ↦ ground arith
    | inr (text, e) ↦ ground arith
  ]

  store_relevant-BesideEnds :
      (tx : Transaction) (map : List TransactionRecord) (v : Beside Pending)
      → KeepsUp coin T map v.0
      → BesideEnds (PairKeepsUp tx map) SaveError (
          (lift (new_transaction_record codec keys coin own now tx) >>= λ txr.
          on_session (save_transaction txr)
          >> (in_memory (note_new tx) >> pure (tx, upsert (λ x. x.txid) txr map)))
            v)
  store_relevant-BesideEnds tx map v k =
      lift-bind-BesideEnds (PairKeepsUp tx map) SaveError
        (new_transaction_record codec keys coin own now tx)
        (λ txr.
          on_session (save_transaction txr)
          >> (in_memory (note_new tx) >> pure (tx, upsert (λ x. x.txid) txr map)))
        v (λ x h. inr (marshal-err tx x h))
        (λ r h.
          bind-BesideEnds (λ _ w. KeepsUp coin T (upsert (λ x. x.txid) r map) w.0)
            (PairKeepsUp tx map) SaveError (on_session (save_transaction r))
            (λ _. in_memory (note_new tx) >> pure (tx, upsert (λ x. x.txid) r map)) v
            (save_beside-BesideEnds r map (upsert (λ x. x.txid) r map) v (marshal-ok tx r h)
              (λ i. text_at-upsert coin i r map)
              (All-upsert (λ x. x.txid) (λ (x : TransactionRecord). x.coin ≡ coin) r map
                (marshal-ok tx r h) k.of_coin)
              k)
            (λ _ w l. (l, put-Stores tx r map (marshal-id tx r h))))

  store_unknown-BesideEnds :
      (tx : Transaction) (map : List TransactionRecord) (v : Beside Pending)
      → KeepsUp coin T map v.0
      → BesideEnds (PairKeepsUp tx map) SaveError (store_unknown codec keys coin own now tx map v)
  unfolding store_unknown
  store_unknown-BesideEnds tx map v k = elim (Bool-cases (is_relevant own tx)) [
    | inl mine ↦ rw mine (
        map-BesideEnds (PairKeepsUp tx' map) (PairKeepsUp tx map) SaveError (run v)
          (λ p w h. (h.0, record { grows = h.1.grows; has = h.1.has }))
          (store_relevant-BesideEnds tx' map v k))
    | inr other ↦ rw other (
      k,
      record {
        grows = λ i h. h;
        has = λ h. let no : true ≡ false = sym h ∙ other in absurd (cc (no));
      },
    )
  ]
    where
      tx' : Transaction
      tx' = valued now (own_total own tx) tx

      run : Exec (Beside Pending) (Transaction × List TransactionRecord)
      run = lift (new_transaction_record codec keys coin own now tx') >>= λ txr.
          on_session (save_transaction txr)
          >> (in_memory (note_new tx') >> pure (tx', upsert (λ x. x.txid) txr map))

  store_known-BesideEnds :
      (tx : Transaction) (saved : TransactionRecord) (map : List TransactionRecord)
      (v : Beside Pending)
      → find_by (λ x. x.txid) tx.id map ≡ some saved
      → KeepsUp coin T map v.0
      → BesideEnds
          (PairKeepsUp tx map)
          SaveError
          (store_known codec keys coin own now tx saved map v)
  unfolding store_known
  store_known-BesideEnds tx saved map v found k =
      elim (Bool-cases (saved.block_height == tx.height)) [
        | inl same ↦ rw same (k, same-Stores tx saved map found)
        | inr other ↦ rw other (
            bind-BesideEnds (λ _ w. KeepsUp coin T map w.0) (PairKeepsUp tx map) SaveError
              (on_session (save_transaction (moved tx.height tx.block_info saved)))
              (λ _. in_memory (note tx) >> pure (tx, map)) v
              (save_beside-BesideEnds (moved tx.height tx.block_info saved) map map v
                (All-find_by (λ x. x.txid) (λ (x : TransactionRecord). x.coin ≡ coin) tx.id saved
                  map k.of_coin found)
                same_text k.of_coin k)
              (λ _ w l. (l, same-Stores tx saved map found)))
      ]
    where
      same_text :
          (i : Text)
          → text_at i map
            ≡ (if text_eq saved.txid i then some saved.serialized_transaction else text_at i map)
      same_text i = elim (Bool-cases (text_eq saved.txid i)) [
        | inl here ↦ rw here (
            ap (λ j. text_at j map)
              (sym ((text_eq_iff saved.txid i).0 here)
                ∙ find_by-key (λ (x : TransactionRecord). x.txid) tx.id saved map found)
            ∙ ap text_of found)
        | inr there ↦ rw there refl
      ]

  store_either-BesideEnds :
      (tx : Transaction) (map : List TransactionRecord) (v : Beside Pending)
      (o : Option TransactionRecord)
      → find_by (λ x. x.txid) tx.id map ≡ o
      → KeepsUp coin T map v.0
      → BesideEnds (PairKeepsUp tx map) SaveError (store_either codec keys coin own now tx map o v)
  store_either-BesideEnds tx map v none e k = store_unknown-BesideEnds tx map v k
  store_either-BesideEnds tx map v (some saved) e k = store_known-BesideEnds tx saved map v e k

  abbrev OneKeepsUp :
      Transaction → List TransactionRecord → List TransactionRecord → Beside Pending → Type 0
  OneKeepsUp tx map map' w = KeepsUp coin T map' w.0 × Stores own tx map map'

  -- The map keeps up, and has all that it had and the relevant ones of the new transactions.
  abbrev pub AllKeepUp :
      List Transaction → List TransactionRecord → List TransactionRecord → Beside Pending → Type 0
  AllKeepUp txs map map' w =
      KeepsUp coin T map' w.0
      × ((i : Text) → is_stored i map ≡ true → is_stored i map' ≡ true)
      × All (λ tx. is_relevant own tx ≡ true → is_stored tx.id map' ≡ true) txs

  store_one-BesideEnds :
      (tx : Transaction) (map : List TransactionRecord) (v : Beside Pending)
      → KeepsUp coin T map v.0
      → BesideEnds (OneKeepsUp tx map) SaveError (store_one codec keys coin own now tx map v)
  unfolding store_one
  store_one-BesideEnds tx map v k =
      bind-BesideEnds (λ _ w. KeepsUp coin T map w.0) (OneKeepsUp tx map) SaveError
        (on_session (mark_outputs codec keys coin own now tx.to)) (λ _. stored) v
        (map-BesideEnds (λ _ w. KeepsUp coin T map w.0 × (w.1 ≡ v.1))
          (λ _ w. KeepsUp coin T map w.0) SaveError
          (on_session (mark_outputs codec keys coin own now tx.to) v) (λ _ w h. h.0)
          (on_session-BesideEnds (λ _ t. KeepsUp coin T map t) SaveError v.1
            (mark_outputs codec keys coin own now tx.to) v.0
            (map-Ends (λ _ t. KeepsUp coin T map t) (λ _ t. KeepsUp coin T map t) MarkError
              SaveError (mark_outputs codec keys coin own now tx.to v.0) (λ _ t h. h) (λ e x. inl x)
              (mark_outputs-Ends tx.to map v.0 k))))
        (λ _ w h.
          bind-BesideEnds (PairKeepsUp tx map) (OneKeepsUp tx map) SaveError either kept w
            (store_either-BesideEnds tx map w (find_by (λ x. x.txid) tx.id map) refl h)
            (λ p u l. l))
    where
      either : Exec (Beside Pending) (Transaction × List TransactionRecord)
      either = store_either codec keys coin own now tx map (find_by (λ x. x.txid) tx.id map)

      kept : Transaction × List TransactionRecord → Exec (Beside Pending) (List TransactionRecord)
      kept (tx', map') = in_memory (keep_unconfirmed tx') >> pure map'

      stored : Exec (Beside Pending) (List TransactionRecord)
      stored = either >>= kept

  -- The loop keeps the map and the table together.
  pub store_all-BesideEnds :
      (txs : List Transaction) (map : List TransactionRecord) (v : Beside Pending)
      → KeepsUp coin T map v.0
      → BesideEnds (AllKeepUp txs map) SaveError (store_all codec keys coin own now txs map v)
  unfolding store_all
  store_all-BesideEnds [] map v k = (k, (λ i h. h), tt)
  store_all-BesideEnds (tx ∷ txs) map v k =
      bind-BesideEnds (OneKeepsUp tx map) (AllKeepUp (tx ∷ txs) map) SaveError
        (store_one codec keys coin own now tx map) (store_all codec keys coin own now txs) v
        (store_one-BesideEnds tx map v k)
        (λ map' w l.
          map-BesideEnds (AllKeepUp txs map') (AllKeepUp (tx ∷ txs) map) SaveError
            (store_all codec keys coin own now txs map' w)
            (λ map'' u h.
              (h.0, (λ i x. h.1 i (l.1.grows i x)), ((λ x. h.1 tx.id (l.1.has x)), h.2)))
            (store_all-BesideEnds txs map' w l.0))
