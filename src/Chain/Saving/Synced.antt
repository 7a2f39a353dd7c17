-- ===== src/Chain/Saving/Synced.antt =====
-- `sync_utxos`, from the utxos of the transactions to the table: what it leaves there.
use multiwallet.Prelude.{
  ℕ, ◌≡◌, ◌≢◌, refl, sym, ◌∙◌, ap, inl, inr, true, false, some, List, [], ◌∷◌, arith, Bool-cases,
  if◌then◌else◌, Text,
}
use multiwallet.Database.Models.{UtxoRecord, Tables}
use multiwallet.Database.Tables.{find_by}
use multiwallet.Database.Tx.{Session, pure, ◌>>◌}
use multiwallet.Database.Laws.{Ends, Becomes, bind-Ends, map-Ends, write-Ends, read-bind-Ends}
use multiwallet.Keychain.Addresses.{Address}
use multiwallet.Chain.Types.{Transaction, Codec, Keys}
use multiwallet.Chain.Saving.{
  put_utxo, drop_utxo, utxo_set, is_in, delete_utxo, save_utxo, delete_others, save_utxos,
  find_utxos, sync_utxos,
}
use multiwallet.Chain.Saving.Utxos.{
  is_unspent, has_utxo, IsOfCoin, utxo_set-eq-is_unspent, utxo_set-AllOfCoin,
}
use multiwallet.Chain.Saving.Sync.{
  with_utxos, keep_those, put_all, find_by-keep_those, has_utxo-put_all, find_by-put_all,
  find_by-select, IsOfCoin-put_all, is_dropped-eq,
}

-- A call of a transaction that writes the rows that `f` gives.
abbrev pub Rewrites : Session → List UtxoRecord → Session → Type 0
Rewrites s rows t = Becomes s (with_utxos s.tables rows) t

delete_utxo-Ends :
    (o : Text) (s : Session)
    → s.for_writes ≡ true
    → Ends (λ _ t. Rewrites s (drop_utxo o s.tables.utxos) t) (λ _. ⊥) (delete_utxo o s)
unfolding delete_utxo
delete_utxo-Ends o s w = write-Ends (λ t. with_utxos t (drop_utxo o t.utxos)) s w

save_utxo-Ends :
    (u : UtxoRecord) (s : Session)
    → s.for_writes ≡ true
    → Ends (λ _ t. Rewrites s (put_utxo u s.tables.utxos) t) (λ _. ⊥) (save_utxo u s)
unfolding save_utxo
save_utxo-Ends u s w = write-Ends (λ t. with_utxos t (put_utxo u t.utxos)) s w

-- One rewriting after another.
then-Rewrites :
    (s t v : Session) (f : List UtxoRecord → List UtxoRecord) (rows : List UtxoRecord)
    → Rewrites s rows t
    → Rewrites t (f t.tables.utxos) v
    → Rewrites s (f rows) v
then-Rewrites s t v f rows h k = (k.0 ∙ ap (λ T. with_utxos T (f T.utxos)) h.0, k.1 ∙ h.1)

module _ (utxos : List UtxoRecord) where
  drop_one-Ends :
      (r : UtxoRecord) (s : Session)
      → s.for_writes ≡ true
      → Ends
          (λ _ t.
            Rewrites s
              (if is_in utxos r.outpoint
                then s.tables.utxos
                else drop_utxo r.outpoint s.tables.utxos)
              t)
          (λ _. ⊥)
          ((if is_in utxos r.outpoint then pure tt else delete_utxo r.outpoint) s)
  drop_one-Ends r s w = elim (Bool-cases (is_in utxos r.outpoint)) [
    | inl there ↦ rw there (refl, refl)
    | inr missing ↦ rw missing (delete_utxo-Ends r.outpoint s w)
  ]

  delete_others-Ends :
      (saved : List UtxoRecord) (s : Session)
      → s.for_writes ≡ true
      → Ends
          (λ _ t. Rewrites s (keep_those utxos saved s.tables.utxos) t)
          (λ _. ⊥)
          (delete_others utxos saved s)
  unfolding delete_others
  delete_others-Ends [] s w = (refl, refl)
  delete_others-Ends (r ∷ saved) s w =
      bind-Ends _ _ (λ _. ⊥) (if is_in utxos r.outpoint then pure tt else delete_utxo r.outpoint)
        (λ _. delete_others utxos saved) s (drop_one-Ends r s w)
        (λ _ t h.
          map-Ends _ _ (λ _. ⊥) (λ _. ⊥) (delete_others utxos saved t)
            (λ _ v k.
              then-Rewrites s t v (keep_those utxos saved)
                (if is_in utxos r.outpoint
                  then s.tables.utxos
                  else drop_utxo r.outpoint s.tables.utxos)
                h k)
            (λ _ e. e) (delete_others-Ends saved t (h.1 ∙ w)))

save_utxos-Ends :
    (us : List UtxoRecord) (s : Session)
    → s.for_writes ≡ true
    → Ends (λ _ t. Rewrites s (put_all us s.tables.utxos) t) (λ _. ⊥) (save_utxos us s)
unfolding save_utxos
save_utxos-Ends [] s w = (refl, refl)
save_utxos-Ends (u ∷ us) s w =
    bind-Ends _ _ (λ _. ⊥) (save_utxo u) (λ _. save_utxos us) s (save_utxo-Ends u s w)
      (λ _ t h.
        map-Ends _ _ (λ _. ⊥) (λ _. ⊥) (save_utxos us t)
          (λ _ v k. then-Rewrites s t v (put_all us) (put_utxo u s.tables.utxos) h k) (λ _ e. e)
          (save_utxos-Ends us t (h.1 ∙ w)))

module _ (coin : Text) where
  -- The rows that `sync_utxos` leaves.
  abbrev pub synced_rows : List UtxoRecord → Tables → List UtxoRecord
  synced_rows utxos T = put_all utxos (keep_those utxos (find_utxos coin T) T.utxos)

  pub sync_utxos-Ends :
      (utxos : List UtxoRecord) (s : Session)
      → s.for_writes ≡ true
      → Ends (λ _ t. Rewrites s (synced_rows utxos s.tables) t) (λ _. ⊥) (sync_utxos coin utxos s)
  unfolding sync_utxos
  sync_utxos-Ends utxos s w =
      read-bind-Ends (find_utxos coin) (λ saved. delete_others utxos saved >> save_utxos utxos) _
        (λ _. ⊥) s
        (λ t h.
          bind-Ends _ _ (λ _. ⊥) (delete_others utxos (find_utxos coin s.tables))
            (λ _. save_utxos utxos) t
            (delete_others-Ends utxos (find_utxos coin s.tables) t (h.1 ∙ w))
            (λ _ v k.
              map-Ends _ _ (λ _. ⊥) (λ _. ⊥) (save_utxos utxos v)
                (λ _ z l.
                  then-Rewrites s v z (put_all utxos)
                    (keep_those utxos (find_utxos coin s.tables) s.tables.utxos)
                    (then-Rewrites s t v (keep_those utxos (find_utxos coin s.tables))
                      s.tables.utxos h k)
                    l)
                (λ _ e. e) (save_utxos-Ends utxos v (k.1 ∙ h.1 ∙ w))))

-- The table against the transactions: where the wallet can spend an outpoint, the table has a utxo of
-- the coin; elsewhere it has none of the coin, and those of other coins as they were.
pub record IsSynced (coin : Text) (own : List Address) (txs : List Transaction)
    (before after : List UtxoRecord) : Type 0 where
  pub kept :
      (o : Text) → is_unspent own o txs ≡ true → (has_utxo o after ≡ true) × IsOfCoin coin o after
  pub gone :
      (o : Text) (u : UtxoRecord)
      → is_unspent own o txs ≡ false
      → find_by (λ x. x.outpoint) o after ≡ some u
      → (u.coin ≢ coin) × (find_by (λ x. x.outpoint) o before ≡ some u)

module _ (codec : Codec) (keys : Keys) (coin : Text) (own : List Address) (now : ℕ) where
  pub synced_rows-IsSynced :
      (txs : List Transaction) (T : Tables)
      → IsSynced coin own txs T.utxos (synced_rows coin (utxo_set codec keys coin own now txs) T)
  synced_rows-IsSynced txs T = record {
    kept = λ o h.
        let there = utxo_set-eq-is_unspent codec keys coin own now o txs ∙ h in
        (
          has_utxo-put_all o set rows ∙ rw there refl,
          IsOfCoin-put_all coin o set rows (utxo_set-AllOfCoin codec keys coin own now o txs)
              (inr there),
        );
    gone = λ o u h found.
        let missing = utxo_set-eq-is_unspent codec keys coin own now o txs ∙ h in
        let dropping = find_by-keep_those o set (find_utxos coin T) T.utxos in
        let all = is_dropped-eq set (find_utxos coin T) o missing in
        let at = sym (find_by-put_all o set rows missing) ∙ found in
        (
          (λ same.
              let before = find_by-select coin o T.utxos u (ground arith) same in ground arith),
          ground arith,
        );
  }
    where
      set : List UtxoRecord
      set = utxo_set codec keys coin own now txs

      rows : List UtxoRecord
      rows = keep_those set (find_utxos coin T) T.utxos
