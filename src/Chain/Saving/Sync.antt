-- ===== src/Chain/Saving/Sync.antt =====
-- The table of utxos after `saveTransactionsAndUtxos`: for the coin it holds the computed set and
-- nothing else.
use multiwallet.Prelude.{
  ◌≡◌, refl, sym, ◌∙◌, ap, ◌⊎◌, inl, inr, Bool, true, false, ◌&&◌, ◌||◌, not, none, some, List, [],
  ◌∷◌, any, arith, select, Bool-cases, if◌then◌else◌, Text, text_eq, text_eq_iff,
}
use multiwallet.Database.Models.{UtxoRecord, Tables}
use multiwallet.Database.Tables.{find_by, find_by-upsert, find_by-delete_by}
use multiwallet.Chain.Saving.{put_utxo, drop_utxo}
use multiwallet.Chain.Saving.Utxos.{has_utxo, has_utxo-put, IsOfCoin, AllOfCoin, IsOfCoin-put}

abbrev pub with_utxos : Tables → List UtxoRecord → Tables
with_utxos T us = record T { utxos = us }

pub has_utxo-eq-any :
    (o : Text) (us : List UtxoRecord) → has_utxo o us ≡ any (λ u. text_eq u.outpoint o) us
unfolding find_by
has_utxo-eq-any o [] = refl
has_utxo-eq-any o (u ∷ us) = ground (arith, has_utxo-eq-any o us)

-- What `delete_others` and `save_utxos` do to the rows.
abbrev pub keep_those : List UtxoRecord → List UtxoRecord → List UtxoRecord → List UtxoRecord
keep_those utxos [] rows = rows
keep_those utxos (r ∷ saved) rows =
    keep_those utxos saved
      (if any (λ u. text_eq u.outpoint r.outpoint) utxos then rows else drop_utxo r.outpoint rows)

abbrev pub put_all : List UtxoRecord → List UtxoRecord → List UtxoRecord
put_all [] rows = rows
put_all (u ∷ us) rows = put_all us (put_utxo u rows)

-- A saved row at the outpoint that is not in the set.
abbrev pub is_dropped : List UtxoRecord → List UtxoRecord → Text → Bool
is_dropped utxos saved o =
    any (λ r. text_eq r.outpoint o && not (any (λ u. text_eq u.outpoint o) utxos)) saved

text_eq-any :
    (utxos : List UtxoRecord) (a b : Text)
    → text_eq a b ≡ true
    → any (λ u. text_eq u.outpoint a) utxos ≡ any (λ u. text_eq u.outpoint b) utxos
text_eq-any utxos a b h =
    ap (λ x. any (λ (u : UtxoRecord). text_eq u.outpoint x) utxos) ((text_eq_iff a b).0 h)

pub find_by-keep_those :
    (o : Text) (utxos saved rows : List UtxoRecord)
    → find_by (λ u. u.outpoint) o (keep_those utxos saved rows)
      ≡ (if is_dropped utxos saved o then none else find_by (λ u. u.outpoint) o rows)
find_by-keep_those o utxos [] rows = refl
find_by-keep_those o utxos (r ∷ saved) rows =
    elim (Bool-cases (any (λ (u : UtxoRecord). text_eq u.outpoint r.outpoint) utxos)) [
      | inl there ↦
          rw there
            (find_by-keep_those o utxos saved rows ∙ ground (arith, text_eq-any utxos r.outpoint o))
      | inr missing ↦ rw missing (
          find_by-keep_those o utxos saved (drop_utxo r.outpoint rows)
          ∙ ground (
            arith,
            find_by-delete_by (λ (u : UtxoRecord). u.outpoint) o r.outpoint rows,
            text_eq-any utxos r.outpoint o,
          ))
    ]

pub has_utxo-put_all :
    (o : Text) (us rows : List UtxoRecord)
    → has_utxo o (put_all us rows) ≡ (has_utxo o us || has_utxo o rows)
unfolding find_by
has_utxo-put_all o [] rows = refl
has_utxo-put_all o (u ∷ us) rows =
    has_utxo-put_all o us (put_utxo u rows) ∙ ground (arith, has_utxo-put o u rows)

-- Where the set has no utxo at the outpoint, the rows keep theirs.
pub find_by-put_all :
    (o : Text) (us rows : List UtxoRecord)
    → has_utxo o us ≡ false
    → find_by (λ u. u.outpoint) o (put_all us rows) ≡ find_by (λ u. u.outpoint) o rows
unfolding find_by
find_by-put_all o [] rows h = refl
find_by-put_all o (u ∷ us) rows h =
    find_by-put_all o us (put_utxo u rows) (ground arith)
    ∙ ground (arith, find_by-upsert (λ (x : UtxoRecord). x.outpoint) o u rows)

module _ (coin : Text) where
  pub find_by-select :
      (o : Text) (rows : List UtxoRecord) (u : UtxoRecord)
      → find_by (λ x. x.outpoint) o rows ≡ some u
      → u.coin ≡ coin
      → any (λ r. text_eq r.outpoint o) (select (λ r. text_eq r.coin coin) rows) ≡ true
  unfolding find_by
  find_by-select o [] u h c = absurd (cc (h))
  find_by-select o (r ∷ rows) u h c = elim (Bool-cases (text_eq r.outpoint o)) [
    | inl here ↦
        (let same : r ≡ u = ground arith in
          let own = (text_eq_iff r.coin coin).1 (ap (λ (x : UtxoRecord). x.coin) same ∙ c) in
          rw own (rw here refl))
    | inr there ↦
        (let later = find_by-select o rows u (ground arith) c in
          elim (Bool-cases (text_eq r.coin coin)) [
            | inl own ↦ rw own (rw (there, later) refl)
            | inr foreign ↦ rw foreign later
          ])
  ]

-- The rows that the set puts are of the coin.
pub IsOfCoin-put_all :
    (coin o : Text) (us rows : List UtxoRecord)
    → AllOfCoin coin us
    → IsOfCoin coin o rows ⊎ (has_utxo o us ≡ true)
    → IsOfCoin coin o (put_all us rows)
unfolding find_by
IsOfCoin-put_all coin o [] rows h (inl k) = k
IsOfCoin-put_all coin o [] rows h (inr k) = absurd (cc (k))
IsOfCoin-put_all coin o (u ∷ us) rows h (inl k) =
    IsOfCoin-put_all coin o us (put_utxo u rows) h.1 (inl (IsOfCoin-put coin o u rows h.0 (inl k)))
IsOfCoin-put_all coin o (u ∷ us) rows h (inr k) = elim (Bool-cases (text_eq u.outpoint o)) [
  | inl here ↦
      IsOfCoin-put_all coin o us (put_utxo u rows) h.1
        (inl (IsOfCoin-put coin o u rows h.0 (inr here)))
  | inr there ↦ IsOfCoin-put_all coin o us (put_utxo u rows) h.1 (inr (sym (rw there refl) ∙ k))
]

-- Where the set has no utxo, every saved row is dropped.
pub is_dropped-eq :
    (utxos saved : List UtxoRecord) (o : Text)
    → has_utxo o utxos ≡ false
    → is_dropped utxos saved o ≡ any (λ r. text_eq r.outpoint o) saved
is_dropped-eq utxos [] o h = refl
is_dropped-eq utxos (r ∷ saved) o h =
    ground (arith, is_dropped-eq utxos saved o h, has_utxo-eq-any o utxos)
