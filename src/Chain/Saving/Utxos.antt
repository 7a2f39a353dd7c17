-- ===== src/Chain/Saving/Utxos.antt =====
-- The set of utxos that `saveTransactionsAndUtxos` computes: the outputs to the wallet's addresses
-- that no stored transaction spends.
use multiwallet.Prelude.{
  ℕ, ◌≡◌, refl, sym, ◌∙◌, ap, ◌⊎◌, inl, inr, Bool, true, false, ◌&&◌, ◌||◌, not, Option, none, some,
  List, [], ◌∷◌, any, arith, All, Bool-cases, Text, text_eq,
}
use multiwallet.Database.Models.{UtxoRecord}
use multiwallet.Database.Tables.{
  find_by, find_by-upsert, find_by-delete_by, All-upsert, All-delete_by,
}
use multiwallet.Keychain.Addresses.{Address}
use multiwallet.Chain.Types.{SpendInfo, Transaction, Codec, Keys, hex, is_own}
use multiwallet.Chain.Saving.{
  put_utxo, drop_utxo, utxo_of, collect_outputs, collect, drop_inputs, drop_spent, utxo_set,
}

-- Some output of the transactions to one of the addresses is at the outpoint.
abbrev pub is_created : List Address → Text → List Transaction → Bool
is_created own o txs =
    any (λ tx. any (λ to. is_own own to.address && text_eq (hex to.id) o) tx.to) txs

-- Some input of the transactions spends the outpoint.
abbrev pub is_spent : Text → List Transaction → Bool
is_spent o txs = any (λ tx. any (λ i. text_eq (hex i.id) o) tx.from) txs

-- The specification: the wallet can spend what the outpoint holds.
abbrev pub is_unspent : List Address → Text → List Transaction → Bool
is_unspent own o txs = is_created own o txs && not (is_spent o txs)

abbrev pub is_there : Option UtxoRecord → Bool
is_there none = false
is_there (some u) = true

-- A utxo at the outpoint.
abbrev pub has_utxo : Text → List UtxoRecord → Bool
has_utxo o us = is_there (find_by (λ u. u.outpoint) o us)

-- Every utxo at the outpoint is one of the coin.
abbrev pub IsOfCoin : Text → Text → List UtxoRecord → Type 0
IsOfCoin coin o us = (u : UtxoRecord) → find_by (λ x. x.outpoint) o us ≡ some u → u.coin ≡ coin

pub has_utxo-put :
    (o : Text) (u : UtxoRecord) (us : List UtxoRecord)
    → has_utxo o (put_utxo u us) ≡ (text_eq u.outpoint o || has_utxo o us)
has_utxo-put o u us =
    ap is_there (find_by-upsert (λ (x : UtxoRecord). x.outpoint) o u us) ∙ ground arith

has_utxo-drop :
    (o p : Text) (us : List UtxoRecord)
    → has_utxo o (drop_utxo p us) ≡ (not (text_eq p o) && has_utxo o us)
has_utxo-drop o p us =
    ap is_there (find_by-delete_by (λ (x : UtxoRecord). x.outpoint) o p us) ∙ ground arith

-- All of them are.
abbrev pub AllOfCoin : Text → List UtxoRecord → Type 0
AllOfCoin coin us = All (λ (u : UtxoRecord). u.coin ≡ coin) us

pub IsOfCoin-put :
    (coin o : Text) (u : UtxoRecord) (us : List UtxoRecord)
    → u.coin ≡ coin
    → IsOfCoin coin o us ⊎ (text_eq u.outpoint o ≡ true)
    → IsOfCoin coin o (put_utxo u us)
IsOfCoin-put coin o u us h k x found =
    let at = sym (find_by-upsert (λ (x : UtxoRecord). x.outpoint) o u us) ∙ found in
    elim (Bool-cases (text_eq u.outpoint o)) [
      | inl here ↦
          (let same : u ≡ x = ground arith in sym (ap (λ (y : UtxoRecord). y.coin) same) ∙ h)
      | inr there ↦ elim k [
        | inl before ↦ before x (ground arith)
        | inr here ↦ absurd (ground arith)
      ]
    ]

module _ (codec : Codec) (keys : Keys) (coin : Text) (own : List Address) (now : ℕ) (o : Text) where
  has_utxo-collect_outputs :
      (tx : Transaction) (tos : List SpendInfo) (us : List UtxoRecord)
      → has_utxo o (collect_outputs codec keys coin own now tx tos us)
        ≡ (any (λ to. is_own own to.address && text_eq (hex to.id) o) tos || has_utxo o us)
  unfolding collect_outputs
  has_utxo-collect_outputs tx [] us = refl
  has_utxo-collect_outputs tx (to ∷ tos) us = elim (Bool-cases (is_own own to.address)) [
    | inl mine ↦ rw mine (
        has_utxo-collect_outputs tx tos (put_utxo (utxo_of codec keys coin own now tx to) us)
        ∙ ground (arith, has_utxo-put o (utxo_of codec keys coin own now tx to) us))
    | inr other ↦ rw other (has_utxo-collect_outputs tx tos us)
  ]

  has_utxo-collect :
      (txs : List Transaction) (us : List UtxoRecord)
      → has_utxo o (collect codec keys coin own now txs us)
        ≡ (is_created own o txs || has_utxo o us)
  unfolding collect
  has_utxo-collect [] us = refl
  has_utxo-collect (tx ∷ txs) us =
      has_utxo-collect txs (collect_outputs codec keys coin own now tx tx.to us)
      ∙ ground (arith, has_utxo-collect_outputs tx tx.to us)

  has_utxo-drop_inputs :
      (infos : List SpendInfo) (us : List UtxoRecord)
      → has_utxo o (drop_inputs infos us)
        ≡ (not (any (λ i. text_eq (hex i.id) o) infos) && has_utxo o us)
  unfolding drop_inputs
  has_utxo-drop_inputs [] us = refl
  has_utxo-drop_inputs (i ∷ infos) us =
      has_utxo-drop_inputs infos (drop_utxo (hex i.id) us)
      ∙ ground (arith, has_utxo-drop o (hex i.id) us)

  has_utxo-drop_spent :
      (txs : List Transaction) (us : List UtxoRecord)
      → has_utxo o (drop_spent txs us) ≡ (not (is_spent o txs) && has_utxo o us)
  unfolding drop_spent
  has_utxo-drop_spent [] us = refl
  has_utxo-drop_spent (tx ∷ txs) us =
      has_utxo-drop_spent txs (drop_inputs tx.from us)
      ∙ ground (arith, has_utxo-drop_inputs tx.from us)

  -- The computed set holds an outpoint exactly when the wallet can spend it.
  pub utxo_set-eq-is_unspent :
      (txs : List Transaction)
      → has_utxo o (utxo_set codec keys coin own now txs) ≡ is_unspent own o txs
  unfolding utxo_set find_by
  utxo_set-eq-is_unspent txs =
      has_utxo-drop_spent txs (collect codec keys coin own now txs [])
      ∙ ground (arith, has_utxo-collect txs [])

  AllOfCoin-collect_outputs :
      (tx : Transaction) (tos : List SpendInfo) (us : List UtxoRecord)
      → AllOfCoin coin us
      → AllOfCoin coin (collect_outputs codec keys coin own now tx tos us)
  unfolding collect_outputs
  AllOfCoin-collect_outputs tx [] us h = h
  AllOfCoin-collect_outputs tx (to ∷ tos) us h = elim (Bool-cases (is_own own to.address)) [
    | inl mine ↦ rw mine (
        AllOfCoin-collect_outputs tx tos (put_utxo (utxo_of codec keys coin own now tx to) us) (
          All-upsert (λ x. x.outpoint) (λ u. u.coin ≡ coin) (utxo_of codec keys coin own now tx to)
            us refl h))
    | inr other ↦ rw other (AllOfCoin-collect_outputs tx tos us h)
  ]

  AllOfCoin-collect :
      (txs : List Transaction) (us : List UtxoRecord)
      → AllOfCoin coin us
      → AllOfCoin coin (collect codec keys coin own now txs us)
  unfolding collect
  AllOfCoin-collect [] us h = h
  AllOfCoin-collect (tx ∷ txs) us h =
      AllOfCoin-collect txs (collect_outputs codec keys coin own now tx tx.to us)
        (AllOfCoin-collect_outputs tx tx.to us h)

  AllOfCoin-drop_inputs :
      (infos : List SpendInfo) (us : List UtxoRecord)
      → AllOfCoin coin us
      → AllOfCoin coin (drop_inputs infos us)
  unfolding drop_inputs
  AllOfCoin-drop_inputs [] us h = h
  AllOfCoin-drop_inputs (i ∷ infos) us h =
      AllOfCoin-drop_inputs infos (drop_utxo (hex i.id) us)
        (All-delete_by (λ x. x.outpoint) (λ u. u.coin ≡ coin) (hex i.id) us h)

  AllOfCoin-drop_spent :
      (txs : List Transaction) (us : List UtxoRecord)
      → AllOfCoin coin us
      → AllOfCoin coin (drop_spent txs us)
  unfolding drop_spent
  AllOfCoin-drop_spent [] us h = h
  AllOfCoin-drop_spent (tx ∷ txs) us h =
      AllOfCoin-drop_spent txs (drop_inputs tx.from us) (AllOfCoin-drop_inputs tx.from us h)

  pub utxo_set-AllOfCoin :
      (txs : List Transaction) → AllOfCoin coin (utxo_set codec keys coin own now txs)
  unfolding utxo_set
  utxo_set-AllOfCoin txs =
      AllOfCoin-drop_spent txs (collect codec keys coin own now txs [])
        (AllOfCoin-collect txs [] tt)
