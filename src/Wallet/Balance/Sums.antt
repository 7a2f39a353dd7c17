-- ===== src/Wallet/Balance/Sums.antt =====
-- What the two parts of a balance add up to.
use mathlib.Core.Path.{subst}
use multiwallet.Prelude.{ℕ, ◌≡◌, sym, ◌∙◌, ap, Bool, true, false, List, [], ◌∷◌, Text, inl, inr}
use multiwallet.Prelude.Int.{ℤ, pos, ◌+ℤ◌, int_laws}
use multiwallet.Database.Models.{TransactionRecord, UtxoRecord}
use multiwallet.Database.Tx.{
  Tx, Result, ok, err, Engine, Session, ◌>>=◌, lift, query, read_tx, view,
}
use multiwallet.Database.Laws.{Ends, read-bind-Ends, lift-bind-Ends, lift-Ends}
use multiwallet.Chain.Types.{Transaction, Codec}
use multiwallet.Chain.Saving.{find_utxos, find_transactions, decode_all}
use multiwallet.Wallet.Balance.{
  and_then, result_cases, counts, tx_map, add_utxo, add_utxos, balance_tx, balance,
}

plus_zero : (a : ℤ) → a ≡ a +ℤ pos 0
plus_zero a = omega int_laws

zero_plus : (a : ℤ) → (pos 0 +ℤ pos 0) +ℤ a ≡ a
zero_plus a = omega int_laws

plus_assoc : (a b c : ℤ) → (a +ℤ b) +ℤ c ≡ a +ℤ (b +ℤ c)
plus_assoc a b c = omega int_laws

module _ (codec : Codec) (new_amount : Text → ℤ) where
  -- The sum of the amounts.
  abbrev pub total : List UtxoRecord → ℤ
  total [] = pos 0
  total (u ∷ utxos) = new_amount u.amount +ℤ total utxos

  add_utxo_sum :
      (acc : ℤ × ℤ) (u : UtxoRecord) (c : Bool)
      → (add_utxo codec new_amount acc u c).0 +ℤ (add_utxo codec new_amount acc u c).1
        ≡ (acc.0 +ℤ acc.1) +ℤ new_amount u.amount
  add_utxo_sum acc u true = omega int_laws
  add_utxo_sum acc u false = omega int_laws

  add_utxos_sum :
      (fuel : ℕ) (map : List Transaction) (acc p : ℤ × ℤ) (utxos : List UtxoRecord)
      → add_utxos codec new_amount fuel map acc utxos ≡ ok p
      → p.0 +ℤ p.1 ≡ (acc.0 +ℤ acc.1) +ℤ total utxos
  unfolding add_utxos
  add_utxos_sum fuel map acc p [] h =
      let same : acc ≡ p = cc (h) in rw (sym same) (plus_zero (acc.0 +ℤ acc.1))
  add_utxos_sum fuel map acc p (u ∷ utxos) h = elim (result_cases (counts fuel map u)) [
    | inl (c, e) ↦
        (let later = sym (ap step e) ∙ h in
          add_utxos_sum fuel map (add_utxo codec new_amount acc u c) p utxos later
          ∙ ap (λ z. z +ℤ total utxos) (add_utxo_sum acc u c)
          ∙ plus_assoc (acc.0 +ℤ acc.1) (new_amount u.amount) (total utxos))
    | inr (x, e) ↦ absurd (cc (sym (ap step e) ∙ h))
  ]
    where
      step : Result Bool → Result (ℤ × ℤ)
      step r =
          and_then r
            (λ c. add_utxos codec new_amount fuel map (add_utxo codec new_amount acc u c) utxos)

  -- What the closure answers adds up.
  balance_tx-Ends :
      (fuel : ℕ) (coin : Text) (s : Session)
      → Ends
          (λ p t. p.0 +ℤ p.1 ≡ total (find_utxos coin s.tables))
          (λ _. Unit)
          (balance_tx codec new_amount fuel coin s)
  unfolding balance_tx
  balance_tx-Ends fuel coin s =
      read-bind-Ends (find_utxos coin) after_utxos Q (λ _. Unit) s
        (λ t h.
          read-bind-Ends (find_transactions coin) (after_records (find_utxos coin s.tables)) Q
            (λ _. Unit) t
            (λ v k.
              lift-bind-Ends (after_decoding (find_utxos coin s.tables)) Q (λ _. Unit) v
                (decode_all codec (find_transactions coin t.tables)) (λ x e. tt)
                (λ txs e.
                  lift-Ends Q (λ _. Unit) v
                    (add_utxos codec new_amount fuel (tx_map [] txs) (pos 0, pos 0)
                      (find_utxos coin s.tables))
                    (λ x l. tt)
                    (λ p l.
                      add_utxos_sum fuel (tx_map [] txs) (pos 0, pos 0) p (find_utxos coin s.tables)
                        l
                      ∙ zero_plus _))))
    where
      Q : ℤ × ℤ → Session → Type 0
      Q p t = p.0 +ℤ p.1 ≡ total (find_utxos coin s.tables)

      after_decoding : List UtxoRecord → List Transaction → Tx (ℤ × ℤ)
      after_decoding utxos txs =
          lift (add_utxos codec new_amount fuel (tx_map [] txs) (pos 0, pos 0) utxos)

      after_records : List UtxoRecord → List TransactionRecord → Tx (ℤ × ℤ)
      after_records utxos records = lift (decode_all codec records) >>= after_decoding utxos

      after_utxos : List UtxoRecord → Tx (ℤ × ℤ)
      after_utxos utxos = query (λ t. ok (find_transactions coin t)) >>= after_records utxos

  -- Where the balance is given, its unconfirmed and its confirmed part add up to the amounts of all
  -- utxos of the coin.
  pub balance_sum :
      (fuel : ℕ) (coin : Text) (e e' : Engine) (p : ℤ × ℤ)
      → balance codec new_amount fuel coin e ≡ (ok p, e')
      → p.0 +ℤ p.1 ≡ total (find_utxos coin e.tables)
  unfolding balance view read_tx
  balance_sum fuel coin e e' p h =
      answered (balance_tx codec new_amount fuel coin (read_tx e))
        (balance_tx-Ends fuel coin (read_tx e)) (ap (λ r. r.0) h)
    where
      answered :
          (r : Result (ℤ × ℤ) × Session)
          → Ends (λ p t. p.0 +ℤ p.1 ≡ total (find_utxos coin e.tables)) (λ _. Unit) r
          → r.0 ≡ ok p
          → p.0 +ℤ p.1 ≡ total (find_utxos coin e.tables)
      answered (ok q, t) k l =
          let same : q ≡ p = cc (l) in
          subst (λ (x : ℤ × ℤ). x.0 +ℤ x.1 ≡ total (find_utxos coin e.tables)) same k
      answered (err x, t) k l = absurd (cc (l))
