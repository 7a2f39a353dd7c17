-- ===== src/Wallet/Balance/Given.antt =====
-- When a balance is given, and what it is then.
use multiwallet.Prelude.{
  ℕ, ◌+◌, ◌<◌, ◌≤◌, ◌≡◌, refl, ◌∙◌, ap, Bool, true, false, List, [], ◌∷◌, Text, inl, inr, All,
  arith, length, take, ltb, Bool-cases,
}
use multiwallet.Prelude.Int.{ℤ, pos, ◌+ℤ◌}
use multiwallet.Database.Models.{UtxoRecord, TransactionRecord}
use multiwallet.Database.Tx.{Result, ok, Engine, Session, Tx, ◌>>=◌, lift, read_tx, view, query}
use multiwallet.Database.Laws.{bind_ok, read_taken}
use multiwallet.Chain.Types.{Transaction, Codec}
use multiwallet.Chain.Saving.{find_utxos, find_transactions, decode_all}
use multiwallet.Wallet.Balance.{and_then, counts, tx_map, add_utxo, add_utxos, balance_tx, balance}
use multiwallet.Wallet.Balance.Settled.{IsRanked, confirmed-Answers}
use multiwallet.Wallet.Balance.Sums.{total, balance_sum}

module _ (codec : Codec) (new_amount : Text → ℤ) (fuel : ℕ) (rank : Text → ℕ) where
  -- The id in the outpoint is whole, and the fuel exceeds its rank.
  abbrev pub IsWithin : UtxoRecord → Type 0
  IsWithin u = (64 ≤ length u.outpoint) × (rank (take 64 u.outpoint) < fuel)

  counts-Answers :
      (map : List Transaction) (u : UtxoRecord)
      → IsRanked map rank
      → IsWithin u
      → (c : Bool) × (counts fuel map u ≡ ok c)
  counts-Answers map u ranked within = elim (Bool-cases (ltb 0 u.height)) [
    | inl high ↦ (true, rw high refl)
    | inr low ↦
        (let whole : ltb (length u.outpoint) 64 ≡ false = (let long = within.0 in ground arith) in
          let (c, e) = confirmed-Answers map rank ranked fuel (take 64 u.outpoint) within.1 in
          (c, rw (low, whole) e))
  ]

  add_utxos-Answers :
      (map : List Transaction) (acc : ℤ × ℤ) (utxos : List UtxoRecord)
      → IsRanked map rank
      → All IsWithin utxos
      → (p : ℤ × ℤ) × (add_utxos codec new_amount fuel map acc utxos ≡ ok p)
  unfolding add_utxos
  add_utxos-Answers map acc [] ranked within = (acc, refl)
  add_utxos-Answers map acc (u ∷ utxos) ranked within =
      let (c, e) = counts-Answers map u ranked within.0 in
      let (p, k) =
        add_utxos-Answers map (add_utxo codec new_amount acc u c) utxos ranked within.1 in
      (
        p,
        ap
              (λ r. and_then r (λ c.
                add_utxos codec new_amount fuel map (add_utxo codec new_amount acc u c) utxos))
              e
            ∙ k,
      )

  -- Where the engine takes both statements, the coin's transactions decode, each is of a lower rank than
  -- those that spend it, ids of inputs have at least 32 bytes, and each utxo of the coin has an outpoint
  -- of at least 64 bytes whose transaction's rank is below the fuel: `Balance` returns, and its
  -- unconfirmed and confirmed parts add up to the amounts of all utxos of the coin.
  pub balance_adds :
      (coin : Text) (e : Engine) (txs : List Transaction)
      → e.faults e.step ≡ false
      → e.faults (e.step + 1) ≡ false
      → decode_all codec (find_transactions coin e.tables) ≡ ok txs
      → IsRanked (tx_map [] txs) rank
      → All IsWithin (find_utxos coin e.tables)
      → (p : ℤ × ℤ) × (e' : Engine) × (balance codec new_amount fuel coin e ≡ (ok p, e'))
        × (p.0 +ℤ p.1 ≡ total codec new_amount (find_utxos coin e.tables))
  unfolding balance balance_tx view read_tx
  balance_adds coin e txs first second decoded ranked within =
      let (p, k) =
        add_utxos-Answers (tx_map [] txs) (pos 0, pos 0) (find_utxos coin e.tables) ranked within in
      let s0 = read_tx e in
      let s1 : Session = record s0 { step = e.step + 1 } in
      let s2 : Session = record s0 { step = e.step + 1 + 1 } in
      let utxos = find_utxos coin e.tables in
      let records = find_transactions coin e.tables in
      let run : balance_tx codec new_amount fuel coin s0 ≡ (ok p, s2) =
        bind_ok (query (λ t. ok (find_utxos coin t))) after_utxos s0 utxos s1
          (read_taken (find_utxos coin) s0 first)
        ∙ bind_ok (query (λ t. ok (find_transactions coin t))) (after_records utxos) s1 records s2
            (read_taken (find_transactions coin) s1 second)
        ∙ bind_ok (lift (decode_all codec records)) (after_decoding utxos) s2 txs s2
            (ap (λ r. (r, s2)) decoded)
        ∙ ap (λ r. (r, s2)) k in
      let after : Engine = record { tables = e.tables; step = e.step + 1 + 1; faults = e.faults } in
      let given : balance codec new_amount fuel coin e ≡ (ok p, after) = ap end_view run in
      (p, after, given, balance_sum codec new_amount fuel coin e after p given)
    where
      after_decoding : List UtxoRecord → List Transaction → Tx (ℤ × ℤ)
      after_decoding utxos txs =
          lift (add_utxos codec new_amount fuel (tx_map [] txs) (pos 0, pos 0) utxos)

      after_records : List UtxoRecord → List TransactionRecord → Tx (ℤ × ℤ)
      after_records utxos records = lift (decode_all codec records) >>= after_decoding utxos

      after_utxos : List UtxoRecord → Tx (ℤ × ℤ)
      after_utxos utxos = query (λ t. ok (find_transactions coin t)) >>= after_records utxos

      end_view : Result (ℤ × ℤ) × Session → Result (ℤ × ℤ) × Engine
      end_view (r, s) = (r, record { tables = s.tables; step = s.step; faults = s.faults })
