-- ===== src/Wallet/Balance.antt =====
-- `Balance` of base/base.go, and `checkIfStxoIsConfirmed`. A chain of unconfirmed transactions ends,
-- but nothing in the code says so: the recursion runs on fuel.
pub mod Settled
pub mod Sums
pub mod Given
use multiwallet.Prelude.{
  ◌≡◌, refl, ◌⊎◌, inl, inr, ℕ, zero, suc, ◌+◌, Bool, true, false, ◌&&◌, Option, none, some, List,
  [], ◌∷◌, ltb, length, take, select, ◌==◌, if◌then◌else◌, Text, text_eq,
}
use multiwallet.Prelude.Int.{ℤ, pos, ◌+ℤ◌}
use multiwallet.Database.Models.{Tables, UtxoRecord}
use multiwallet.Database.Tables.{find_by, upsert}
use multiwallet.Database.Tx.{
  Error, Result, ok, err, Tx, Exec, Engine, ◌>>=◌, ◌>>◌, pure, lift, query, view, out_of_fuel,
  out_of_range,
}
use multiwallet.Chain.Types.{SpendInfo, Transaction, Codec, hex}
use multiwallet.Chain.Saving.{decode_all, find_transactions, find_utxos}

-- A bind of pure steps.
abbrev pub and_then : {A B : Type 0} → Result A → (A → Result B) → Result B
and_then (ok a) f = f a
and_then (err e) f = err e

pub result_cases :
    {A : Type 0} → (r : Result A) → ((a : A) × (r ≡ ok a)) ⊎ ((x : Error) × (r ≡ err x))
result_cases (ok a) = inl (a, refl)
result_cases (err x) = inr (x, refl)

-- `txMap[id]`
abbrev pub find_tx : List Transaction → Text → Option Transaction
find_tx map id = find_by (λ t. t.id) id map

-- `hex.EncodeToString(from.ID[:32])`, with an id that has no capacity beyond its length: a shorter one
-- panics.
abbrev pub spent_txid : SpendInfo → Result Text
spent_txid i = if ltb (length i.id) 32 then err out_of_range else ok (hex (take 32 i.id))

abbrev pub check_spent : (Text → Result Bool) → Option Transaction → Text → Result (Option Bool)
check_spent check none id = ok none
check_spent check (some t) id =
    if t.height == 0 then and_then (check id) (λ c. ok (some c)) else ok (some true)

-- The loop over the inputs: an input from elsewhere ends it.
abbrev pub next_input : Bool → (Bool → Result Bool) → Option Bool → Result Bool
next_input acc rest none = ok false
next_input acc rest (some c) = rest (acc && c)

unfoldable pub check_inputs :
    (Text → Result Bool) → List Transaction → Bool → List SpendInfo → Result Bool
check_inputs check map acc [] = ok acc
check_inputs check map acc (i ∷ from) =
    let rest = λ (a : Bool). check_inputs check map a from in
    and_then (spent_txid i)
      (λ id. and_then (check_spent check (find_tx map id) id) (next_input acc rest))

abbrev pub check_found : (Text → Result Bool) → List Transaction → Option Transaction → Result Bool
check_found check map none = ok false
check_found check map (some tx) = check_inputs check map true tx.from

unfoldable pub check_if_stxo_is_confirmed : ℕ → List Transaction → Text → Result Bool
check_if_stxo_is_confirmed zero map txid = err out_of_fuel
check_if_stxo_is_confirmed (suc fuel) map txid =
    check_found (check_if_stxo_is_confirmed fuel map) map (find_tx map txid)

-- `txMap[tx.ID] = tx`
abbrev pub tx_map : List Transaction → List Transaction → List Transaction
tx_map map [] = map
tx_map map (tx ∷ txs) = tx_map (upsert (λ t. t.id) tx map) txs

-- `Outpoint[:64]`
abbrev pub outpoint_txid : UtxoRecord → Result Text
outpoint_txid u = if ltb (length u.outpoint) 64 then err out_of_range else ok (take 64 u.outpoint)

-- Whether a utxo counts as confirmed.
abbrev pub counts : ℕ → List Transaction → UtxoRecord → Result Bool
counts fuel map u =
    if ltb 0 u.height
    then ok true
    else and_then (outpoint_txid u) (check_if_stxo_is_confirmed fuel map)

-- `NewAmount` of the wallet interface, on a text.
module _ (codec : Codec) (new_amount : Text → ℤ) where
  -- (unconfirmed, confirmed)
  abbrev pub add_utxo : ℤ × ℤ → UtxoRecord → Bool → ℤ × ℤ
  add_utxo (unconfirmed, confirmed) u true = (unconfirmed, confirmed +ℤ new_amount u.amount)
  add_utxo (unconfirmed, confirmed) u false = (unconfirmed +ℤ new_amount u.amount, confirmed)

  unfoldable pub add_utxos : ℕ → List Transaction → ℤ × ℤ → List UtxoRecord → Result (ℤ × ℤ)
  add_utxos fuel map acc [] = ok acc
  add_utxos fuel map acc (u ∷ utxos) =
      and_then (counts fuel map u) (λ c. add_utxos fuel map (add_utxo acc u c) utxos)

  -- The closure of `View`.
  unfoldable pub balance_tx : ℕ → Text → Tx (ℤ × ℤ)
  balance_tx fuel coin = do
    utxos ← query (λ t. ok (find_utxos coin t))
    records ← query (λ t. ok (find_transactions coin t))
    txs ← lift (decode_all codec records)
    lift (add_utxos fuel (tx_map [] txs) (pos 0, pos 0) utxos)

  unfoldable pub balance : ℕ → Text → Exec Engine (ℤ × ℤ)
  balance fuel coin = view (balance_tx fuel coin)
