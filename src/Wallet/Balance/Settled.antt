-- ===== src/Wallet/Balance/Settled.antt =====
-- `checkIfStxoIsConfirmed` against its meaning: all inputs come from transactions of the wallet that
-- are confirmed, or settled in turn.
use mathlib.Core.Path.{subst}
use multiwallet.Prelude.{
  ℕ, zero, suc, ◌<◌, ◌≤◌, ◌≡◌, refl, sym, ◌∙◌, ap, inl, inr, Bool, true, false, ◌&&◌, none, some,
  List, [], ◌∷◌, ltb, length, take, ◌==◌, Text, arith, Bool-cases, Option-cases, All, All-map, ◌↔◌,
}
use multiwallet.Database.Tx.{Error, Result, ok, err}
use multiwallet.Chain.Types.{SpendInfo, Transaction, hex}
use multiwallet.Wallet.Balance.{
  result_cases, find_tx, spent_txid, check_inputs, check_found, check_if_stxo_is_confirmed,
}

-- The specification.
mutual
  pub data IsSettled (map : List Transaction) : Text → Type 0 where
    settled :
        (id : Text) (tx : Transaction)
        → find_tx map id ≡ some tx
        → AreSettled map tx.from
        → IsSettled map id

  pub data AreSettled (map : List Transaction) : List SpendInfo → Type 0 where
    no_inputs : AreSettled map []
    confirmed_input :
        (i : SpendInfo) (from : List SpendInfo) (id : Text) (t : Transaction)
        → spent_txid i ≡ ok id
        → find_tx map id ≡ some t
        → (t.height == 0) ≡ false
        → AreSettled map from
        → AreSettled map (i ∷ from)
    settled_input :
        (i : SpendInfo) (from : List SpendInfo) (id : Text) (t : Transaction)
        → spent_txid i ≡ ok id
        → find_tx map id ≡ some t
        → (t.height == 0) ≡ true
        → IsSettled map id
        → AreSettled map from
        → AreSettled map (i ∷ from)

-- What the recursion needs to end: ids of inputs that are long enough, and a rank that falls from a
-- transaction to those that it spends.
pub record IsRanked (map : List Transaction) (rank : Text → ℕ) : Type 0 where
  pub long :
      (id : Text) (tx : Transaction)
      → find_tx map id ≡ some tx
      → All (λ i. 32 ≤ length i.id) tx.from
  pub falls :
      (id : Text) (tx : Transaction)
      → find_tx map id ≡ some tx
      → All (λ i. rank (hex (take 32 i.id)) < rank id) tx.from

module _ (map : List Transaction) (check : Text → Result Bool) where
  -- One round of the loop over the inputs, from what it finds.
  check_inputs-missing :
      (acc : Bool) (i : SpendInfo) (from : List SpendInfo) (id : Text)
      → spent_txid i ≡ ok id
      → find_tx map id ≡ none
      → check_inputs check map acc (i ∷ from) ≡ ok false
  unfolding check_inputs
  check_inputs-missing acc i from id e h = rw (e, h) refl

  check_inputs-confirmed :
      (acc : Bool) (i : SpendInfo) (from : List SpendInfo) (id : Text) (t : Transaction)
      → spent_txid i ≡ ok id
      → find_tx map id ≡ some t
      → (t.height == 0) ≡ false
      → check_inputs check map acc (i ∷ from) ≡ check_inputs check map (acc && true) from
  unfolding check_inputs
  check_inputs-confirmed acc i from id t e h high = rw (e, h, high) refl

  check_inputs-open :
      (acc c : Bool) (i : SpendInfo) (from : List SpendInfo) (id : Text) (t : Transaction)
      → spent_txid i ≡ ok id
      → find_tx map id ≡ some t
      → (t.height == 0) ≡ true
      → check id ≡ ok c
      → check_inputs check map acc (i ∷ from) ≡ check_inputs check map (acc && c) from
  unfolding check_inputs
  check_inputs-open acc c i from id t e h low k = rw (e, h, low, k) refl

  check_inputs-stuck :
      (acc : Bool) (i : SpendInfo) (from : List SpendInfo) (id : Text) (t : Transaction) (x : Error)
      → spent_txid i ≡ ok id
      → find_tx map id ≡ some t
      → (t.height == 0) ≡ true
      → check id ≡ err x
      → check_inputs check map acc (i ∷ from) ≡ err x
  unfolding check_inputs
  check_inputs-stuck acc i from id t x e h low k = rw (e, h, low, k) refl

  check_inputs-short :
      (acc : Bool) (i : SpendInfo) (from : List SpendInfo) (x : Error)
      → spent_txid i ≡ err x
      → check_inputs check map acc (i ∷ from) ≡ err x
  unfolding check_inputs
  check_inputs-short acc i from x e = rw e refl

and_true : (a b : Bool) → (a && b) ≡ true → (a ≡ true) × (b ≡ true)
and_true true b h = (refl, h)
and_true false b h = absurd (cc (h))

module _ (map : List Transaction) (check : Text → Result Bool)
    (sound : (id : Text) → check id ≡ ok true → IsSettled map id) where
  check_inputs_sound :
      (acc : Bool) (from : List SpendInfo)
      → check_inputs check map acc from ≡ ok true
      → (acc ≡ true) × AreSettled map from
  unfolding check_inputs
  check_inputs_sound acc [] h = (ground arith, no_inputs)
  check_inputs_sound acc (i ∷ from) h = elim (result_cases (spent_txid i)) [
    | inr (x, e) ↦ absurd (cc (sym (check_inputs-short map check acc i from x e) ∙ h))
    | inl (id, e) ↦ elim (Option-cases (find_tx map id)) [
      | inl gone ↦ absurd (cc (sym (check_inputs-missing map check acc i from id e gone) ∙ h))
      | inr (t, found) ↦ elim (Bool-cases (t.height == 0)) [
        | inr high ↦
            (let (a, rest) =
                check_inputs_sound (acc && true) from
                  (sym (check_inputs-confirmed map check acc i from id t e found high) ∙ h) in
              ((and_true acc true a).0, confirmed_input i from id t e found high rest))
        | inl low ↦ elim (result_cases (check id)) [
          | inr (x, bad) ↦
              absurd (cc (sym (check_inputs-stuck map check acc i from id t x e found low bad) ∙ h))
          | inl (c, k) ↦
              (let (a, rest) =
                  check_inputs_sound (acc && c) from
                    (sym (check_inputs-open map check acc c i from id t e found low k) ∙ h) in
                let (a1, a2) = and_true acc c a in
                (a1, settled_input i from id t e found low (sound id (k ∙ ap ok a2)) rest))
        ]
      ]
    ]
  ]

-- An answer of yes is right, whatever the fuel.
confirmed_sound :
    (map : List Transaction) (fuel : ℕ) (id : Text)
    → check_if_stxo_is_confirmed fuel map id ≡ ok true
    → IsSettled map id
unfolding check_if_stxo_is_confirmed
confirmed_sound map zero id h = absurd (cc (h))
confirmed_sound map (suc fuel) id h = elim (Option-cases (find_tx map id)) [
  | inl gone ↦
      absurd (cc (sym (ap (check_found (check_if_stxo_is_confirmed fuel map) map) gone) ∙ h))
  | inr (tx, found) ↦
      settled id tx found
        (check_inputs_sound map (check_if_stxo_is_confirmed fuel map) (confirmed_sound map fuel)
          true tx.from
          (sym (ap (check_found (check_if_stxo_is_confirmed fuel map) map) found) ∙ h)).1
]

spent_txid_long : (i : SpendInfo) → 32 ≤ length i.id → spent_txid i ≡ ok (hex (take 32 i.id))
spent_txid_long i h = let long : ltb (length i.id) 32 ≡ false = ground arith in rw long refl

abbrev Answers : Result Bool → Type 0
Answers r = (c : Bool) × (r ≡ ok c)

module _ (map : List Transaction) (check : Text → Result Bool) (rank : Text → ℕ) (n : ℕ)
    (answers : (id : Text) → rank id < n → Answers (check id)) where
  -- Over inputs of lower rank the loop gives an answer.
  check_inputs-Answers :
      (acc : Bool) (from : List SpendInfo)
      → All (λ i. 32 ≤ length i.id) from
      → All (λ i. rank (hex (take 32 i.id)) < n) from
      → Answers (check_inputs check map acc from)
  unfolding check_inputs
  check_inputs-Answers acc [] long below = (acc, refl)
  check_inputs-Answers acc (i ∷ from) long below =
      let id : Text = hex (take 32 i.id) in
      let e = spent_txid_long i long.0 in
      elim (Option-cases (find_tx map id)) [
        | inl gone ↦ (false, check_inputs-missing map check acc i from id e gone)
        | inr (t, found) ↦ elim (Bool-cases (t.height == 0)) [
          | inr high ↦
              (let (c, rest) = check_inputs-Answers (acc && true) from long.1 below.1 in
                (c, check_inputs-confirmed map check acc i from id t e found high ∙ rest))
          | inl low ↦
              (let (k, checked) = answers id below.0 in
                let (c, rest) = check_inputs-Answers (acc && k) from long.1 below.1 in
                (c, check_inputs-open map check acc k i from id t e found low checked ∙ rest))
        ]
      ]

module _ (map : List Transaction) (rank : Text → ℕ) (ranked : IsRanked map rank) where
  -- Where ids of inputs have at least 32 bytes and a rank falls from each transaction of the map to those
  -- that it spends, `checkIfStxoIsConfirmed` gives an answer on any fuel above the rank of the id.
  pub confirmed-Answers :
      (fuel : ℕ) (id : Text)
      → rank id < fuel
      → (c : Bool) × (check_if_stxo_is_confirmed fuel map id ≡ ok c)
  unfolding check_if_stxo_is_confirmed
  confirmed-Answers zero id h = absurd (omega arith)
  confirmed-Answers (suc fuel) id h = elim (Option-cases (find_tx map id)) [
    | inl gone ↦ (false, ap (check_found (check_if_stxo_is_confirmed fuel map) map) gone)
    | inr (tx, found) ↦
        (let (c, k) =
            check_inputs-Answers map (check_if_stxo_is_confirmed fuel map) rank fuel
              (confirmed-Answers fuel) true tx.from (ranked.long id tx found)
              (All-map (λ (i : SpendInfo). rank (hex (take 32 i.id)) < rank id) _ tx.from
                (λ i l. omega arith) (ranked.falls id tx found)) in
          (c, ap (check_found (check_if_stxo_is_confirmed fuel map) map) found ∙ k))
  ]

module _ (map : List Transaction) (check : Text → Result Bool) (n : ℕ) (rank : Text → ℕ)
    (complete : (id : Text) → rank id < n → IsSettled map id → check id ≡ ok true) where
  check_inputs_complete :
      (from : List SpendInfo)
      → All (λ i. 32 ≤ length i.id) from
      → All (λ i. rank (hex (take 32 i.id)) < n) from
      → AreSettled map from
      → check_inputs check map true from ≡ ok true
  unfolding check_inputs
  check_inputs_complete [] long below no_inputs = refl
  check_inputs_complete (i ∷ from) long below (confirmed_input j rest id t e found high are) =
      check_inputs-confirmed map check true i from id t e found high
      ∙ check_inputs_complete from long.1 below.1 are
  check_inputs_complete (i ∷ from) long below (settled_input j rest id t e found low is are) =
      let same : hex (take 32 i.id) ≡ id = ok_same (sym (spent_txid_long i long.0) ∙ e) in
      check_inputs-open map check true true i from id t e found low
        (complete id (subst (λ (x : Text). rank x < n) same below.0) is)
      ∙ check_inputs_complete from long.1 below.1 are
    where
      ok_same : {a b : Text} → ok a ≡ ok b → a ≡ b
      ok_same h = cc (h)

module _ (map : List Transaction) (rank : Text → ℕ) (ranked : IsRanked map rank) where
  confirmed_complete :
      (fuel : ℕ) (id : Text)
      → rank id < fuel
      → IsSettled map id
      → check_if_stxo_is_confirmed fuel map id ≡ ok true
  unfolding check_if_stxo_is_confirmed
  confirmed_complete zero id h is = absurd (omega arith)
  confirmed_complete (suc fuel) id h (settled same tx found are) =
      ap (check_found (check_if_stxo_is_confirmed fuel map) map) found
      ∙ check_inputs_complete map (check_if_stxo_is_confirmed fuel map) fuel rank
          (confirmed_complete fuel) tx.from (ranked.long id tx found)
          (All-map (λ (i : SpendInfo). rank (hex (take 32 i.id)) < rank id) _ tx.from
            (λ i l. omega arith) (ranked.falls id tx found))
          are

  -- Where ids of inputs have at least 32 bytes and a rank falls from each transaction of the map to those
  -- that it spends, on fuel above the rank of the id `checkIfStxoIsConfirmed` answers yes exactly where
  -- the map has the transaction and each of its inputs comes from a transaction of the map that is
  -- confirmed, or settled in turn.
  pub confirmed-IsSettled :
      (fuel : ℕ) (id : Text)
      → rank id < fuel
      → (check_if_stxo_is_confirmed fuel map id ≡ ok true) ↔ IsSettled map id
  confirmed-IsSettled fuel id h = (confirmed_sound map fuel id, confirmed_complete fuel id h)
