-- ===== src/Keychain/Addresses/Current.antt =====
-- `CurrentAddress`: the first unused address, and why there is one.
use multiwallet.Prelude.{
  ℕ, ◌≤◌, ◌<◌, ◌≡◌, refl, ◌∙◌, ap, sym, inl, inr, Bool, true, false, some, none, List, [], ◌∷◌,
  arith, All, All-map, Bool-cases, Option-cases, Text, text_eq, text_eq_iff, bool_eq_iff, select,
  if◌then◌else◌, ltb,
}
use multiwallet.Prelude.Int.{ℤ}
use native.Mathlib.Nat.{le_trans}
use mathlib.Core.List.{Memᴰ}
use mathlib.Core.Path.{subst}
use multiwallet.Database.Models.{AddressRecord}
use multiwallet.Database.Tx.{Session, not_found, pure}
use multiwallet.Database.Laws.{Ends, lookup-bind-Ends}
use multiwallet.Keychain.Keys.{HdKeys, Keychain}
use multiwallet.Keychain.Lookahead.{lookahead_windows, unused, unused_step}
use multiwallet.Keychain.Lookahead.Windows.{side}
use multiwallet.Keychain.Lookahead.Meaning.{windows, lookahead_windows-eq-windows}
use multiwallet.Keychain.Addresses.{
  record_address, is_unused, first_unused, current_address_with_tx,
}

-- `r` is among the rows, an unused record of the chain, and no such record has a smaller index.
pub record IsFirst (coin : Text) (change : Bool) (rows : List AddressRecord) (r : AddressRecord)
    : Type 0 where
  pub present : Memᴰ r rows
  pub own : r.coin ≡ coin
  pub unused : r.used ≡ false
  pub on_chain : r.change ≡ change
  pub least : All (λ x. is_unused coin change x ≡ true → r.key_index ≤ x.key_index) rows

first_unused-none :
    (coin : Text) (change : Bool) (rows : List AddressRecord)
    → first_unused coin change rows ≡ none
    → All (λ x. is_unused coin change x ≡ false) rows
unfolding first_unused
first_unused-none coin change [] h = tt
first_unused-none coin change (x ∷ rows) h = elim (Bool-cases (is_unused coin change x)) [
  | inl u ↦ elim (Option-cases (first_unused coin change rows)) [
    | inl e ↦ absurd (ground arith)
    | inr (m, e) ↦ absurd (ground arith)
  ]
  | inr u ↦ (u, first_unused-none coin change rows (ground arith))
]

abbrev IsLeast : Text → Bool → List AddressRecord → AddressRecord → Type 0
IsLeast coin change rows r =
    Memᴰ r rows
    × (is_unused coin change r ≡ true)
    × All (λ x. is_unused coin change x ≡ true → r.key_index ≤ x.key_index) rows

IsLeast-only :
    (coin : Text) (change : Bool) (rows : List AddressRecord) (x : AddressRecord)
    → is_unused coin change x ≡ true
    → All (λ y. is_unused coin change y ≡ false) rows
    → IsLeast coin change (x ∷ rows) x
IsLeast-only coin change rows x u h = (
  Memᴰ.head refl,
  u,
  (
    λ _. omega arith,
    All-map (λ y. is_unused coin change y ≡ false)
        (λ y. is_unused coin change y ≡ true → x.key_index ≤ y.key_index) rows
        (λ y a b. absurd (cc (a, b))) h,
  ),
)

-- Behind `x`, the first unused record of `rows` is `m`.
IsLeast-cons :
    (coin : Text) (change : Bool) (rows : List AddressRecord) (x m : AddressRecord) (b : Bool)
    → ltb m.key_index x.key_index ≡ b
    → is_unused coin change x ≡ true
    → IsLeast coin change rows m
    → IsLeast coin change (x ∷ rows) (if b then m else x)
IsLeast-cons coin change rows x m true lt u (there, um, least) =
    (Memᴰ.tail there, um, (λ _. ground arith, least))
IsLeast-cons coin change rows x m false ge u (there, um, least) =
    let far : x.key_index ≤ m.key_index = ground arith in
    (
      Memᴰ.head refl,
      u,
      (
        λ _. omega arith,
        All-map (λ y. is_unused coin change y ≡ true → m.key_index ≤ y.key_index)
            (λ y. is_unused coin change y ≡ true → x.key_index ≤ y.key_index) rows
            (λ y a b. le_trans far (a b)) least,
      ),
    )

first_unused-IsLeast :
    (coin : Text) (change : Bool) (rows : List AddressRecord) (r : AddressRecord)
    → first_unused coin change rows ≡ some r
    → IsLeast coin change rows r
unfolding first_unused
first_unused-IsLeast coin change [] r h = absurd (cc)
first_unused-IsLeast coin change (x ∷ rows) r h = elim (Bool-cases (is_unused coin change x)) [
  | inl u ↦ elim (Option-cases (first_unused coin change rows)) [
    | inl e ↦
        let same : x ≡ r = ground arith in
        subst (IsLeast coin change (x ∷ rows)) same
          (IsLeast-only coin change rows x u (first_unused-none coin change rows e))
    | inr (m, e) ↦
        let same : (if ltb m.key_index x.key_index then m else x) ≡ r = ground arith in
        subst (IsLeast coin change (x ∷ rows)) same (
          IsLeast-cons coin change rows x m (ltb m.key_index x.key_index) refl u
            (first_unused-IsLeast coin change rows m e))
  ]
  | inr u ↦
      (let (there, ur, least) = first_unused-IsLeast coin change rows r (ground arith) in
        (Memᴰ.tail there, ur, (λ b. absurd (cc (u, b)), least)))
]

unused_step-other :
    (coin : Text) (change : Bool) (last : ℤ × ℤ) (acc : ℕ × ℕ) (r : AddressRecord)
    → text_eq r.coin coin ≡ true
    → is_unused coin change r ≡ false
    → side change (unused_step last acc r) ≡ side change acc
unused_step-other coin true last acc r own h = ground arith
unused_step-other coin false last acc r own h = ground arith

-- With no unused record of the chain its window is empty.
unused-none :
    (coin : Text) (change : Bool) (rows : List AddressRecord) (last : ℤ × ℤ) (acc : ℕ × ℕ)
    → All (λ x. is_unused coin change x ≡ false) rows
    → side change (unused last acc (select (λ r. text_eq r.coin coin) rows)) ≡ side change acc
unfolding unused
unused-none coin change [] last acc h = refl
unused-none coin change (r ∷ rows) last acc h = elim (Bool-cases (text_eq r.coin coin)) [
  | inl own ↦ rw own (
      unused-none coin change rows last (unused_step last acc r) h.1
      ∙ unused_step-other coin change last acc r own h.0)
  | inr other ↦ rw other (unused-none coin change rows last acc h.1)
]

side-zero : (change : Bool) → side {A = ℕ} change (0, 0) ≡ 0
side-zero true = refl
side-zero false = refl

module _ (hd : HdKeys) (kc : Keychain hd) where
  windows-none :
      (change : Bool) (rows : List AddressRecord)
      → first_unused kc.coin_type change rows ≡ none
      → side change (windows hd kc rows) ≡ 0
  unfolding lookahead_windows
  windows-none change rows h =
      ap (side change) (sym (lookahead_windows-eq-windows hd kc rows))
      ∙ unused-none kc.coin_type change rows _ (0, 0) (first_unused-none kc.coin_type change rows h)
      ∙ side-zero change

  -- While the window of the chain is not empty, that is, some unused record of the chain has all used
  -- ones in front of it, `CurrentAddressWithTx` ends with the tables as they were and the address of a
  -- record among the rows that is unused, on the chain, and of the smallest index among these; or it
  -- ends by the engine.
  pub current_address_with_tx-IsFirst :
      (change : Bool) (s : Session)
      → 0 < side change (windows hd kc s.tables.addresses)
      → Ends
          (λ a t.
            (t.tables ≡ s.tables)
            × ((r : AddressRecord) × (a ≡ record_address r)
                × IsFirst kc.coin_type change s.tables.addresses r))
          (λ _. ⊥)
          (current_address_with_tx hd kc change s)
  unfolding current_address_with_tx
  current_address_with_tx-IsFirst change s wide =
      lookup-bind-Ends (λ t. first_unused kc.coin_type change t.addresses) not_found
        (λ found. pure (record_address found)) _ (λ _. ⊥) s
        (λ none_there.
          let empty = windows-none change s.tables.addresses none_there in absurd (omega arith))
        λ r t found h.
          let (there, u, least) =
            first_unused-IsLeast kc.coin_type change s.tables.addresses r found in
          (
            h.0,
            (
              r,
              refl,
              record {
                present = there;
                own = ground (arith, text_eq_iff r.coin kc.coin_type);
                unused = ground (arith, bool_eq_iff r.used false);
                on_chain = ground (arith, bool_eq_iff r.change change);
                least = least;
              },
            ),
          )
