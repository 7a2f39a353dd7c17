-- ===== src/Keychain/Lookahead/Placement.antt =====
-- Where the address records of a keychain stand: the invariant that keeps a derived address from
-- overriding the record of another.
use multiwallet.Prelude.{
  ℕ, ◌≤◌, ◌<◌, ◌≡◌, ◌≢◌, refl, inl, inr, Bool, none, some, List, [], ◌∷◌, arith, All, All-map,
  Bool-cases, Option-cases, bool_eq_iff, Text, text_eq, text_eq_iff,
}
use multiwallet.Database.Models.{AddressRecord}
use multiwallet.Database.Tables.{find_by}
use multiwallet.Keychain.Keys.{HdKeys, Keychain, hardened, address_at, IsDerivable}
use multiwallet.Keychain.Lookahead.{last_record, next_index}

module _ (hd : HdKeys) (kc : Keychain hd) where
  -- A record of the keychain's coin holds the address at its place, and no other record holds an
  -- address of the keychain.
  pub record IsPlaced (r : AddressRecord) : Type 0 where
    pub own :
        r.coin ≡ kc.coin_type
        → (r.key_index < hardened) × (address_at hd kc r.change r.key_index ≡ some r.addr)
    pub foreign :
        r.coin ≢ kc.coin_type → (change : Bool) (i : ℕ) → address_at hd kc change i ≢ some r.addr

  -- On the chain `change` of the coin, the record stands below `n`.
  abbrev pub IsChainBelow : Bool → ℕ → AddressRecord → Type 0
  IsChainBelow change n r = r.coin ≡ kc.coin_type → r.change ≡ change → r.key_index < n

  module _ {gap : ℕ} (derivable : IsDerivable hd kc gap) where
    address_ne :
        (change : Bool) (i : ℕ) (a : Text) (r : AddressRecord)
        → i < hardened
        → address_at hd kc change i ≡ some a
        → IsPlaced r
        → IsChainBelow change i r
        → r.addr ≢ a
    address_ne change i a r room here placed below same =
        elim (Bool-cases (text_eq r.coin kc.coin_type)) [
          | inl e ↦
              (let own = (text_eq_iff r.coin kc.coin_type).0 e in
                let (low, at) = placed.own own in
                let (c, j) =
                  derivable.one_place r.change change r.key_index i a low room (rw (← same) at)
                    here in
                let lt = below own c in absurd (omega arith))
          | inr e ↦
              placed.foreign (λ own. cc ((text_eq_iff r.coin kc.coin_type).1 own)) change i
                (rw same here)
        ]

    -- The address at a place behind its chain's records is in no record.
    pub find_by-new :
        (change : Bool) (i : ℕ) (a : Text) (rows : List AddressRecord)
        → i < hardened
        → address_at hd kc change i ≡ some a
        → All IsPlaced rows
        → All (IsChainBelow change i) rows
        → find_by (λ x. x.addr) a rows ≡ none
    unfolding find_by
    find_by-new change i a [] room here placed below = refl
    find_by-new change i a (r ∷ rows) room here placed below =
        elim (Bool-cases (text_eq r.addr a)) [
          | inl e ↦
              absurd
                (address_ne change i a r room here placed.0 below.0 ((text_eq_iff r.addr a).0 e))
          | inr e ↦ rw e (find_by-new change i a rows room here placed.1 below.1)
        ]

abbrev pub next_of : Text → Bool → List AddressRecord → ℕ
next_of coin change rows = next_index (last_record coin change rows)

next_of-cons :
    (coin : Text) (change : Bool) (r : AddressRecord) (rows : List AddressRecord)
    → (next_of coin change rows ≤ next_of coin change (r ∷ rows))
      × (r.coin ≡ coin → r.change ≡ change → r.key_index < next_of coin change (r ∷ rows))
unfolding last_record
next_of-cons coin change r rows = elim (Option-cases (last_record coin change rows)) [
  | inl e ↦
      (ground arith, λ c d. ground (arith, text_eq_iff r.coin coin, bool_eq_iff r.change change))
  | inr (m, e) ↦
      (ground arith, λ c d. ground (arith, text_eq_iff r.coin coin, bool_eq_iff r.change change))
]

-- The next index of a chain lies behind all records of the chain.
pub next_of-below :
    (hd : HdKeys) (kc : Keychain hd) (change : Bool) (rows : List AddressRecord)
    → All (IsChainBelow hd kc change (next_of kc.coin_type change rows)) rows
next_of-below hd kc change [] = tt
next_of-below hd kc change (r ∷ rows) =
    let (grows, here) = next_of-cons kc.coin_type change r rows in
    (
      here,
      All-map (IsChainBelow hd kc change (next_of kc.coin_type change rows))
          (IsChainBelow hd kc change (next_of kc.coin_type change (r ∷ rows))) rows
          (λ x below own on. let lt = below own on in omega arith)
          (next_of-below hd kc change rows),
    )
