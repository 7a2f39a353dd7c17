-- ===== src/Keychain/Addresses/Issue.antt =====
-- What `NewAddress` issues on the two chains: a fresh address on the external one; for change, an
-- external address that may be in use.
use multiwallet.Prelude.{
  ℕ, ◌<◌, ◌≡◌, ap, Bool, true, false, some, none, List, arith, All, All-map, Text, refl,
}
use native.Mathlib.Decide.{dec_lt}
use multiwallet.Database.Models.{AddressRecord, Tables}
use multiwallet.Database.Tables.{find_by}
use multiwallet.Database.Tx.{Engine, not_found}
use multiwallet.Database.Laws.{Commits, map-Commits}
use multiwallet.Keychain.Keys.{HdKeys, Keychain, derive, address_at, IsDerivable}
use multiwallet.Keychain.Lookahead.{last_record, new_record}
use multiwallet.Keychain.Lookahead.Placement.{
  IsPlaced, IsChainBelow, next_of, next_of-below, find_by-new,
}
use multiwallet.Keychain.Lookahead.Extend.{CanExtend}
use multiwallet.Keychain.Addresses.{new_address}
use multiwallet.Keychain.Addresses.Fresh.{IsIssued, new_address_issues}

module _ (hd : HdKeys) (kc : Keychain hd) where
  IsIssued-fresh :
      {gap : ℕ} (derivable : IsDerivable hd kc gap) (rows : List AddressRecord) (a : Text)
      (T : Tables)
      → All (IsPlaced hd kc) rows
      → IsIssued hd kc false rows a T
      → find_by (λ x. x.addr) a rows ≡ none
  IsIssued-fresh derivable rows a T placed i =
      let behind = i.behind in
      find_by-new hd kc derivable false i.index a rows i.room i.place placed (
        All-map (IsChainBelow hd kc false (next_of kc.coin_type false rows))
          (IsChainBelow hd kc false i.index) rows
          (λ r below own on. let lt = below own on in omega arith) (next_of-below hd kc false rows))

  IsIssued-index :
      (change : Bool) (rows : List AddressRecord) (a : Text) (T : Tables) (key : hd.Key)
      → derive hd kc false (next_of kc.coin_type change rows) ≡ some key
      → (i : IsIssued hd kc change rows a T) → i.index ≡ next_of kc.coin_type change rows
  IsIssued-index change rows a T key valid i =
      let next = next_of kc.coin_type change rows in
      let behind = i.behind in
      elim (dec_lt next i.index) [
        | yes far ↦ absurd (cc (i.skipped next (omega arith) far, valid))
        | no near ↦ omega arith
      ]

  module _ {gap : ℕ} (derivable : IsDerivable hd kc gap) (fuel : ℕ) (e : Engine)
      (can : CanExtend hd kc gap fuel e.tables.addresses) (enough : gap < fuel) where
    -- With derivable keys, rows that can be extended and more fuel than the gap between valid keys,
    -- `NewAddress(false)` commits with an address that was in no record before, whatever the coin,
    -- and that is saved as unused; every other record stays. It fails only with `not_found`, where
    -- the external chain has no record, or by the engine, and then changes nothing.
    pub new_address_fresh :
        Commits
          (λ b T.
            (find_by (λ x. x.addr) b e.tables.addresses ≡ none)
            × IsIssued hd kc false e.tables.addresses b T)
          (λ x. (x ≡ not_found) × (last_record kc.coin_type false e.tables.addresses ≡ none))
          e.tables
          (new_address hd kc fuel false e)
    new_address_fresh =
        map-Commits (λ b T. IsIssued hd kc false e.tables.addresses b T) _ _ e.tables _
          (λ b T i. (IsIssued-fresh derivable e.tables.addresses b T can.placed i, i))
          (new_address_issues hd kc derivable fuel false e can enough)

    -- With derivable keys, rows that can be extended and more fuel than the gap between valid keys,
    -- `NewAddress(true)` issues from the external chain at the index that the internal chain has
    -- reached: if that index has a valid key whose external address is in a used record, the call,
    -- where it does not fail, commits with this used address and its record becomes unused. It
    -- fails only with `not_found`, where the internal chain has no record, or by the engine, and
    -- then changes nothing.
    pub new_address_change_reuses :
        (key : hd.Key) (a : Text) (old : AddressRecord)
        → derive hd kc false (next_of kc.coin_type true e.tables.addresses) ≡ some key
        → address_at hd kc false (next_of kc.coin_type true e.tables.addresses) ≡ some a
        → find_by (λ x. x.addr) a e.tables.addresses ≡ some old
        → old.used ≡ true
        → Commits
            (λ b T.
              (b ≡ a)
              × ((now : AddressRecord) × (find_by (λ x. x.addr) b T.addresses ≡ some now)
                  × (now.used ≡ false)))
            (λ x. (x ≡ not_found) × (last_record kc.coin_type true e.tables.addresses ≡ none))
            e.tables
            (new_address hd kc fuel true e)
    new_address_change_reuses key a old valid place found used =
        map-Commits (λ b T. IsIssued hd kc true e.tables.addresses b T) _ _ e.tables _
          (λ b T i.
            let here = IsIssued-index true e.tables.addresses b T key valid i in
            (
              cc (i.place, ap (address_at hd kc false) here, place),
              (new_record hd kc b i.index false, i.saved, refl),
            ))
          (new_address_issues hd kc derivable fuel true e can enough)
