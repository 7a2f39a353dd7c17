-- ===== src/Keychain/Addresses/Used.antt =====
-- `MarkAddressAsUsed`.
use multiwallet.Prelude.{
  ℕ, ◌≤◌, ◌≡◌, refl, ◌∙◌, ap, true, false, some, none, List, ◌++◌, arith, All, All-append, All-map,
  Text, sym, ◌≢◌, text_eq_iff,
}
use mathlib.Core.Path.{subst}
use multiwallet.Database.Models.{AddressRecord, Tables}
use multiwallet.Database.Tables.{find_by, upsert, find_by-upsert, find_by-append, All-upsert}
use multiwallet.Database.Tx.{Session, not_found, ◌>>◌}
use multiwallet.Database.Laws.{Ends, Becomes, bind-Ends, map-Ends, write-Ends, lookup-bind-Ends}
use multiwallet.Keychain.Keys.{HdKeys, Keychain, IsDerivable}
use multiwallet.Keychain.Lookahead.{save_address, extend_keychain}
use multiwallet.Keychain.Lookahead.Placement.{IsPlaced}
use multiwallet.Keychain.Lookahead.Create.{with_addresses}
use multiwallet.Keychain.Lookahead.Fill.{IsRoomy}
use multiwallet.Keychain.Lookahead.Meaning.{windows}
use multiwallet.Keychain.Lookahead.Extend.{
  CanExtend, IsExtended, IsSpare, filled, extend_keychain_fills,
}
use multiwallet.Keychain.Addresses.{find_address, mark_address_as_used}
use multiwallet.Keychain.Addresses.Rows.{find_address-key, find_address-All}

-- Saving a record of any kind in a read-write transaction.
pub save_address-Ends :
    (r : AddressRecord) (T : Tables) (rows : List AddressRecord) (s : Session)
    → s.tables ≡ with_addresses T rows
    → s.for_writes ≡ true
    → Ends
        (λ _ t. (t.tables ≡ with_addresses T (upsert (λ x. x.addr) r rows)) × (t.for_writes ≡ true))
        (λ _. ⊥)
        (save_address r s)
unfolding save_address
save_address-Ends r T rows s e w =
    let f = λ (t : Tables). record t { addresses = upsert (λ x. x.addr) r t.addresses } in
    map-Ends (λ _ t. Becomes s (f s.tables) t) _ (λ _. ⊥) (λ _. ⊥) _
      (λ _ t h. (h.0 ∙ ap f e, h.1 ∙ w)) (λ _ x. x) (write-Ends f s w)

module _ (hd : HdKeys) (kc : Keychain hd) where
  CanExtend-upsert :
      (gap fuel : ℕ) (r : AddressRecord) (rows : List AddressRecord)
      → CanExtend hd kc gap fuel rows
      → IsRoomy kc.coin_type true fuel r
      → IsRoomy kc.coin_type false fuel r
      → IsPlaced hd kc r
      → CanExtend hd kc gap fuel (upsert (λ x. x.addr) r rows)
  CanExtend-upsert gap fuel r rows can i e p = record {
    enough = can.enough;
    low = can.low;
    internal_room =
        All-upsert (λ x. x.addr) (IsRoomy kc.coin_type true fuel) r rows i can.internal_room;
    external_room =
        All-upsert (λ x. x.addr) (IsRoomy kc.coin_type false fuel) r rows e can.external_room;
    placed = All-upsert (λ x. x.addr) (IsPlaced hd kc) r rows p can.placed;
  }

  -- The address's record is marked, every other record of before is there, the windows are filled.
  pub record IsMarked (addr : Text) (rows : List AddressRecord) (t : Session) : Type 0 where
    pub was : AddressRecord
    pub known : find_address kc.coin_type addr rows ≡ some was
    pub marked : find_by (λ x. x.addr) addr t.tables.addresses ≡ some (record was { used = true })
    pub others :
        (a : Text) (x : AddressRecord)
        → a ≢ addr
        → find_by (λ x. x.addr) a rows ≡ some x
        → find_by (λ x. x.addr) a t.tables.addresses ≡ some x
    pub external_window : kc.lookahead_window_size ≤ (windows hd kc t.tables.addresses).1
    pub internal_window :
        kc.external_only ≡ false → kc.lookahead_window_size ≤ (windows hd kc t.tables.addresses).0
    pub placed : All (IsPlaced hd kc) t.tables.addresses

  IsMarked-extended :
      (addr : Text) (T : Tables) (rows : List AddressRecord) (r : AddressRecord) (t : Session)
      → find_address kc.coin_type addr rows ≡ some r
      → All (IsPlaced hd kc) (upsert (λ x. x.addr) (record r { used = true }) rows)
      → IsExtended hd kc T
          (upsert (λ x. x.addr) (record r { used = true }) rows)
          (filled hd kc (windows hd kc (upsert (λ x. x.addr) (record r { used = true }) rows)))
          t
      → IsMarked addr rows t
  IsMarked-extended addr T rows r t e placed (new, at, w, ws, spare) =
      let r' = record r { used = true } in
      let rows' = upsert (λ (x : AddressRecord). x.addr) r' rows in
      let same : t.tables.addresses ≡ rows' ++ new = ap (λ (x : Tables). x.addresses) at in
      let wide : windows hd kc t.tables.addresses ≡ filled hd kc (windows hd kc rows') =
        ap (windows hd kc) same ∙ ws in
      let here = (find_address-key kc.coin_type addr rows r e).1 in
      record {
        was = r;
        known = e;
        marked = rw same (
            find_by-append (λ x. x.addr) addr r' rows' new
              (find_by-upsert (λ (x : AddressRecord). x.addr) addr r' rows
                ∙ ground (arith, text_eq_iff r.addr addr)));
        others = λ a x ne old. rw same (
            find_by-append (λ x. x.addr) a x rows' new
              (find_by-upsert (λ (x : AddressRecord). x.addr) a r' rows
                ∙ ground (arith, text_eq_iff r.addr a)));
        external_window = subst (λ v. kc.lookahead_window_size ≤ v.1) (sym wide) (omega arith);
        internal_window =
            λ both. subst (λ v. kc.lookahead_window_size ≤ v.0) (sym wide) (ground arith);
        placed = rw same (
            All-append (IsPlaced hd kc) rows' new placed
              (All-map (IsSpare hd kc) (IsPlaced hd kc) new (λ x p. p.2) spare));
      }

  module _ {gap : ℕ} (derivable : IsDerivable hd kc gap) where
    save_used_and_extend :
        (fuel : ℕ) (addr : Text) (T : Tables) (rows : List AddressRecord) (r : AddressRecord)
        (t : Session)
        → CanExtend hd kc gap fuel rows
        → find_address kc.coin_type addr rows ≡ some r
        → t.tables ≡ with_addresses T rows
        → t.for_writes ≡ true
        → Ends
            (λ _ u. IsMarked addr rows u)
            (λ _. ⊥)
            ((save_address (record r { used = true }) >> extend_keychain hd kc fuel) t)
    save_used_and_extend fuel addr T rows r t can found e w =
        let r' = record r { used = true } in
        let rows' = upsert (λ (x : AddressRecord). x.addr) r' rows in
        let p = find_address-All (IsPlaced hd kc) kc.coin_type addr rows r can.placed found in
        let can' =
          CanExtend-upsert gap fuel r' rows can
            (find_address-All (IsRoomy kc.coin_type true fuel) kc.coin_type addr rows r
              can.internal_room found)
            (find_address-All (IsRoomy kc.coin_type false fuel) kc.coin_type addr rows r
              can.external_room found)
            (record { own = p.own; foreign = p.foreign }) in
        bind-Ends (λ _ u. (u.tables ≡ with_addresses T rows') × (u.for_writes ≡ true))
          (λ _ u. IsMarked addr rows u) (λ _. ⊥) (save_address r') (λ _. extend_keychain hd kc fuel)
          t (save_address-Ends r' T rows t e w)
          (λ _ u h.
            map-Ends (λ _ v. IsExtended hd kc T rows' (filled hd kc (windows hd kc rows')) v) _
              (λ _. ⊥) (λ _. ⊥) _ (λ _ v x. IsMarked-extended addr T rows r v found can'.placed x)
              (λ _ x. x) (extend_keychain_fills hd kc derivable fuel T rows' u can' h.0 h.1))

    -- In a read-write transaction over rows that can be extended (`CanExtend`), with derivable keys
    -- and the option to mark addresses on, a known address is marked as used, every other record
    -- stays, and the windows are filled again; an unknown address is the error `not_found`; no
    -- other error but the engine's ends the call.
    pub mark_address_as_used_marks :
        (fuel : ℕ) (addr : Text) (T : Tables) (rows : List AddressRecord) (s : Session)
        → CanExtend hd kc gap fuel rows
        → s.tables ≡ with_addresses T rows
        → s.for_writes ≡ true
        → kc.disable_mark_as_used ≡ false
        → Ends
            (λ _ t. IsMarked addr rows t)
            (λ x. (x ≡ not_found) × (find_address kc.coin_type addr rows ≡ none))
            (mark_address_as_used hd kc fuel addr s)
    unfolding mark_address_as_used
    mark_address_as_used_marks fuel addr T rows s can e w on = simp on (
        lookup-bind-Ends (λ t. find_address kc.coin_type addr t.addresses) not_found
          (λ rec. save_address (record rec { used = true }) >> extend_keychain hd kc fuel)
          (λ _ t. IsMarked addr rows t)
          (λ x. (x ≡ not_found) × (find_address kc.coin_type addr rows ≡ none)) s
          (λ none_there. (
            refl,
            ap (λ (t : Tables). find_address kc.coin_type addr t.addresses) (sym e) ∙ none_there,
          ))
          (λ r t found h.
            map-Ends (λ _ u. IsMarked addr rows u) _ (λ _. ⊥) _ _ (λ _ u x. x) (λ _ x. absurd x)
              (save_used_and_extend fuel addr T rows r t can
                (ap (λ (t : Tables). find_address kc.coin_type addr t.addresses) (sym e) ∙ found)
                (h.0 ∙ e) (h.1 ∙ w))))
