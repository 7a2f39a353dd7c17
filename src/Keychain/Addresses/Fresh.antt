-- ===== src/Keychain/Addresses/Fresh.antt =====
-- `NewAddress`: the address that it issues, for either value of `change`.
use mathlib.Core.Path.{subst}
use multiwallet.Prelude.{
  ℕ, ◌+◌, ◌≤◌, ◌<◌, ◌≡◌, ◌≢◌, refl, sym, ◌∙◌, ap, Bool, true, false, some, none, List, ◌++◌, arith,
  All, All-append, All-map, Text, text_eq_iff, text_eq_refl,
}
use multiwallet.Database.Models.{AddressRecord, Tables}
use multiwallet.Database.Tables.{find_by, upsert, find_by-upsert, find_by-append, All-upsert}
use multiwallet.Database.Tx.{
  Session, Engine, write_tx, Result, not_found, bad_address, or_error, lift, pure, ◌>>=◌, ◌>>◌,
}
use multiwallet.Database.Laws.{Ends, Commits, bind-Ends, map-Ends, lookup-bind-Ends, update-Commits}
use multiwallet.Keychain.Keys.{HdKeys, Keychain, hardened, derive, address_at, IsDerivable}
use multiwallet.Keychain.Lookahead.{
  last_record, next_index, new_record, save_address, extend_keychain,
}
use multiwallet.Keychain.Lookahead.Placement.{IsPlaced, next_of}
use multiwallet.Keychain.Lookahead.Create.{with_addresses, derived-address_at}
use multiwallet.Keychain.Lookahead.Fill.{next_of-room}
use multiwallet.Keychain.Lookahead.Meaning.{windows}
use multiwallet.Keychain.Lookahead.Extend.{
  CanExtend, IsExtended, IsSpare, filled, extend_keychain_fills,
}
use multiwallet.Keychain.Addresses.{next_external, new_address_tx, new_address}
use multiwallet.Keychain.Addresses.Next.{IsNearest, next_external-IsNearest}
use multiwallet.Keychain.Addresses.Used.{save_address-Ends}

module _ (hd : HdKeys) (kc : Keychain hd) where
  -- `address` is the external one at the first valid index behind the records of the chain `change`;
  -- it is saved as unused, and the other records stay.
  pub record IsIssued (change : Bool) (rows : List AddressRecord) (address : Text) (t : Tables)
      : Type 0 where
    pub index : ℕ
    pub behind : next_of kc.coin_type change rows ≤ index
    pub skipped :
        (i : ℕ) → next_of kc.coin_type change rows ≤ i → i < index → derive hd kc false i ≡ none
    pub room : index < hardened
    pub place : address_at hd kc false index ≡ some address
    pub saved :
        find_by (λ x. x.addr) address t.addresses ≡ some (new_record hd kc address index false)
    pub others :
        (a : Text) (x : AddressRecord)
        → a ≢ address
        → find_by (λ x. x.addr) a rows ≡ some x
        → find_by (λ x. x.addr) a t.addresses ≡ some x
    pub placed : All (IsPlaced hd kc) t.addresses

  -- The steps of `NewAddress` behind its query.
  abbrev issue : ℕ → AddressRecord → Session → Result Text × Session
  issue fuel last = do
    (index, key) ← lift (next_external hd kc fuel (last.key_index + 1))
    addr ← lift (or_error bad_address (hd.address key))
    extend_keychain hd kc fuel
    save_address (new_record hd kc addr index false)
    pure addr

  abbrev save_issued : ℕ → Text → ℕ → Session → Result Text × Session
  save_issued fuel addr index = do
    extend_keychain hd kc fuel
    save_address (new_record hd kc addr index false)
    pure addr

  issue-eq-save_issued :
      (fuel : ℕ) (last : AddressRecord) (s : Session) (i : ℕ)
      (n : IsNearest hd kc i (next_external hd kc fuel (last.key_index + 1))) (a : Text)
      → hd.address n.key ≡ some a
      → issue fuel last s ≡ save_issued fuel a n.found s
  issue-eq-save_issued fuel last s i n a h = rw n.answer (rw h)

  upsert-IsIssued :
      (change : Bool) (last_index : ℕ) (T : Tables) (rows new : List AddressRecord) (a : Text)
      (fuel : ℕ)
      (n : IsNearest hd kc (next_of kc.coin_type change rows) (next_external hd kc fuel last_index))
      (t : Session)
      → n.found < hardened
      → address_at hd kc false n.found ≡ some a
      → All (IsPlaced hd kc) (rows ++ new)
      → t.tables
        ≡ with_addresses T (upsert (λ x. x.addr) (new_record hd kc a n.found false) (rows ++ new))
      → IsIssued change rows a t.tables
  upsert-IsIssued change last_index T rows new a fuel n t low place placed e =
      let r = new_record hd kc a n.found false in
      let same : t.tables.addresses ≡ upsert (λ x. x.addr) r (rows ++ new) =
        ap (λ (x : Tables). x.addresses) e in
      record {
        index = n.found;
        behind = n.behind;
        skipped = n.skipped;
        room = low;
        place = place;
        saved = rw same (
            find_by-upsert (λ (x : AddressRecord). x.addr) a r (rows ++ new) ∙ rw (text_eq_refl a));
        others = λ b x ne old.
            let kept = find_by-append (λ (x : AddressRecord). x.addr) b x rows new old in
            rw same (
              find_by-upsert (λ (x : AddressRecord). x.addr) b r (rows ++ new)
              ∙ ground (arith, text_eq_iff a b));
        placed = rw same (
            All-upsert (λ x. x.addr) (IsPlaced hd kc) r (rows ++ new)
              (record { own = λ _. (low, place); foreign = λ ne. absurd (ne refl) }) placed);
      }

  module _ {gap : ℕ} (derivable : IsDerivable hd kc gap) where
    save_issued-IsIssued :
        (fuel : ℕ) (change : Bool) (T : Tables) (rows : List AddressRecord) (s : Session) (a : Text)
        (last_index : ℕ)
        (n : IsNearest hd kc
          (next_of kc.coin_type change rows)
          (next_external hd kc fuel last_index))
        → CanExtend hd kc gap fuel rows
        → s.tables ≡ with_addresses T rows
        → s.for_writes ≡ true
        → n.found < hardened
        → address_at hd kc false n.found ≡ some a
        → Ends (λ b t. IsIssued change rows b t.tables) (λ _. ⊥) (save_issued fuel a n.found s)
    save_issued-IsIssued fuel change T rows s a last_index n can e w low place =
        let r = new_record hd kc a n.found false in
        bind-Ends (λ _ t. IsExtended hd kc T rows (filled hd kc (windows hd kc rows)) t)
          (λ b t. IsIssued change rows b t.tables) (λ _. ⊥) (extend_keychain hd kc fuel)
          (λ _. do save_address r; pure a) s
          (extend_keychain_fills hd kc derivable fuel T rows s can e w)
          λ _ t (new, at, w', ws, spare).
            bind-Ends
              (λ _ u.
                (u.tables ≡ with_addresses T (upsert (λ x. x.addr) r (rows ++ new)))
                × (u.for_writes ≡ true))
              (λ b u. IsIssued change rows b u.tables) (λ _. ⊥) (save_address r) (λ _. pure a) t
              (save_address-Ends r T (rows ++ new) t at w')
              λ _ u h.
                upsert-IsIssued change last_index T rows new a fuel n u low place
                  (All-append (IsPlaced hd kc) rows new can.placed
                    (All-map (IsSpare hd kc) (IsPlaced hd kc) new (λ x p. p.2) spare))
                  h.0

    room_of :
        (change : Bool) (fuel : ℕ) (rows : List AddressRecord)
        → CanExtend hd kc gap fuel rows
        → next_of kc.coin_type change rows + fuel ≤ hardened
    room_of true fuel rows can = next_of-room kc.coin_type true fuel rows can.low can.internal_room
    room_of false fuel rows can =
        next_of-room kc.coin_type false fuel rows can.low can.external_room

    issue-IsIssued :
        (fuel : ℕ) (change : Bool) (last : AddressRecord) (T : Tables) (rows : List AddressRecord)
        (s : Session)
        → last_record kc.coin_type change rows ≡ some last
        → CanExtend hd kc gap fuel rows
        → gap < fuel
        → s.tables ≡ with_addresses T rows
        → s.for_writes ≡ true
        → Ends (λ b t. IsIssued change rows b t.tables) (λ _. ⊥) (issue fuel last s)
    issue-IsIssued fuel change last T rows s found can enough e w =
        let next = next_of kc.coin_type change rows in
        let here : last.key_index + 1 ≡ next = ap next_index (sym found) in
        let free = room_of change fuel rows can in
        let (k, close, (key, valid)) = derivable.next_valid false next (omega arith) in
        let (n', near) =
          subst
            (λ i. (x : IsNearest hd kc next (next_external hd kc fuel i)) × (x.found ≤ next + k))
            (sym here) (next_external-IsNearest hd kc fuel next k key valid (omega arith)) in
        let (a, at) = derivable.has_address false n'.found n'.key n'.valid in
        let place = derived-address_at hd kc false n'.found n'.key a n'.valid at in
        rw (issue-eq-save_issued fuel last s next n' a at) (
          save_issued-IsIssued fuel change T rows s a (last.key_index + 1) n' can e w (omega arith)
            place)

    new_address_tx-IsIssued :
        (fuel : ℕ) (change : Bool) (T : Tables) (rows : List AddressRecord) (s : Session)
        → CanExtend hd kc gap fuel rows
        → gap < fuel
        → s.tables ≡ with_addresses T rows
        → s.for_writes ≡ true
        → Ends
            (λ b t. IsIssued change rows b t.tables)
            (λ x. (x ≡ not_found) × (last_record kc.coin_type change rows ≡ none))
            (new_address_tx hd kc fuel change s)
    unfolding new_address_tx
    new_address_tx-IsIssued fuel change T rows s can enough e w =
        let same = ap (λ (t : Tables). last_record kc.coin_type change t.addresses) (sym e) in
        lookup-bind-Ends (λ t. last_record kc.coin_type change t.addresses) not_found (issue fuel)
          (λ b t. IsIssued change rows b t.tables)
          (λ x. (x ≡ not_found) × (last_record kc.coin_type change rows ≡ none)) s
          (λ none_there. (refl, same ∙ none_there))
          λ last t found h.
            map-Ends (λ b u. IsIssued change rows b u.tables) _ (λ _. ⊥) _ _ (λ _ u x. x)
              (λ _ x. absurd x)
              (issue-IsIssued fuel change last T rows t (same ∙ found) can enough (h.0 ∙ e)
                (h.1 ∙ w))

    -- `NewAddress` commits with an address that `IsIssued`, for either value of `change`; where the
    -- chain `change` has no record it is the error `not_found` and changes nothing; no other error
    -- but the engine's ends it.
    pub new_address_issues :
        (fuel : ℕ) (change : Bool) (e : Engine)
        → CanExtend hd kc gap fuel e.tables.addresses
        → gap < fuel
        → Commits
            (λ b T. IsIssued change e.tables.addresses b T)
            (λ x. (x ≡ not_found) × (last_record kc.coin_type change e.tables.addresses ≡ none))
            e.tables
            (new_address hd kc fuel change e)
    unfolding new_address write_tx
    new_address_issues fuel change e can enough =
        update-Commits (λ b T. IsIssued change e.tables.addresses b T)
          (λ x. (x ≡ not_found) × (last_record kc.coin_type change e.tables.addresses ≡ none)) e
          (new_address_tx hd kc fuel change)
          (new_address_tx-IsIssued fuel change e.tables e.tables.addresses (write_tx e) can enough
            refl refl)
