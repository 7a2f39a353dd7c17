-- ===== src/Keychain/Lookahead/Create.antt =====
-- `createNewKeys`: with room below the hardened indices and fuel for the invalid ones it saves
-- exactly the records that it is asked for, or the database engine fails.
use multiwallet.Prelude.{
  ℕ, zero, suc, ◌+◌, ◌*◌, ◌≤◌, ◌<◌, ◌≡◌, refl, ◌∙◌, ap, inl, inr, Bool, true, none, some, List, [],
  ◌∷◌, ◌++◌, arith, All, All-append, All-map, Option-cases, length, Text,
}
use mathlib.Core.List.{append_assoc}
use multiwallet.Database.Models.{AddressRecord, Tables}
use multiwallet.Database.Tables.{upsert, upsert_new}
use multiwallet.Database.Tx.{Session, ok, ◌>>=◌}
use multiwallet.Database.Laws.{Ends, Becomes, bind-Ends, map-Ends, write-Ends}
use multiwallet.Keychain.Keys.{HdKeys, Keychain, hardened, derive, address_at, IsDerivable}
use multiwallet.Keychain.Lookahead.{save_address, new_record, create_loop}
use multiwallet.Keychain.Lookahead.Windows.{IsFresh}
use multiwallet.Keychain.Lookahead.Placement.{IsPlaced, IsChainBelow, find_by-new}

abbrev pub with_addresses : Tables → List AddressRecord → Tables
with_addresses T rows = record T { addresses = rows }

-- A record of the keychain's coin, unused, at `n` or behind, at its place.
abbrev pub IsNew : (hd : HdKeys) → Keychain hd → Bool → ℕ → AddressRecord → Type 0
IsNew hd kc change n r = (r.coin ≡ kc.coin_type) × (IsFresh change n r) × IsPlaced hd kc r

-- The session has the rows and `n` new records of the chain behind them.
abbrev pub HasNew :
    (hd : HdKeys) → Keychain hd → Bool → ℕ → ℕ → Tables → List AddressRecord → Session → Type 0
HasNew hd kc change n index T rows t =
    (new : List AddressRecord) × (t.tables ≡ with_addresses T (rows ++ new))
    × (t.for_writes ≡ true)
    × (length new ≡ n)
    × All (IsNew hd kc change index) new

module _ (hd : HdKeys) (kc : Keychain hd) where
  pub derived-address_at :
      (change : Bool) (i : ℕ) (key : hd.Key) (a : Text)
      → derive hd kc change i ≡ some key
      → hd.address key ≡ some a
      → address_at hd kc change i ≡ some a
  unfolding address_at
  derived-address_at change i key a d h = rw (d, address_at) h

  new_record-IsNew :
      (change : Bool) (i : ℕ) (a : Text)
      → i < hardened
      → address_at hd kc change i ≡ some a
      → IsNew hd kc change i (new_record hd kc a i change)
  new_record-IsNew change i a room here = (
    refl,
    (refl, refl, omega arith),
    record { own = λ e. (room, here); foreign = λ ne. absurd (ne refl) },
  )

  module _ {gap : ℕ} (derivable : IsDerivable hd kc gap) where
    -- A new address is saved behind the rows.
    pub save_new-Ends :
        (change : Bool) (i : ℕ) (a : Text) (T : Tables) (rows : List AddressRecord) (s : Session)
        → i < hardened
        → address_at hd kc change i ≡ some a
        → All (IsPlaced hd kc) rows
        → All (IsChainBelow hd kc change i) rows
        → s.tables ≡ with_addresses T rows
        → s.for_writes ≡ true
        → Ends
            (λ _ t.
              (t.tables ≡ with_addresses T (rows ++ new_record hd kc a i change ∷ []))
              × (t.for_writes ≡ true))
            (λ _. ⊥)
            (save_address (new_record hd kc a i change) s)
    unfolding save_address
    save_new-Ends change i a T rows s room here placed below e w =
        let r = new_record hd kc a i change in
        let f = λ (t : Tables). record t { addresses = upsert (λ x. x.addr) r t.addresses } in
        let behind =
          upsert_new (λ (x : AddressRecord). x.addr) r rows
            (find_by-new hd kc derivable change i a rows room here placed below) in
        map-Ends (λ _ t. Becomes s (f s.tables) t) _ (λ _. ⊥) (λ _. ⊥) _
          (λ _ t h. (h.0 ∙ ap f e ∙ ap (with_addresses T) behind, h.1 ∙ w)) (λ _ x. x)
          (write-Ends f s w)

  IsNew-back :
      (change : Bool) (i : ℕ) (new : List AddressRecord)
      → All (IsNew hd kc change (i + 1)) new
      → All (IsNew hd kc change i) new
  IsNew-back change i new h =
      All-map (IsNew hd kc change (i + 1)) (IsNew hd kc change i) new
        (λ r p. (p.0, (p.1.0, p.1.1, let far = p.1.2 in omega arith), p.2)) h

  HasNew-back :
      (change : Bool) (n i : ℕ) (T : Tables) (rows : List AddressRecord) (t : Session)
      → HasNew hd kc change n (i + 1) T rows t
      → HasNew hd kc change n i T rows t
  HasNew-back change n i T rows t (new, at, w, l, h) = (new, at, w, l, IsNew-back change i new h)

  HasNew-cons :
      (change : Bool) (n i : ℕ) (T : Tables) (rows : List AddressRecord) (r : AddressRecord)
      (t : Session)
      → IsNew hd kc change i r
      → HasNew hd kc change n (i + 1) T (rows ++ r ∷ []) t
      → HasNew hd kc change (suc n) i T rows t
  HasNew-cons change n i T rows r t p (new, at, w, l, h) = (
    r ∷ new,
    at ∙ ap (with_addresses T) (append_assoc rows (r ∷ []) new),
    w,
    ap suc l,
    (p, IsNew-back change i new h),
  )

  IsChainBelow-next :
      (change : Bool) (i : ℕ) (rows : List AddressRecord)
      → All (IsChainBelow hd kc change i) rows
      → All (IsChainBelow hd kc change (i + 1)) rows
  IsChainBelow-next change i rows h =
      All-map (IsChainBelow hd kc change i) (IsChainBelow hd kc change (i + 1)) rows
        (λ r below own on. let lt = below own on in omega arith) h

  create_loop_skip :
      (fuel : ℕ) (change : Bool) (n index : ℕ)
      → derive hd kc change index ≡ none
      → create_loop hd kc (suc fuel) change (suc n) index
        ≡ create_loop hd kc fuel change (suc n) (index + 1)
  unfolding create_loop
  create_loop_skip fuel change n index h = rw (h, create_loop)

  create_loop_make :
      (fuel : ℕ) (change : Bool) (n index : ℕ) (key : hd.Key) (a : Text)
      → derive hd kc change index ≡ some key
      → hd.address key ≡ some a
      → create_loop hd kc (suc fuel) change (suc n) index ≡ (
          save_address (new_record hd kc a index change) >>= λ _.
          create_loop hd kc fuel change n (index + 1))
  unfolding create_loop
  create_loop_make fuel change n index key a h g = rw (h, create_loop) (rw g)

  pub create_loop_done :
      (fuel : ℕ) (change : Bool) (index : ℕ) (s : Session)
      → create_loop hd kc fuel change zero index s ≡ (ok tt, s)
  unfolding create_loop
  create_loop_done zero change index s = refl
  create_loop_done (suc fuel) change index s = refl

  -- Where an index is invalid, a later one that is valid is at least one step away.
  pub next_none :
      (change : Bool) (i k : ℕ) (key : hd.Key)
      → derive hd kc change i ≡ none
      → derive hd kc change (i + k) ≡ some key
      → (m : ℕ) × (k ≡ suc m) × (derive hd kc change (i + 1 + m) ≡ some key)
  next_none change i zero key no_key valid =
      let e : i + 0 ≡ i = omega arith in absurd (cc (no_key, ap (derive hd kc change) e, valid))
  next_none change i (suc m) key no_key valid =
      let e : i + 1 + m ≡ i + suc m = omega arith in (m, refl, ap (derive hd kc change) e ∙ valid)

  module _ {gap : ℕ} (derivable : IsDerivable hd kc gap) where
    -- The rounds after a key is saved.
    rest-HasNew :
        (fuel n index : ℕ) (change : Bool) (T : Tables) (rows : List AddressRecord)
        (r : AddressRecord) (t : Session)
        → IsNew hd kc change index r
        → n * (gap + 1) ≤ fuel
        → index + 1 + fuel ≤ hardened
        → t.tables ≡ with_addresses T (rows ++ r ∷ [])
        → t.for_writes ≡ true
        → ((m k : ℕ) (key : hd.Key)
            → derive hd kc change (index + 1 + k) ≡ some key
            → m * (gap + 1) + k < fuel
            → Ends
                (λ _ u. HasNew hd kc change (suc m) (index + 1) T (rows ++ r ∷ []) u)
                (λ _. ⊥)
                (create_loop hd kc fuel change (suc m) (index + 1) t))
        → Ends
            (λ _ u. HasNew hd kc change (suc n) index T rows u)
            (λ _. ⊥)
            (create_loop hd kc fuel change n (index + 1) t)
    rest-HasNew fuel zero index change T rows r t new enough room e w again =
        rw (create_loop_done fuel change (index + 1) t) (r ∷ [], e, w, refl, (new, tt))
    rest-HasNew fuel (suc m) index change T rows r t new enough room e w again =
        let (k, close, (key, valid)) = derivable.next_valid change (index + 1) (omega arith) in
        map-Ends (λ _ u. HasNew hd kc change (suc m) (index + 1) T (rows ++ r ∷ []) u) _ (λ _. ⊥)
          (λ _. ⊥) _ (λ _ u h. HasNew-cons change (suc m) index T rows r u new h) (λ _ x. x)
          (again m k key valid (omega arith))

    -- `suc n` keys are made if the next valid index is `k` steps away.
    pub create_loop-HasNew :
        (fuel n index k : ℕ) (key : hd.Key) (change : Bool) (T : Tables) (rows : List AddressRecord)
        (s : Session)
        → derive hd kc change (index + k) ≡ some key
        → n * (gap + 1) + k < fuel
        → index + fuel ≤ hardened
        → All (IsPlaced hd kc) rows
        → All (IsChainBelow hd kc change index) rows
        → s.tables ≡ with_addresses T rows
        → s.for_writes ≡ true
        → Ends
            (λ _ t. HasNew hd kc change (suc n) index T rows t)
            (λ _. ⊥)
            (create_loop hd kc fuel change (suc n) index s)
    create_loop-HasNew zero n index k key change T rows s valid enough room placed below e w =
        absurd (omega arith)
    create_loop-HasNew (suc fuel) n index k key change T rows s valid enough room placed below e w =
        elim (Option-cases (derive hd kc change index)) [
          | inl no_key ↦
              (let (m, km, valid') = next_none change index k key no_key valid in
                rw (create_loop_skip fuel change n index no_key) (
                  map-Ends (λ _ t. HasNew hd kc change (suc n) (index + 1) T rows t) _ (λ _. ⊥)
                    (λ _. ⊥) _ (λ _ t h. HasNew-back change (suc n) index T rows t h) (λ _ x. x)
                    (create_loop-HasNew fuel n (index + 1) m key change T rows s valid'
                      (omega arith) (omega arith) placed (IsChainBelow-next change index rows below)
                      e w)))
          | inr (new_key, here) ↦
              (let (a, at) = derivable.has_address change index new_key here in
                let r = new_record hd kc a index change in
                let place = derived-address_at change index new_key a here at in
                let new = new_record-IsNew change index a (omega arith) place in
                rw (create_loop_make fuel change n index new_key a here at) (
                  bind-Ends
                    (λ _ t. (t.tables ≡ with_addresses T (rows ++ r ∷ [])) × (t.for_writes ≡ true))
                    (λ _ t. HasNew hd kc change (suc n) index T rows t) (λ _. ⊥) (save_address r)
                    (λ _. create_loop hd kc fuel change n (index + 1)) s
                    (save_new-Ends derivable change index a T rows s (omega arith) place placed
                      below e w)
                    λ _ t h.
                      rest-HasNew fuel n index change T rows r t new (omega arith) (omega arith) h.0
                        h.1
                        λ m k' key' valid' enough'.
                          create_loop-HasNew fuel m (index + 1) k' key' change T (rows ++ r ∷ []) t
                            valid' enough' (omega arith)
                            (All-append (IsPlaced hd kc) rows (r ∷ []) placed (new.2, tt))
                            (All-append (IsChainBelow hd kc change (index + 1)) rows (r ∷ [])
                              (IsChainBelow-next change index rows below) (λ _ _. omega arith, tt))
                            h.0 h.1))
        ]
