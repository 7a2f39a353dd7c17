-- ===== src/Keychain/Addresses/Signing.antt =====
-- `KeyForAddress`: the private key that it returns controls the address.
use mathlib.Core.Path.{subst}
use multiwallet.Prelude.{
  ℕ, ◌≡◌, ◌⊎◌, inl, inr, refl, ◌∙◌, ap, sym, Bool, true, false, Option, some, none, List, arith,
  All, Option-cases, Text, if◌then◌else◌,
}
use multiwallet.Database.Models.{AddressRecord}
use multiwallet.Database.Tx.{
  Session, Error, ok, err, not_found, bad_key, encrypted_keychain, lift, ◌>>=◌, query, or_error,
}
use multiwallet.Database.Reads.{Keeps, query-Keeps, lift-Keeps, bind-Keeps}
use multiwallet.Database.Laws.{Ends, lookup-bind-Ends, lift-bind-Ends, lift-Ends}
use multiwallet.Keychain.Keys.{HdKeys, Keychain, derive, address_at, uint32, chain_key}
use multiwallet.Keychain.Lookahead.Placement.{IsPlaced}
use multiwallet.Keychain.Addresses.{find_address, private_keys, child_or_error, key_for_address}
use multiwallet.Keychain.Addresses.PrivateKeys.{
  IsPaired, ArePaired, private_keys-paired, private_keys-given, private_keys-error,
  private_keys-IsHeld, private_keys-none, IsBadAccount, IsHeld,
}
use multiwallet.Keychain.Addresses.Rows.{find_address-key, find_address-All}

-- Why `KeyForAddress` returns no key.
pub data IsKeyError (hd : HdKeys) (kc : Keychain hd) (account : Option hd.Key) (addr : Text)
    (rows : List AddressRecord) (x : Error) : Type 0 where
  -- The address is in no record.
  unknown :
      x ≡ not_found
      → find_address kc.coin_type addr rows ≡ none
      → IsKeyError hd kc account addr rows x
  -- There is neither an account key nor one of the chain in memory.
  no_private_key :
      (r : AddressRecord)
      → x ≡ encrypted_keychain
      → find_address kc.coin_type addr rows ≡ some r
      → account ≡ none
      → (if r.change then kc.internal_privkey else kc.external_privkey) ≡ none
      → IsKeyError hd kc account addr rows x
  -- One of the keys is not in memory, and the account key has none for one of the chains.
  no_chain :
      (r : AddressRecord)
      → x ≡ bad_key
      → find_address kc.coin_type addr rows ≡ some r
      → (kc.external_privkey ≡ none) ⊎ (kc.internal_privkey ≡ none)
      → IsBadAccount hd kc account
      → IsKeyError hd kc account addr rows x
  -- The chain's private key has no child at the index.
  no_child :
      (r : AddressRecord) (k : hd.Key)
      → x ≡ bad_key
      → find_address kc.coin_type addr rows ≡ some r
      → IsHeld hd kc kc.external_privkey kc.internal_privkey account r.change k
      → hd.child k (uint32 r.key_index) ≡ none
      → IsKeyError hd kc account addr rows x

module _ (hd : HdKeys) (kc : Keychain hd) (account : Option hd.Key)
    (paired : IsPaired hd kc account) where
  chosen_key-paired :
      (p : Option hd.Key × Option hd.Key) (change : Bool) (k : hd.Key)
      → ArePaired hd kc account paired p
      → (if change then p.1 else p.0) ≡ some k
      → hd.neuter k ≡ chain_key hd kc change
  unfolding chain_key
  chosen_key-paired p true k h e = h.1 k e
  chosen_key-paired p false k h e = h.0 k e

  -- A private child key of a chain has the address at its index.
  child-address_at :
      (change : Bool) (index : ℕ) (k key : hd.Key) (a : Text)
      → hd.neuter k ≡ chain_key hd kc change
      → hd.child k (uint32 index) ≡ some key
      → address_at hd kc change index ≡ some a
      → hd.address (hd.neuter key) ≡ some a
  unfolding address_at
  child-address_at change index k key a chain c at =
      let derived : derive hd kc change index ≡ some (hd.neuter key) =
        unfold derive in
        ap (λ x. hd.child x (uint32 index)) (sym chain)
        ∙ paired.public_child k key (uint32 index) c in
      rw (derived, address_at) at at

  child_error :
      (addr : Text) (rows : List AddressRecord) (p : Option hd.Key × Option hd.Key)
      (r : AddressRecord) (o : Option hd.Key) (x : Error)
      → find_address kc.coin_type addr rows ≡ some r
      → private_keys hd kc kc.external_privkey kc.internal_privkey account ≡ ok p
      → (if r.change then p.1 else p.0) ≡ o
      → child_or_error hd kc o r.key_index ≡ err x
      → IsKeyError hd kc account addr rows x
  child_error addr rows p r none x found keys chosen h = elim (Option-cases account) [
    | inl locked ↦ no_private_key r (ground arith) found locked (
        private_keys-none hd kc kc.external_privkey kc.internal_privkey p r.change
          (ap (private_keys hd kc kc.external_privkey kc.internal_privkey) (sym locked) ∙ keys)
          chosen)
    | inr (a, given) ↦ absurd (
        private_keys-given hd kc account paired r.change kc.external_privkey kc.internal_privkey a p
          (ap (private_keys hd kc kc.external_privkey kc.internal_privkey) (sym given) ∙ keys)
          chosen)
  ]
  child_error addr rows p r (some k) x found keys chosen h =
      elim (Option-cases (hd.child k (uint32 r.key_index))) [
        | inl nothing ↦
            no_child r k (ground arith) found
              (private_keys-IsHeld hd kc kc.external_privkey kc.internal_privkey account p r.change
                k keys chosen)
              nothing
        | inr (c, key) ↦ absurd (ground arith)
      ]

  child_controls :
      (p : Option hd.Key × Option hd.Key) (change : Bool) (o : Option hd.Key) (index : ℕ) (a : Text)
      (key : hd.Key)
      → ArePaired hd kc account paired p
      → (if change then p.1 else p.0) ≡ o
      → child_or_error hd kc o index ≡ ok key
      → address_at hd kc change index ≡ some a
      → hd.address (hd.neuter key) ≡ some a
  child_controls p change none index a key pair chosen h at = absurd (cc)
  child_controls p change (some k) index a key pair chosen h at =
      elim (Option-cases (hd.child k (uint32 index))) [
        | inl no_key ↦ absurd (ground arith)
        | inr (c, child) ↦
            (let same : c ≡ key = ground arith in
              subst (λ x. hd.address (hd.neuter x) ≡ some a) same
                (child-address_at change index k c a (chosen_key-paired p change k pair chosen)
                  child at))
      ]

  pub key_for_address-Keeps : (addr : Text) → Keeps (key_for_address hd kc addr account)
  unfolding key_for_address
  key_for_address-Keeps addr =
      bind-Keeps (query (λ t. or_error not_found (find_address kc.coin_type addr t.addresses)))
        (λ rec. do
          (external, internal) ←
              lift (private_keys hd kc kc.external_privkey kc.internal_privkey account)
          lift (child_or_error hd kc (if rec.change then internal else external) rec.key_index))
        (query-Keeps (λ t. or_error not_found (find_address kc.coin_type addr t.addresses)))
        (λ rec.
          bind-Keeps (lift (private_keys hd kc kc.external_privkey kc.internal_privkey account))
            (λ keys.
              lift (child_or_error hd kc (if rec.change then keys.1 else keys.0) rec.key_index))
            (lift-Keeps (private_keys hd kc kc.external_privkey kc.internal_privkey account))
            (λ keys.
              lift-Keeps
                (child_or_error hd kc (if rec.change then keys.1 else keys.0) rec.key_index)))

  key_for_address-Ends :
      (addr : Text) (s : Session)
      → All (IsPlaced hd kc) s.tables.addresses
      → Ends
          (λ key _. hd.address (hd.neuter key) ≡ some addr)
          (IsKeyError hd kc account addr s.tables.addresses)
          (key_for_address hd kc addr account s)
  unfolding key_for_address
  key_for_address-Ends addr s placed =
      let Q = λ (key : hd.Key) (_ : Session). hd.address (hd.neuter key) ≡ some addr in
      let E = IsKeyError hd kc account addr s.tables.addresses in
      lookup-bind-Ends (λ t. find_address kc.coin_type addr t.addresses) not_found
        (λ rec. do
          (external, internal) ←
              lift (private_keys hd kc kc.external_privkey kc.internal_privkey account)
          lift (child_or_error hd kc (if rec.change then internal else external) rec.key_index))
        Q E s (λ missing. unknown refl missing)
        λ r t found h.
          lift-bind-Ends
            (λ keys. lift (child_or_error hd kc (if r.change then keys.1 else keys.0) r.key_index))
            Q E t (private_keys hd kc kc.external_privkey kc.internal_privkey account)
            (λ x e.
              let (kind, bad, away) =
                private_keys-error hd kc kc.external_privkey kc.internal_privkey account x e in
              no_chain r kind found away bad)
            λ p keys.
              lift-Ends Q E t (child_or_error hd kc (if r.change then p.1 else p.0) r.key_index)
                (λ x e. child_error addr s.tables.addresses p r _ x found keys refl e)
                λ key e.
                  let (own, same) = find_address-key kc.coin_type addr s.tables.addresses r found in
                  let at =
                    (find_address-All (IsPlaced hd kc) kc.coin_type addr s.tables.addresses r placed
                        found).own
                      own in
                  child_controls p r.change _ r.key_index addr key
                    (private_keys-paired hd kc account paired kc.external_privkey
                      kc.internal_privkey account p refl refl refl keys)
                    refl e (at.1 ∙ ap some same)

  pub key_for_address_controls :
      (addr : Text) (s : Session)
      → All (IsPlaced hd kc) s.tables.addresses
      → ((key_for_address hd kc addr account s).1.tables ≡ s.tables)
        × Ends
            (λ key _. hd.address (hd.neuter key) ≡ some addr)
            (IsKeyError hd kc account addr s.tables.addresses)
            (key_for_address hd kc addr account s)
  key_for_address_controls addr s placed =
      (key_for_address-Keeps addr s, key_for_address-Ends addr s placed)
