-- ===== src/Keychain/Addresses.antt =====
-- The addresses of a keychain in base/keys.go: `GetAddresses`, `CurrentAddress`,
-- `CurrentAddressWithTx`, `NewAddress`, `HasKey`, `KeyForAddress` and `MarkAddressAsUsed`.
pub mod Rows
pub mod Used
pub mod Next
pub mod Fresh
pub mod Issue
pub mod Current
pub mod PrivateKeys
pub mod Signing
use multiwallet.Prelude.{
  ℕ, zero, suc, ◌+◌, Bool, true, false, ◌&&◌, Option, none, some, List, [], ◌∷◌, ltb, bool_eq,
  if◌then◌else◌, Text, text_eq, first, map,
}
use multiwallet.Database.Models.{AddressRecord}
use multiwallet.Database.Tx.{
  Result, ok, err, Tx, Exec, Engine, ◌>>=◌, ◌>>◌, pure, raise, lift, or_error, query, update, view,
  not_found, external_only_keychain, encrypted_keychain, bad_key, bad_address, out_of_fuel,
}
use multiwallet.Keychain.Keys.{HdKeys, Keychain, generate_account_keys, uint32}
use multiwallet.Keychain.Lookahead.{
  find_addresses, save_address, last_record, new_record, extend_keychain,
}

-- `iwallet.Address`: the text of an address and its coin.
pub record Address : Type 0 where
  pub text : Text
  pub coin : Text

-- `(*AddressRecord).Address` of database/models.go.
abbrev pub record_address : AddressRecord → Address
record_address r = record { text = r.addr; coin = r.coin }

abbrev pub earlier_record : AddressRecord → Option AddressRecord → Option AddressRecord
earlier_record r none = some r
earlier_record r (some m) = if ltb m.key_index r.key_index then some m else some r

-- The unused records of one chain of a coin.
abbrev pub is_unused : Text → Bool → AddressRecord → Bool
is_unused coin change r = text_eq r.coin coin && bool_eq r.used false && bool_eq r.change change

-- `Order("key_index asc")…First(&record)` over them.
unfoldable pub first_unused : Text → Bool → List AddressRecord → Option AddressRecord
first_unused coin change [] = none
first_unused coin change (r ∷ rows) =
    let rest = first_unused coin change rows in
    if is_unused coin change r then earlier_record r rest else rest

-- `Where("coin=?", coin).Where("addr=?", addr).First(&record)`
unfoldable pub find_address : Text → Text → List AddressRecord → Option AddressRecord
find_address coin addr rows = first (λ r. text_eq r.coin coin && text_eq r.addr addr) rows

module _ (hd : HdKeys) (kc : Keychain hd) where
  open hd use {Key, child, address}

  unfoldable pub get_addresses : Exec Engine (List Address)
  get_addresses = update (do
    records ← query (λ t. ok (find_addresses kc.coin_type t))
    pure (map record_address records))

  unfoldable pub current_address_with_tx : Bool → Tx Address
  current_address_with_tx change = do
    found ← query (λ t. or_error not_found (first_unused kc.coin_type change t.addresses))
    pure (record_address found)

  unfoldable pub current_address : Bool → Exec Engine Address
  current_address change =
      if change && kc.external_only
      then raise external_only_keychain
      else view (current_address_with_tx change)

  -- The loop of `NewAddress` that skips invalid keys, with the index that it ends at. It derives
  -- from the external chain, whatever the `change` of the call.
  unfoldable pub next_external : ℕ → ℕ → Result (ℕ × Key)
  next_external zero index = err out_of_fuel
  next_external (suc fuel) index = elim (child kc.external_pubkey (uint32 index)) [
    | some key ↦ ok (index, key)
    | none ↦ next_external fuel (index + 1)
  ]

  -- The transaction of `NewAddress`. The record is saved after the keychain is extended.
  unfoldable pub new_address_tx : ℕ → Bool → Tx Text
  new_address_tx fuel change = do
    last ← query (λ t. or_error not_found (last_record kc.coin_type change t.addresses))
    (index, key) ← lift (next_external fuel (last.key_index + 1))
    addr ← lift (or_error bad_address (address key))
    extend_keychain hd kc fuel
    save_address (new_record hd kc addr index false)
    pure addr

  unfoldable pub new_address : ℕ → Bool → Exec Engine Text
  new_address fuel change = update (new_address_tx fuel change)

  abbrev pub is_found : Option AddressRecord → Bool
  is_found none = false
  is_found (some r) = true

  -- `ErrRecordNotFound` is no error of `HasKey`.
  unfoldable pub has_key : Text → Exec Engine Bool
  has_key addr = view (do
    found ← query (λ t. ok (find_address kc.coin_type addr t.addresses))
    pure (is_found found))

  abbrev pub both_keys : Result (Key × Key) → Result (Option Key × Option Key)
  both_keys (ok (external, internal)) = ok (some external, some internal)
  both_keys (err e) = err e

  -- The private keys that `KeyForAddress` goes by, (external, internal): those in memory, or those of
  -- the account key that the caller gives.
  abbrev pub private_keys : Option Key → Option Key → Option Key → Result (Option Key × Option Key)
  private_keys (some external) (some internal) account = ok (some external, some internal)
  private_keys external internal (some account) = both_keys (generate_account_keys hd account)
  private_keys external internal none = ok (external, internal)

  abbrev pub child_or_error : Option Key → ℕ → Result Key
  child_or_error none index = err encrypted_keychain
  child_or_error (some k) index = or_error bad_key (child k (uint32 index))

  unfoldable pub key_for_address : Text → Option Key → Tx Key
  key_for_address addr account = do
    rec ← query (λ t. or_error not_found (find_address kc.coin_type addr t.addresses))
    (external, internal) ← lift (private_keys kc.external_privkey kc.internal_privkey account)
    lift (child_or_error (if rec.change then internal else external) rec.key_index)

  unfoldable pub mark_address_as_used : ℕ → Text → Tx (Unit {0})
  mark_address_as_used fuel addr = if kc.disable_mark_as_used then pure tt else (do
    rec ← query (λ t. or_error not_found (find_address kc.coin_type addr t.addresses))
    save_address (record rec { used = true })
    extend_keychain hd kc fuel)
