-- ===== src/Keychain/Keys.antt =====
-- The keys of a keychain: `Keychain`, `NewKeychain`'s derivation of the two chains, and the key that
-- stands at an index (base/keys.go). BIP32 and the coin's address format are packages that the
-- repository does not hold, and come as a record of operations.
use multiwallet.Prelude.{
  ℕ, ◌%◌, ◌^◌, ◌<◌, ◌≤◌, ◌+◌, ◌≡◌, Bool, Option, none, some, Text, if◌then◌else◌,
}
use multiwallet.Database.Tx.{Result, ok, err, bad_key}

-- hdkeychain's extended keys, and the coin's `AddrFunc`.
pub record HdKeys : Type 1 where
  pub Key : Type 0
  -- `(*ExtendedKey).Child`: `none` for an index whose key is invalid
  pub child : Key → ℕ → Option Key
  -- `(*ExtendedKey).Neuter`: the public key of a private one
  pub neuter : Key → Key
  -- `NewKeyFromString`
  pub from_text : Text → Option Key
  -- `addrFunc(key)`, by `String()`
  pub address : Key → Option Text

pub record Keychain (hd : HdKeys) : Type 0 where
  pub internal_privkey : Option hd.Key
  pub internal_pubkey : hd.Key
  pub external_privkey : Option hd.Key
  pub external_pubkey : hd.Key
  pub lookahead_window_size : ℕ
  pub external_only : Bool
  pub disable_mark_as_used : Bool
  pub coin_type : Text

-- A Go `uint32(n)`.
abbrev pub uint32 : ℕ → ℕ
uint32 n = n % 2 ^ 32

-- The first index that BIP32 reserves for hardened keys, which no public key derives.
abbrev pub hardened : ℕ
hardened = 2 ^ 31

module _ (hd : HdKeys) where
  open hd use {Key, child, address}

  abbrev second_chain : Key → Option Key → Result (Key × Key)
  second_chain external none = err bad_key
  second_chain external (some internal) = ok (external, internal)

  abbrev first_chain : Key → Option Key → Result (Key × Key)
  first_chain account none = err bad_key
  first_chain account (some external) = second_chain external (child account 1)

  -- `generateAccountPrivKeys` and `generateAccountPubKeys`: (external, internal).
  unfoldable pub generate_account_keys : Key → Result (Key × Key)
  generate_account_keys account = first_chain account (child account 0)

  unfoldable pub chain_key : Keychain hd → Bool → Key
  chain_key kc change = if change then kc.internal_pubkey else kc.external_pubkey

  -- The key at an index of a chain, `Child(uint32(index))`.
  unfoldable pub derive : Keychain hd → Bool → ℕ → Option Key
  unfolding chain_key
  derive kc change index = child (chain_key kc change) (uint32 index)

  -- The address at an index of a chain.
  unfoldable pub address_at : Keychain hd → Bool → ℕ → Option Text
  address_at kc change index = elim (derive kc change index) [ none ↦ none | some k ↦ address k ]

-- What a keychain relies on of BIP32 and of the address format, below the hardened indices: an
-- invalid index is followed by a valid one within `gap` steps, a valid key has an address, and no
-- address stands at two places.
pub record IsDerivable (hd : HdKeys) (kc : Keychain hd) (gap : ℕ) : Type 0 where
  pub next_valid :
      (change : Bool) (i : ℕ)
      → i < hardened
      → (k : ℕ) × (k ≤ gap) × ((key : hd.Key) × (derive hd kc change (i + k) ≡ some key))
  pub has_address :
      (change : Bool) (i : ℕ) (key : hd.Key)
      → derive hd kc change i ≡ some key
      → (a : Text) × (hd.address key ≡ some a)
  pub one_place :
      (c d : Bool) (i j : ℕ) (a : Text)
      → i < hardened
      → j < hardened
      → address_at hd kc c i ≡ some a
      → address_at hd kc d j ≡ some a
      → (c ≡ d) × (i ≡ j)
