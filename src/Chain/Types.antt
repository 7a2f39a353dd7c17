-- ===== src/Chain/Types.antt =====
-- The transactions of the wallet interface, how a transaction record holds one (database/models.go),
-- and the part of the keychain that the chain manager calls.
use multiwallet.Prelude.{
  ℕ, ◌+◌, ◌/◌, ◌%◌, ◌≡◌, Bool, true, ◌&&◌, Option, List, [], ◌∷◌, ltb, any, if◌then◌else◌, Text,
  text_eq,
}
use multiwallet.Prelude.Int.{ℤ}
use multiwallet.Database.Tx.{Tx, Exec, Engine, Error, Session}
use multiwallet.Database.Laws.{Ends}
use multiwallet.Keychain.Addresses.{Address}

pub record BlockInfo : Type 0 where
  pub block_id : Text
  pub prev_block : Text
  pub height : ℕ
  pub block_time : ℕ

-- An input or an output; its id is the outpoint in bytes.
pub record SpendInfo : Type 0 where
  pub id : Text
  pub address : Address
  pub amount : ℤ

pub record Transaction : Type 0 where
  pub id : Text
  pub from : List SpendInfo
  pub to : List SpendInfo
  pub height : ℕ
  pub timestamp : ℕ
  pub value : ℤ
  pub block_info : Option BlockInfo

-- `encoding/json` on a transaction, and `(Amount).String` of the wallet interface.
pub record Codec : Type 0 where
  pub marshal : Transaction → Option Text
  pub unmarshal : Text → Option Transaction
  pub amount_text : ℤ → Text

abbrev pub hex_digit : ℕ → ℕ
hex_digit n = if ltb n 10 then 48 + n else 87 + n

-- `hex.EncodeToString`
abbrev pub hex : Text → Text
hex [] = []
hex (b ∷ bs) = hex_digit (b / 16 % 16) ∷ hex_digit (b % 16) ∷ hex bs

-- Go's `==` on addresses.
abbrev pub address_eq : Address → Address → Bool
address_eq a b = text_eq a.text b.text && text_eq a.coin b.coin

-- `addrMap[addr]`
abbrev pub is_own : List Address → Address → Bool
is_own own a = any (λ x. address_eq x a) own

-- What the chain manager calls of a keychain: `GetAddresses`, `ExtendKeychain`, and
-- `MarkAddressAsUsed` in an open transaction.
pub record Keys : Type 0 where
  pub get_addresses : Exec Engine (List Address)
  pub extend_keychain : Exec Engine (Unit {0})
  pub mark_address_as_used : Text → Tx (Unit {0})

-- The other tables stay, in a transaction of the same kind.
pub record KeepsOthers (s t : Session) : Type 0 where
  pub utxos : t.tables.utxos ≡ s.tables.utxos
  pub transactions : t.tables.transactions ≡ s.tables.transactions
  pub coins : t.tables.coins ≡ s.tables.coins
  pub watched : t.tables.watched ≡ s.tables.watched
  pub unconfirmed : t.tables.unconfirmed ≡ s.tables.unconfirmed
  pub for_writes : t.for_writes ≡ s.for_writes

-- What it relies on: marking an address changes the addresses only, whether it fails or not.
pub record AreKeys (keys : Keys) (MarkError : Error → Type 0) : Type 0 where
  pub marks :
      (a : Text) (s : Session)
      → s.for_writes ≡ true
      → Ends (λ _ t. KeepsOthers s t) MarkError (keys.mark_address_as_used a s)
