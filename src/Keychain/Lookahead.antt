-- ===== src/Keychain/Lookahead.antt =====
-- The lookahead window of base/keys.go: `getLookaheadWindows`, `createNewKeys`, `extendKeychain`.
pub mod Windows
pub mod Meaning
pub mod Placement
pub mod Create
pub mod Fill
pub mod Extend
use multiwallet.Prelude.{
  ℕ, zero, suc, ◌+◌, ◌-◌, Bool, true, false, ◌&&◌, not, Option, none, some, List, [], ◌∷◌, ltb,
  bool_eq, if◌then◌else◌, Text, text_eq, select,
}
use multiwallet.Prelude.Int.{ℤ, pos, negsuc, ltb_ℤ}
use multiwallet.Database.Models.{AddressRecord, Tables}
use multiwallet.Database.Tables.{upsert}
use multiwallet.Database.Tx.{
  Result, ok, err, Tx, Session, ◌>>=◌, ◌>>◌, pure, raise, lift, or_error, query, write, Exec,
  Engine, update, bad_address, out_of_fuel,
}
use multiwallet.Keychain.Keys.{HdKeys, Keychain, derive}

-- `Where("coin=?", coin).Find(&records)`
unfoldable pub find_addresses : Text → Tables → List AddressRecord
find_addresses coin t = select (λ r. text_eq r.coin coin) t.addresses

-- `Save(&record)` of an address record, whose primary key is the address.
unfoldable pub save_address : AddressRecord → Tx (Unit {0})
save_address r = write (λ t. record t { addresses = upsert (λ x. x.addr) r t.addresses })

-- Per chain, (internal, external).
abbrev pub last_used_step : ℤ × ℤ → AddressRecord → ℤ × ℤ
last_used_step (internal, external) rec = (
  if rec.change && rec.used && ltb_ℤ internal (pos rec.key_index)
      then pos rec.key_index
      else internal,
  if not rec.change && rec.used && ltb_ℤ external (pos rec.key_index)
      then pos rec.key_index
      else external,
)

-- The first loop of `getLookaheadWindows`.
unfoldable pub last_used : ℤ × ℤ → List AddressRecord → ℤ × ℤ
last_used acc [] = acc
last_used acc (rec ∷ records) = last_used (last_used_step acc rec) records

abbrev pub unused_step : ℤ × ℤ → ℕ × ℕ → AddressRecord → ℕ × ℕ
unused_step last (internal, external) rec = (
  if rec.change && not rec.used && ltb_ℤ last.0 (pos rec.key_index) then internal + 1 else internal,
  if not rec.change && not rec.used && ltb_ℤ last.1 (pos rec.key_index)
      then external + 1
      else external,
)

-- The second loop.
unfoldable pub unused : ℤ × ℤ → ℕ × ℕ → List AddressRecord → ℕ × ℕ
unused last acc [] = acc
unused last acc (rec ∷ records) = unused last (unused_step last acc rec) records

-- (internalUnused, externalUnused) of the loaded records.
unfoldable pub lookahead_windows : List AddressRecord → ℕ × ℕ
lookahead_windows records = unused (last_used (negsuc 0, negsuc 0) records) (0, 0) records

unfoldable pub get_lookahead_windows : Text → Tx (ℕ × ℕ)
get_lookahead_windows coin = do
  records ← query (λ t. ok (find_addresses coin t))
  pure (lookahead_windows records)

abbrev pub later_record : AddressRecord → Option AddressRecord → Option AddressRecord
later_record r none = some r
later_record r (some m) = if ltb r.key_index m.key_index then some m else some r

-- `Order("key_index desc").Where("coin=?", coin).Where("change=?", change).First(&record)`
unfoldable pub last_record : Text → Bool → List AddressRecord → Option AddressRecord
last_record coin change [] = none
last_record coin change (r ∷ rows) =
    let rest = last_record coin change rows in
    if text_eq r.coin coin && bool_eq r.change change then later_record r rest else rest

abbrev pub next_index : Option AddressRecord → ℕ
next_index none = 0
next_index (some r) = r.key_index + 1

module _ (hd : HdKeys) (kc : Keychain hd) where
  open hd use {address}

  -- The record that `createNewKeys` saves.
  abbrev pub new_record : Text → ℕ → Bool → AddressRecord
  new_record addr index change = record {
    addr = addr;
    key_index = index;
    change = change;
    used = false;
    coin = kc.coin_type;
  }

  -- The loop of `createNewKeys`, by the number of keys still to make; the fuel bounds its rounds.
  unfoldable pub create_loop : ℕ → Bool → ℕ → ℕ → Tx (Unit {0})
  create_loop fuel change zero index = pure tt
  create_loop zero change (suc n) index = raise out_of_fuel
  create_loop (suc fuel) change (suc n) index = elim (derive hd kc change index) [
    | none ↦ create_loop fuel change (suc n) (index + 1)
    | some key ↦ (do
      addr ← lift (or_error bad_address (address key))
      save_address (new_record addr index change)
      create_loop fuel change n (index + 1))
  ]

  unfoldable pub create_new_keys : ℕ → Bool → ℕ → Tx (Unit {0})
  create_new_keys fuel change num_keys = do
    found ← query (λ t. ok (last_record kc.coin_type change t.addresses))
    create_loop fuel change num_keys (next_index found)

  abbrev pub fill_window : ℕ → Bool → ℕ → Tx (Unit {0})
  fill_window fuel change have =
      if ltb have kc.lookahead_window_size
      then create_new_keys fuel change (kc.lookahead_window_size - have)
      else pure tt

  -- The two tests of `extendKeychain`, on (internalUnused, externalUnused).
  unfoldable pub fill_windows : ℕ → ℕ × ℕ → Tx (Unit {0})
  fill_windows fuel (internal, external) = do
    if not kc.external_only then fill_window fuel true internal else pure tt
    fill_window fuel false external

  unfoldable pub extend_keychain : ℕ → Tx (Unit {0})
  extend_keychain fuel = do have ← get_lookahead_windows kc.coin_type; fill_windows fuel have

  -- `ExtendKeychain`
  unfoldable pub extend_in_update : ℕ → Exec Engine (Unit {0})
  extend_in_update fuel = update (extend_keychain fuel)
