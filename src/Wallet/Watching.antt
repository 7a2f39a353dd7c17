-- ===== src/Wallet/Watching.antt =====
-- `WatchAddress` of base/base.go: the hook that a commit runs, which saves the addresses and then tells
-- the chain manager those that are new.
pub mod Rows
pub mod Kept
pub mod Deferred
use multiwallet.Prelude.{
  ◌≡◌, refl, Bool, true, false, ◌&&◌, Option, none, some, List, [], ◌∷◌, ◌++◌, Text, text_eq, first,
}
use multiwallet.Database.Models.{AddressRecord, WatchedAddressRecord}
use multiwallet.Database.Tables.{upsert}
use multiwallet.Database.Tx.{
  Result, ok, err, Tx, Exec, Engine, ◌>>=◌, ◌>>◌, pure, or_error, query, write, not_found,
}
use multiwallet.Database.Beside.{Beside, on_session, in_memory, update_beside}
use multiwallet.Keychain.Addresses.{Address, find_address}
use multiwallet.Wallet.Locking.{DbTx, Shared, begin, commit}

-- A call whose error is only looked at: any error reads as nothing found.
abbrev pub attempt : {A : Type 0} → Tx A → Tx (Option A)
attempt m s = let (r, s') = m s in elim r [ ok a ↦ (ok (some a), s') | err e ↦ (ok none, s') ]

-- `Where("coin=?", coin).Where("addr=?", addr).First(&watchedRecord)`
abbrev pub find_watched : Text → Text → List WatchedAddressRecord → Option WatchedAddressRecord
find_watched coin addr rows = first (λ r. text_eq r.coin coin && text_eq r.addr addr) rows

abbrev pub watched_row : Text → Address → WatchedAddressRecord
watched_row coin a = record { addr = a.text; coin = coin; script = [] }

unfoldable pub save_watched : WatchedAddressRecord → Tx (Unit {0})
save_watched r = write (λ t. record t { watched = upsert (λ x. x.addr) r t.watched })

module _ (coin : Text) where
  abbrev pub try_own : Address → Tx (Option AddressRecord)
  try_own a = attempt (query (λ t. or_error not_found (find_address coin a.text t.addresses)))

  abbrev pub try_watched : Address → Tx (Option WatchedAddressRecord)
  try_watched a = attempt (query (λ t. or_error not_found (find_watched coin a.text t.watched)))

  abbrev pub watch_new :
      Address → Option WatchedAddressRecord → Exec (Beside (List Address)) (Unit {0})
  watch_new a (some r) = pure tt
  watch_new a none =
      on_session (save_watched (watched_row coin a)) >> in_memory (λ updated. updated ++ a ∷ [])

  abbrev pub watch_foreign :
      Address → Option AddressRecord → Exec (Beside (List Address)) (Unit {0})
  watch_foreign a (some r) = pure tt
  watch_foreign a none = on_session (try_watched a) >>= watch_new a

  -- The loop over the addresses; the memory is `updated`.
  unfoldable pub watch_all : List Address → Exec (Beside (List Address)) (Unit {0})
  watch_all [] = pure tt
  watch_all (a ∷ addrs) = (on_session (try_own a) >>= watch_foreign a) >> watch_all addrs

-- The database, and the addresses that the chain manager was told.
pub record Watch : Type 0 where
  pub engine : Engine
  pub told : List Address

abbrev pub tell : Watch → Result (Unit {0}) × (Engine × List Address) → Result (Unit {0}) × Watch
tell w (ok a, (e, updated)) = (ok tt, record { engine = e; told = w.told ++ updated })
tell w (err x, (e, updated)) = (err x, record w { engine = e })

-- What the commit runs.
unfoldable pub watch_hook : Text → List Address → Exec Watch (Unit {0})
watch_hook coin addrs w = tell w (update_beside (watch_all coin addrs) (w.engine, []))

-- `WatchAddress`
unfoldable pub watch_address : List Address → DbTx (List Address) → DbTx (List Address)
watch_address addrs tx = record tx { on_commit = some addrs }
