-- ===== src/Wallet/Locking.antt =====
-- The transactions of a wallet, `DBTx` of base/base.go: `Begin` takes the wallet's mutex, and `Commit`
-- and `Rollback` give it back. A hook is what `OnCommit` holds.
pub mod Reach
use multiwallet.Prelude.{Bool, true, false, Option, none, some, if◌then◌else◌}
use multiwallet.Database.Tx.{Exec, Result, ok, err}

pub record DbTx (Hook : Type 0) : Type 0 where
  pub is_closed : Bool
  pub on_commit : Option Hook

-- The wallet, and whether its mutex is held.
pub record Shared (W : Type 0) : Type 0 where
  pub wallet : W
  pub is_locked : Bool

module _ {W : Type 0} where
  -- `mtx.Unlock()`, which ends the program if the mutex is free.
  abbrev pub unlock_mutex : Shared W → Option (Shared W)
  unlock_mutex s = if s.is_locked then some (record s { is_locked = false }) else none

  abbrev pub with_lock : {A : Type 0} → A → Option (Shared W) → Option (A × Shared W)
  with_lock a none = none
  with_lock a (some s) = some (a, s)

module _ {W Hook : Type 0} where
  -- `Begin`: `none` while another transaction holds the mutex, and the call waits.
  unfoldable pub begin : Shared W → Option (DbTx Hook × Shared W)
  begin s =
      if s.is_locked
      then none
      else some (record { is_closed = false; on_commit = none }, record s { is_locked = true })

  -- `Rollback`; `none` is a panic.
  unfoldable pub rollback : DbTx Hook → Shared W → Option (DbTx Hook × Shared W)
  rollback tx s =
      if tx.is_closed
      then none
      else with_lock (record { is_closed = true; on_commit = none }) (unlock_mutex s)

  abbrev pub close_tx : DbTx Hook → Shared W → Option (Result (Unit {0}) × (DbTx Hook × Shared W))
  close_tx tx s = elim (unlock_mutex s) [
    | none ↦ none
    | some s' ↦ some (ok tt, (record tx { is_closed = true }, s'))
  ]

  -- After the hook: an error rolls back and is returned.
  abbrev pub after_hook :
      DbTx Hook
      → Shared W
      → Result (Unit {0}) × W
      → Option (Result (Unit {0}) × (DbTx Hook × Shared W))
  after_hook tx s (ok a, w) = close_tx tx (record s { wallet = w })
  after_hook tx s (err e, w) = elim (rollback tx (record s { wallet = w })) [
    | none ↦ none
    | some p ↦ some (err e, p)
  ]

  abbrev pub run_hook :
      (Hook → Exec W (Unit {0}))
      → DbTx Hook
      → Shared W
      → Option Hook
      → Option (Result (Unit {0}) × (DbTx Hook × Shared W))
  run_hook run tx s none = close_tx tx s
  run_hook run tx s (some h) = after_hook tx s (run h s.wallet)

  -- `Commit`; `none` is a panic.
  unfoldable pub commit :
      (Hook → Exec W (Unit {0}))
      → DbTx Hook
      → Shared W
      → Option (Result (Unit {0}) × (DbTx Hook × Shared W))
  commit run tx s = if tx.is_closed then none else run_hook run tx s tx.on_commit
