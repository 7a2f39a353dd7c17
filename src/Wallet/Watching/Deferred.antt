-- ===== src/Wallet/Watching/Deferred.antt =====
-- `WatchAddress` between `Begin` and the end of the transaction.
use mathlib.Core.Path.{subst}
use multiwallet.Prelude.{◌≡◌, refl, sym, true, false, none, some, List, Text}
use multiwallet.Database.Tx.{Result, ok, err}
use multiwallet.Keychain.Addresses.{Address}
use multiwallet.Wallet.Locking.{DbTx, Shared, begin, commit, rollback, after_hook}
use multiwallet.Wallet.Watching.{Watch, watch_address, watch_hook}
use multiwallet.Wallet.Watching.Kept.{Watches, watch_hook-Watches}

-- A transaction from `begin` to its end: by `commit` with the wallet's answer, or by `rollback`.
pub record IsDeferred (coin : Text) (addrs : List Address) (s : Shared Watch) : Type 0 where
  pub tx : DbTx (List Address)
  pub held : Shared Watch
  pub begun : begin s ≡ some (tx, held)
  pub untouched : held.wallet ≡ s.wallet
  pub answer : Result (Unit {0})
  pub committed : DbTx (List Address)
  pub after_commit : Shared Watch
  pub commits :
      commit (watch_hook coin) (watch_address addrs tx) held
      ≡ some (answer, (committed, after_commit))
  pub at_once : (answer, after_commit.wallet) ≡ watch_hook coin addrs s.wallet
  pub watches : Watches coin addrs s.wallet (answer, after_commit.wallet)
  pub committed_closed : committed.is_closed ≡ true
  pub commit_unlocks : after_commit.is_locked ≡ false
  pub rolled_back : DbTx (List Address)
  pub after_rollback : Shared Watch
  pub rolls_back : rollback (watch_address addrs tx) held ≡ some (rolled_back, after_rollback)
  pub discarded : after_rollback.wallet ≡ s.wallet
  pub rolled_back_closed : rolled_back.is_closed ≡ true
  pub rollback_unlocks : after_rollback.is_locked ≡ false

module _ (coin : Text) (addrs : List Address) (w : Watch) where
  abbrev locked : Shared Watch
  locked = record { wallet = w; is_locked = true }

  abbrev watching : DbTx (List Address)
  watching = record { is_closed = false; on_commit = some addrs }

  committing :
      (r : Result (Unit {0}) × Watch)
      → (q : Result (Unit {0})) × (tx : DbTx (List Address)) × (s : Shared Watch) × (after_hook
            watching locked r
          ≡ some (q, (tx, s)))
        × ((q, s.wallet) ≡ r)
        × (tx.is_closed ≡ true)
        × (s.is_locked ≡ false)
  unfolding rollback
  committing (ok tt, v) = (
    ok tt,
    record watching { is_closed = true },
    record { wallet = v; is_locked = false },
    refl,
    refl,
    refl,
    refl,
  )
  committing (err e, v) = (
    err e,
    record { is_closed = true; on_commit = none },
    record { wallet = v; is_locked = false },
    refl,
    refl,
    refl,
    refl,
  )

-- `WatchAddress` in a transaction of a wallet whose mutex is free. `Begin` succeeds and leaves the
-- wallet as it was. The commit ends with the answer and the wallet that the hook has where it runs
-- at once, and so they meet `Watches`. A rollback in place of the commit leaves the wallet as it was.
-- Either end closes the transaction and frees the mutex.
pub watch_address-IsDeferred :
    (coin : Text) (addrs : List Address) (s : Shared Watch)
    → s.is_locked ≡ false
    → IsDeferred coin addrs s
unfolding begin commit rollback watch_address
watch_address-IsDeferred coin addrs s free =
    let (answer, tx, after, run, at_once, closed, unlocked) =
      committing coin addrs s.wallet (watch_hook coin addrs s.wallet) in
    record {
      tx = record { is_closed = false; on_commit = none };
      held = record { wallet = s.wallet; is_locked = true };
      begun = simp free refl;
      untouched = refl;
      answer = answer;
      committed = tx;
      after_commit = after;
      commits = run;
      at_once = at_once;
      watches =
          subst (Watches coin addrs s.wallet) (sym at_once)
            (watch_hook-Watches coin addrs s.wallet);
      committed_closed = closed;
      commit_unlocks = unlocked;
      rolled_back = record { is_closed = true; on_commit = none };
      after_rollback = record { wallet = s.wallet; is_locked = false };
      rolls_back = refl;
      discarded = refl;
      rolled_back_closed = refl;
      rollback_unlocks = refl;
    }
