-- ===== src/Wallet/Locking/Reach.antt =====
-- Sequences of `Begin`, of setting a hook, of `Commit` and of `Rollback` by any number of callers: a
-- transaction is open exactly while the mutex is held, and it can always be closed.
use multiwallet.Prelude.{
  ℕ, ◌≡◌, refl, inl, inr, Bool, true, false, not, Option, none, some, List, [], ◌∷◌, ◌++◌, count,
  count-append, arith, if◌then◌else◌, Bool-cases,
}
use multiwallet.Database.Tx.{Exec, Result, ok, err}
use multiwallet.Wallet.Locking.{
  DbTx, Shared, begin, rollback, close_tx, after_hook, run_hook, commit,
}

module _ {W : Type 0} where
  abbrev pub held : Shared W → ℕ
  held s = if s.is_locked then 1 else 0

abbrev pub is_open : {Hook : Type 0} → DbTx Hook → Bool
is_open tx = not tx.is_closed

-- How many transactions are open.
abbrev pub open_count : {Hook : Type 0} → List (DbTx Hook) → ℕ
open_count txs = count is_open txs

-- The wallet and all transactions that were begun.
pub record World (W Hook : Type 0) : Type 0 where
  pub shared : Shared W
  pub txs : List (DbTx Hook)

module _ {W Hook : Type 0} (run : Hook → Exec W (Unit {0})) where
  -- Setting `OnCommit` is a plain assignment, also on a closed transaction.
  pub data Step : World W Hook → World W Hook → Type 0 where
    begins :
        (w : World W Hook) (tx : DbTx Hook) (s : Shared W)
        → begin w.shared ≡ some (tx, s)
        → Step w (record { shared = s; txs = w.txs ++ tx ∷ [] })
    hooks :
        (s : Shared W) (pre : List (DbTx Hook)) (tx : DbTx Hook) (post : List (DbTx Hook))
        (h : Hook)
        → Step
            (record { shared = s; txs = pre ++ tx ∷ post })
            (record { shared = s; txs = pre ++ record tx { on_commit = some h } ∷ post })
    commits :
        (s : Shared W) (pre : List (DbTx Hook)) (tx : DbTx Hook) (post : List (DbTx Hook))
        (r : Result (Unit {0})) (tx' : DbTx Hook) (s' : Shared W)
        → commit run tx s ≡ some (r, (tx', s'))
        → Step
            (record { shared = s; txs = pre ++ tx ∷ post })
            (record { shared = s'; txs = pre ++ tx' ∷ post })
    rolls_back :
        (s : Shared W) (pre : List (DbTx Hook)) (tx : DbTx Hook) (post : List (DbTx Hook))
        (tx' : DbTx Hook) (s' : Shared W)
        → rollback tx s ≡ some (tx', s')
        → Step
            (record { shared = s; txs = pre ++ tx ∷ post })
            (record { shared = s'; txs = pre ++ tx' ∷ post })

  pub data Reachable (start : W) : World W Hook → Type 0 where
    starts :
        Reachable start (record { shared = record { wallet = start; is_locked = false }; txs = [] })
    steps : (v w : World W Hook) → Reachable start v → Step v w → Reachable start w

module _ {W Hook : Type 0} where
  -- What closing an open transaction does.
  pub record IsClosing (tx tx' : DbTx Hook) (s s' : Shared W) : Type 0 where
    pub was_open : tx.is_closed ≡ false
    pub was_locked : s.is_locked ≡ true
    pub closed : tx'.is_closed ≡ true
    pub unlocked : s'.is_locked ≡ false

  begin_locks :
      (s s' : Shared W) (tx : DbTx Hook)
      → begin s ≡ some (tx, s')
      → (s.is_locked ≡ false) × (s'.is_locked ≡ true) × (tx.is_closed ≡ false)
  unfolding begin
  begin_locks s s' tx h = (ground arith, ground arith, ground arith)

  rollback-IsClosing :
      (tx tx' : DbTx Hook) (s s' : Shared W)
      → rollback tx s ≡ some (tx', s')
      → IsClosing tx tx' s s'
  unfolding rollback
  rollback-IsClosing tx tx' s s' h = record {
    was_open = ground arith;
    was_locked = ground arith;
    closed = ground arith;
    unlocked = ground arith;
  }

  close_tx-IsClosing :
      (tx tx' : DbTx Hook) (s s' : Shared W) (r : Result (Unit {0}))
      → tx.is_closed ≡ false
      → close_tx tx s ≡ some (r, (tx', s'))
      → IsClosing tx tx' s s'
  close_tx-IsClosing tx tx' s s' r o h = record {
    was_open = o;
    was_locked = ground arith;
    closed = ground arith;
    unlocked = ground arith;
  }

module _ {W Hook : Type 0} (run : Hook → Exec W (Unit {0})) where
  hook-IsClosing :
      (tx tx' : DbTx Hook) (s s' : Shared W) (r r' : Result (Unit {0})) (w : W)
      → tx.is_closed ≡ false
      → after_hook tx s (r', w) ≡ some (r, (tx', s'))
      → IsClosing tx tx' s s'
  hook-IsClosing tx tx' s s' r (ok a) w o h =
      let c = close_tx-IsClosing tx tx' (record s { wallet = w }) s' r o h in
      record { was_open = o; was_locked = c.was_locked; closed = c.closed; unlocked = c.unlocked }
  hook-IsClosing tx tx' s s' r (err e) w o h =
      let c = rollback-IsClosing tx tx' (record s { wallet = w }) s' (ground arith) in
      record { was_open = o; was_locked = c.was_locked; closed = c.closed; unlocked = c.unlocked }

  commit-IsClosing :
      (tx tx' : DbTx Hook) (s s' : Shared W) (r : Result (Unit {0}))
      → commit run tx s ≡ some (r, (tx', s'))
      → IsClosing tx tx' s s'
  unfolding commit
  commit-IsClosing tx tx' s s' r h = elim (Bool-cases tx.is_closed) [
    | inl shut ↦ absurd (ground arith)
    | inr o ↦ hooked tx.on_commit o (ground arith)
  ]
    where
      hooked :
          (h : Option Hook)
          → tx.is_closed ≡ false
          → run_hook run tx s h ≡ some (r, (tx', s'))
          → IsClosing tx tx' s s'
      hooked none o k = close_tx-IsClosing tx tx' s s' r o k
      hooked (some h) o k = hook-IsClosing tx tx' s s' r (run h s.wallet).0 (run h s.wallet).1 o k

  -- The invariant.
  abbrev Balanced : World W Hook → Type 0
  Balanced w = open_count w.txs ≡ held w.shared

  Step-Balanced : (v w : World W Hook) → Step run v w → Balanced v → Balanced w
  Step-Balanced v w (begins u tx s h) b =
      let (free, locked, o) = begin_locks u.shared s tx h in
      ground (arith, count-append is_open u.txs (tx ∷ []))
  Step-Balanced v w (hooks s pre tx post h) b = ground (
    arith,
    count-append is_open pre (tx ∷ post),
    count-append is_open pre (record tx { on_commit = some h } ∷ post),
  )
  Step-Balanced v w (commits s pre tx post r tx' s' h) b =
      let c = commit-IsClosing tx tx' s s' r h in
      let c1 = c.was_open in
      let c2 = c.was_locked in
      let c3 = c.closed in
      let c4 = c.unlocked in
      ground (arith, count-append is_open pre (tx ∷ post), count-append is_open pre (tx' ∷ post))
  Step-Balanced v w (rolls_back s pre tx post tx' s' h) b =
      let c = rollback-IsClosing tx tx' s s' h in
      let c1 = c.was_open in
      let c2 = c.was_locked in
      let c3 = c.closed in
      let c4 = c.unlocked in
      ground (arith, count-append is_open pre (tx ∷ post), count-append is_open pre (tx' ∷ post))

  -- However its callers begin, hook, commit and roll back transactions of a wallet, and whatever the
  -- hooks do: one transaction is open while the mutex is held, and none while it is free.
  pub one_tx_open :
      (start : W) (w : World W Hook)
      → Reachable run start w
      → open_count w.txs ≡ (if w.shared.is_locked then 1 else 0)
  one_tx_open start w starts = refl
  one_tx_open start w (steps v u r s) = Step-Balanced v u s (one_tx_open start v r)

  -- An open transaction that holds the mutex can be closed either way.
  commit-ends :
      (tx : DbTx Hook) (s : Shared W)
      → tx.is_closed ≡ false
      → s.is_locked ≡ true
      → (r : Result (Unit {0})) × (tx' : DbTx Hook) × (s' : Shared W) × (commit run tx s
          ≡ some (r, (tx', s')))
  unfolding commit rollback
  commit-ends tx s o l = simp o (hooked tx.on_commit)
    where
      ended :
          (r : Result (Unit {0}) × W)
          → (q : Result (Unit {0})) × (tx' : DbTx Hook) × (s' : Shared W) × (after_hook tx s r
              ≡ some (q, (tx', s')))
      ended (ok a, w) = (
        ok tt,
        record tx { is_closed = true },
        record { wallet = w; is_locked = false },
        rw l refl,
      )
      ended (err e, w) = (
        err e,
        record { is_closed = true; on_commit = none },
        record { wallet = w; is_locked = false },
        rw (o, l) refl,
      )

      hooked :
          (h : Option Hook)
          → (q : Result (Unit {0})) × (tx' : DbTx Hook) × (s' : Shared W) × (run_hook run tx s h
              ≡ some (q, (tx', s')))
      hooked none =
          (ok tt, record tx { is_closed = true }, record s { is_locked = false }, rw l refl)
      hooked (some h) = ended (run h s.wallet)

  -- However transactions were begun, hooked, committed and rolled back before: `Commit` of one that is
  -- open neither panics nor unlocks a free mutex, whatever the hooks do; it closes the transaction and
  -- frees the mutex, so the next `Begin` does not wait.
  pub open_tx_commits :
      (start : W) (s : Shared W) (pre : List (DbTx Hook)) (tx : DbTx Hook) (post : List (DbTx Hook))
      → Reachable run start (record { shared = s; txs = pre ++ tx ∷ post })
      → tx.is_closed ≡ false
      → (r : Result (Unit {0})) × (tx' : DbTx Hook) × (s' : Shared W) × (new : DbTx Hook)
        × (t : Shared W) × (commit run tx s ≡ some (r, (tx', s')))
        × (tx'.is_closed ≡ true)
        × (begin s' ≡ some (new, t))
  unfolding begin
  open_tx_commits start s pre tx post reach o =
      let one = one_tx_open start (record { shared = s; txs = pre ++ tx ∷ post }) reach in
      let l : s.is_locked ≡ true = ground (arith, count-append is_open pre (tx ∷ post)) in
      let (r, tx', s', h) = commit-ends tx s o l in
      let c = commit-IsClosing tx tx' s s' r h in
      (
        r,
        tx',
        s',
        record { is_closed = false; on_commit = none },
        record s' { is_locked = true },
        h,
        c.closed,
        (let free = c.unlocked in rw free refl),
      )
