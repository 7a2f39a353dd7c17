-- ===== src/Keychain/Passphrase/Rules.antt =====
-- Rules for the closures that change the database and the keychain in memory.
use multiwallet.Prelude.{◌≡◌, refl, true, ◌⊎◌, inl, inr, Bool-cases, Text}
use multiwallet.Database.Models.{CoinRecord, Tables}
use multiwallet.Database.Tables.{upsert}
use multiwallet.Database.Tx.{
  Result, ok, err, Error, Tx, Exec, Session, ◌>>=◌, lift, query, write_tx, finish,
}
use multiwallet.Database.Laws.{Faulted, Ends, Becomes, read-Ends, write-Ends, map-Ends}
use multiwallet.Keychain.Keys.{HdKeys, Keychain}
use multiwallet.Keychain.Passphrase.{Keyring, Vault, on_db, in_update, find_coin, save_coin}

module _ (hd : HdKeys) where
  -- A closure ends with `Q`, or by an error with the reason `E` or the engine's, and then the
  -- keychain is as `X` says.
  abbrev pub VaultEnds :
      {A : Type 0}
      → (A → Vault hd → Type 0)
      → (Error → Type 0)
      → (Keychain hd → Type 0)
      → Result A × Vault hd
      → Type 0
  VaultEnds Q E X (ok a, v) = Q a v
  VaultEnds Q E X (err e, v) = (E e ⊎ Faulted e v.0.faults) × X v.1

  -- The call commits with `Q`, or leaves the tables `before`; no timer starts or ends.
  abbrev pub VaultCommits :
      {A : Type 0}
      → (A → Tables → Keychain hd → Type 0)
      → (Error → Type 0)
      → (Keychain hd → Type 0)
      → Keyring hd
      → Result A × Keyring hd
      → Type 0
  VaultCommits Q E X k (ok a, k') = Q a k'.engine.tables k'.keychain × (k'.timers ≡ k.timers)
  VaultCommits Q E X k (err e, k') =
      (k'.engine.tables ≡ k.engine.tables)
      × (E e ⊎ Faulted e k'.engine.faults)
      × X k'.keychain
      × (k'.timers ≡ k.timers)

  module _ {A B : Type 0} (R : A → Vault hd → Type 0) (Q : B → Vault hd → Type 0)
      (E : Error → Type 0) (X : Keychain hd → Type 0) where
    continue-VaultEnds :
        (r : Result A × Vault hd) (f : A → Exec (Vault hd) B)
        → VaultEnds R E X r
        → ((a : A) (w : Vault hd) → R a w → VaultEnds Q E X (f a w))
        → VaultEnds Q E X (((λ (v : Vault hd). r) >>= f) r.1)
    continue-VaultEnds (ok a, w) f h k = k a w h
    continue-VaultEnds (err e, w) f h k = h

    pub bind-VaultEnds :
        (m : Exec (Vault hd) A) (f : A → Exec (Vault hd) B) (v : Vault hd)
        → VaultEnds R E X (m v)
        → ((a : A) (w : Vault hd) → R a w → VaultEnds Q E X (f a w))
        → VaultEnds Q E X ((m >>= f) v)
    bind-VaultEnds m f v h k = continue-VaultEnds (m v) f h k

  module _ {A : Type 0} (Q : A → Session → Type 0) (E : Error → Type 0) (X : Keychain hd → Type 0)
      (kc : Keychain hd) where
    run_on_db :
        (r : Result A × Session)
        → Ends Q E r
        → X kc
        → VaultEnds (λ a w. Q a w.0 × (w.1 ≡ kc)) E X (r.0, (r.1, kc))
    run_on_db (ok a, t) h x = (h, refl)
    run_on_db (err e, t) h x = (h, x)

    pub on_db-VaultEnds :
        (m : Tx A) (s : Session)
        → Ends Q E (m s)
        → X kc
        → VaultEnds (λ a w. Q a w.0 × (w.1 ≡ kc)) E X (on_db hd m (s, kc))
    on_db-VaultEnds m s h x = run_on_db (m s) h x

  module _ {B : Type 0} (Q : B → Vault hd → Type 0) (E : Error → Type 0)
      (X : Keychain hd → Type 0) where
    -- What follows the query for the coin's record goes on with the record that the tables hold.
    pub find-bind-VaultEnds :
        (coin : Text) (f : CoinRecord → Exec (Vault hd) B) (s : Session) (kc : Keychain hd)
        → X kc
        → ((t : Session)
            → Becomes s s.tables t
            → VaultEnds Q E X (f (find_coin coin s.tables) (t, kc)))
        → VaultEnds Q E X ((on_db hd (query (λ t. ok (find_coin coin t))) >>= f) (s, kc))
    find-bind-VaultEnds coin f s kc x k =
        let R =
          λ (a : CoinRecord) (t : Session). Becomes s s.tables t × (a ≡ find_coin coin s.tables) in
        bind-VaultEnds (λ a w. R a w.0 × (w.1 ≡ kc)) Q E X
          (on_db hd (query (λ t. ok (find_coin coin t)))) f (s, kc)
          (on_db-VaultEnds R E X kc (query (λ t. ok (find_coin coin t))) s
            (read-Ends (find_coin coin) E s) x)
          (λ a w h. rw (h.0.1, h.1) (k w.0 h.0.0))

    pub lift-bind-VaultEnds :
        {A : Type 0} (r : Result A) (f : A → Exec (Vault hd) B) (v : Vault hd)
        → X v.1
        → ((x : Error) → r ≡ err x → E x)
        → ((a : A) → r ≡ ok a → VaultEnds Q E X (f a v))
        → VaultEnds Q E X ((lift r >>= f) v)
    lift-bind-VaultEnds (ok a) f v x bad good = good a refl
    lift-bind-VaultEnds (err e) f v x bad good = (inl (bad e refl), x)

  -- Saving a coin's record in a read-write transaction.
  pub save_coin-VaultEnds :
      (E : Error → Type 0) (X : Keychain hd → Type 0) (r : CoinRecord) (s : Session)
      (kc : Keychain hd)
      → s.for_writes ≡ true
      → X kc
      → VaultEnds
          (λ _ w.
            Becomes s (record s.tables { coins = upsert (λ x. x.coin) r s.tables.coins }) w.0
            × (w.1 ≡ kc))
          E
          X
          (on_db hd (save_coin r) (s, kc))
  unfolding save_coin
  save_coin-VaultEnds E X r s kc w x =
      let f = λ (t : Tables). record t { coins = upsert (λ x. x.coin) r t.coins } in
      on_db-VaultEnds (λ _ t. Becomes s (f s.tables) t) E X kc (save_coin r) s
        (map-Ends (λ _ t. Becomes s (f s.tables) t) _ (λ _. ⊥) E _ (λ _ t h. h) (λ _ h. absurd h)
          (write-Ends f s w))
        x

  module _ {A : Type 0} (Q : A → Tables → Keychain hd → Type 0) (E : Error → Type 0)
      (X : Keychain hd → Type 0) where
    closing :
        (k : Keyring hd) (r : Result A × Vault hd)
        → VaultEnds (λ a v. Q a v.0.tables v.1 × X v.1) E X r
        → VaultCommits Q E X k (
            let (r', e) = finish k.engine (r.0, r.1.0) in
            (r', record k { engine = e; keychain = r.1.1 }))
    unfolding finish
    closing k (ok a, v) h = elim (Bool-cases (v.0.faults v.0.step)) [
      | inl bad ↦ rw bad (refl, inr (refl, (v.0.step, bad)), h.1, refl)
      | inr good ↦ rw good (h.0, refl)
    ]
    closing k (err x, v) h = (refl, h.0, h.1, refl)

    pub in_update-VaultCommits :
        (fn : Exec (Vault hd) A) (k : Keyring hd)
        → VaultEnds (λ a v. Q a v.0.tables v.1 × X v.1) E X (fn (write_tx k.engine, k.keychain))
        → VaultCommits Q E X k (in_update hd fn k)
    unfolding in_update
    in_update-VaultCommits fn k h = closing k (fn (write_tx k.engine, k.keychain)) h
