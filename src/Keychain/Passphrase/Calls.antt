-- ===== src/Keychain/Passphrase/Calls.antt =====
-- `SetPassphase`, `ChangePassphrase` and `RemovePassphrase`: what is stored and what stays in memory.
use mathlib.Core.Path.{subst}
use multiwallet.Prelude.{
  ℕ, ◌+◌, ◌≡◌, refl, sym, ◌∙◌, ap, true, Option, none, some, ◌⊎◌, inl, inr, Option-cases, Text,
  text_eq_iff, if◌then◌else◌, arith,
}
use multiwallet.Database.Models.{CoinRecord, Tables}
use multiwallet.Database.Tables.{find_by, upsert, find_by-upsert, find_by-key}
use multiwallet.Database.Tx.{
  Result, ok, err, Error, Exec, Session, ◌>>=◌, ◌>>◌, lift, raise, pure, write_tx, or_error,
  no_randomness, bad_cipher, already_encrypted,
}
use multiwallet.Database.Laws.{Becomes}
use multiwallet.Keychain.Keys.{HdKeys, Keychain}
use multiwallet.Keychain.Passphrase.{
  Crypto, Keyring, Vault, on_db, with_keys, set_keys, in_update, find_coin, save_coin,
  locked_record, or_zero, block_size, seal, set_passphase, set_passphase_tx,
}
use multiwallet.Keychain.Passphrase.Seals.{IsCrypto, IsHeld, Holds, open_record-seal}
use multiwallet.Keychain.Passphrase.Rules.{
  VaultEnds, VaultCommits, find-bind-VaultEnds, lift-bind-VaultEnds, save_coin-VaultEnds,
  in_update-VaultCommits,
}

-- A saved record is the one that is found, if it has the coin's key.
find_by-save :
    (coin : Text) (rec : CoinRecord) (T : Tables)
    → rec.coin ≡ coin
    → find_by (λ r. r.coin) coin (upsert (λ x. x.coin) rec T.coins) ≡ some rec
find_by-save coin rec T h =
    find_by-upsert (λ (x : CoinRecord). x.coin) coin rec T.coins
    ∙ ground (arith, text_eq_iff rec.coin coin)

pub find_coin-some :
    (coin : Text) (rec : CoinRecord) (T : Tables)
    → find_by (λ r. r.coin) coin T.coins ≡ some rec
    → find_coin coin T ≡ rec
find_coin-some coin rec T h = ap or_zero h

pub or_error-same : {A : Type 0} (e x : Error) (o : Option A) → or_error e o ≡ err x → x ≡ e
or_error-same e x none h = cc
or_error-same e x (some a) h = absurd (cc)

pub or_error-some :
    {A : Type 0} (e : Error) (a : A) (o : Option A) → or_error e o ≡ ok a → o ≡ some a
or_error-some e a none h = absurd (cc)
or_error-some e a (some b) h = cc

module _ (hd : HdKeys) (c : Crypto) (laws : IsCrypto c) where
  -- Sealing fails only for want of randomness, or if AES refuses the derived key.
  abbrev pub IsSealError : Error → Type 0
  IsSealError x = (x ≡ no_randomness) ⊎ (x ≡ bad_cipher)

  seal-IsSealError :
      (pw salt plaintext : Text) (iv : Option Text) (x : Error)
      → seal c pw salt iv plaintext ≡ err x
      → IsSealError x
  unfolding seal
  seal-IsSealError pw salt plaintext iv x h =
      elim (Option-cases (c.new_cipher (c.derive_key pw salt 8192 32))) [
        | inl no_cipher ↦ inr (ground arith)
        | inr (b, cipher) ↦ elim (Option-cases iv) [
          | inl no_iv ↦ inl (ground arith)
          | inr (v, random) ↦ absurd (ground arith)
        ]
      ]

  -- Weakening of what a closure ends with.
  map-VaultEnds :
      {A : Type 0} (Q R : A → Vault hd → Type 0) (E : Error → Type 0) (X : Keychain hd → Type 0)
      (r : Result A × Vault hd)
      → ((a : A) (v : Vault hd) → Q a v → R a v)
      → VaultEnds hd Q E X r
      → VaultEnds hd R E X r
  map-VaultEnds Q R E X (ok a, v) f h = f a v h
  map-VaultEnds Q R E X (err e, v) f h = h

  module _ (master coin : Text) (E : Error → Type 0) (X : Keychain hd → Type 0) where
    -- The record of the coin, in a read-write transaction and a keychain.
    abbrev pub IsHolding : Option Text → Keychain hd → Unit {0} → Vault hd → Type 0
    IsHolding lock kc u v = Holds c coin master lock v.0.tables × (v.1 ≡ kc)

    pub save-IsHolding :
        (lock : Option Text) (rec : CoinRecord) (s : Session) (kc : Keychain hd)
        → rec.coin ≡ coin
        → IsHeld c master lock rec
        → s.for_writes ≡ true
        → X kc
        → VaultEnds hd (IsHolding lock kc) E X (on_db hd (save_coin rec) (s, kc))
    save-IsHolding lock rec s kc own held w x =
        map-VaultEnds
          (λ _ v.
            Becomes s (record s.tables { coins = upsert (λ x. x.coin) rec s.tables.coins }) v.0
            × (v.1 ≡ kc))
          _ E X _
          (λ _ v h. (
            (
              rec,
              ap (λ (t : Tables). find_by (λ (r : CoinRecord). r.coin) coin t.coins) h.0.0
                  ∙ find_by-save coin rec s.tables own,
              held,
            ),
            h.1,
          ))
          (save_coin-VaultEnds hd E X rec s kc w x)

    -- A sealed master key is saved.
    save_locked :
        (pw salt plaintext text : Text) (draw : ℕ) (rec : CoinRecord) (s : Session)
        (kc : Keychain hd)
        → rec.coin ≡ coin
        → plaintext ≡ master
        → seal c pw salt (c.random draw block_size) plaintext ≡ ok text
        → s.for_writes ≡ true
        → X kc
        → VaultEnds hd
            (IsHolding (some pw) kc)
            E
            X
            (on_db hd (save_coin (locked_record salt text rec)) (s, kc))
    save_locked pw salt plaintext text draw rec s kc own same sealed w x =
        save-IsHolding (some pw) (locked_record salt text rec) s kc own
          (refl, open_record-seal c laws pw salt plaintext text draw rec sealed ∙ ap ok same) w x

    -- A salt is drawn, the plaintext is sealed, `kc` becomes `kc'` in memory and the record is saved.
    pub seal_and_save :
        (pw plaintext : Text) (draw : ℕ) (rec : CoinRecord) (s : Session) (kc kc' : Keychain hd)
        (before : Exec (Vault hd) (Unit {0}) → Exec (Vault hd) (Unit {0}))
        → ((m : Exec (Vault hd) (Unit {0})) → before m (s, kc) ≡ m (s, kc'))
        → rec.coin ≡ coin
        → plaintext ≡ master
        → ((x : Error) → IsSealError x → E x)
        → s.for_writes ≡ true
        → X kc
        → X kc'
        → VaultEnds hd (IsHolding (some pw) kc') E X (
            (do
              salt ← lift (or_error no_randomness (c.random draw 32))
              text ← lift (seal c pw salt (c.random (draw + 1) block_size) plaintext)
              before (on_db hd (save_coin (locked_record salt text rec))))
              (s, kc))
    seal_and_save pw plaintext draw rec s kc kc' before step own same bad w x x' =
        lift-bind-VaultEnds hd (IsHolding (some pw) kc') E X
          (or_error no_randomness (c.random draw 32))
          (λ salt. do
            text ← lift (seal c pw salt (c.random (draw + 1) block_size) plaintext)
            before (on_db hd (save_coin (locked_record salt text rec))))
          (s, kc) x (λ e h. bad e (inl (or_error-same no_randomness e _ h)))
          λ salt salted.
            lift-bind-VaultEnds hd (IsHolding (some pw) kc') E X
              (seal c pw salt (c.random (draw + 1) block_size) plaintext)
              (λ text. before (on_db hd (save_coin (locked_record salt text rec)))) (s, kc) x
              (λ e h. bad e (seal-IsSealError pw salt plaintext _ e h))
              λ text sealed.
                rw (step (on_db hd (save_coin (locked_record salt text rec))))
                  (save_locked pw salt plaintext text (draw + 1) rec s kc' own same sealed w x')

  -- The call keeps a property of the keychain, and ends with the record held and the keychain `kc`.
  abbrev pub CommitsHeld :
      Text
      → Option Text
      → (Error → Type 0)
      → (Keychain hd → Type 0)
      → Keychain hd
      → Keyring hd
      → Result (Unit {0}) × Keyring hd
      → Type 0
  CommitsHeld master lock E X kc k =
      VaultCommits hd (λ _ T kc'. Holds c k.keychain.coin_type master lock T × (kc' ≡ kc)) E X k

  pub update-CommitsHeld :
      (master : Text) (lock : Option Text) (E : Error → Type 0) (X : Keychain hd → Type 0)
      (kc : Keychain hd) (k : Keyring hd) (fn : Exec (Vault hd) (Unit {0}))
      → X kc
      → VaultEnds hd
          (IsHolding master k.keychain.coin_type E X lock kc)
          E
          X
          (fn (write_tx k.engine, k.keychain))
      → CommitsHeld master lock E X kc k (in_update hd fn k)
  update-CommitsHeld master lock E X kc k fn x h =
      in_update-VaultCommits hd (λ _ T kc'. Holds c k.keychain.coin_type master lock T × (kc' ≡ kc))
        E X fn k
        (map-VaultEnds (IsHolding master k.keychain.coin_type E X lock kc) _ E X _
          (λ _ v g. (g, subst X (sym g.1) x)) h)

  -- The steps of the closures behind their query.
  abbrev set_steps : Text → ℕ → CoinRecord → Exec (Vault hd) (Unit {0})
  set_steps pw draw rec = do
    if rec.encrypted_master_key then raise already_encrypted else pure tt
    salt ← lift (or_error no_randomness (c.random draw 32))
    text ← lift (seal c pw salt (c.random (draw + 1) block_size) rec.master_priv)
    set_keys hd none none
    on_db hd (save_coin (locked_record salt text rec))

  module _ (master : Text) (k : Keyring hd) where
    -- Where the coin's record holds the master key plainly, and the cipher keeps its laws,
    -- `SetPassphase` commits with the master key sealed under the passphrase, and the private keys
    -- are gone from memory; it fails only by `IsSealError` or by the engine, and then the tables
    -- stay.
    pub set_passphase_seals :
        (pw : Text) (draw : ℕ)
        → Holds c k.keychain.coin_type master none k.engine.tables
        → CommitsHeld master
            (some pw)
            IsSealError
            (λ kc. (kc ≡ k.keychain) ⊎ (kc ≡ with_keys hd none none k.keychain))
            (with_keys hd none none k.keychain)
            k
            (set_passphase hd c pw draw k)
    unfolding set_passphase set_passphase_tx write_tx
    set_passphase_seals pw draw (rec, found, (plain, held)) =
        let X =
          λ (kc : Keychain hd). (kc ≡ k.keychain) ⊎ (kc ≡ with_keys hd none none k.keychain) in
        let coin = k.keychain.coin_type in
        update-CommitsHeld master (some pw) IsSealError X (with_keys hd none none k.keychain) k
          (set_passphase_tx hd c coin pw draw) (inr refl)
          (find-bind-VaultEnds hd
            (IsHolding master coin IsSealError X (some pw) (with_keys hd none none k.keychain))
            IsSealError X coin (set_steps pw draw) (write_tx k.engine) k.keychain (inl refl)
            λ t h.
              rw (find_coin-some coin rec k.engine.tables found, plain)
                (seal_and_save master coin IsSealError X pw rec.master_priv draw rec t k.keychain
                  (with_keys hd none none k.keychain) (λ m. set_keys hd none none >> m) (λ m. refl)
                  (find_by-key (λ r. r.coin) coin rec k.engine.tables.coins found) held (λ x h. h)
                  h.1 (inl refl) (inr refl)))

    -- Where the coin's record is sealed, `SetPassphase` does not succeed: it changes neither the
    -- tables nor the memory, and says so unless the engine fails it.
    pub set_passphase_refuses :
        (pw set : Text) (draw : ℕ)
        → Holds c k.keychain.coin_type master (some set) k.engine.tables
        → VaultCommits hd
            (λ _ _ _. ⊥)
            (λ x. x ≡ already_encrypted)
            (λ kc. kc ≡ k.keychain)
            k
            (set_passphase hd c pw draw k)
    unfolding set_passphase set_passphase_tx write_tx
    set_passphase_refuses pw set draw (rec, found, (encrypted, held)) =
        let coin = k.keychain.coin_type in
        let E = λ (x : Error). x ≡ already_encrypted in
        let X = λ (kc : Keychain hd). kc ≡ k.keychain in
        in_update-VaultCommits hd (λ _ _ _. ⊥) E X (set_passphase_tx hd c coin pw draw) k
          (find-bind-VaultEnds hd (λ _ v. ⊥ × (v.1 ≡ k.keychain)) E X coin (set_steps pw draw)
            (write_tx k.engine) k.keychain refl
            λ t h. rw (find_coin-some coin rec k.engine.tables found, encrypted) (inl refl, refl))
