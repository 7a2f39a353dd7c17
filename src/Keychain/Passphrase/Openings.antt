-- ===== src/Keychain/Passphrase/Openings.antt =====
-- `ChangePassphrase` and `RemovePassphrase`, which begin by opening the stored key.
use mathlib.Core.Path.{subst}
use multiwallet.Prelude.{ℕ, ◌≡◌, refl, sym, false, Option, none, some, ◌⊎◌, inl, inr, Text, ◌+◌}
use multiwallet.Database.Models.{CoinRecord}
use multiwallet.Database.Tables.{find_by-key}
use multiwallet.Database.Tx.{
  ok, err, Error, Exec, ◌>>=◌, ◌>>◌, lift, write_tx, or_error, no_randomness, invalid_passphrase,
}
use multiwallet.Keychain.Keys.{HdKeys, Keychain, generate_account_keys}
use multiwallet.Keychain.Passphrase.{
  Crypto, Keyring, Vault, on_db, with_keys, set_keys, is_unlocked, find_coin, save_coin,
  locked_record, plain_record, block_size, seal, open_record, change_passphrase,
  change_passphrase_tx, remove_passphrase, remove_passphrase_tx,
}
use multiwallet.Keychain.Passphrase.Seals.{IsCrypto, IsHeld, Holds, IsChecked}
use multiwallet.Keychain.Passphrase.Rules.{VaultEnds, find-bind-VaultEnds, lift-bind-VaultEnds}
use multiwallet.Keychain.Passphrase.Calls.{
  IsSealError, find_coin-some, or_error-same, or_error-some, IsHolding, save-IsHolding,
  seal_and_save, CommitsHeld, update-CommitsHeld,
}

-- The record does not open under the passphrase, or opens to what is no key.
abbrev pub IsOpenError : HdKeys → Crypto → Text → CoinRecord → Error → Error → Type 0
IsOpenError hd c pw rec no_key x =
    (open_record c pw rec ≡ err x)
    ⊎ ((x ≡ no_key)
        × ((text : Text) × (open_record c pw rec ≡ ok text) × (hd.from_text text ≡ none)))

or_error-none : {A : Type 0} (e x : Error) (o : Option A) → or_error e o ≡ err x → o ≡ none
or_error-none e x none h = refl
or_error-none e x (some a) h = absurd (cc)

module _ (hd : HdKeys) (c : Crypto) where
  -- The steps behind the query.
  abbrev change_steps : Text → Text → ℕ → CoinRecord → Exec (Vault hd) (Unit {0})
  change_steps old new draw rec = do
    plaintext ← lift (open_record c old rec)
    key ← lift (or_error invalid_passphrase (hd.from_text plaintext))
    salt ← lift (or_error no_randomness (c.random draw 32))
    text ← lift (seal c new salt (c.random (draw + 1) block_size) plaintext)
    on_db hd (save_coin (locked_record salt text rec))

  abbrev reseal_steps : Text → ℕ → CoinRecord → Text → hd.Key → Exec (Vault hd) (Unit {0})
  reseal_steps new draw rec plaintext key = do
    salt ← lift (or_error no_randomness (c.random draw 32))
    text ← lift (seal c new salt (c.random (draw + 1) block_size) plaintext)
    on_db hd (save_coin (locked_record salt text rec))

  abbrev pub restore_steps : CoinRecord → Text → hd.Key → Exec (Vault hd) (Unit {0})
  restore_steps rec plaintext key = do
    (external, internal) ← lift (generate_account_keys hd key)
    set_keys hd (some external) (some internal)
    on_db hd (save_coin (plain_record plaintext rec))

  abbrev pub remove_steps : Text → CoinRecord → Exec (Vault hd) (Unit {0})
  remove_steps pw rec = do
    plaintext ← lift (open_record c pw rec)
    key ← lift (or_error invalid_passphrase (hd.from_text plaintext))
    restore_steps rec plaintext key

module _ (hd : HdKeys) (c : Crypto) (master : Text) (checked : IsChecked c hd master) where
  -- What follows the opening of a record that holds the master key goes on with that key.
  open-bind :
      (Q : Unit {0} → Vault hd → Type 0) (E : Error → Type 0) (X : Keychain hd → Type 0)
      (lock : Option Text) (pw : Text) (rec : CoinRecord)
      (f : Text → hd.Key → Exec (Vault hd) (Unit {0})) (v : Vault hd)
      → IsHeld c master lock rec
      → X v.1
      → ((x : Error) → IsOpenError hd c pw rec invalid_passphrase x → E x)
      → ((key : hd.Key) → hd.from_text master ≡ some key → VaultEnds hd Q E X (f master key v))
      → VaultEnds hd Q E X (
          (do
            plaintext ← lift (open_record c pw rec)
            key ← lift (or_error invalid_passphrase (hd.from_text plaintext))
            f plaintext key)
            v)
  open-bind Q E X lock pw rec f v held x bad k =
      lift-bind-VaultEnds hd Q E X (open_record c pw rec)
        (λ plaintext. lift (or_error invalid_passphrase (hd.from_text plaintext)) >>= f plaintext) v
        x (λ e h. bad e (inl h))
        λ text opened.
          lift-bind-VaultEnds hd Q E X (or_error invalid_passphrase (hd.from_text text)) (f text) v
            x
            (λ e h. bad e (
              inr (
                or_error-same invalid_passphrase e _ h,
                (text, opened, or_error-none invalid_passphrase e _ h),
              )))
            λ key parsed.
              let is_key = or_error-some invalid_passphrase key (hd.from_text text) parsed in
              let same = checked lock rec pw text key held opened is_key in
              subst (λ t. VaultEnds hd Q E X (f t key v)) (sym same)
                (k key (subst (λ t. hd.from_text t ≡ some key) same is_key))

  module _ (laws : IsCrypto c) (k : Keyring hd) where
    -- Where the coin's record holds the master key (`IsChecked`) and no private key is in memory,
    -- `ChangePassphrase` either commits with the master key sealed under the new passphrase, or
    -- fails: where the old passphrase does not open the record to a key, by `IsSealError` or by the
    -- engine, and then tables and memory stay.
    pub change_passphrase_reseals :
        (lock : Option Text) (old new : Text) (draw : ℕ)
        → Holds c k.keychain.coin_type master lock k.engine.tables
        → is_unlocked hd k.keychain ≡ false
        → CommitsHeld hd c laws master
            (some new)
            (λ x.
              IsOpenError hd c old
                (find_coin k.keychain.coin_type k.engine.tables)
                invalid_passphrase
                x
              ⊎ IsSealError hd c laws x)
            (λ kc. kc ≡ k.keychain)
            k.keychain
            k
            (change_passphrase hd c old new draw k)
    unfolding change_passphrase change_passphrase_tx write_tx
    change_passphrase_reseals lock old new draw (rec, found, held) locked =
        let coin = k.keychain.coin_type in
        let X = λ (kc : Keychain hd). kc ≡ k.keychain in
        let E = λ (x : Error).
          IsOpenError hd c old (find_coin coin k.engine.tables) invalid_passphrase x
          ⊎ IsSealError hd c laws x in
        let same = find_coin-some coin rec k.engine.tables found in
        rw locked (
          update-CommitsHeld hd c laws master (some new) E X k.keychain k
            (change_passphrase_tx hd c coin old new draw) refl
            (find-bind-VaultEnds hd (IsHolding hd c laws master coin E X (some new) k.keychain) E X
              coin (change_steps hd c old new draw) (write_tx k.engine) k.keychain refl
              λ t h.
                subst
                  (λ r.
                    VaultEnds hd (IsHolding hd c laws master coin E X (some new) k.keychain) E X
                      (change_steps hd c old new draw r (t, k.keychain)))
                  (sym same)
                  (open-bind (IsHolding hd c laws master coin E X (some new) k.keychain) E X lock
                    old rec (reseal_steps hd c new draw rec) (t, k.keychain) held refl
                    (λ x g.
                      inl (subst (λ r. IsOpenError hd c old r invalid_passphrase x) (sym same) g))
                    λ key parsed.
                      seal_and_save hd c laws master coin E X new master draw rec t k.keychain
                        k.keychain (λ m. m) (λ m. refl)
                        (find_by-key (λ r. r.coin) coin rec k.engine.tables.coins found) refl
                        (λ x g. inr g) h.1 refl refl)))

    -- Where the coin's record holds the master key (`IsChecked`) of an account with two chains and
    -- no private key is in memory, `RemovePassphrase` commits with the master key stored plainly
    -- and the account's two private keys in memory. It fails only where the passphrase does not
    -- open the record to a key or by the engine; then the tables stay, but in memory there may be
    -- the two keys already.
    pub remove_passphrase_restores :
        (lock : Option Text) (pw : Text) (account external internal : hd.Key)
        → Holds c k.keychain.coin_type master lock k.engine.tables
        → is_unlocked hd k.keychain ≡ false
        → hd.from_text master ≡ some account
        → generate_account_keys hd account ≡ ok (external, internal)
        → CommitsHeld hd c laws master none
            (IsOpenError hd c pw
              (find_coin k.keychain.coin_type k.engine.tables)
              invalid_passphrase)
            (λ kc.
              (kc ≡ k.keychain) ⊎ (kc ≡ with_keys hd (some external) (some internal) k.keychain))
            (with_keys hd (some external) (some internal) k.keychain)
            k
            (remove_passphrase hd c pw k)
    unfolding remove_passphrase remove_passphrase_tx write_tx
    remove_passphrase_restores lock pw account external internal (rec, found, held) locked parse
          generate =
        let coin = k.keychain.coin_type in
        let kc' = with_keys hd (some external) (some internal) k.keychain in
        let X = λ (kc : Keychain hd). (kc ≡ k.keychain) ⊎ (kc ≡ kc') in
        let E = IsOpenError hd c pw (find_coin coin k.engine.tables) invalid_passphrase in
        let Q = IsHolding hd c laws master coin E X none kc' in
        let same = find_coin-some coin rec k.engine.tables found in
        rw locked (
          update-CommitsHeld hd c laws master none E X kc' k (remove_passphrase_tx hd c coin pw)
            (inr refl)
            (find-bind-VaultEnds hd Q E X coin (remove_steps hd c pw) (write_tx k.engine) k.keychain
              (inl refl)
              λ t h.
                subst (λ r. VaultEnds hd Q E X (remove_steps hd c pw r (t, k.keychain))) (sym same)
                  (open-bind Q E X lock pw rec (restore_steps hd c rec) (t, k.keychain) held
                    (inl refl)
                    (λ x g. subst (λ r. IsOpenError hd c pw r invalid_passphrase x) (sym same) g)
                    λ key parsed.
                      let this : key ≡ account = cc in
                      rw (this, generate)
                        (save-IsHolding hd c laws master coin E X none (plain_record master rec) t
                          kc' (find_by-key (λ r. r.coin) coin rec k.engine.tables.coins found)
                          (refl, refl) h.1 (inr refl)))))
