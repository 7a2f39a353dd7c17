-- ===== src/Keychain/Passphrase/Unlocking.antt =====
-- `Unlock`: the private keys come into memory, the database stays.
use mathlib.Core.Path.{subst}
use multiwallet.Prelude.{
  ◌+◌, ◌≡◌, refl, sym, ◌∙◌, ap, true, false, Option, none, some, ◌⊎◌, inl, inr, Bool-cases, Text,
}
use multiwallet.Database.Models.{CoinRecord}
use multiwallet.Database.Tx.{
  Result, ok, err, Error, engine, Exec, ◌>>=◌, lift, query, statement, view, read_tx, or_error,
  bad_key,
}
use multiwallet.Database.Laws.{Faulted, bind_ok, bind_err}
use multiwallet.Keychain.Keys.{HdKeys, Keychain, generate_account_keys}
use multiwallet.Keychain.Passphrase.{
  Crypto, Keyring, with_keys, is_unlocked, find_coin, open_record, account_of, on_engine,
  start_timer, unlock,
}
use multiwallet.Keychain.Passphrase.Seals.{IsHeld, Holds, IsChecked}
use multiwallet.Keychain.Passphrase.Calls.{find_coin-some}
use multiwallet.Keychain.Passphrase.Openings.{IsOpenError}

module _ (hd : HdKeys) (c : Crypto) where
  -- The tables stay. Either the keychain is `kc` and one timer more runs, or the call failed for the
  -- reason `E` or by the engine, and keychain and timers stay.
  abbrev pub UnlockEnds :
      (Error → Type 0) → Keychain hd → Keyring hd → Result (Unit {0}) × Keyring hd → Type 0
  UnlockEnds E kc k (ok u, k') =
      (k'.engine.tables ≡ k.engine.tables) × (k'.keychain ≡ kc) × (k'.timers ≡ k.timers + 1)
  UnlockEnds E kc k (err e, k') =
      (k'.engine.tables ≡ k.engine.tables)
      × (k'.keychain ≡ k.keychain)
      × (k'.timers ≡ k.timers)
      × (E e ⊎ Faulted e k'.engine.faults)

  -- The steps behind the query.
  abbrev unlock_steps : Text → CoinRecord → Exec (Keyring hd) (Unit {0})
  unlock_steps pw rec = account_of hd c pw rec >>= start_timer hd

  -- The keyring after a statement.
  abbrev stepped : Keyring hd → Keyring hd
  stepped k = record k {
    engine = record {
      tables = k.engine.tables;
      step = k.engine.step + 1;
      faults = k.engine.faults;
    };
  }

  reads_good :
      (k : Keyring hd) (coin : Text)
      → k.engine.faults k.engine.step ≡ false
      → on_engine hd (view (query (λ t. ok (find_coin coin t)))) k
        ≡ (ok (find_coin coin k.engine.tables), stepped k)
  unfolding view query statement read_tx
  reads_good k coin good = rw good refl

  reads_bad :
      (k : Keyring hd) (coin : Text)
      → k.engine.faults k.engine.step ≡ true
      → on_engine hd (view (query (λ t. ok (find_coin coin t)))) k ≡ (err engine, stepped k)
  unfolding view query statement read_tx
  reads_bad k coin bad = rw bad refl

  unlock_good :
      (pw : Text) (k : Keyring hd)
      → is_unlocked hd k.keychain ≡ false
      → k.engine.faults k.engine.step ≡ false
      → unlock hd c pw k
        ≡ unlock_steps pw (find_coin k.keychain.coin_type k.engine.tables) (stepped k)
  unfolding unlock
  unlock_good pw k locked good = rw locked (
      bind_ok (on_engine hd (view (query (λ t. ok (find_coin k.keychain.coin_type t)))))
        (unlock_steps pw) k _ _ (reads_good k k.keychain.coin_type good))

  unlock_bad :
      (pw : Text) (k : Keyring hd)
      → is_unlocked hd k.keychain ≡ false
      → k.engine.faults k.engine.step ≡ true
      → unlock hd c pw k ≡ (err engine, stepped k)
  unfolding unlock
  unlock_bad pw k locked bad = rw locked (
      bind_err (on_engine hd (view (query (λ t. ok (find_coin k.keychain.coin_type t)))))
        (unlock_steps pw) k engine _ (reads_bad k k.keychain.coin_type bad))

  -- The keys of the account, once the record is opened to a text.
  abbrev from_opened : Text → Exec (Keyring hd) (hd.Key × hd.Key)
  from_opened plaintext = do
    key ← lift (or_error bad_key (hd.from_text plaintext))
    lift (generate_account_keys hd key)

  steps_of_text :
      (pw text : Text) (rec : CoinRecord) (k : Keyring hd)
      → open_record c pw rec ≡ ok text
      → account_of hd c pw rec k ≡ from_opened text k
  steps_of_text pw text rec k h =
      bind_ok (lift (open_record c pw rec)) from_opened k text k (ap (λ r. (r, k)) h)

  unlock_steps_key :
      (pw text : Text) (rec : CoinRecord) (key : hd.Key) (keys : hd.Key × hd.Key) (k : Keyring hd)
      → open_record c pw rec ≡ ok text
      → hd.from_text text ≡ some key
      → generate_account_keys hd key ≡ ok keys
      → unlock_steps pw rec k ≡ start_timer hd keys k
  unlock_steps_key pw text rec key keys k opened parse generate =
      bind_ok (account_of hd c pw rec) (start_timer hd) k keys k (
        steps_of_text pw text rec k opened
        ∙ bind_ok (lift (or_error bad_key (hd.from_text text)))
            (λ key. lift (generate_account_keys hd key)) k key k (rw parse refl)
        ∙ ap (λ r. (r, k)) generate)

  unlock_steps_no_key :
      (pw text : Text) (rec : CoinRecord) (k : Keyring hd)
      → open_record c pw rec ≡ ok text
      → hd.from_text text ≡ none
      → unlock_steps pw rec k ≡ (err bad_key, k)
  unlock_steps_no_key pw text rec k opened parse =
      bind_err (account_of hd c pw rec) (start_timer hd) k bad_key k (
        steps_of_text pw text rec k opened
        ∙ bind_err (lift (or_error bad_key (hd.from_text text)))
            (λ key. lift (generate_account_keys hd key)) k bad_key k (rw parse refl))

  unlock_steps_err :
      (pw : Text) (e : Error) (rec : CoinRecord) (k : Keyring hd)
      → open_record c pw rec ≡ err e
      → unlock_steps pw rec k ≡ (err e, k)
  unlock_steps_err pw e rec k h =
      bind_err (account_of hd c pw rec) (start_timer hd) k e k
        (bind_err (lift (open_record c pw rec)) from_opened k e k (ap (λ r. (r, k)) h))

  module _ (master : Text) (checked : IsChecked c hd master) (k : Keyring hd)
      (account external internal : hd.Key) (parse : hd.from_text master ≡ some account)
      (generate : generate_account_keys hd account ≡ ok (external, internal)) where
    abbrev opened_keychain : Keychain hd
    opened_keychain = with_keys hd (some external) (some internal) k.keychain

    parsed :
        (lock : Option Text) (pw text : Text) (rec : CoinRecord) (o : Option hd.Key)
        → IsHeld c master lock rec
        → open_record c pw rec ≡ ok text
        → hd.from_text text ≡ o
        → UnlockEnds
            (IsOpenError hd c pw rec bad_key)
            opened_keychain
            k
            (unlock_steps pw rec (stepped k))
    parsed lock pw text rec none held opened key =
        rw (unlock_steps_no_key pw text rec (stepped k) opened key)
          (refl, refl, refl, inl (inr (refl, (text, opened, key))))
    parsed lock pw text rec (some x) held opened key =
        let same = checked lock rec pw text x held opened key in
        let this : x ≡ account = cc in
        rw
          (unlock_steps_key pw text rec x (external, internal) (stepped k) opened key
            (ap (generate_account_keys hd) this ∙ generate))
          (refl, refl, refl)

    opening :
        (lock : Option Text) (pw : Text) (rec : CoinRecord) (r : Result Text)
        → IsHeld c master lock rec
        → open_record c pw rec ≡ r
        → UnlockEnds
            (IsOpenError hd c pw rec bad_key)
            opened_keychain
            k
            (unlock_steps pw rec (stepped k))
    opening lock pw rec (ok text) held opened =
        parsed lock pw text rec (hd.from_text text) held opened refl
    opening lock pw rec (err e) held opened =
        rw (unlock_steps_err pw e rec (stepped k) opened) (refl, refl, refl, inl (inl opened))

    -- Where the coin's record holds the master key (`IsChecked`) of an account with two chains and
    -- no private key is in memory, `Unlock` brings the account's two keys there and starts a timer,
    -- and the tables stay; it fails only where the passphrase does not open the record to a key, or
    -- by the engine, and then memory stays too.
    pub unlock_opens :
        (lock : Option Text) (pw : Text)
        → Holds c k.keychain.coin_type master lock k.engine.tables
        → is_unlocked hd k.keychain ≡ false
        → UnlockEnds
            (IsOpenError hd c pw (find_coin k.keychain.coin_type k.engine.tables) bad_key)
            (with_keys hd (some external) (some internal) k.keychain)
            k
            (unlock hd c pw k)
    unlock_opens lock pw (rec, found, held) locked =
        let coin = k.keychain.coin_type in
        let same = find_coin-some coin rec k.engine.tables found in
        elim (Bool-cases (k.engine.faults k.engine.step)) [
          | inl bad ↦
              rw (unlock_bad pw k locked bad) (refl, refl, refl, inr (refl, (k.engine.step, bad)))
          | inr good ↦ rw (unlock_good pw k locked good) (
              subst
                (λ r.
                  UnlockEnds (IsOpenError hd c pw r bad_key) opened_keychain k
                    (unlock_steps pw r (stepped k)))
                (sym same) (opening lock pw rec (open_record c pw rec) held refl))
        ]
