-- ===== src/Keychain/Passphrase/Safety.antt =====
-- Any sequence of calls with a passphrase, and of timers that run out, keeps the master key.
use mathlib.Core.Path.{subst}
use multiwallet.Prelude.{
  ℕ, zero, suc, ◌≡◌, refl, sym, ◌∙◌, ap, Option, none, some, ◌⊎◌, inl, inr, Bool-cases, Text, List,
  [], ◌∷◌,
}
use multiwallet.Database.Tx.{Result, ok, err, Error, Exec}
use multiwallet.Keychain.Keys.{HdKeys, Keychain, generate_account_keys}
use multiwallet.Keychain.Passphrase.{
  Crypto, Keyring, with_keys, is_unlocked, set_passphase, change_passphrase, remove_passphrase,
  unlock, expire,
}
use multiwallet.Keychain.Passphrase.Seals.{IsCrypto, Holds, IsChecked}
use multiwallet.Keychain.Passphrase.Rules.{VaultCommits}
use multiwallet.Keychain.Passphrase.Calls.{CommitsHeld, set_passphase_seals, set_passphase_refuses}
use multiwallet.Keychain.Passphrase.Openings.{change_passphrase_reseals, remove_passphrase_restores}
use multiwallet.Keychain.Passphrase.Unlocking.{UnlockEnds, unlock_opens}

-- One call, or a timer of `Unlock` that runs out; `draw` numbers the reads of random bytes.
pub data Event : Type 0 where
  setting : Text → ℕ → Event
  changing : Text → Text → ℕ → Event
  removing unlocking : Text → Event
  expiring : Event

module _ (hd : HdKeys) (c : Crypto) where
  unfoldable pub handle : Event → Exec (Keyring hd) (Unit {0})
  handle (setting pw draw) = set_passphase hd c pw draw
  handle (changing old new draw) = change_passphrase hd c old new draw
  handle (removing pw) = remove_passphrase hd c pw
  handle (unlocking pw) = unlock hd c pw
  handle expiring = expire hd c

  -- The passphrase of the keychain after an event with a result: that of the last call that succeeded.
  abbrev pub lock_after : Event → Result (Unit {0}) → Option Text → Option Text
  lock_after (setting pw draw) (ok u) lock = some pw
  lock_after (changing old new draw) (ok u) lock = some new
  lock_after (removing pw) (ok u) lock = none
  lock_after (unlocking pw) (ok u) lock = lock
  lock_after expiring (ok u) lock = lock
  lock_after event (err e) lock = lock

  -- The events one after the other, whatever fails, with the passphrase and the keyring at the end.
  unfoldable pub handle_all : List Event → Option Text → Keyring hd → Option Text × Keyring hd
  handle_all [] lock k = (lock, k)
  handle_all (event ∷ events) lock k =
      let (r, k') = handle event k in handle_all events (lock_after event r lock) k'

  module _ (master : Text) (kc : Keychain hd) (external internal : hd.Key) where
    -- The record holds the master key under `lock`; the private keys in memory are the account's, or
    -- there are none.
    abbrev pub IsSafe : Option Text → Keyring hd → Type 0
    IsSafe lock k =
        ((k.keychain ≡ with_keys hd none none kc)
          ⊎ (k.keychain ≡ with_keys hd (some external) (some internal) kc))
        × Holds c kc.coin_type master lock k.engine.tables

    abbrev pub IsKeychain : Keychain hd → Type 0
    IsKeychain kc' =
        (kc' ≡ with_keys hd none none kc) ⊎ (kc' ≡ with_keys hd (some external) (some internal) kc)

    coin_same :
        (k : Keyring hd) (lock : Option Text) → IsSafe lock k → k.keychain.coin_type ≡ kc.coin_type
    coin_same k lock (inl h, held) = ap (λ (x : Keychain hd). x.coin_type) h
    coin_same k lock (inr h, held) = ap (λ (x : Keychain hd). x.coin_type) h

    IsSafe-Holds :
        (k : Keyring hd) (lock : Option Text)
        → IsSafe lock k
        → Holds c k.keychain.coin_type master lock k.engine.tables
    IsSafe-Holds k lock safe =
        subst (λ x. Holds c x master lock k.engine.tables) (sym (coin_same k lock safe)) safe.1

    locked_again :
        (k : Keyring hd) (lock : Option Text)
        → IsSafe lock k
        → with_keys hd none none k.keychain ≡ with_keys hd none none kc
    locked_again k lock (inl h, held) = ap (with_keys hd none none) h
    locked_again k lock (inr h, held) = ap (with_keys hd none none) h

    unlocked_again :
        (k : Keyring hd) (lock : Option Text)
        → IsSafe lock k
        → with_keys hd (some external) (some internal) k.keychain
          ≡ with_keys hd (some external) (some internal) kc
    unlocked_again k lock (inl h, held) = ap (with_keys hd (some external) (some internal)) h
    unlocked_again k lock (inr h, held) = ap (with_keys hd (some external) (some internal)) h

    module _ (laws : IsCrypto c) where
      -- A call that commits or rolls back keeps the keyring safe, under the lock that goes with its result.
      committed-IsSafe :
          (event : Event) (lock new : Option Text) (k : Keyring hd) (E : Error → Type 0)
          (X : Keychain hd → Type 0) (kc' : Keychain hd) (r : Result (Unit {0}) × Keyring hd)
          → IsSafe lock k
          → ((u : Unit {0}) → lock_after event (ok u) lock ≡ new)
          → IsKeychain kc'
          → ((x : Keychain hd) → X x → IsKeychain x)
          → CommitsHeld hd c laws master new E X kc' k r
          → IsSafe (lock_after event r.0 lock) r.1
      committed-IsSafe event lock new k E X kc' (ok u, k') safe next here back
            ((held, same), timers) =
          (
            subst IsKeychain (sym same) here,
            subst (λ l. Holds c kc.coin_type master l k'.engine.tables) (sym (next u))
                (subst (λ x. Holds c x master new k'.engine.tables) (coin_same k lock safe) held),
          )
      committed-IsSafe event lock new k E X kc' (err e, k') safe next here back
            (same, why, x, timers) =
          (back k'.keychain x, subst (Holds c kc.coin_type master lock) (sym same) safe.1)

      refused-IsSafe :
          (event : Event) (lock : Option Text) (k : Keyring hd) (E : Error → Type 0)
          (r : Result (Unit {0}) × Keyring hd)
          → IsSafe lock k
          → VaultCommits hd (λ _ _ _. ⊥) E (λ x. x ≡ k.keychain) k r
          → IsSafe (lock_after event r.0 lock) r.1
      refused-IsSafe event lock k E (ok u, k') safe (none_such, timers) = absurd none_such
      refused-IsSafe event lock k E (err e, k') safe (same, why, x, timers) = (
        subst IsKeychain (sym x) safe.0,
        subst (Holds c kc.coin_type master lock) (sym same) safe.1,
      )

      unlocked-IsSafe :
          (pw : Text) (lock : Option Text) (k : Keyring hd) (E : Error → Type 0)
          (r : Result (Unit {0}) × Keyring hd)
          → IsSafe lock k
          → UnlockEnds hd c E (with_keys hd (some external) (some internal) k.keychain) k r
          → IsSafe (lock_after (unlocking pw) r.0 lock) r.1
      unlocked-IsSafe pw lock k E (ok u, k') safe (same, keys, timers) = (
        inr (keys ∙ unlocked_again k lock safe),
        subst (Holds c kc.coin_type master lock) (sym same) safe.1,
      )
      unlocked-IsSafe pw lock k E (err e, k') safe (same, keys, timers, why) = (
        subst IsKeychain (sym keys) safe.0,
        subst (Holds c kc.coin_type master lock) (sym same) safe.1,
      )

      expire-IsSafe :
          (lock : Option Text) (k : Keyring hd) (n : ℕ)
          → k.timers ≡ n
          → IsSafe lock k
          → IsSafe (lock_after expiring (expire hd c k).0 lock) (expire hd c k).1
      unfolding expire
      expire-IsSafe lock k zero h safe = rw h safe
      expire-IsSafe lock k (suc n) h safe = rw h (inl (locked_again k lock safe), safe.1)

      module _ (checked : IsChecked c hd master) (account : hd.Key)
          (parse : hd.from_text master ≡ some account)
          (generate : generate_account_keys hd account ≡ ok (external, internal)) where
        set-IsSafe :
            (pw : Text) (draw : ℕ) (lock : Option Text) (k : Keyring hd)
            → IsSafe lock k
            → IsSafe
                (lock_after (setting pw draw) (set_passphase hd c pw draw k).0 lock)
                (set_passphase hd c pw draw k).1
        set-IsSafe pw draw none k safe =
            committed-IsSafe (setting pw draw) none (some pw) k _ _ _ _ safe (λ u. refl)
              (inl (locked_again k none safe))
              (λ x h. elim h [
                | inl e ↦ subst IsKeychain (sym e) safe.0
                | inr e ↦ inl (e ∙ locked_again k none safe)
              ])
              (set_passphase_seals hd c laws master k pw draw (IsSafe-Holds k none safe))
        set-IsSafe pw draw (some set) k safe =
            refused-IsSafe (setting pw draw) (some set) k _ _ safe (
              set_passphase_refuses hd c laws master k pw set draw (IsSafe-Holds k (some set) safe))

        change-IsSafe :
            (old new : Text) (draw : ℕ) (lock : Option Text) (k : Keyring hd)
            → IsSafe lock k
            → IsSafe
                (lock_after (changing old new draw) (change_passphrase hd c old new draw k).0 lock)
                (change_passphrase hd c old new draw k).1
        unfolding change_passphrase
        change-IsSafe old new draw lock k safe = elim (Bool-cases (is_unlocked hd k.keychain)) [
          | inl open_already ↦ rw open_already safe
          | inr locked ↦
              committed-IsSafe (changing old new draw) lock (some new) k _ _ k.keychain
                (change_passphrase hd c old new draw k) safe (λ u. refl) safe.0
                (λ x h. subst IsKeychain (sym h) safe.0)
                (change_passphrase_reseals hd c master checked laws k lock old new draw
                  (IsSafe-Holds k lock safe) locked)
        ]

        remove-IsSafe :
            (pw : Text) (lock : Option Text) (k : Keyring hd)
            → IsSafe lock k
            → IsSafe
                (lock_after (removing pw) (remove_passphrase hd c pw k).0 lock)
                (remove_passphrase hd c pw k).1
        unfolding remove_passphrase
        remove-IsSafe pw lock k safe = elim (Bool-cases (is_unlocked hd k.keychain)) [
          | inl open_already ↦ rw open_already safe
          | inr locked ↦
              committed-IsSafe (removing pw) lock none k _ _ _ (remove_passphrase hd c pw k) safe
                (λ u. refl) (inr (unlocked_again k lock safe))
                (λ x h. elim h [
                  | inl e ↦ subst IsKeychain (sym e) safe.0
                  | inr e ↦ inr (e ∙ unlocked_again k lock safe)
                ])
                (remove_passphrase_restores hd c master checked laws k lock pw account external
                  internal (IsSafe-Holds k lock safe) locked parse generate)
        ]

        unlock-IsSafe :
            (pw : Text) (lock : Option Text) (k : Keyring hd)
            → IsSafe lock k
            → IsSafe (lock_after (unlocking pw) (unlock hd c pw k).0 lock) (unlock hd c pw k).1
        unfolding unlock
        unlock-IsSafe pw lock k safe = elim (Bool-cases (is_unlocked hd k.keychain)) [
          | inl open_already ↦ rw open_already safe
          | inr locked ↦ unlocked-IsSafe pw lock k _ (unlock hd c pw k) safe (
              unlock_opens hd c master checked k account external internal parse generate lock pw
                (IsSafe-Holds k lock safe) locked)
        ]

        handle-IsSafe :
            (event : Event) (lock : Option Text) (k : Keyring hd)
            → IsSafe lock k
            → IsSafe (lock_after event (handle event k).0 lock) (handle event k).1
        unfolding handle
        handle-IsSafe (setting pw draw) lock k safe = set-IsSafe pw draw lock k safe
        handle-IsSafe (changing old new draw) lock k safe = change-IsSafe old new draw lock k safe
        handle-IsSafe (removing pw) lock k safe = remove-IsSafe pw lock k safe
        handle-IsSafe (unlocking pw) lock k safe = unlock-IsSafe pw lock k safe
        handle-IsSafe expiring lock k safe = expire-IsSafe lock k k.timers refl safe

        -- From a safe keyring, with a cipher that keeps its laws (`IsCrypto`) and a master key that
        -- no passphrase opens to another key (`IsChecked`), no sequence of passphrase calls and
        -- expiring timers loses the master key, whatever passphrases are given and whatever the
        -- engine or the randomness fails: the record always holds it, plainly or sealed under the
        -- passphrase of the last call that succeeded, and the private keys in memory are the
        -- account's or none.
        pub handle_all-IsSafe :
            (events : List Event) (lock : Option Text) (k : Keyring hd)
            → IsSafe lock k
            → IsSafe (handle_all events lock k).0 (handle_all events lock k).1
        unfolding handle_all
        handle_all-IsSafe [] lock k safe = safe
        handle_all-IsSafe (event ∷ events) lock k safe =
            handle_all-IsSafe events (lock_after event (handle event k).0 lock) (handle event k).1
              (handle-IsSafe event lock k safe)
