-- ===== src/Keychain/Passphrase/Failures.antt =====
-- What a failing database leaves in memory.
use multiwallet.Prelude.{◌+◌, ◌≡◌, refl, ◌∙◌, ap, true, false, some, Text}
use multiwallet.Database.Models.{CoinRecord}
use multiwallet.Database.Tx.{
  ok, err, engine, Session, ◌>>=◌, lift, query, statement, write, or_error, invalid_passphrase,
  write_tx, finish,
}
use multiwallet.Database.Laws.{bind_ok}
use multiwallet.Keychain.Keys.{HdKeys, Keychain, generate_account_keys}
use multiwallet.Keychain.Passphrase.{
  Crypto, Keyring, on_db, with_keys, in_update, is_unlocked, find_coin, save_coin, plain_record,
  open_record, remove_passphrase, remove_passphrase_tx,
}
use multiwallet.Keychain.Passphrase.Seals.{Holds}
use multiwallet.Keychain.Passphrase.Calls.{find_coin-some}
use multiwallet.Keychain.Passphrase.Openings.{remove_steps, restore_steps}

module _ (hd : HdKeys) where
  abbrev next_step : Session → Session
  next_step s = record s { step = s.step + 1 }

  find_answers :
      (coin : Text) (s : Session) (kc : Keychain hd)
      → s.faults s.step ≡ false
      → on_db hd (query (λ t. ok (find_coin coin t))) (s, kc)
        ≡ (ok (find_coin coin s.tables), (next_step s, kc))
  unfolding query statement
  find_answers coin s kc good = rw good refl

  save_fails :
      (rec : CoinRecord) (s : Session) (kc : Keychain hd)
      → s.for_writes ≡ true
      → s.faults s.step ≡ true
      → on_db hd (save_coin rec) (s, kc) ≡ (err engine, (next_step s, kc))
  unfolding save_coin write statement
  save_fails rec s kc w bad = rw (w, bad) refl

  module _ (c : Crypto) (master : Text) (k : Keyring hd) (account external internal : hd.Key)
      (parse : hd.from_text master ≡ some account)
      (generate : generate_account_keys hd account ≡ ok (external, internal)) where
    abbrev opened_chain : Keychain hd
    opened_chain = with_keys hd (some external) (some internal) k.keychain

    restore_fails :
        (rec : CoinRecord) (s : Session)
        → s.for_writes ≡ true
        → s.faults s.step ≡ true
        → restore_steps hd c rec master account (s, k.keychain)
          ≡ (err engine, (next_step s, opened_chain))
    restore_fails rec s w bad =
        rw generate (save_fails (plain_record master rec) s opened_chain w bad)

    remove_fails :
        (pw : Text) (rec : CoinRecord) (s : Session)
        → find_coin k.keychain.coin_type s.tables ≡ rec
        → open_record c pw rec ≡ ok master
        → s.for_writes ≡ true
        → s.faults s.step ≡ false
        → s.faults (s.step + 1) ≡ true
        → remove_passphrase_tx hd c k.keychain.coin_type pw (s, k.keychain)
          ≡ (err engine, (next_step (next_step s), opened_chain))
    unfolding remove_passphrase_tx
    remove_fails pw rec s found opened w good bad =
        bind_ok (on_db hd (query (λ t. ok (find_coin k.keychain.coin_type t))))
          (remove_steps hd c pw) (s, k.keychain) rec (next_step s, k.keychain)
          (find_answers k.keychain.coin_type s k.keychain good
            ∙ ap (λ r. (ok r, (next_step s, k.keychain))) found)
        ∙ bind_ok (lift (open_record c pw rec))
            (λ text.
              lift (or_error invalid_passphrase (hd.from_text text))
              >>= restore_steps hd c rec text)
            (next_step s, k.keychain) master (next_step s, k.keychain)
            (ap (λ r. (r, (next_step s, k.keychain))) opened)
        ∙ bind_ok (lift (or_error invalid_passphrase (hd.from_text master)))
            (restore_steps hd c rec master) (next_step s, k.keychain) account
            (next_step s, k.keychain) (rw parse refl)
        ∙ restore_fails rec (next_step s) w bad

    -- Where the engine answers the query of `RemovePassphrase` and fails its save, and the call has the
    -- right passphrase of a locked keychain, it ends with the engine's error: the record stays sealed
    -- and no timer starts, but both private keys are in memory.
    pub remove_passphrase_leaves_keys :
        (pw : Text)
        → Holds c k.keychain.coin_type master (some pw) k.engine.tables
        → is_unlocked hd k.keychain ≡ false
        → k.engine.faults (k.engine.step + 1) ≡ false
        → k.engine.faults (k.engine.step + 1 + 1) ≡ true
        → let (r, k') = remove_passphrase hd c pw k in
          (r ≡ err engine)
          × Holds c k.keychain.coin_type master (some pw) k'.engine.tables
          × (k'.timers ≡ k.timers)
          × (k'.keychain ≡ with_keys hd (some external) (some internal) k.keychain)
    unfolding remove_passphrase in_update finish write_tx
    remove_passphrase_leaves_keys pw (rec, found, (sealed, opened)) locked good bad =
        rw
          (
            locked,
            remove_fails pw rec (write_tx k.engine)
                (find_coin-some k.keychain.coin_type rec k.engine.tables found) opened refl good
                bad,
          )
          (refl, (rec, found, (sealed, opened)), refl, refl)
