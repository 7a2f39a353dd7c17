-- ===== src/Chain/Blocks/Following.antt =====
-- What a new block changes, whether or not it follows the last one.
use multiwallet.Prelude.{
  ℕ, ◌≡◌, refl, sym, ◌∙◌, ap, inl, inr, true, false, none, some, [], ◌∷◌, ◌++◌, Text, Bool-cases,
  Option-cases,
}
use multiwallet.Database.Models.{Tables, CoinRecord, zero_coin}
use multiwallet.Database.Tables.{find_by, upsert}
use multiwallet.Database.Tx.{Result, ok, err, Engine, write, write_tx, update}
use multiwallet.Database.Laws.{
  Commits, Becomes, map-Ends, write-Ends, read-bind-Ends, update-Commits,
}
use multiwallet.Keychain.Passphrase.{or_zero, find_coin, save_coin}
use multiwallet.Chain.Types.{BlockInfo}
use multiwallet.Chain.Blocks.{
  Tip, with_best, save_best, clear_coin, updated_later, follows, after_best, handle_block,
}
use multiwallet.Chain.Blocks.Clearing.{IsCleared, clear_coin-IsCleared}

-- An engine that has failed at some statement.
abbrev pub HasFault : Engine → Type 0
HasFault e = (n : ℕ) × (e.faults n ≡ true)

-- The coin's record has the block; or there is none, and a new record has the block and nothing else,
-- not even the coin; or nothing changed, since the engine failed.
pub data IsRecorded (coin : Text) (block : BlockInfo) (before : Tables) (e : Engine) : Type 0 where
  recorded :
      (rec : CoinRecord)
      → find_by (λ r. r.coin) coin before.coins ≡ some rec
      → e.tables ≡ record before { coins = upsert (λ r. r.coin) (with_best block rec) before.coins }
      → IsRecorded coin block before e
  created :
      find_by (λ r. r.coin) coin before.coins ≡ none
      → e.tables
        ≡ record before { coins = upsert (λ r. r.coin) (with_best block zero_coin) before.coins }
      → IsRecorded coin block before e
  not_recorded : HasFault e → e.tables ≡ before → IsRecorded coin block before e

-- The coin's transactions and utxos are gone, or nothing changed, since the engine failed.
pub data IsReset (coin : Text) (before : Tables) (e : Engine) : Type 0 where
  reset : IsCleared coin before e.tables → IsReset coin before e
  not_reset : HasFault e → e.tables ≡ before → IsReset coin before e

-- The two updates, with the engine between them.
pub record IsHandled (coin : Text) (block : BlockInfo) (t t' : Tip) : Type 0 where
  pub middle : Engine
  pub recorded : IsRecorded coin block t.engine.tables middle
  pub best : t'.best ≡ block
  pub unconfirmed : t'.unconfirmed ≡ t.unconfirmed
  pub updates : t'.updates ≡ updated_later t.unconfirmed t.updates
  pub goes_on : follows t.best block ≡ true → (t'.engine ≡ middle) × (t'.scans ≡ t.scans)
  pub reorganizes :
      follows t.best block ≡ false
      → IsReset coin middle.tables t'.engine × (t'.scans ≡ t.scans ++ 0 ∷ [])

module _ (coin : Text) (block : BlockInfo) where
  abbrev stored : Tables → CoinRecord → Tables
  stored T rec = record T { coins = upsert (λ r. r.coin) (with_best block rec) T.coins }

  save_best-Commits :
      (e : Engine)
      → Commits
          (λ _ T. T ≡ stored e.tables (find_coin coin e.tables))
          (λ _. ⊥)
          e.tables
          (update (save_best coin block) e)
  unfolding save_best save_coin write_tx
  save_best-Commits e =
      update-Commits (λ _ T. T ≡ stored e.tables (find_coin coin e.tables)) (λ _. ⊥) e
        (save_best coin block)
        (read-bind-Ends (find_coin coin) (λ rec. save_coin (with_best block rec))
          (λ _ t. t.tables ≡ stored e.tables (find_coin coin e.tables)) (λ _. ⊥) (write_tx e)
          (λ t h.
            map-Ends (λ _ v. Becomes t (stored t.tables (find_coin coin e.tables)) v)
              (λ _ v. v.tables ≡ stored e.tables (find_coin coin e.tables)) (λ _. ⊥) (λ _. ⊥)
              (write (λ T. stored T (find_coin coin e.tables)) t)
              (λ _ v k. k.0 ∙ ap (λ T. stored T (find_coin coin e.tables)) h.0) (λ _ x. x)
              (write-Ends (λ T. stored T (find_coin coin e.tables)) t h.1)))

  stored-IsRecorded :
      (T : Tables) (e : Engine) → e.tables ≡ stored T (find_coin coin T) → IsRecorded coin block T e
  stored-IsRecorded T e h = elim (Option-cases (find_by (λ r. r.coin) coin T.coins)) [
    | inl none_there ↦ created none_there (h ∙ ap (λ o. stored T (or_zero o)) none_there)
    | inr (rec, found) ↦ recorded rec found (h ∙ ap (λ o. stored T (or_zero o)) found)
  ]

  Commits-IsRecorded :
      (T : Tables) (r : Result (Unit {0}) × Engine)
      → Commits (λ _ T'. T' ≡ stored T (find_coin coin T)) (λ _. ⊥) T r
      → IsRecorded coin block T r.1
  Commits-IsRecorded T (ok a, e) h = stored-IsRecorded T e h
  Commits-IsRecorded T (err x, e) (same, inl never) = absurd never
  Commits-IsRecorded T (err x, e) (same, inr fault) = not_recorded fault.1 same

  Commits-IsReset :
      (T : Tables) (r : Result (Unit {0}) × Engine)
      → Commits (λ _ T'. IsCleared coin T T') (λ _. ⊥) T r
      → IsReset coin T r.1
  Commits-IsReset T (ok a, e) h = reset h
  Commits-IsReset T (err x, e) (same, inl never) = absurd never
  Commits-IsReset T (err x, e) (same, inr fault) = not_reset fault.1 same

  after_best-IsHandled :
      (t : Tip) (e : Engine)
      → IsRecorded coin block t.engine.tables e
      → IsHandled coin block t (after_best coin block t e)
  after_best-IsHandled t e h = elim (Bool-cases (follows t.best block)) [
    | inl next ↦ rw next (record {
      middle = e;
      recorded = h;
      best = refl;
      unconfirmed = refl;
      updates = refl;
      goes_on = λ _. (refl, refl);
      reorganizes = λ other. (let no : true ≡ false = sym next ∙ other in absurd (cc (no)));
    })
    | inr apart ↦ rw apart (record {
      middle = e;
      recorded = h;
      best = refl;
      unconfirmed = refl;
      updates = refl;
      goes_on = λ same. (let no : true ≡ false = sym same ∙ apart in absurd (cc (no)));
      reorganizes = λ _. (
        Commits-IsReset e.tables (update (clear_coin coin) e) (clear_coin-IsCleared coin e),
        refl,
      );
    })
  ]

  pub handle_block-IsHandled : (t : Tip) → IsHandled coin block t (handle_block coin block t)
  unfolding handle_block
  handle_block-IsHandled t = after_best-IsHandled t (update (save_best coin block) t.engine).1 (
      Commits-IsRecorded t.engine.tables (update (save_best coin block) t.engine)
        (save_best-Commits t.engine))
