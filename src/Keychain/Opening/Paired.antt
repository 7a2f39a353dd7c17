-- ===== src/Keychain/Opening/Paired.antt =====
-- A new keychain has paired keys and filled windows.
use mathlib.Core.Path.{subst}
use multiwallet.Prelude.{
  ℕ, ◌+◌, ◌≡◌, refl, sym, ◌∙◌, ap, Bool, true, false, Option, none, some, inl, inr, Bool-cases,
  Option-cases, if◌then◌else◌, Text, arith,
}
use multiwallet.Database.Models.{CoinRecord, Tables}
use multiwallet.Database.Tx.{
  Result, ok, err, engine, Exec, Engine, ◌>>=◌, ◌>>◌, pure, lift, query, statement, view, read_tx,
  write_tx,
}
use multiwallet.Database.Laws.{Commits, bind_ok, bind_err, update-Commits, map-Ends}
use multiwallet.Keychain.Keys.{HdKeys, Keychain, generate_account_keys, IsDerivable}
use multiwallet.Keychain.Lookahead.{extend_in_update, extend_keychain}
use multiwallet.Keychain.Lookahead.Meaning.{windows}
use multiwallet.Keychain.Lookahead.Extend.{CanExtend, IsExtended, filled, extend_keychain_fills}
use multiwallet.Keychain.Addresses.PrivateKeys.{IsPaired}
use multiwallet.Keychain.Passphrase.{find_coin}
use multiwallet.Keychain.Opening.{
  KeychainConfig, chains_of, private_chains, keychain_of, new_keychain,
}

module _ (hd : HdKeys) where
  -- BIP32 derives the public key of a private child from the public parent.
  abbrev pub HasPublicChildren : Type 0
  HasPublicChildren =
      (k c : hd.Key) (i : ℕ) → hd.child k i ≡ some c → hd.child (hd.neuter k) i ≡ some (hd.neuter c)

  chains_there :
      (account external internal : hd.Key)
      → generate_account_keys hd account ≡ ok (external, internal)
      → (hd.child account 0 ≡ some external) × (hd.child account 1 ≡ some internal)
  unfolding generate_account_keys
  chains_there account external internal h = elim (Option-cases (hd.child account 0)) [
    | inl e ↦ absurd (ground arith)
    | inr (k, e) ↦ elim (Option-cases (hd.child account 1)) [
      | inl f ↦ absurd (ground arith)
      | inr (j, f) ↦
          (let same : ok (k, j) ≡ ok (external, internal) = ground arith in
            (e ∙ ap (λ r. some (first_of k r)) same, f ∙ ap (λ r. some (second_of j r)) same))
    ]
  ]
    where
      first_of : hd.Key → Result (hd.Key × hd.Key) → hd.Key
      first_of d (ok p) = p.0
      first_of d (err x) = d

      second_of : hd.Key → Result (hd.Key × hd.Key) → hd.Key
      second_of d (ok p) = p.1
      second_of d (err x) = d

  neuter-chains :
      (account external internal : hd.Key)
      → HasPublicChildren
      → generate_account_keys hd account ≡ ok (external, internal)
      → generate_account_keys hd (hd.neuter account) ≡ ok (hd.neuter external, hd.neuter internal)
  unfolding generate_account_keys
  neuter-chains account external internal law h =
      let (e, i) = chains_there account external internal h in
      rw (law account external 0 e, law account internal 1 i) refl

  abbrev stepped : Engine → Engine
  stepped e = record { tables = e.tables; step = e.step + 1; faults = e.faults }

  view_answers :
      (coin : Text) (e : Engine)
      → e.faults e.step ≡ false
      → view (query (λ t. ok (find_coin coin t))) e ≡ (ok (find_coin coin e.tables), stepped e)
  unfolding view query statement read_tx
  view_answers coin e good = rw good refl

  view_fails :
      (coin : Text) (e : Engine)
      → e.faults e.step ≡ true
      → view (query (λ t. ok (find_coin coin t))) e ≡ (err engine, stepped e)
  unfolding view query statement read_tx
  view_fails coin e bad = rw bad refl

  answer-Commits :
      {B P : Type 0} (Q : Tables → Type 0) (b : B) (before : Tables)
      (r : Result (Unit {0}) × Engine)
      → P
      → Commits (λ _ T. Q T) (λ _. ⊥) before r
      → Commits
          (λ a T. (a ≡ b) × P × Q T)
          (λ _. ⊥)
          before
          (((λ (_ : Engine). r) >>= λ _. pure b) r.1)
  answer-Commits Q b before (ok u, e) p h = (refl, p, h)
  answer-Commits Q b before (err x, e) p h = h

  -- The steps of `NewKeychain`, from the end.
  abbrev after_priv :
      ℕ
      → KeychainConfig
      → Text
      → hd.Key × hd.Key
      → Option hd.Key × Option hd.Key
      → Exec Engine (Keychain hd)
  after_priv fuel cfg coin pub_keys priv_keys = do
    extend_in_update hd (keychain_of hd cfg coin pub_keys priv_keys) fuel
    pure (keychain_of hd cfg coin pub_keys priv_keys)

  abbrev after_pub :
      ℕ → KeychainConfig → Text → CoinRecord → hd.Key × hd.Key → Exec Engine (Keychain hd)
  after_pub fuel cfg coin rec pub_keys =
      lift (private_chains hd rec) >>= after_priv fuel cfg coin pub_keys

  abbrev after_record : ℕ → KeychainConfig → Text → CoinRecord → Exec Engine (Keychain hd)
  after_record fuel cfg coin rec =
      lift (chains_of hd (hd.from_text rec.master_pub)) >>= after_pub fuel cfg coin rec

  module _ (account external internal : hd.Key) (law : HasPublicChildren)
      (generate : generate_account_keys hd account ≡ ok (external, internal)) where
    -- The keys in memory: none where the record is encrypted.
    abbrev pub held_keys : Bool → Option hd.Key × Option hd.Key
    held_keys encrypted = if encrypted then (none, none) else (some external, some internal)

    abbrev pub opened : KeychainConfig → Text → Bool → Keychain hd
    opened cfg coin encrypted =
        keychain_of hd cfg coin (hd.neuter external, hd.neuter internal) (held_keys encrypted)

    given_keys :
        (a e i : hd.Key)
        → some account ≡ some a
        → generate_account_keys hd a ≡ ok (e, i)
        → (hd.neuter e ≡ hd.neuter external) × (hd.neuter i ≡ hd.neuter internal)
    given_keys a e i same h =
        let this : account ≡ a = cc in
        let at =
          chains_there account e i
            (subst (λ x. generate_account_keys hd x ≡ ok (e, i)) (sym this) h) in
        let here = chains_there account external internal generate in
        (ap hd.neuter (cc (at.0, here.0)), ap hd.neuter (cc (at.1, here.1)))

    opened-IsPaired :
        (cfg : KeychainConfig) (coin : Text) (encrypted : Bool)
        → IsPaired hd (opened cfg coin encrypted) (some account)
    opened-IsPaired cfg coin true = record {
      external = λ k h. absurd (cc (h));
      internal = λ k h. absurd (cc (h));
      given = given_keys;
      public_child = law;
    }
    opened-IsPaired cfg coin false = record {
      external = λ k h. let same : external ≡ k = cc in ap hd.neuter (sym same);
      internal = λ k h. let same : internal ≡ k = cc in ap hd.neuter (sym same);
      given = given_keys;
      public_child = law;
    }

    private_chains-held_keys :
        (rec : CoinRecord)
        → (rec.encrypted_master_key ≡ false → hd.from_text rec.master_priv ≡ some account)
        → private_chains hd rec ≡ ok (held_keys rec.encrypted_master_key)
    private_chains-held_keys rec priv = elim (Bool-cases rec.encrypted_master_key) [
      | inl sealed ↦ rw sealed refl
      | inr plain ↦ rw (plain, priv plain, generate) refl
    ]

    module _ (fuel gap : ℕ) (cfg : KeychainConfig) (coin : Text) (e : Engine) (rec : CoinRecord)
        (found : find_coin coin e.tables ≡ rec)
        (pub_key : hd.from_text rec.master_pub ≡ some (hd.neuter account))
        (priv_key : rec.encrypted_master_key ≡ false → hd.from_text rec.master_priv ≡ some account)
        (derivable : IsDerivable hd (opened cfg coin rec.encrypted_master_key) gap)
        (can : CanExtend hd
          (opened cfg coin rec.encrypted_master_key)
          gap
          fuel
          e.tables.addresses) where
      abbrev made : Keychain hd
      made = opened cfg coin rec.encrypted_master_key

      abbrev IsFilled : Tables → Type 0
      IsFilled T = windows hd made T.addresses ≡ filled hd made (windows hd made e.tables.addresses)

      extend-Commits :
          Commits (λ _ T. IsFilled T) (λ _. ⊥) e.tables (extend_in_update hd made fuel (stepped e))
      unfolding extend_in_update write_tx
      extend-Commits =
          update-Commits (λ _ T. IsFilled T) (λ _. ⊥) (stepped e) (extend_keychain hd made fuel)
            (map-Ends
              (λ _ t.
                IsExtended hd made e.tables e.tables.addresses
                  (filled hd made (windows hd made e.tables.addresses)) t)
              _ (λ _. ⊥) (λ _. ⊥) _
              (λ _ t (new, at, w, ws, spare).
                ap (λ (T : Tables). windows hd made T.addresses) at ∙ ws)
              (λ _ x. x)
              (extend_keychain_fills hd made derivable fuel e.tables e.tables.addresses
                (write_tx (stepped e)) can refl refl))

      begun :
          e.faults e.step ≡ false
          → new_keychain hd fuel cfg coin e
            ≡ (extend_in_update hd made fuel >> pure made) (stepped e)
      unfolding new_keychain
      begun good =
          bind_ok (view (query (λ t. ok (find_coin coin t)))) (after_record fuel cfg coin) e rec
            (stepped e) (view_answers coin e good ∙ ap (λ r. (ok r, stepped e)) found)
          ∙ bind_ok (lift (chains_of hd (hd.from_text rec.master_pub)))
              (after_pub fuel cfg coin rec) (stepped e) (hd.neuter external, hd.neuter internal)
              (stepped e)
              (ap (λ r. (chains_of hd r, stepped e)) pub_key
                ∙ ap (λ r. (r, stepped e)) (neuter-chains account external internal law generate))
          ∙ bind_ok (lift (private_chains hd rec))
              (after_priv fuel cfg coin (hd.neuter external, hd.neuter internal)) (stepped e)
              (held_keys rec.encrypted_master_key) (stepped e)
              (ap (λ r. (r, stepped e)) (private_chains-held_keys rec priv_key))

      ended : e.faults e.step ≡ true → new_keychain hd fuel cfg coin e ≡ (err engine, stepped e)
      unfolding new_keychain
      ended bad =
          bind_err (view (query (λ t. ok (find_coin coin t)))) (after_record fuel cfg coin) e engine
            (stepped e) (view_fails coin e bad)

      pub new_keychain-IsPaired :
          Commits
            (λ kc T.
              (kc ≡ opened cfg coin rec.encrypted_master_key)
              × IsPaired hd (opened cfg coin rec.encrypted_master_key) (some account)
              × (windows hd (opened cfg coin rec.encrypted_master_key) T.addresses
                  ≡ filled hd
                      (opened cfg coin rec.encrypted_master_key)
                      (windows hd (opened cfg coin rec.encrypted_master_key) e.tables.addresses)))
            (λ _. ⊥)
            e.tables
            (new_keychain hd fuel cfg coin e)
      new_keychain-IsPaired = elim (Bool-cases (e.faults e.step)) [
        | inl bad ↦ rw (ended bad) (refl, inr (refl, (e.step, bad)))
        | inr good ↦ rw (begun good) (
            answer-Commits IsFilled made e.tables (extend_in_update hd made fuel (stepped e))
              (opened-IsPaired cfg coin rec.encrypted_master_key) extend-Commits)
      ]
