-- ===== src/Keychain/Addresses/PrivateKeys.antt =====
-- The private keys that `KeyForAddress` goes by belong to the public keys of the chains.
use mathlib.Core.Path.{subst}
use multiwallet.Prelude.{
  ℕ, ◌≡◌, ◌≢◌, ◌⊎◌, inl, inr, refl, ◌∙◌, ap, sym, Bool, true, false, Option, some, none, arith,
  Option-cases, if◌then◌else◌,
}
use multiwallet.Database.Tx.{Error, Result, ok, err, bad_key}
use multiwallet.Keychain.Keys.{HdKeys, Keychain, generate_account_keys}
use multiwallet.Keychain.Addresses.{private_keys, both_keys}

-- The private keys, where there are any, belong to the public ones; BIP32 derives the public key of
-- a private child from the public parent.
pub record IsPaired (hd : HdKeys) (kc : Keychain hd) (account : Option hd.Key) : Type 0 where
  pub external : (k : hd.Key) → kc.external_privkey ≡ some k → hd.neuter k ≡ kc.external_pubkey
  pub internal : (k : hd.Key) → kc.internal_privkey ≡ some k → hd.neuter k ≡ kc.internal_pubkey
  pub given :
      (a e i : hd.Key)
      → account ≡ some a
      → generate_account_keys hd a ≡ ok (e, i)
      → (hd.neuter e ≡ kc.external_pubkey) × (hd.neuter i ≡ kc.internal_pubkey)
  pub public_child :
      (k c : hd.Key) (i : ℕ) → hd.child k i ≡ some c → hd.child (hd.neuter k) i ≡ some (hd.neuter c)

module _ (hd : HdKeys) (kc : Keychain hd) where
  -- An account key of which BIP32 has no key for one of the chains.
  abbrev pub IsBadAccount : Option hd.Key → Type 0
  IsBadAccount account =
      (a : hd.Key) × (account ≡ some a) × ((hd.child a 0 ≡ none) ⊎ (hd.child a 1 ≡ none))

  account_keys :
      (a e i : hd.Key)
      → generate_account_keys hd a ≡ ok (e, i)
      → (hd.child a 0 ≡ some e) × (hd.child a 1 ≡ some i)
  unfolding generate_account_keys
  account_keys a e i h = elim (Option-cases (hd.child a 0)) [
    | inl p ↦ absurd (ground arith)
    | inr (k, p) ↦ elim (Option-cases (hd.child a 1)) [
      | inl q ↦ absurd (ground arith)
      | inr (j, q) ↦ ground arith
    ]
  ]

  account_error :
      (a : hd.Key) (x : Error)
      → generate_account_keys hd a ≡ err x
      → (x ≡ bad_key) × ((hd.child a 0 ≡ none) ⊎ (hd.child a 1 ≡ none))
  unfolding generate_account_keys
  account_error a x h = elim (Option-cases (hd.child a 0)) [
    | inl e ↦ (ground arith, inl e)
    | inr (k, e) ↦ elim (Option-cases (hd.child a 1)) [
      | inl f ↦ (ground arith, inr f)
      | inr (j, f) ↦ absurd (ground arith)
    ]
  ]

  both_keys-error :
      (a : hd.Key) (g : Result (hd.Key × hd.Key)) (x : Error)
      → generate_account_keys hd a ≡ g
      → both_keys hd kc g ≡ err x
      → (x ≡ bad_key) × IsBadAccount (some a)
  both_keys-error a (ok (e, i)) x hg h = absurd (cc)
  both_keys-error a (err y) x hg h =
      let same : y ≡ x = cc in
      let (kind, bad) = account_error a y hg in (sym same ∙ kind, (a, refl, bad))

  -- The private keys are refused only for a bad account key, where one of them is not in memory.
  pub private_keys-error :
      (e i account : Option hd.Key) (x : Error)
      → private_keys hd kc e i account ≡ err x
      → (x ≡ bad_key) × IsBadAccount account × ((e ≡ none) ⊎ (i ≡ none))
  private_keys-error (some x) (some y) a z h = absurd (cc)
  private_keys-error (some x) none none z h = absurd (cc)
  private_keys-error none i none z h = absurd (cc)
  private_keys-error (some x) none (some a) z h =
      let (kind, bad) = both_keys-error a (generate_account_keys hd a) z refl h in
      (kind, bad, inr refl)
  private_keys-error none i (some a) z h =
      let (kind, bad) = both_keys-error a (generate_account_keys hd a) z refl h in
      (kind, bad, inl refl)

  -- Of the keys `e` and `i` in memory and the account key, the private key of a chain.
  abbrev pub IsHeld : Option hd.Key → Option hd.Key → Option hd.Key → Bool → hd.Key → Type 0
  IsHeld e i account change k =
      ((if change then i else e) ≡ some k)
      ⊎ ((a : hd.Key) × (account ≡ some a) × (hd.child a (if change then 1 else 0) ≡ some k))

  both_keys-IsHeld :
      (a : hd.Key) (g : Result (hd.Key × hd.Key)) (p : Option hd.Key × Option hd.Key)
      (change : Bool) (k : hd.Key)
      → generate_account_keys hd a ≡ g
      → both_keys hd kc g ≡ ok p
      → (if change then p.1 else p.0) ≡ some k
      → hd.child a (if change then 1 else 0) ≡ some k
  both_keys-IsHeld a (ok (e, i)) p true k hg h at = (account_keys a e i hg).1 ∙ ground arith
  both_keys-IsHeld a (ok (e, i)) p false k hg h at = (account_keys a e i hg).0 ∙ ground arith
  both_keys-IsHeld a (err x) p change k hg h at = absurd (cc)

  pub private_keys-IsHeld :
      (e i account : Option hd.Key) (p : Option hd.Key × Option hd.Key) (change : Bool) (k : hd.Key)
      → private_keys hd kc e i account ≡ ok p
      → (if change then p.1 else p.0) ≡ some k
      → IsHeld e i account change k
  private_keys-IsHeld (some x) (some y) a p change k h at = inl (ground arith)
  private_keys-IsHeld (some x) none none p change k h at = inl (ground arith)
  private_keys-IsHeld none i none p change k h at = inl (ground arith)
  private_keys-IsHeld (some x) none (some a) p change k h at =
      inr (a, refl, both_keys-IsHeld a (generate_account_keys hd a) p change k refl h at)
  private_keys-IsHeld none i (some a) p change k h at =
      inr (a, refl, both_keys-IsHeld a (generate_account_keys hd a) p change k refl h at)

  -- Without an account key the private keys are those in memory.
  pub private_keys-none :
      (e i : Option hd.Key) (p : Option hd.Key × Option hd.Key) (change : Bool)
      → private_keys hd kc e i none ≡ ok p
      → (if change then p.1 else p.0) ≡ none
      → (if change then i else e) ≡ none
  private_keys-none (some x) (some y) p change h at = ground arith
  private_keys-none (some x) none p change h at = ground arith
  private_keys-none none i p change h at = ground arith

module _ (hd : HdKeys) (kc : Keychain hd) (account : Option hd.Key)
    (paired : IsPaired hd kc account) where
  -- The two keys belong to the chains, if they are there.
  abbrev pub ArePaired : Option hd.Key × Option hd.Key → Type 0
  ArePaired (e, i) =
      ((k : hd.Key) → e ≡ some k → hd.neuter k ≡ kc.external_pubkey)
      × ((k : hd.Key) → i ≡ some k → hd.neuter k ≡ kc.internal_pubkey)

  in_memory :
      (e i : Option hd.Key) (p : Option hd.Key × Option hd.Key)
      → kc.external_privkey ≡ e
      → kc.internal_privkey ≡ i
      → ok (e, i) ≡ ok p
      → ArePaired p
  in_memory e i p he hi h = (
    λ k at. paired.external k (he ∙ fst_of h ∙ at),
    λ k at. paired.internal k (hi ∙ snd_of h ∙ at),
  )
    where
      get : Result (Option hd.Key × Option hd.Key) → Option hd.Key × Option hd.Key
      get (ok x) = x
      get (err x) = (none, none)

      fst_of : ok (e, i) ≡ ok p → e ≡ p.0
      fst_of q = ap (λ r. (get r).0) q

      snd_of : ok (e, i) ≡ ok p → i ≡ p.1
      snd_of q = ap (λ r. (get r).1) q

  from_account :
      (a : hd.Key) (g : Result (hd.Key × hd.Key)) (p : Option hd.Key × Option hd.Key)
      → account ≡ some a
      → generate_account_keys hd a ≡ g
      → both_keys hd kc g ≡ ok p
      → ArePaired p
  from_account a (ok (e, i)) p ha hg h =
      let pair = paired.given a e i ha hg in
      (
        λ k at. let same : e ≡ k = cc in subst (λ x. hd.neuter x ≡ kc.external_pubkey) same pair.0,
        λ k at. let same : i ≡ k = cc in subst (λ x. hd.neuter x ≡ kc.internal_pubkey) same pair.1,
      )
  from_account a (err x) p ha hg h = absurd (cc)

  pub private_keys-paired :
      (e i a : Option hd.Key) (p : Option hd.Key × Option hd.Key)
      → kc.external_privkey ≡ e
      → kc.internal_privkey ≡ i
      → account ≡ a
      → private_keys hd kc e i a ≡ ok p
      → ArePaired p
  private_keys-paired (some x) (some y) a p he hi ha h = in_memory (some x) (some y) p he hi h
  private_keys-paired (some x) none none p he hi ha h = in_memory (some x) none p he hi h
  private_keys-paired none i none p he hi ha h = in_memory none i p he hi h
  private_keys-paired (some x) none (some a) p he hi ha h =
      from_account a (generate_account_keys hd a) p ha refl h
  private_keys-paired none i (some a) p he hi ha h =
      from_account a (generate_account_keys hd a) p ha refl h

  both_keys-cases :
      (change : Bool) (g : Result (hd.Key × hd.Key)) (p : Option hd.Key × Option hd.Key)
      → both_keys hd kc g ≡ ok p
      → (if change then p.1 else p.0) ≢ none
  both_keys-cases true (ok (e, i)) p h n = cc (ap (λ r. second r) h, n)
    where
      second : Result (Option hd.Key × Option hd.Key) → Option hd.Key
      second (ok x) = x.1
      second (err x) = none
  both_keys-cases false (ok (e, i)) p h n = cc (ap (λ r. first_of r) h, n)
    where
      first_of : Result (Option hd.Key × Option hd.Key) → Option hd.Key
      first_of (ok x) = x.0
      first_of (err x) = none
  both_keys-cases change (err x) p h n = cc

  -- With an account key given, neither key is missing.
  pub private_keys-given :
      (change : Bool) (e i : Option hd.Key) (a : hd.Key) (p : Option hd.Key × Option hd.Key)
      → private_keys hd kc e i (some a) ≡ ok p
      → (if change then p.1 else p.0) ≢ none
  private_keys-given change (some x) (some y) a p h n = both_keys-cases change (ok (x, y)) p h n
  private_keys-given change (some x) none a p h n =
      both_keys-cases change (generate_account_keys hd a) p h n
  private_keys-given change none i a p h n =
      both_keys-cases change (generate_account_keys hd a) p h n
