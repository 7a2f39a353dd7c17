-- ===== src/Keychain/Addresses/Next.antt =====
-- The loop of `NewAddress` over invalid keys ends at the first valid index.
use mathlib.Core.Path.{subst}
use multiwallet.Prelude.{
  ℕ, zero, suc, ◌+◌, ◌≤◌, ◌<◌, ◌≡◌, ◌∙◌, inl, inr, false, some, none, arith, Option-cases,
}
use native.Mathlib.Decide.{ℕ_discrete}
use multiwallet.Database.Tx.{Result, ok}
use multiwallet.Keychain.Keys.{HdKeys, Keychain, derive}
use multiwallet.Keychain.Lookahead.Create.{next_none}
use multiwallet.Keychain.Addresses.{next_external}

module _ (hd : HdKeys) (kc : Keychain hd) where
  -- The first valid index of the external chain from `index` on.
  pub record IsNearest (index : ℕ) (r : Result (ℕ × hd.Key)) : Type 0 where
    pub found : ℕ
    pub key : hd.Key
    pub answer : r ≡ ok (found, key)
    pub valid : derive hd kc false found ≡ some key
    pub behind : index ≤ found
    pub skipped : (i : ℕ) → index ≤ i → i < found → derive hd kc false i ≡ none

  next_external_hit :
      (fuel index : ℕ) (key : hd.Key)
      → derive hd kc false index ≡ some key
      → next_external hd kc (suc fuel) index ≡ ok (index, key)
  unfolding next_external derive
  next_external_hit fuel index key h = rw (h, next_external)

  next_external_miss :
      (fuel index : ℕ)
      → derive hd kc false index ≡ none
      → next_external hd kc (suc fuel) index ≡ next_external hd kc fuel (index + 1)
  unfolding next_external derive
  next_external_miss fuel index h = rw (h, next_external)

  skip_first :
      (index found i : ℕ)
      → derive hd kc false index ≡ none
      → ((i : ℕ) → index + 1 ≤ i → i < found → derive hd kc false i ≡ none)
      → index ≤ i
      → i < found
      → derive hd kc false i ≡ none
  skip_first index found i no_key skipped low high = elim (ℕ_discrete index i) [
    | yes same ↦ subst (λ n. derive hd kc false n ≡ none) same no_key
    | no other ↦ skipped i (omega arith) high
  ]

  pub next_external-IsNearest :
      (fuel index k : ℕ) (key : hd.Key)
      → derive hd kc false (index + k) ≡ some key
      → k < fuel
      → (n : IsNearest index (next_external hd kc fuel index)) × (n.found ≤ index + k)
  next_external-IsNearest zero index k key valid enough = absurd (omega arith)
  next_external-IsNearest (suc fuel) index k key valid enough =
      elim (Option-cases (derive hd kc false index)) [
        | inl no_key ↦
            (let (m, km, valid') = next_none hd kc false index k key no_key valid in
              let (n, close) =
                next_external-IsNearest fuel (index + 1) m key valid' (omega arith) in
              let low = n.behind in
              (
                record {
                  found = n.found;
                  key = n.key;
                  answer = next_external_miss fuel index no_key ∙ n.answer;
                  valid = n.valid;
                  behind = omega arith;
                  skipped = λ i. skip_first index n.found i no_key n.skipped;
                },
                omega arith,
              ))
        | inr (key', here) ↦ (
          record {
            found = index;
            key = key';
            answer = next_external_hit fuel index key' here;
            valid = here;
            behind = omega arith;
            skipped = λ i low high. absurd (omega arith);
          },
          omega arith,
        )
      ]
