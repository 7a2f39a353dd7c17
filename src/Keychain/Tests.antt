-- ===== src/Keychain/Tests.antt =====
-- The keychain over a small key tree, and the theorems at it.
pub mod Runs
pub mod Openings
pub mod Passphrases
use multiwallet.Prelude.{
  ℕ, zero, suc, ◌+◌, ◌%◌, ◌^◌, ◌≤◌, ◌<◌, ◌≡◌, ◌≢◌, refl, sym, ◌∙◌, ap, ◌⊎◌, inl, inr, Bool, true,
  false, Option, none, some, List, [], ◌∷◌, arith, All, Text, codes, text_eq, ◌==◌, if◌then◌else◌,
  Bool-cases,
}
use multiwallet.Database.Models.{AddressRecord, Tables, empty_tables}
use multiwallet.Database.Tables.{find_by}
use multiwallet.Database.Tx.{Engine, Session, Result, ok, err, write_tx}
use multiwallet.Database.Laws.{Ends, Commits}
use multiwallet.Keychain.Keys.{
  HdKeys, Keychain, hardened, derive, address_at, chain_key, uint32, IsDerivable,
}
use multiwallet.Keychain.Lookahead.{extend_keychain}
use multiwallet.Keychain.Lookahead.Placement.{IsPlaced}

-- A key is its path, private or public; the index 5 is invalid everywhere.
abbrev pub tree : HdKeys
tree = record {
  Key = Bool × List ℕ;
  child = λ k i. if i == 5 then none else some (k.0, i ∷ k.1);
  neuter = λ k. (false, k.1);
  from_text = λ t. some (if text_eq t (codes "xpub") then false else true, []);
  address = λ k. some k.1;
}

abbrev pub chain : Keychain tree
chain = record {
  internal_privkey = some (true, 1 ∷ []);
  internal_pubkey = (false, 1 ∷ []);
  external_privkey = some (true, 0 ∷ []);
  external_pubkey = (false, 0 ∷ []);
  lookahead_window_size = 3;
  external_only = false;
  disable_mark_as_used = false;
  coin_type = codes "BTC";
}

leg : Bool → Text
leg change = (if change then 1 else 0) ∷ []

uint32-low : (i : ℕ) → i < hardened + 1 → uint32 i ≡ i
uint32-low i h = omega arith

derive-valid :
    (change : Bool) (i : ℕ)
    → (uint32 i == 5) ≡ false
    → derive tree chain change i ≡ some (false, uint32 i ∷ leg change)
unfolding derive chain_key leg
derive-valid true i h = rw h
derive-valid false i h = rw h

address-derived :
    (change : Bool) (i : ℕ) (a : Text)
    → address_at tree chain change i ≡ some a
    → a ≡ uint32 i ∷ leg change
unfolding address_at derive chain_key leg
address-derived true i a h = elim (Bool-cases (uint32 i == 5)) [
  | inl bad ↦ absurd (ground arith)
  | inr good ↦ ground arith
]
address-derived false i a h = elim (Bool-cases (uint32 i == 5)) [
  | inl bad ↦ absurd (ground arith)
  | inr good ↦ ground arith
]

leg-injective : (c d : Bool) → leg c ≡ leg d → c ≡ d
unfolding leg
leg-injective true true h = refl
leg-injective true false h = absurd (omega (arith, ap head_of h))
  where
    head_of : Text → ℕ
    head_of [] = 0
    head_of (x ∷ xs) = x
leg-injective false true h = absurd (omega (arith, ap head_of h))
  where
    head_of : Text → ℕ
    head_of [] = 0
    head_of (x ∷ xs) = x
leg-injective false false h = refl

same_place :
    (c d : Bool) (i j : ℕ)
    → i < hardened
    → j < hardened
    → uint32 i ∷ leg c ≡ uint32 j ∷ leg d
    → (c ≡ d) × (i ≡ j)
same_place c d i j hi hj h = (
  leg-injective c d (ap tail_of h),
  sym (uint32-low i (omega arith)) ∙ ap head_of h ∙ uint32-low j (omega arith),
)
  where
    head_of : Text → ℕ
    head_of [] = 0
    head_of (x ∷ xs) = x

    tail_of : Text → Text
    tail_of [] = []
    tail_of (x ∷ xs) = xs

next_valid-tree :
    (change : Bool) (i : ℕ)
    → i < hardened
    → (k : ℕ) × (k ≤ 1) × ((key : tree.Key) × (derive tree chain change (i + k) ≡ some key))
next_valid-tree change i h = elim (Bool-cases (i == 5)) [
  | inl bad ↦ (
    1,
    omega arith,
    (_, derive-valid change (i + 1) (rw (uint32-low (i + 1) (omega arith)) (ground arith))),
  )
  | inr good ↦ (
    0,
    omega arith,
    (_, derive-valid change (i + 0) (rw (uint32-low (i + 0) (omega arith)) (ground arith))),
  )
]

pub chain-IsDerivable : IsDerivable tree chain 1
chain-IsDerivable = record {
  next_valid = next_valid-tree;
  has_address = λ change i key h. (key.1, refl);
  one_place = λ c d i j a hi hj at at'.
      same_place c d i j hi hj (sym (address-derived c i a at) ∙ address-derived d j a at');
}
