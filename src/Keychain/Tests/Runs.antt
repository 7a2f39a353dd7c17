-- ===== src/Keychain/Tests/Runs.antt =====
-- The keychain's theorems at three records of a small key tree: the external addresses 0 and 1 and
-- the internal address 0 are used.
use mathlib.Core.Path.{subst}
use multiwallet.Prelude.{
  ℕ, ◌≡◌, refl, sym, Bool, true, false, none, some, List, [], ◌∷◌, arith, All, codes, text_eq,
}
use multiwallet.Database.Models.{AddressRecord, empty_tables}
use multiwallet.Database.Tables.{find_by}
use multiwallet.Database.Tx.{Engine, ok, not_found, write_tx, read_tx}
use multiwallet.Database.Laws.{Ends, Commits}
use multiwallet.Keychain.Keys.{Keychain, derive, address_at, chain_key, generate_account_keys}
use multiwallet.Keychain.Lookahead.{extend_keychain, last_record}
use multiwallet.Keychain.Lookahead.Placement.{IsPlaced}
use multiwallet.Keychain.Lookahead.Create.{with_addresses}
use multiwallet.Keychain.Lookahead.Meaning.{windows}
use multiwallet.Keychain.Lookahead.Extend.{CanExtend, IsExtended, filled, extend_keychain_fills}
use multiwallet.Keychain.Addresses.{
  find_address, new_address, mark_address_as_used, current_address_with_tx, key_for_address,
  record_address,
}
use multiwallet.Keychain.Addresses.Used.{IsMarked, mark_address_as_used_marks}
use multiwallet.Keychain.Addresses.Fresh.{IsIssued}
use multiwallet.Keychain.Addresses.Issue.{new_address_fresh, new_address_change_reuses}
use multiwallet.Keychain.Addresses.Current.{IsFirst, current_address_with_tx-IsFirst}
use multiwallet.Keychain.Addresses.PrivateKeys.{IsPaired}
use multiwallet.Keychain.Addresses.Signing.{IsKeyError, key_for_address_controls}
use multiwallet.Keychain.Tests.{tree, chain, chain-IsDerivable}

abbrev row : ℕ → ℕ → Bool → Bool → AddressRecord
row index leg change used = record {
  addr = index ∷ leg ∷ [];
  key_index = index;
  change = change;
  used = used;
  coin = codes "BTC";
}

abbrev pub rows : List AddressRecord
rows = row 0 0 false true ∷ row 1 0 false true ∷ row 0 1 true true ∷ row 2 0 false false ∷ []

abbrev store : Engine
store = record { tables = with_addresses empty_tables rows; step = 0; faults = λ n. false }

rows-IsPlaced : All (IsPlaced tree chain) rows
unfolding address_at derive chain_key
rows-IsPlaced = (
  record { own = λ _. (omega arith, refl); foreign = λ ne. absurd (ne refl) },
  (
    record { own = λ _. (omega arith, refl); foreign = λ ne. absurd (ne refl) },
    (
      record { own = λ _. (omega arith, refl); foreign = λ ne. absurd (ne refl) },
      (record { own = λ _. (omega arith, refl); foreign = λ ne. absurd (ne refl) }, tt),
    ),
  ),
)

pub rows-CanExtend : CanExtend tree chain 1 6 rows
rows-CanExtend = record {
  enough = omega arith;
  low = omega arith;
  internal_room =
      (λ _ _. omega arith, (λ _ _. omega arith, (λ _ _. omega arith, (λ _ _. omega arith, tt))));
  external_room =
      (λ _ _. omega arith, (λ _ _. omega arith, (λ _ _. omega arith, (λ _ _. omega arith, tt))));
  placed = rows-IsPlaced;
}

extend_keychain_example :
    Ends
      (λ _ t.
        IsExtended tree chain empty_tables rows (filled tree chain (windows tree chain rows)) t)
      (λ _. ⊥)
      (extend_keychain tree chain 6 (write_tx store))
unfolding write_tx
extend_keychain_example =
    extend_keychain_fills tree chain chain-IsDerivable 6 empty_tables rows (write_tx store)
      rows-CanExtend refl refl

mark_address_as_used_example :
    Ends
      (λ _ t. IsMarked tree chain (2 ∷ 0 ∷ []) rows t)
      (λ x. (x ≡ not_found) × (find_address (codes "BTC") (2 ∷ 0 ∷ []) rows ≡ none))
      (mark_address_as_used tree chain 6 (2 ∷ 0 ∷ []) (write_tx store))
unfolding write_tx
mark_address_as_used_example =
    mark_address_as_used_marks tree chain chain-IsDerivable 6 (2 ∷ 0 ∷ []) empty_tables rows
      (write_tx store) rows-CanExtend refl refl refl

new_address_example :
    Commits
      (λ b T. (find_by (λ x. x.addr) b rows ≡ none) × IsIssued tree chain false rows b T)
      (λ x. (x ≡ not_found) × (last_record (codes "BTC") false rows ≡ none))
      (with_addresses empty_tables rows)
      (new_address tree chain 6 false store)
new_address_example =
    new_address_fresh tree chain chain-IsDerivable 6 store rows-CanExtend (omega arith)

new_address_change_example :
    Commits
      (λ b T.
        (b ≡ 1 ∷ 0 ∷ [])
        × ((now : AddressRecord) × (find_by (λ x. x.addr) b T.addresses ≡ some now)
            × (now.used ≡ false)))
      (λ x. (x ≡ not_found) × (last_record (codes "BTC") true rows ≡ none))
      (with_addresses empty_tables rows)
      (new_address tree chain 6 true store)
unfolding address_at derive chain_key last_record find_by text_eq
new_address_change_example =
    new_address_change_reuses tree chain chain-IsDerivable 6 store rows-CanExtend (omega arith)
      (false, 1 ∷ 0 ∷ []) (1 ∷ 0 ∷ []) (row 1 0 false true) refl refl refl refl

current_address_example :
    Ends
      (λ a t.
        (t.tables ≡ with_addresses empty_tables rows)
        × ((r : AddressRecord) × (a ≡ record_address r) × IsFirst (codes "BTC") false rows r))
      (λ _. ⊥)
      (current_address_with_tx tree chain false (read_tx store))
unfolding read_tx windows text_eq
current_address_example =
    current_address_with_tx-IsFirst tree chain false (read_tx store) (omega arith)

-- The keychain without its private keys, and the account key that a caller gives.
abbrev locked : Keychain tree
locked = record chain { external_privkey = none; internal_privkey = none }

pub tree-neuter :
    (k c : Bool × List ℕ) (i : ℕ)
    → tree.child k i ≡ some c
    → tree.child (tree.neuter k) i ≡ some (tree.neuter c)
tree-neuter k c i h = ground arith

account-IsPaired : IsPaired tree locked (some (true, []))
unfolding generate_account_keys
account-IsPaired = record {
  external = λ k h. absurd (cc (h));
  internal = λ k h. absurd (cc (h));
  given = λ a e i same h.
      let at : (true, []) ≡ a = cc in
      let pair = subst (λ x. generate_account_keys tree x ≡ ok (e, i)) (sym at) h in
      (ground arith, ground arith);
  public_child = tree-neuter;
}

locked-IsPlaced : All (IsPlaced tree locked) rows
unfolding address_at derive chain_key
locked-IsPlaced = (
  record { own = λ _. (omega arith, refl); foreign = λ ne. absurd (ne refl) },
  (
    record { own = λ _. (omega arith, refl); foreign = λ ne. absurd (ne refl) },
    (
      record { own = λ _. (omega arith, refl); foreign = λ ne. absurd (ne refl) },
      (record { own = λ _. (omega arith, refl); foreign = λ ne. absurd (ne refl) }, tt),
    ),
  ),
)

key_for_address_example :
    ((key_for_address tree locked (0 ∷ 1 ∷ []) (some (true, [])) (write_tx store)).1.tables
      ≡ with_addresses empty_tables rows)
    × Ends
        (λ key _. tree.address (tree.neuter key) ≡ some (0 ∷ 1 ∷ []))
        (IsKeyError tree locked (some (true, [])) (0 ∷ 1 ∷ []) rows)
        (key_for_address tree locked (0 ∷ 1 ∷ []) (some (true, [])) (write_tx store))
unfolding write_tx
key_for_address_example =
    key_for_address_controls tree locked (some (true, [])) account-IsPaired (0 ∷ 1 ∷ [])
      (write_tx store) locked-IsPlaced
