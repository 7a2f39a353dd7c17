-- ===== src/Keychain/Lookahead/Windows.antt =====
-- The windows that `getLookaheadWindows` counts, when unused records are added behind the others.
use multiwallet.Prelude.{
  ℕ, ◌+◌, ◌≤◌, ◌<◌, ◌≡◌, refl, Bool, true, false, List, [], ◌∷◌, ◌++◌, arith, All, length, ◌∙◌,
  text_eq, text_eq_refl, Text, select,
}
use multiwallet.Prelude.Int.{ℤ, pos, negsuc, ltb_ℤ}
use multiwallet.Database.Models.{AddressRecord}
use multiwallet.Keychain.Lookahead.{
  last_used, last_used_step, unused, unused_step, lookahead_windows,
}

-- The entry of a chain in a pair (internal, external).
abbrev pub side : {A : Type 0} → Bool → A × A → A
side true p = p.0
side false p = p.1

-- A window with `n` more keys on one chain.
abbrev pub add_side : Bool → ℕ → ℕ × ℕ → ℕ × ℕ
add_side true n (internal, external) = (internal + n, external)
add_side false n (internal, external) = (internal, external + n)

-- The record stands on the chain `change` only below `n`.
abbrev pub IsBelow : Bool → ℕ → AddressRecord → Type 0
IsBelow change n r = r.change ≡ change → r.key_index < n

-- An unused record of the chain `change`, at `n` or behind.
abbrev pub IsFresh : Bool → ℕ → AddressRecord → Type 0
IsFresh change n r = (r.change ≡ change) × (r.used ≡ false) × (n ≤ r.key_index)

last_used-append :
    (acc : ℤ × ℤ) (xs ys : List AddressRecord)
    → last_used acc (xs ++ ys) ≡ last_used (last_used acc xs) ys
unfolding last_used
last_used-append acc [] ys = refl
last_used-append acc (x ∷ xs) ys = last_used-append (last_used_step acc x) xs ys

unused-append :
    (last : ℤ × ℤ) (acc : ℕ × ℕ) (xs ys : List AddressRecord)
    → unused last acc (xs ++ ys) ≡ unused last (unused last acc xs) ys
unfolding unused
unused-append last acc [] ys = refl
unused-append last acc (x ∷ xs) ys = unused-append last (unused_step last acc x) xs ys

last_used_step-unused :
    (acc : ℤ × ℤ) (r : AddressRecord) → r.used ≡ false → last_used_step acc r ≡ acc
last_used_step-unused acc r h = ground arith

last_used-fresh :
    (change : Bool) (n : ℕ) (acc : ℤ × ℤ) (rows : List AddressRecord)
    → All (IsFresh change n) rows
    → last_used acc rows ≡ acc
unfolding last_used
last_used-fresh change n acc [] h = refl
last_used-fresh change n acc (r ∷ rows) h =
    rw (last_used_step-unused acc r h.0.1) (last_used-fresh change n acc rows h.1)

last_used_step-lt :
    (change : Bool) (n : ℕ) (acc : ℤ × ℤ) (r : AddressRecord)
    → IsBelow change n r
    → ltb_ℤ (side change acc) (pos n) ≡ true
    → ltb_ℤ (side change (last_used_step acc r)) (pos n) ≡ true
last_used_step-lt true n acc r b h = ground arith
last_used_step-lt false n acc r b h = ground arith

-- The last used index of a chain lies below any bound of the chain.
last_used-lt :
    (change : Bool) (n : ℕ) (acc : ℤ × ℤ) (rows : List AddressRecord)
    → All (IsBelow change n) rows
    → ltb_ℤ (side change acc) (pos n) ≡ true
    → ltb_ℤ (side change (last_used acc rows)) (pos n) ≡ true
unfolding last_used
last_used-lt change n acc [] b h = h
last_used-lt change n acc (r ∷ rows) b h =
    last_used-lt change n (last_used_step acc r) rows b.1 (last_used_step-lt change n acc r b.0 h)

unused_step-fresh :
    (change : Bool) (n : ℕ) (last : ℤ × ℤ) (acc : ℕ × ℕ) (r : AddressRecord)
    → ltb_ℤ (side change last) (pos n) ≡ true
    → IsFresh change n r
    → unused_step last acc r ≡ add_side change 1 acc
unused_step-fresh true n last acc r h f = ground arith
unused_step-fresh false n last acc r h f = ground arith

unused-fresh :
    (change : Bool) (n : ℕ) (last : ℤ × ℤ) (acc : ℕ × ℕ) (rows : List AddressRecord)
    → ltb_ℤ (side change last) (pos n) ≡ true
    → All (IsFresh change n) rows
    → unused last acc rows ≡ add_side change (length rows) acc
unfolding unused
unused-fresh true n last acc [] h f = ground arith
unused-fresh false n last acc [] h f = ground arith
unused-fresh true n last acc (r ∷ rows) h f =
    rw (unused_step-fresh true n last acc r h f.0)
      (unused-fresh true n last (acc.0 + 1, acc.1) rows h f.1 ∙ ground arith)
unused-fresh false n last acc (r ∷ rows) h f =
    rw (unused_step-fresh false n last acc r h f.0)
      (unused-fresh false n last (acc.0, acc.1 + 1) rows h f.1 ∙ ground arith)

-- Unused records behind all others of their chain widen its window by their number.
pub lookahead_windows-append :
    (change : Bool) (n : ℕ) (rows new : List AddressRecord)
    → All (IsBelow change n) rows
    → All (IsFresh change n) new
    → lookahead_windows (rows ++ new) ≡ add_side change (length new) (lookahead_windows rows)
unfolding lookahead_windows
lookahead_windows-append change n rows new b f =
    let last = last_used (negsuc 0, negsuc 0) rows in
    rw
      (
        last_used-append (negsuc 0, negsuc 0) rows new,
        last_used-fresh change n last new f,
        unused-append last (0, 0) rows new,
      )
      (unused-fresh change n last (unused last (0, 0) rows) new
        (last_used-lt change n (negsuc 0, negsuc 0) rows b start) f)
  where
    start : ltb_ℤ (side change (negsuc 0, negsuc 0)) (pos n) ≡ true
    start = ground arith

-- Records of one coin stay selected.
pub select-coin :
    (coin : Text) (rows new : List AddressRecord)
    → All (λ r. r.coin ≡ coin) new
    → select (λ r. text_eq r.coin coin) (rows ++ new)
      ≡ select (λ r. text_eq r.coin coin) rows ++ new
select-coin coin [] [] h = refl
select-coin coin [] (x ∷ new) h = ground (arith, select-coin coin [] new h.1, text_eq_refl coin)
select-coin coin (r ∷ rows) new h = ground (arith, select-coin coin rows new h)
