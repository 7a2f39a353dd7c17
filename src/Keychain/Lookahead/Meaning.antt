-- ===== src/Keychain/Lookahead/Meaning.antt =====
-- What a lookahead window of base/keys.go is: the unused records of a chain behind all its used
-- ones, whatever the order of the records. `getLookaheadWindows` counts these.
use multiwallet.Prelude.{
  ℕ, ◌+◌, ◌≡◌, refl, ◌∙◌, ap, Bool, true, false, ◌&&◌, not, List, [], ◌∷◌, arith, count, leb, any,
  bool_eq, if◌then◌else◌, text_eq, select,
}
use multiwallet.Prelude.Int.{ℤ, pos, negsuc, ltb_ℤ}
use multiwallet.Database.Models.{AddressRecord}
use multiwallet.Keychain.Keys.{HdKeys, Keychain}
use multiwallet.Keychain.Lookahead.{
  last_used, last_used_step, unused, unused_step, lookahead_windows,
}
use multiwallet.Keychain.Lookahead.Windows.{side}

-- A used record of the chain, at the index or behind it.
abbrev pub is_used_from : Bool → ℕ → AddressRecord → Bool
is_used_from change index r = bool_eq r.change change && r.used && leb index r.key_index

-- An unused record of the chain, with all used ones of the chain in front of it.
abbrev pub is_ahead : Bool → List AddressRecord → AddressRecord → Bool
is_ahead change rows r =
    bool_eq r.change change && not r.used && not (any (is_used_from change r.key_index) rows)

-- How many there are.
abbrev pub ahead : Bool → List AddressRecord → ℕ
ahead change rows = count (is_ahead change rows) rows

last_used_step-lt :
    (change : Bool) (index : ℕ) (acc : ℤ × ℤ) (r : AddressRecord)
    → ltb_ℤ (side change (last_used_step acc r)) (pos index)
      ≡ (ltb_ℤ (side change acc) (pos index) && not (is_used_from change index r))
last_used_step-lt true index acc r = ground arith
last_used_step-lt false index acc r = ground arith

-- The last used index of a chain is below an index where no used record is at it or behind.
last_used-lt :
    (change : Bool) (index : ℕ) (acc : ℤ × ℤ) (rows : List AddressRecord)
    → ltb_ℤ (side change (last_used acc rows)) (pos index)
      ≡ (ltb_ℤ (side change acc) (pos index) && not (any (is_used_from change index) rows))
unfolding last_used
last_used-lt change index acc [] = ground arith
last_used-lt change index acc (r ∷ rows) =
    last_used-lt change index (last_used_step acc r) rows
    ∙ ap (λ b. b && not (any (is_used_from change index) rows))
        (last_used_step-lt change index acc r)
    ∙ ground arith

-- What the second loop counts.
abbrev is_counted : Bool → ℤ × ℤ → AddressRecord → Bool
is_counted change last r =
    bool_eq r.change change && not r.used && ltb_ℤ (side change last) (pos r.key_index)

unused_step-side :
    (change : Bool) (last : ℤ × ℤ) (acc : ℕ × ℕ) (r : AddressRecord)
    → side change (unused_step last acc r)
      ≡ (if is_counted change last r then side change acc + 1 else side change acc)
unused_step-side true last acc r = ground arith
unused_step-side false last acc r = ground arith

unused-side :
    (change : Bool) (last : ℤ × ℤ) (acc : ℕ × ℕ) (rows : List AddressRecord)
    → side change (unused last acc rows) ≡ side change acc + count (is_counted change last) rows
unfolding unused
unused-side change last acc [] = omega arith
unused-side change last acc (r ∷ rows) =
    unused-side change last (unused_step last acc r) rows
    ∙ ground (arith, unused_step-side change last acc r)

count_same :
    (p q : AddressRecord → Bool) (rows : List AddressRecord)
    → ((r : AddressRecord) → p r ≡ q r)
    → count p rows ≡ count q rows
count_same p q [] h = refl
count_same p q (r ∷ rows) h = rw (h r, count_same p q rows h) refl

lookahead_windows-side :
    (change : Bool) (rows : List AddressRecord)
    → side change (lookahead_windows rows) ≡ ahead change rows
unfolding lookahead_windows
lookahead_windows-side change rows =
    let last = last_used (negsuc 0, negsuc 0) rows in
    unused-side change last (0, 0) rows
    ∙ ap (λ n. side {A = ℕ} change (0, 0) + n)
        (count_same (is_counted change last) (is_ahead change rows) rows same)
    ∙ from_zero change (ahead change rows)
  where
    above_start :
        (change : Bool) (n : ℕ) (b : Bool)
        → (ltb_ℤ (side change (negsuc 0, negsuc 0)) (pos n) && b) ≡ b
    above_start true n b = ground arith
    above_start false n b = ground arith

    same :
        (r : AddressRecord)
        → is_counted change (last_used (negsuc 0, negsuc 0) rows) r ≡ is_ahead change rows r
    same r =
        ap (λ b. bool_eq r.change change && not r.used && b)
          (last_used-lt change r.key_index (negsuc 0, negsuc 0) rows
            ∙ above_start change r.key_index (not (any (is_used_from change r.key_index) rows)))

    from_zero : (change : Bool) (n : ℕ) → side {A = ℕ} change (0, 0) + n ≡ n
    from_zero true n = omega arith
    from_zero false n = omega arith

module _ (hd : HdKeys) (kc : Keychain hd) where
  -- The windows of the keychain's coin in a table of address records.
  unfoldable pub windows : List AddressRecord → ℕ × ℕ
  windows rows =
      let own = select (λ r. text_eq r.coin kc.coin_type) rows in (ahead true own, ahead false own)

  -- `getLookaheadWindows` counts them.
  pub lookahead_windows-eq-windows :
      (rows : List AddressRecord)
      → lookahead_windows (select (λ r. text_eq r.coin kc.coin_type) rows) ≡ windows rows
  unfolding windows
  lookahead_windows-eq-windows rows =
      let own = select (λ r. text_eq r.coin kc.coin_type) rows in
      pair_up (lookahead_windows own) (lookahead_windows-side true own)
        (lookahead_windows-side false own)
    where
      pair_up : {a b : ℕ} (w : ℕ × ℕ) → w.0 ≡ a → w.1 ≡ b → w ≡ (a, b)
      pair_up w h k = ground arith
