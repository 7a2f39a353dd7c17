-- ===== src/Keychain/Lookahead/Fill.antt =====
-- One window is filled: `createNewKeys` for as many keys as the window lacks.
use multiwallet.Prelude.{
  ℕ, zero, suc, ◌+◌, ◌-◌, ◌*◌, ◌≤◌, ◌≡◌, refl, ◌∙◌, ap, inl, inr, Bool, true, List, [], ◌∷◌, ◌++◌,
  arith, All, All-map, Bool-cases, Option-cases, length, Text, text_eq, text_eq_iff, bool_eq_iff,
  select, sym, ltb,
}
use mathlib.Core.List.{append-nil}
use native.Mathlib.Nat.{le_trans}
use multiwallet.Database.Models.{AddressRecord, Tables}
use multiwallet.Database.Tx.{Session}
use multiwallet.Database.Laws.{Ends, read-bind-Ends}
use multiwallet.Keychain.Keys.{HdKeys, Keychain, hardened, IsDerivable}
use multiwallet.Keychain.Lookahead.{
  lookahead_windows, last_record, next_index, create_loop, create_new_keys, fill_window,
}
use multiwallet.Keychain.Lookahead.Windows.{
  add_side, IsBelow, IsFresh, lookahead_windows-append, select-coin,
}
use multiwallet.Keychain.Lookahead.Meaning.{windows, lookahead_windows-eq-windows}
use multiwallet.Keychain.Lookahead.Placement.{IsPlaced, IsChainBelow, next_of, next_of-below}
use multiwallet.Keychain.Lookahead.Create.{
  with_addresses, IsNew, HasNew, create_loop_done, create_loop-HasNew,
}

-- `fuel` indices are free below the hardened ones, behind the record's on its chain.
abbrev pub IsRoomy : Text → Bool → ℕ → AddressRecord → Type 0
IsRoomy coin change fuel r = r.coin ≡ coin → r.change ≡ change → r.key_index + 1 + fuel ≤ hardened

pub next_of-room :
    (coin : Text) (change : Bool) (fuel : ℕ) (rows : List AddressRecord)
    → fuel ≤ hardened
    → All (IsRoomy coin change fuel) rows
    → next_of coin change rows + fuel ≤ hardened
unfolding last_record
next_of-room coin change fuel [] le h = omega arith
next_of-room coin change fuel (r ∷ rows) le h = elim (Option-cases (last_record coin change rows)) [
  | inl e ↦ ground (
    arith,
    text_eq_iff r.coin coin,
    bool_eq_iff r.change change,
    next_of-room coin change fuel rows le h.1,
  )
  | inr (m, e) ↦ ground (
    arith,
    text_eq_iff r.coin coin,
    bool_eq_iff r.change change,
    next_of-room coin change fuel rows le h.1,
  )
]

IsBelow-select :
    (hd : HdKeys) (kc : Keychain hd) (change : Bool) (n : ℕ) (rows : List AddressRecord)
    → All (IsChainBelow hd kc change n) rows
    → All (IsBelow change n) (select (λ r. text_eq r.coin kc.coin_type) rows)
IsBelow-select hd kc change n [] h = tt
IsBelow-select hd kc change n (r ∷ rows) h = elim (Bool-cases (text_eq r.coin kc.coin_type)) [
  | inl e ↦
      rw e (h.0 ((text_eq_iff r.coin kc.coin_type).0 e), IsBelow-select hd kc change n rows h.1)
  | inr e ↦ rw e (IsBelow-select hd kc change n rows h.1)
]

mul_le : (a b c : ℕ) → a ≤ b → a * c ≤ b * c
mul_le a b c h = grind arith

module _ (hd : HdKeys) (kc : Keychain hd) where
  lookahead_windows-grow :
      (change : Bool) (rows new : List AddressRecord)
      → All (IsNew hd kc change (next_of kc.coin_type change rows)) new
      → lookahead_windows (select (λ r. text_eq r.coin kc.coin_type) (rows ++ new))
        ≡ add_side change
            (length new)
            (lookahead_windows (select (λ r. text_eq r.coin kc.coin_type) rows))
  lookahead_windows-grow change rows new h =
      let n = next_of kc.coin_type change rows in
      rw
        (select-coin kc.coin_type rows new
          (All-map (IsNew hd kc change n) (λ r. r.coin ≡ kc.coin_type) new (λ r p. p.0) h))
        (lookahead_windows-append change n (select (λ r. text_eq r.coin kc.coin_type) rows) new
          (IsBelow-select hd kc change n rows (next_of-below hd kc change rows))
          (All-map (IsNew hd kc change n) (IsFresh change n) new (λ r p. p.1) h))

  pub windows-append :
      (change : Bool) (rows new : List AddressRecord)
      → All (IsNew hd kc change (next_of kc.coin_type change rows)) new
      → windows hd kc (rows ++ new) ≡ add_side change (length new) (windows hd kc rows)
  windows-append change rows new h =
      sym (lookahead_windows-eq-windows hd kc (rows ++ new))
      ∙ lookahead_windows-grow change rows new h
      ∙ ap (add_side change (length new)) (lookahead_windows-eq-windows hd kc rows)

  module _ {gap : ℕ} (derivable : IsDerivable hd kc gap) where
    make_new-HasNew :
        (fuel n : ℕ) (change : Bool) (T : Tables) (rows : List AddressRecord) (s : Session)
        → n * (gap + 1) ≤ fuel
        → fuel ≤ hardened
        → All (IsRoomy kc.coin_type change fuel) rows
        → All (IsPlaced hd kc) rows
        → s.tables ≡ with_addresses T rows
        → s.for_writes ≡ true
        → let next = next_of kc.coin_type change rows in
          Ends
            (λ _ t. HasNew hd kc change n next T rows t)
            (λ _. ⊥)
            (create_loop hd kc fuel change n next s)
    make_new-HasNew fuel zero change T rows s enough low room placed e w =
        rw (create_loop_done hd kc fuel change (next_of kc.coin_type change rows) s)
          ([], e ∙ ap (with_addresses T) (sym (append-nil rows)), w, refl, tt)
    make_new-HasNew fuel (suc n) change T rows s enough low room placed e w =
        let next = next_of kc.coin_type change rows in
        let free = next_of-room kc.coin_type change fuel rows low room in
        let (k, close, (key, valid)) = derivable.next_valid change next (omega arith) in
        create_loop-HasNew hd kc derivable fuel n next k key change T rows s valid (omega arith)
          free placed (next_of-below hd kc change rows) e w

    create_new_keys-HasNew :
        (fuel n : ℕ) (change : Bool) (T : Tables) (rows : List AddressRecord) (s : Session)
        → n * (gap + 1) ≤ fuel
        → fuel ≤ hardened
        → All (IsRoomy kc.coin_type change fuel) rows
        → All (IsPlaced hd kc) rows
        → s.tables ≡ with_addresses T rows
        → s.for_writes ≡ true
        → Ends
            (λ _ t. HasNew hd kc change n (next_of kc.coin_type change rows) T rows t)
            (λ _. ⊥)
            (create_new_keys hd kc fuel change n s)
    unfolding create_new_keys
    create_new_keys-HasNew fuel n change T rows s enough low room placed e w =
        read-bind-Ends (λ t. last_record kc.coin_type change t.addresses)
          (λ found. create_loop hd kc fuel change n (next_index found))
          (λ _ t. HasNew hd kc change n (next_of kc.coin_type change rows) T rows t) (λ _. ⊥) s
          λ t h.
            let same : s.tables.addresses ≡ rows = ap (λ (x : Tables). x.addresses) e in
            rw same
              (make_new-HasNew fuel n change T rows t enough low room placed (h.0 ∙ e) (h.1 ∙ w))

    pub fill_window-HasNew :
        (fuel have : ℕ) (change : Bool) (T : Tables) (rows : List AddressRecord) (s : Session)
        → kc.lookahead_window_size * (gap + 1) ≤ fuel
        → fuel ≤ hardened
        → All (IsRoomy kc.coin_type change fuel) rows
        → All (IsPlaced hd kc) rows
        → s.tables ≡ with_addresses T rows
        → s.for_writes ≡ true
        → Ends
            (λ _ t.
              HasNew hd kc change
                (kc.lookahead_window_size - have)
                (next_of kc.coin_type change rows)
                T
                rows
                t)
            (λ _. ⊥)
            (fill_window hd kc fuel change have s)
    fill_window-HasNew fuel have change T rows s enough low room placed e w =
        let n = kc.lookahead_window_size - have in
        let less : n ≤ kc.lookahead_window_size = omega arith in
        elim (Bool-cases (ltb have kc.lookahead_window_size)) [
          | inl short ↦ rw short (
              create_new_keys-HasNew fuel n change T rows s
                (le_trans (mul_le n kc.lookahead_window_size (gap + 1) less) enough) low room placed
                e w)
          | inr full ↦
              rw full ([], e ∙ ap (with_addresses T) (sym (append-nil rows)), w, ground arith, tt)
        ]
