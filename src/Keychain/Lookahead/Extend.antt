-- ===== src/Keychain/Lookahead/Extend.antt =====
-- `extendKeychain`: both windows are filled up to the lookahead size, by new unused records only.
use multiwallet.Prelude.{
  ℕ, ◌+◌, ◌-◌, ◌*◌, ◌≤◌, ◌≡◌, refl, ◌∙◌, ap, sym, inl, inr, Bool, true, false, List, ◌++◌, arith,
  All, All-append, All-map, Bool-cases, length, Text, if◌then◌else◌,
}
use Prim.Native.Nat.{max}
use mathlib.Core.List.{append_assoc}
use multiwallet.Database.Models.{AddressRecord, Tables}
use multiwallet.Database.Tx.{Session, Error, Tx, ◌>>=◌, pure}
use multiwallet.Database.Laws.{Ends, Becomes, bind-Ends, map-Ends, read-bind-Ends}
use multiwallet.Keychain.Keys.{HdKeys, Keychain, hardened, IsDerivable}
use multiwallet.Keychain.Lookahead.{
  find_addresses, lookahead_windows, get_lookahead_windows, fill_window, fill_windows,
  extend_keychain,
}
use multiwallet.Keychain.Lookahead.Windows.{add_side}
use multiwallet.Keychain.Lookahead.Placement.{IsPlaced, next_of}
use multiwallet.Keychain.Lookahead.Create.{with_addresses, IsNew, HasNew}
use multiwallet.Keychain.Lookahead.Fill.{IsRoomy, windows-append, fill_window-HasNew}
use multiwallet.Keychain.Lookahead.Meaning.{windows, lookahead_windows-eq-windows}

pub get_lookahead_windows-bind :
    {B : Type 0} (coin : Text) (f : ℕ × ℕ → Tx B) (Q : B → Session → Type 0) (E : Error → Type 0)
    (s : Session)
    → ((t : Session)
        → Becomes s s.tables t
        → Ends Q E (f (lookahead_windows (find_addresses coin s.tables)) t))
    → Ends Q E ((get_lookahead_windows coin >>= f) s)
unfolding get_lookahead_windows
get_lookahead_windows-bind coin f Q E s k =
    let w = lookahead_windows (find_addresses coin s.tables) in
    let R = λ (x : ℕ × ℕ) (t : Session). Becomes s s.tables t × (x ≡ w) in
    bind-Ends R Q E (get_lookahead_windows coin) f s
      (read-bind-Ends (find_addresses coin) (λ records. pure (lookahead_windows records)) R E s
        (λ t h. (h, refl)))
      (λ x t h. rw h.1 (k t h.0))

filled_sides :
    (w : ℕ × ℕ) (n size : ℕ)
    → n ≡ size - w.0
    → add_side false (size - w.1) (add_side true n w) ≡ (max w.0 size, max w.1 size)
filled_sides w n size h = ground arith

module _ (hd : HdKeys) (kc : Keychain hd) where
  -- What the windows are to be: filled up, the internal one only if the keychain has that chain.
  abbrev pub filled : ℕ × ℕ → ℕ × ℕ
  filled (internal, external) = (
    if kc.external_only then internal else max internal kc.lookahead_window_size,
    max external kc.lookahead_window_size,
  )

  -- An unused record of the keychain's coin, at its place.
  abbrev pub IsSpare : AddressRecord → Type 0
  IsSpare r = (r.coin ≡ kc.coin_type) × (r.used ≡ false) × IsPlaced hd kc r

  -- The rows are there with spare records behind them, and the windows are `w`.
  abbrev pub IsExtended : Tables → List AddressRecord → ℕ × ℕ → Session → Type 0
  IsExtended T rows w t =
      (new : List AddressRecord) × (t.tables ≡ with_addresses T (rows ++ new))
      × (t.for_writes ≡ true)
      × (windows hd kc (rows ++ new) ≡ w)
      × All IsSpare new

  -- What `extendKeychain` needs of the fuel and of the rows that it finds.
  pub record CanExtend (gap fuel : ℕ) (rows : List AddressRecord) : Type 0 where
    pub enough : kc.lookahead_window_size * (gap + 1) ≤ fuel
    pub low : fuel ≤ hardened
    pub internal_room : All (IsRoomy kc.coin_type true fuel) rows
    pub external_room : All (IsRoomy kc.coin_type false fuel) rows
    pub placed : All (IsPlaced hd kc) rows

  IsSpare-new :
      (change : Bool) (n : ℕ) (new : List AddressRecord)
      → All (IsNew hd kc change n) new
      → All IsSpare new
  IsSpare-new change n new h =
      All-map (IsNew hd kc change n) IsSpare new (λ r p. (p.0, p.1.1, p.2)) h

  HasNew-IsExtended :
      (change : Bool) (have : ℕ) (T : Tables) (rows : List AddressRecord) (t : Session)
      → HasNew hd kc change
          (kc.lookahead_window_size - have)
          (next_of kc.coin_type change rows)
          T
          rows
          t
      → IsExtended T rows (add_side change (kc.lookahead_window_size - have) (windows hd kc rows)) t
  HasNew-IsExtended change have T rows t (new, at, w, l, h) = (
    new,
    at,
    w,
    windows-append hd kc change rows new h ∙ ap (λ n. add_side change n (windows hd kc rows)) l,
    IsSpare-new change (next_of kc.coin_type change rows) new h,
  )

  internal_room_only :
      (fuel n : ℕ) (new : List AddressRecord)
      → All (IsNew hd kc true n) new
      → All (IsRoomy kc.coin_type false fuel) new
  internal_room_only fuel n new h =
      All-map (IsNew hd kc true n) (IsRoomy kc.coin_type false fuel) new
        (λ r p own on. absurd (cc (p.1.0, on))) h

  module _ {gap : ℕ} (derivable : IsDerivable hd kc gap) where
    fill_external :
        (fuel : ℕ) (T : Tables) (rows : List AddressRecord) (s : Session)
        → CanExtend gap fuel rows
        → s.tables ≡ with_addresses T rows
        → s.for_writes ≡ true
        → Ends
            (λ _ t.
              IsExtended T rows
                ((windows hd kc rows).0, max (windows hd kc rows).1 kc.lookahead_window_size)
                t)
            (λ _. ⊥)
            (fill_window hd kc fuel false (windows hd kc rows).1 s)
    fill_external fuel T rows s can e w =
        let have = (windows hd kc rows).1 in
        map-Ends
          (λ _ t.
            HasNew hd kc false (kc.lookahead_window_size - have) (next_of kc.coin_type false rows) T
              rows t)
          _ (λ _. ⊥) (λ _. ⊥) _
          (λ _ t h.
            let (new, at, w', ws, spare) = HasNew-IsExtended false have T rows t h in
            (new, at, w', ws ∙ ground arith, spare))
          (λ _ x. x)
          (fill_window-HasNew hd kc derivable fuel have false T rows s can.enough can.low
            can.external_room can.placed e w)

    fill_both :
        (fuel : ℕ) (T : Tables) (rows : List AddressRecord) (t : Session)
        → CanExtend gap fuel rows
        → HasNew hd kc true
            (kc.lookahead_window_size - (windows hd kc rows).0)
            (next_of kc.coin_type true rows)
            T
            rows
            t
        → Ends
            (λ _ u.
              IsExtended T rows
                (
                  max (windows hd kc rows).0 kc.lookahead_window_size,
                  max (windows hd kc rows).1 kc.lookahead_window_size,
                )
                u)
            (λ _. ⊥)
            (fill_window hd kc fuel false (windows hd kc rows).1 t)
    fill_both fuel T rows t can (new, at, w, l, h) =
        let have = (windows hd kc rows).1 in
        let n = next_of kc.coin_type true rows in
        let wide = windows-append hd kc true rows new h in
        map-Ends
          (λ _ u.
            HasNew hd kc false (kc.lookahead_window_size - have)
              (next_of kc.coin_type false (rows ++ new)) T (rows ++ new) u)
          _ (λ _. ⊥) (λ _. ⊥) _
          (λ _ u more.
            let (new', at', w', ws, spare) = HasNew-IsExtended false have T (rows ++ new) u more in
            (
              new ++ new',
              at' ∙ ap (with_addresses T) (append_assoc rows new new'),
              w',
              ap (windows hd kc) (sym (append_assoc rows new new'))
                  ∙ ws
                  ∙ ap (add_side false (kc.lookahead_window_size - have)) wide
                  ∙ filled_sides (windows hd kc rows) (length new) kc.lookahead_window_size l,
              All-append IsSpare new new' (IsSpare-new true n new h) spare,
            ))
          (λ _ x. x)
          (fill_window-HasNew hd kc derivable fuel have false T (rows ++ new) t can.enough can.low
            (All-append (IsRoomy kc.coin_type false fuel) rows new can.external_room
              (internal_room_only fuel n new h))
            (All-append (IsPlaced hd kc) rows new can.placed
              (All-map (IsNew hd kc true n) (IsPlaced hd kc) new (λ r p. p.2) h))
            at w)

    fill_windows-IsExtended :
        (fuel : ℕ) (T : Tables) (rows : List AddressRecord) (s : Session)
        → CanExtend gap fuel rows
        → s.tables ≡ with_addresses T rows
        → s.for_writes ≡ true
        → Ends
            (λ _ t. IsExtended T rows (filled (windows hd kc rows)) t)
            (λ _. ⊥)
            (fill_windows hd kc fuel (windows hd kc rows) s)
    unfolding fill_windows
    fill_windows-IsExtended fuel T rows s can e w = elim (Bool-cases kc.external_only) [
      | inl only ↦ simp only (fill_external fuel T rows s can e w)
      | inr both ↦ simp both (
          bind-Ends
            (λ _ t.
              HasNew hd kc true (kc.lookahead_window_size - (windows hd kc rows).0)
                (next_of kc.coin_type true rows) T rows t)
            (λ _ u.
              IsExtended T rows
                (
                  max (windows hd kc rows).0 kc.lookahead_window_size,
                  max (windows hd kc rows).1 kc.lookahead_window_size,
                )
                u)
            (λ _. ⊥) (fill_window hd kc fuel true (windows hd kc rows).0)
            (λ _. fill_window hd kc fuel false (windows hd kc rows).1) s
            (fill_window-HasNew hd kc derivable fuel (windows hd kc rows).0 true T rows s can.enough
              can.low can.internal_room can.placed e w)
            (λ _ t h. fill_both fuel T rows t can h))
    ]

    -- In a read-write transaction over rows where every address stands at its place, with the fuel
    -- and the room of `CanExtend` and derivable keys, `extendKeychain` fills the internal window
    -- (unless the keychain is external only) and the external one to the lookahead size, saves
    -- spare records behind the rows and changes nothing else; only the engine can fail it. The window
    -- of a chain is the number of its unused records that have all its used ones in front of them.
    pub extend_keychain_fills :
        (fuel : ℕ) (T : Tables) (rows : List AddressRecord) (s : Session)
        → CanExtend gap fuel rows
        → s.tables ≡ with_addresses T rows
        → s.for_writes ≡ true
        → Ends
            (λ _ t. IsExtended T rows (filled (windows hd kc rows)) t)
            (λ _. ⊥)
            (extend_keychain hd kc fuel s)
    unfolding extend_keychain find_addresses
    extend_keychain_fills fuel T rows s can e w =
        get_lookahead_windows-bind kc.coin_type (fill_windows hd kc fuel)
          (λ _ t. IsExtended T rows (filled (windows hd kc rows)) t) (λ _. ⊥) s
          λ t h.
            let same : find_addresses kc.coin_type s.tables
                ≡ find_addresses kc.coin_type (with_addresses T rows) =
              ap (find_addresses kc.coin_type) e in
            let counted : lookahead_windows (find_addresses kc.coin_type (with_addresses T rows))
                ≡ windows hd kc rows =
              lookahead_windows-eq-windows hd kc rows in
            rw (same, counted) (fill_windows-IsExtended fuel T rows t can (h.0 ∙ e) (h.1 ∙ w))
