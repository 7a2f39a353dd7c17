-- ===== src/Chain/Marking.antt =====
-- The keychain of base/keys.go as the chain manager's: marking an address changes no table but that
-- of the addresses.
use multiwallet.Prelude.{
  List, ap, inl, inr, arith, ℕ, zero, suc, ◌+◌, ◌-◌, ◌≡◌, refl, ◌∙◌, Bool, true, false, Option,
  none, some, not, Bool-cases, Option-cases, ltb, Text, if◌then◌else◌,
}
use multiwallet.Database.Models.{AddressRecord, Tables}
use multiwallet.Database.Tx.{
  Session, Error, Result, ok, err, Tx, ◌>>=◌, ◌>>◌, pure, or_error, query, not_found, bad_address,
  out_of_fuel,
}
use multiwallet.Database.Laws.{
  Ends, Becomes, bind-Ends, map-Ends, write-Ends, read-bind-Ends, lookup-bind-Ends, lift-bind-Ends,
}
use multiwallet.Database.Tables.{upsert}
use multiwallet.Keychain.Keys.{HdKeys, Keychain, derive}
use multiwallet.Keychain.Lookahead.{
  save_address, new_record, create_loop, create_new_keys, fill_window, fill_windows,
  lookahead_windows, extend_keychain, extend_in_update, find_addresses, last_record, next_index,
}
use multiwallet.Keychain.Lookahead.Extend.{get_lookahead_windows-bind}
use multiwallet.Keychain.Addresses.{get_addresses, find_address, mark_address_as_used}
use multiwallet.Chain.Types.{Keys, KeepsOthers, AreKeys}

-- The errors of the keychain's own that marking may end with.
abbrev pub is_mark_error : Error → Bool
is_mark_error not_found = true
is_mark_error bad_address = true
is_mark_error out_of_fuel = true
is_mark_error e = false

abbrev pub MarkError : Error → Type 0
MarkError e = is_mark_error e ≡ true

-- A call of a transaction that touches the addresses at most.
abbrev Keeps : Session → Result (Unit {0}) × Session → Type 0
Keeps s r = Ends (λ _ t. KeepsOthers s t) MarkError r

module _ (hd : HdKeys) (kc : Keychain hd) where
  -- The keychain that the chain manager works with.
  unfoldable pub keychain_keys : ℕ → Keys
  keychain_keys fuel = record {
    get_addresses = get_addresses hd kc;
    extend_keychain = extend_in_update hd kc fuel;
    mark_address_as_used = mark_address_as_used hd kc fuel;
  }

same-KeepsOthers : (s : Session) → KeepsOthers s s
same-KeepsOthers s = record {
  utxos = refl;
  transactions = refl;
  coins = refl;
  watched = refl;
  unconfirmed = refl;
  for_writes = refl;
}

then-KeepsOthers : (s t v : Session) → KeepsOthers s t → KeepsOthers t v → KeepsOthers s v
then-KeepsOthers s t v h k = record {
  utxos = k.utxos ∙ h.utxos;
  transactions = k.transactions ∙ h.transactions;
  coins = k.coins ∙ h.coins;
  watched = k.watched ∙ h.watched;
  unconfirmed = k.unconfirmed ∙ h.unconfirmed;
  for_writes = k.for_writes ∙ h.for_writes;
}

-- New rows of the addresses change nothing else.
rows-KeepsOthers :
    (s t : Session) (rows : List AddressRecord)
    → Becomes s (record s.tables { addresses = rows }) t
    → KeepsOthers s t
rows-KeepsOthers s t rows h = record {
  utxos = ap (λ (x : Tables). x.utxos) h.0;
  transactions = ap (λ (x : Tables). x.transactions) h.0;
  coins = ap (λ (x : Tables). x.coins) h.0;
  watched = ap (λ (x : Tables). x.watched) h.0;
  unconfirmed = ap (λ (x : Tables). x.unconfirmed) h.0;
  for_writes = h.1;
}

-- One call after another.
seq-Keeps :
    (m n : Tx (Unit {0})) (s : Session)
    → Keeps s (m s)
    → ((t : Session) → t.for_writes ≡ s.for_writes → Keeps t (n t))
    → Keeps s ((m >> n) s)
seq-Keeps m n s h k =
    bind-Ends (λ _ t. KeepsOthers s t) (λ _ t. KeepsOthers s t) MarkError m (λ _. n) s h
      (λ _ t l.
        map-Ends (λ _ v. KeepsOthers t v) (λ _ v. KeepsOthers s v) MarkError MarkError (n t)
          (λ _ v z. then-KeepsOthers s t v l z) (λ _ e. e) (k t l.for_writes))

-- A read before the call.
read-Keeps :
    {A : Type 0} (g : Tables → A) (n : A → Tx (Unit {0})) (s : Session)
    → ((a : A) (t : Session) → t.for_writes ≡ s.for_writes → Keeps t (n a t))
    → Keeps s ((query (λ t. ok (g t)) >>= n) s)
read-Keeps g n s k =
    read-bind-Ends g n (λ _ t. KeepsOthers s t) MarkError s
      (λ t h.
        map-Ends (λ _ v. KeepsOthers t v) (λ _ v. KeepsOthers s v) MarkError MarkError
          (n (g s.tables) t)
          (λ _ v z. then-KeepsOthers s t v (rows-KeepsOthers s t s.tables.addresses h) z) (λ _ e. e)
          (k (g s.tables) t h.1))

save_address-Keeps :
    (r : AddressRecord) (s : Session) → s.for_writes ≡ true → Keeps s (save_address r s)
unfolding save_address
save_address-Keeps r s w =
    map-Ends
      (λ _ t.
        Becomes s (record s.tables { addresses = upsert (λ x. x.addr) r s.tables.addresses }) t)
      (λ _ t. KeepsOthers s t) (λ _. ⊥) MarkError (save_address r s)
      (λ _ t h. rows-KeepsOthers s t (upsert (λ x. x.addr) r s.tables.addresses) h)
      (λ _ e. absurd e)
      (write-Ends (λ t. record t { addresses = upsert (λ x. x.addr) r t.addresses }) s w)

module _ (hd : HdKeys) (kc : Keychain hd) where
  create_loop-Keeps :
      (fuel : ℕ) (change : Bool) (n index : ℕ) (s : Session)
      → s.for_writes ≡ true
      → Keeps s (create_loop hd kc fuel change n index s)
  unfolding create_loop
  create_loop-Keeps fuel change zero index s w = same-KeepsOthers s
  create_loop-Keeps zero change (suc n) index s w = inl refl
  create_loop-Keeps (suc fuel) change (suc n) index s w =
      elim (Option-cases (derive hd kc change index)) [
        | inl e ↦ rw (e, create_loop) (create_loop-Keeps fuel change (suc n) (index + 1) s w)
        | inr (key, e) ↦
            rw (e, create_loop)
              (lift-bind-Ends (λ addr. made addr) (λ _ t. KeepsOthers s t) MarkError s
                (or_error bad_address (hd.address key)) (λ x h. bad (hd.address key) x h)
                (λ addr h.
                  seq-Keeps (save_address (new_record hd kc addr index change))
                    (create_loop hd kc fuel change n (index + 1)) s
                    (save_address-Keeps (new_record hd kc addr index change) s w)
                    (λ t k. create_loop-Keeps fuel change n (index + 1) t (k ∙ w))))
      ]
    where
      made : Text → Tx (Unit {0})
      made addr =
          save_address (new_record hd kc addr index change)
          >> create_loop hd kc fuel change n (index + 1)

      bad : (o : Option Text) (x : Error) → or_error bad_address o ≡ err x → MarkError x
      bad none x h = ground arith
      bad (some a) x h = absurd (cc (h))

  fill_window-Keeps :
      (fuel : ℕ) (change : Bool) (have : ℕ) (s : Session)
      → s.for_writes ≡ true
      → Keeps s (fill_window hd kc fuel change have s)
  unfolding create_new_keys
  fill_window-Keeps fuel change have s w = elim (Bool-cases (ltb have kc.lookahead_window_size)) [
    | inl few ↦ rw few (
        read-Keeps (λ t. last_record kc.coin_type change t.addresses)
          (λ found.
            create_loop hd kc fuel change (kc.lookahead_window_size - have) (next_index found))
          s
          (λ found t k.
            create_loop-Keeps fuel change (kc.lookahead_window_size - have) (next_index found) t
              (k ∙ w)))
    | inr full ↦ rw full (same-KeepsOthers s)
  ]

  fill_windows-Keeps :
      (fuel : ℕ) (have : ℕ × ℕ) (s : Session)
      → s.for_writes ≡ true
      → Keeps s (fill_windows hd kc fuel have s)
  unfolding fill_windows
  fill_windows-Keeps fuel (internal, external) s w =
      seq-Keeps (if not kc.external_only then fill_window hd kc fuel true internal else pure tt)
        (fill_window hd kc fuel false external) s
        (elim (Bool-cases (not kc.external_only)) [
          | inl both ↦ rw both (fill_window-Keeps fuel true internal s w)
          | inr one ↦ rw one (same-KeepsOthers s)
        ])
        (λ t k. fill_window-Keeps fuel false external t (k ∙ w))

  extend_keychain-Keeps :
      (fuel : ℕ) (s : Session) → s.for_writes ≡ true → Keeps s (extend_keychain hd kc fuel s)
  unfolding extend_keychain
  extend_keychain-Keeps fuel s w =
      get_lookahead_windows-bind kc.coin_type (fill_windows hd kc fuel) (λ _ t. KeepsOthers s t)
        MarkError s
        (λ t h.
          map-Ends (λ _ v. KeepsOthers t v) (λ _ v. KeepsOthers s v) MarkError MarkError _
            (λ _ v z. then-KeepsOthers s t v (rows-KeepsOthers s t s.tables.addresses h) z)
            (λ _ e. e)
            (fill_windows-Keeps fuel (lookahead_windows (find_addresses kc.coin_type s.tables)) t
              (h.1 ∙ w)))

  mark_address_as_used-Keeps :
      (fuel : ℕ) (a : Text) (s : Session)
      → s.for_writes ≡ true
      → Keeps s (mark_address_as_used hd kc fuel a s)
  unfolding mark_address_as_used
  mark_address_as_used-Keeps fuel a s w = elim (Bool-cases kc.disable_mark_as_used) [
    | inl off ↦ simp off (same-KeepsOthers s)
    | inr on ↦ simp on (
        lookup-bind-Ends (λ t. find_address kc.coin_type a t.addresses) not_found
          (λ r. save_address (record r { used = true }) >> extend_keychain hd kc fuel)
          (λ _ t. KeepsOthers s t) MarkError s (λ _. refl)
          (λ r t _ h.
            map-Ends (λ _ v. KeepsOthers t v) (λ _ v. KeepsOthers s v) MarkError MarkError _
              (λ _ v z. then-KeepsOthers s t v (rows-KeepsOthers s t s.tables.addresses h) z)
              (λ _ e. e)
              (seq-Keeps (save_address (record r { used = true })) (extend_keychain hd kc fuel) t
                (save_address-Keeps (record r { used = true }) t (h.1 ∙ w))
                (λ v k. extend_keychain-Keeps fuel v (k ∙ h.1 ∙ w)))))
  ]

  -- Whatever fuel its loops run on, the keychain marks an address without changing, in a read-write
  -- transaction, any table but that of the addresses, and fails only with a missing address row, an
  -- address that cannot be made, the end of the fuel, or an error of the engine.
  pub keychain_keys-AreKeys : (fuel : ℕ) → AreKeys (keychain_keys hd kc fuel) MarkError
  unfolding keychain_keys
  keychain_keys-AreKeys fuel = record { marks = λ a s w. mark_address_as_used-Keeps fuel a s w }
