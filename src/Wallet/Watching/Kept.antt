-- ===== src/Wallet/Watching/Kept.antt =====
-- What the loop of `WatchAddress` keeps, and what a commit of it does.
use mathlib.Core.Path.{subst}
use mathlib.Core.List.{append_assoc, append-nil}
use multiwallet.Prelude.{
  ◌≡◌, refl, sym, ◌∙◌, ap, inl, inr, Bool, true, false, ◌||◌, Option, none, some, List, [], ◌∷◌,
  ◌++◌, All, All-map, All-append, arith, Text, text_eq_iff,
}
use multiwallet.Database.Models.{Tables, AddressRecord, WatchedAddressRecord}
use multiwallet.Database.Tables.{upsert}
use multiwallet.Database.Tx.{Result, ok, err, Session, Engine, ◌>>=◌, write_tx}
use multiwallet.Database.Laws.{Becomes, Faulted, write-Ends}
use multiwallet.Database.Beside.{
  Beside, BesideEnds, on_session, in_memory, bind-BesideEnds, map-BesideEnds, on_session-BesideEnds,
  update_beside, CommitsBeside, update_beside-CommitsBeside,
}
use multiwallet.Keychain.Addresses.{Address, find_address}
use multiwallet.Wallet.Watching.{
  find_watched, watched_row, save_watched, try_own, try_watched, watch_new, watch_foreign,
  watch_all, Watch, tell, watch_hook,
}
use multiwallet.Wallet.Watching.Rows.{is_watched, is_watched-upsert, is_watched-found, attempt-Ends}

abbrev pub has_record : Option AddressRecord → Bool
has_record none = false
has_record (some r) = true

-- The address is the wallet's own, or the coin watches it.
abbrev pub is_covered : Text → Tables → Address → Bool
is_covered coin T a =
    has_record (find_address coin a.text T.addresses) || is_watched coin a.text T.watched

-- The tables that the addresses leave, and those that are new among them.
pub record Covers (coin : Text) (before after : Tables) (addrs updated : List Address)
    : Type 0 where
  pub covered : All (λ a. is_covered coin after a ≡ true) addrs
  pub told : All (λ a. is_watched coin a.text after.watched ≡ true) updated
  pub grows :
      (x : Text) → is_watched coin x before.watched ≡ true → is_watched coin x after.watched ≡ true
  pub coins : after.coins ≡ before.coins
  pub utxos : after.utxos ≡ before.utxos
  pub transactions : after.transactions ≡ before.transactions
  pub addresses : after.addresses ≡ before.addresses
  pub unconfirmed : after.unconfirmed ≡ before.unconfirmed

module _ (coin : Text) (T : Tables) where
  -- Inside the closure, after the addresses `addrs`.
  abbrev Goes : List Address → Unit {0} → Beside (List Address) → Type 0
  Goes addrs _ v = Covers coin T v.0.tables addrs v.1 × (v.0.for_writes ≡ true)

  same-Covers :
      (t : Tables) (done updated : List Address) (a : Address)
      → is_covered coin t a ≡ true
      → Covers coin T t done updated
      → Covers coin T t (done ++ a ∷ []) updated
  same-Covers t done updated a h c = record {
    covered =
        All-append (λ (x : Address). is_covered coin t x ≡ true) done (a ∷ []) c.covered (h, tt);
    told = c.told;
    grows = c.grows;
    coins = c.coins;
    utxos = c.utxos;
    transactions = c.transactions;
    addresses = c.addresses;
    unconfirmed = c.unconfirmed;
  }

  abbrev with_watched : Tables → Address → Tables
  with_watched t a = record t { watched = upsert (λ x. x.addr) (watched_row coin a) t.watched }

  watched_more :
      (t : Tables) (a : Address) (x : Text)
      → is_watched coin x t.watched ≡ true
      → is_watched coin x (with_watched t a).watched ≡ true
  watched_more t a x h =
      ground (arith, is_watched-upsert coin x (watched_row coin a) t.watched refl)

  watched_here :
      (t : Tables) (a : Address) → is_watched coin a.text (with_watched t a).watched ≡ true
  watched_here t a =
      is_watched-upsert coin a.text (watched_row coin a) t.watched refl
      ∙ (let same = (text_eq_iff a.text a.text).1 refl in rw same refl)

  new-Covers :
      (t : Tables) (done updated : List Address) (a : Address)
      → Covers coin T t done updated
      → Covers coin T (with_watched t a) (done ++ a ∷ []) (updated ++ a ∷ [])
  new-Covers t done updated a c = record {
    covered =
        All-append (λ (x : Address). is_covered coin (with_watched t a) x ≡ true) done (a ∷ [])
          (All-map (λ (x : Address). is_covered coin t x ≡ true) _ done
            (λ x h. (let more = watched_more t a x.text in ground arith)) c.covered)
          ((let here = watched_here t a in ground arith), tt);
    told =
        All-append (λ (x : Address). is_watched coin x.text (with_watched t a).watched ≡ true)
          updated (a ∷ [])
          (All-map (λ (x : Address). is_watched coin x.text t.watched ≡ true) _ updated
            (λ x h. watched_more t a x.text h) c.told)
          (watched_here t a, tt);
    grows = λ x h. watched_more t a x (c.grows x h);
    coins = c.coins;
    utxos = c.utxos;
    transactions = c.transactions;
    addresses = c.addresses;
    unconfirmed = c.unconfirmed;
  }

  moved-Goes :
      (done : List Address) (v : Beside (List Address)) (t : Session)
      → Becomes v.0 v.0.tables t
      → Goes done tt v
      → Goes done tt (t, v.1)
  moved-Goes done v t h g =
      (subst (λ (x : Tables). Covers coin T x done v.1) (sym h.0) g.0, h.1 ∙ g.1)

  watch_new-Goes :
      (done : List Address) (a : Address) (o : Option WatchedAddressRecord)
      (v : Beside (List Address))
      → ((r : WatchedAddressRecord) → o ≡ some r → is_watched coin a.text v.0.tables.watched ≡ true)
      → Goes done tt v
      → BesideEnds (Goes (done ++ a ∷ [])) (λ _. ⊥) (watch_new coin a o v)
  unfolding save_watched
  watch_new-Goes done a (some r) v known g =
      let here = known r refl in (same-Covers v.0.tables done v.1 a (ground arith) g.0, g.1)
  watch_new-Goes done a none v known g =
      bind-BesideEnds (λ _ w. Becomes v.0 (with_watched v.0.tables a) w.0 × (w.1 ≡ v.1))
        (Goes (done ++ a ∷ [])) (λ _. ⊥) (on_session (save_watched (watched_row coin a)))
        (λ _. in_memory (λ updated. updated ++ a ∷ [])) v
        (on_session-BesideEnds (λ _ t. Becomes v.0 (with_watched v.0.tables a) t) (λ _. ⊥) v.1
          (save_watched (watched_row coin a)) v.0 (write-Ends (λ t. with_watched t a) v.0 g.1))
        (λ _ w h. (
          subst (λ (x : Tables). Covers coin T x (done ++ a ∷ []) (w.1 ++ a ∷ [])) (sym h.0.0)
              (subst
                (λ (u : List Address).
                  Covers coin T (with_watched v.0.tables a) (done ++ a ∷ []) (u ++ a ∷ []))
                (sym h.1) (new-Covers v.0.tables done v.1 a g.0)),
          h.0.1 ∙ g.1,
        ))

  watch_foreign-Goes :
      (done : List Address) (a : Address) (o : Option AddressRecord) (v : Beside (List Address))
      → ((r : AddressRecord) → o ≡ some r → find_address coin a.text v.0.tables.addresses ≡ some r)
      → Goes done tt v
      → BesideEnds (Goes (done ++ a ∷ [])) (λ _. ⊥) (watch_foreign coin a o v)
  watch_foreign-Goes done a (some r) v known g =
      let here = known r refl in (same-Covers v.0.tables done v.1 a (ground arith) g.0, g.1)
  watch_foreign-Goes done a none v known g =
      bind-BesideEnds (λ o w. Q o w.0 × (w.1 ≡ v.1)) (Goes (done ++ a ∷ [])) (λ _. ⊥)
        (on_session (try_watched coin a)) (watch_new coin a) v
        (on_session-BesideEnds Q (λ _. ⊥) v.1 (try_watched coin a) v.0
          (attempt-Ends (λ t. find_watched coin a.text t.watched) v.0))
        (λ o w h.
          watch_new-Goes done a o w
            (λ r e.
              ap (λ (x : Tables). is_watched coin a.text x.watched) h.0.0.0
              ∙ is_watched-found coin a.text r v.0.tables.watched (h.0.1 r e))
            (subst (λ (u : List Address). Goes done tt (w.0, u)) (sym h.1)
              (moved-Goes done v w.0 h.0.0 g)))
    where
      Q : Option WatchedAddressRecord → Session → Type 0
      Q o t =
          Becomes v.0 v.0.tables t
          × ((r : WatchedAddressRecord)
              → o ≡ some r
              → find_watched coin a.text v.0.tables.watched ≡ some r)

  watch_one-Goes :
      (done : List Address) (a : Address) (v : Beside (List Address))
      → Goes done tt v
      → BesideEnds
          (Goes (done ++ a ∷ []))
          (λ _. ⊥)
          ((on_session (try_own coin a) >>= watch_foreign coin a) v)
  watch_one-Goes done a v g =
      bind-BesideEnds (λ o w. Q o w.0 × (w.1 ≡ v.1)) (Goes (done ++ a ∷ [])) (λ _. ⊥)
        (on_session (try_own coin a)) (watch_foreign coin a) v
        (on_session-BesideEnds Q (λ _. ⊥) v.1 (try_own coin a) v.0
          (attempt-Ends (λ t. find_address coin a.text t.addresses) v.0))
        (λ o w h.
          watch_foreign-Goes done a o w
            (λ r e. ap (λ (x : Tables). find_address coin a.text x.addresses) h.0.0.0 ∙ h.0.1 r e)
            (subst (λ (u : List Address). Goes done tt (w.0, u)) (sym h.1)
              (moved-Goes done v w.0 h.0.0 g)))
    where
      Q : Option AddressRecord → Session → Type 0
      Q o t =
          Becomes v.0 v.0.tables t
          × ((r : AddressRecord)
              → o ≡ some r
              → find_address coin a.text v.0.tables.addresses ≡ some r)

  watch_all-Goes :
      (done addrs : List Address) (v : Beside (List Address))
      → Goes done tt v
      → BesideEnds (Goes (done ++ addrs)) (λ _. ⊥) (watch_all coin addrs v)
  unfolding watch_all
  watch_all-Goes done [] v g = subst (λ (x : List Address). Goes x tt v) (sym (append-nil done)) g
  watch_all-Goes done (a ∷ addrs) v g =
      subst (λ (x : List Address). BesideEnds (Goes x) (λ _. ⊥) (watch_all coin (a ∷ addrs) v))
        (append_assoc done (a ∷ []) addrs)
        (bind-BesideEnds (Goes (done ++ a ∷ [])) (Goes ((done ++ a ∷ []) ++ addrs)) (λ _. ⊥)
          (on_session (try_own coin a) >>= watch_foreign coin a) (λ _. watch_all coin addrs) v
          (watch_one-Goes done a v g) (λ _ w h. watch_all-Goes (done ++ a ∷ []) addrs w h))

  start-Covers : Covers coin T T [] []
  start-Covers = record {
    covered = tt;
    told = tt;
    grows = λ x h. h;
    coins = refl;
    utxos = refl;
    transactions = refl;
    addresses = refl;
    unconfirmed = refl;
  }

-- The outcome of the hook.
abbrev pub Watches : Text → List Address → Watch → Result (Unit {0}) × Watch → Type 0
Watches coin addrs w (ok a, w') =
    (updated : List Address) × Covers coin w.engine.tables w'.engine.tables addrs updated
    × (w'.told ≡ w.told ++ updated)
Watches coin addrs w (err x, w') =
    (w'.engine.tables ≡ w.engine.tables) × (w'.told ≡ w.told) × Faulted x w'.engine.faults

tell-Watches :
    (coin : Text) (addrs : List Address) (w : Watch)
    (r : Result (Unit {0}) × (Engine × List Address))
    → CommitsBeside
        (λ _ T updated. Covers coin w.engine.tables T addrs updated)
        (λ _. ⊥)
        w.engine.tables
        r
    → Watches coin addrs w (tell w r)
tell-Watches coin addrs w (ok a, k) h = (k.1, h, refl)
tell-Watches coin addrs w (err x, k) (same, inl never) = absurd never
tell-Watches coin addrs w (err x, k) (same, inr fault) = (same, refl, fault)

-- What a commit of `WatchAddress` runs. Where it returns no error, each of the addresses is one of the
-- wallet's own or is watched for the coin, what was watched for the coin still is, no other table
-- changes, and the chain manager is told of addresses that are all watched now. Where it returns an
-- error, no table changes, the chain manager is told nothing, and the engine had a fault.
pub watch_hook-Watches :
    (coin : Text) (addrs : List Address) (w : Watch)
    → Watches coin addrs w (watch_hook coin addrs w)
unfolding watch_hook write_tx
watch_hook-Watches coin addrs w =
    tell-Watches coin addrs w (update_beside (watch_all coin addrs) (w.engine, [])) (
      update_beside-CommitsBeside (λ _ T updated. Covers coin w.engine.tables T addrs updated)
        (λ _. ⊥) (watch_all coin addrs) (w.engine, [])
        (map-BesideEnds (Goes coin w.engine.tables addrs)
          (λ _ v. Covers coin w.engine.tables v.0.tables addrs v.1) (λ _. ⊥)
          (watch_all coin addrs (write_tx w.engine, [])) (λ _ v h. h.0)
          (watch_all-Goes coin w.engine.tables [] addrs (write_tx w.engine, [])
            (start-Covers coin w.engine.tables, refl))))
