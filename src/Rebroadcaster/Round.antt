-- ===== src/Rebroadcaster/Round.antt =====
-- A round sends every unconfirmed transaction of the coin once, and deletes only what was accepted.
use mathlib.Core.Path.{subst}
use mathlib.Core.List.{Memᴰ, append_assoc, append-nil}
use multiwallet.Prelude.{
  ℕ, ◌+◌, ◌≡◌, refl, sym, ◌∙◌, ap, true, false, ◌⊎◌, inl, inr, List, [], ◌∷◌, ◌++◌, map, All,
  All-map, Bool-cases, if◌then◌else◌, Text,
}
use multiwallet.Database.Models.{UnconfirmedTransaction, Tables}
use multiwallet.Database.Tx.{
  Engine, query, statement, write, update, view, write_tx, read_tx, finish,
}
use multiwallet.Rebroadcaster.{
  Relay, Node, drop_unconfirmed, delete_unconfirmed, find_unconfirmed, rebroadcast_one,
  rebroadcast_each, rebroadcast,
}

-- The ids of the transactions that the node accepts when they are sent one after the other.
abbrev pub accepted : Node → List Text → List UnconfirmedTransaction → List Text
accepted node sent [] = []
accepted node sent (utx ∷ unconf) =
    let rest = accepted node (sent ++ utx.tx_bytes ∷ []) unconf in
    if node sent utx.tx_bytes then utx.txid ∷ rest else rest

-- The unconfirmed transactions without those of some ids.
abbrev pub drop_each : List Text → Tables → Tables
drop_each [] t = t
drop_each (txid ∷ txids) t = drop_each txids (drop_unconfirmed txid t)

-- The engine fails no statement.
abbrev pub IsFaultless : Engine → Type 0
IsFaultless e = (n : ℕ) → e.faults n ≡ false

-- An update that deletes one transaction does so, or changes nothing because the engine failed.
abbrev IsDeleted : Text → Engine → Engine → Type 0
IsDeleted txid e e' =
    ((e'.tables ≡ drop_unconfirmed txid e.tables)
      ⊎ ((e'.tables ≡ e.tables) × ((n : ℕ) × (e.faults n ≡ true))))
    × (e'.faults ≡ e.faults)

delete-IsDeleted :
    (txid : Text) (e : Engine) → IsDeleted txid e (update (delete_unconfirmed txid) e).1
unfolding delete_unconfirmed update write_tx finish write statement
delete-IsDeleted txid e = elim (Bool-cases (e.faults (e.step + 1))) [
  | inl bad ↦ rw bad (inr (refl, (e.step + 1, bad)), refl)
  | inr good ↦ elim (Bool-cases (e.faults (e.step + 1 + 1))) [
    | inl bad ↦ rw (good, bad) (inr (refl, (e.step + 1 + 1, bad)), refl)
    | inr good' ↦ rw (good, good') (inl refl, refl)
  ]
]

module _ (node : Node) where
  -- From `r` to `r'`: the transactions `unconf` were sent in their order, and what was deleted was
  -- accepted; without faults all that was accepted was deleted.
  pub record IsSwept (unconf : List UnconfirmedTransaction) (r r' : Relay) : Type 0 where
    pub gone : List Text
    pub were_accepted : All (λ x. Memᴰ x (accepted node r.sent unconf)) gone
    pub dropped : r'.engine.tables ≡ drop_each gone r.engine.tables
    pub complete : IsFaultless r.engine → gone ≡ accepted node r.sent unconf
    pub all_sent : r'.sent ≡ r.sent ++ map (λ u. u.tx_bytes) unconf

  accepted-here :
      (sent : List Text) (utx : UnconfirmedTransaction) (unconf : List UnconfirmedTransaction)
      → node sent utx.tx_bytes ≡ true
      → accepted node sent (utx ∷ unconf)
        ≡ utx.txid ∷ accepted node (sent ++ utx.tx_bytes ∷ []) unconf
  accepted-here sent utx unconf h = rw h refl

  after_sent : Relay → UnconfirmedTransaction → Engine → Relay
  after_sent r utx e = record r { engine = e; sent = r.sent ++ utx.tx_bytes ∷ [] }

  after_sent-IsSwept :
      (utx : UnconfirmedTransaction) (unconf : List UnconfirmedTransaction) (r r' : Relay)
      (e : Engine)
      → node r.sent utx.tx_bytes ≡ true
      → IsDeleted utx.txid r.engine e
      → IsSwept unconf (after_sent r utx e) r'
      → IsSwept (utx ∷ unconf) r r'
  unfolding after_sent
  after_sent-IsSwept utx unconf r r' e took (inl del, same) s = record {
    gone = utx.txid ∷ s.gone;
    were_accepted =
        subst (λ xs. All (λ x. Memᴰ x xs) (utx.txid ∷ s.gone))
          (sym (accepted-here r.sent utx unconf took))
          (
            Memᴰ.head refl,
            All-map (λ x. Memᴰ x (accepted node (r.sent ++ utx.tx_bytes ∷ []) unconf))
                (λ x. Memᴰ x (utx.txid ∷ accepted node (r.sent ++ utx.tx_bytes ∷ []) unconf)) s.gone
                (λ x m. Memᴰ.tail m) s.were_accepted,
          );
    dropped = s.dropped ∙ ap (drop_each s.gone) del;
    complete = λ f.
        ap (λ xs. utx.txid ∷ xs) (s.complete (λ n. ap (λ g. g n) same ∙ f n))
        ∙ sym (accepted-here r.sent utx unconf took);
    all_sent = s.all_sent ∙ append_assoc r.sent (utx.tx_bytes ∷ []) (map (λ u. u.tx_bytes) unconf);
  }
  after_sent-IsSwept utx unconf r r' e took (inr (kept, (n, bad)), same) s = record {
    gone = s.gone;
    were_accepted =
        subst (λ xs. All (λ x. Memᴰ x xs) s.gone) (sym (accepted-here r.sent utx unconf took))
          (All-map (λ x. Memᴰ x (accepted node (r.sent ++ utx.tx_bytes ∷ []) unconf))
            (λ x. Memᴰ x (utx.txid ∷ accepted node (r.sent ++ utx.tx_bytes ∷ []) unconf)) s.gone
            (λ x m. Memᴰ.tail m) s.were_accepted);
    dropped = s.dropped ∙ ap (drop_each s.gone) kept;
    complete = λ f. absurd (cc (f n, bad));
    all_sent = s.all_sent ∙ append_assoc r.sent (utx.tx_bytes ∷ []) (map (λ u. u.tx_bytes) unconf);
  }

  refused-IsSwept :
      (utx : UnconfirmedTransaction) (unconf : List UnconfirmedTransaction) (r r' : Relay)
      → node r.sent utx.tx_bytes ≡ false
      → IsSwept unconf (after_sent r utx r.engine) r'
      → IsSwept (utx ∷ unconf) r r'
  unfolding after_sent
  refused-IsSwept utx unconf r r' lost s = record {
    gone = s.gone;
    were_accepted = rw lost s.were_accepted;
    dropped = s.dropped;
    complete = λ f. rw lost (s.complete f);
    all_sent = s.all_sent ∙ append_assoc r.sent (utx.tx_bytes ∷ []) (map (λ u. u.tx_bytes) unconf);
  }

  one_accepted :
      (utx : UnconfirmedTransaction) (r : Relay)
      → node r.sent utx.tx_bytes ≡ true
      → rebroadcast_one node utx r
        ≡ after_sent r utx (update (delete_unconfirmed utx.txid) r.engine).1
  unfolding rebroadcast_one after_sent
  one_accepted utx r took = rw took refl

  one_refused :
      (utx : UnconfirmedTransaction) (r : Relay)
      → node r.sent utx.tx_bytes ≡ false
      → rebroadcast_one node utx r ≡ after_sent r utx r.engine
  unfolding rebroadcast_one after_sent
  one_refused utx r lost = rw lost refl

  rebroadcast_each-IsSwept :
      (unconf : List UnconfirmedTransaction) (r : Relay)
      → IsSwept unconf r (rebroadcast_each node unconf r)
  unfolding rebroadcast_each
  rebroadcast_each-IsSwept [] r = record {
    gone = [];
    were_accepted = tt;
    dropped = refl;
    complete = λ f. refl;
    all_sent = sym (append-nil r.sent);
  }
  rebroadcast_each-IsSwept (utx ∷ unconf) r = elim (Bool-cases (node r.sent utx.tx_bytes)) [
    | inl took ↦
        after_sent-IsSwept utx unconf r _ (update (delete_unconfirmed utx.txid) r.engine).1 took
          (delete-IsDeleted utx.txid r.engine)
          (rw (one_accepted utx r took) (rebroadcast_each-IsSwept unconf _))
    | inr lost ↦
        refused-IsSwept utx unconf r _ lost
          (rw (one_refused utx r lost) (rebroadcast_each-IsSwept unconf _))
  ]

  -- The relay after a statement.
  abbrev stepped : Relay → Relay
  stepped r = record r {
    engine = record {
      tables = r.engine.tables;
      step = r.engine.step + 1;
      faults = r.engine.faults;
    };
  }

  round_failed :
      (coin : Text) (r : Relay)
      → r.engine.faults r.engine.step ≡ true
      → rebroadcast node coin r ≡ stepped r
  unfolding rebroadcast view query statement read_tx
  round_failed coin r bad = rw bad refl

  round_begun :
      (coin : Text) (r : Relay)
      → r.engine.faults r.engine.step ≡ false
      → rebroadcast node coin r
        ≡ rebroadcast_each node (find_unconfirmed coin r.engine.tables) (stepped r)
  unfolding rebroadcast view query statement read_tx
  round_begun coin r good = rw good refl

  -- A round either ends at its query, where the engine failed it, with the tables as before and nothing
  -- sent; or it sends every unconfirmed transaction of the coin once, in their order, deletes only
  -- transactions that the node accepted, and all of these if the engine fails no statement, and
  -- changes nothing else.
  pub rebroadcast-IsSwept :
      (coin : Text) (r : Relay)
      → ((r.engine.faults r.engine.step ≡ true)
          × ((rebroadcast node coin r).engine.tables ≡ r.engine.tables)
          × ((rebroadcast node coin r).sent ≡ r.sent))
        ⊎ IsSwept (find_unconfirmed coin r.engine.tables) r (rebroadcast node coin r)
  rebroadcast-IsSwept coin r = elim (Bool-cases (r.engine.faults r.engine.step)) [
    | inl bad ↦ rw (round_failed coin r bad) (inl (bad, refl, refl))
    | inr good ↦ inr (
        rw (round_begun coin r good) (
          let s = rebroadcast_each-IsSwept (find_unconfirmed coin r.engine.tables) (stepped r) in
          record {
            gone = s.gone;
            were_accepted = s.were_accepted;
            dropped = s.dropped;
            complete = s.complete;
            all_sent = s.all_sent;
          }))
  ]
