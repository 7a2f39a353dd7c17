-- ===== src/Wallet/Watching/Rows.antt =====
-- The rows of watched addresses, and the reads whose errors are dropped.
use mathlib.Core.Path.{subst}
use multiwallet.Prelude.{
  ◌+◌, ◌≡◌, refl, sym, ◌∙◌, inl, inr, Bool, true, false, ◌&&◌, ◌||◌, Option, none, some, List, [],
  ◌∷◌, any, arith, Text, text_eq, text_eq_iff, Bool-cases,
}
use multiwallet.Database.Models.{WatchedAddressRecord, Tables}
use multiwallet.Database.Tables.{upsert}
use multiwallet.Database.Tx.{Result, ok, err, Session, or_error, query, not_found, engine}
use multiwallet.Database.Laws.{Ends, Becomes}
use multiwallet.Wallet.Watching.{attempt, find_watched}

-- The coin watches the address.
abbrev pub is_watched : Text → Text → List WatchedAddressRecord → Bool
is_watched coin a rows = any (λ r. text_eq r.coin coin && text_eq r.addr a) rows

pub is_watched-upsert :
    (coin a : Text) (r : WatchedAddressRecord) (rows : List WatchedAddressRecord)
    → r.coin ≡ coin
    → is_watched coin a (upsert (λ x. x.addr) r rows) ≡ (text_eq r.addr a || is_watched coin a rows)
unfolding upsert
is_watched-upsert coin a r [] h = rw ((text_eq_iff r.coin coin).1 h) (ground arith)
is_watched-upsert coin a r (x ∷ rows) h =
    let own = (text_eq_iff r.coin coin).1 h in
    let rest = is_watched-upsert coin a r rows h in
    elim (Bool-cases (text_eq x.addr r.addr)) [
      | inl same ↦ rw (same, own) (ground (arith, text_eq_iff x.addr r.addr))
      | inr other ↦ rw (other, rest) (ground arith)
    ]

pub is_watched-found :
    (coin a : Text) (r : WatchedAddressRecord) (rows : List WatchedAddressRecord)
    → find_watched coin a rows ≡ some r
    → is_watched coin a rows ≡ true
is_watched-found coin a r [] h = absurd (cc (h))
is_watched-found coin a r (x ∷ rows) h = ground (arith, is_watched-found coin a r rows)

-- What an attempted look-up tells: nothing, or what the tables hold.
pub attempt-Ends :
    {A : Type 0} (g : Tables → Option A) (s : Session)
    → Ends
        (λ o t. Becomes s s.tables t × ((a : A) → o ≡ some a → g s.tables ≡ some a))
        (λ _. ⊥)
        (attempt (query (λ t. or_error not_found (g t))) s)
unfolding query
attempt-Ends {A} g s = read (g s.tables) refl (s.faults s.step) refl
  where
    given :
        (r : Result A × Session)
        → query (λ t. or_error not_found (g t)) s ≡ r
        → Ends
            (λ o t. Becomes s s.tables t × ((a : A) → o ≡ some a → g s.tables ≡ some a))
            (λ _. ⊥)
            (attempt (λ (v : Session). r) s)
        → Ends
            (λ o t. Becomes s s.tables t × ((a : A) → o ≡ some a → g s.tables ≡ some a))
            (λ _. ⊥)
            (attempt (query (λ t. or_error not_found (g t))) s)
    given r e h =
        subst
          (λ (x : Result A × Session).
            Ends (λ o t. Becomes s s.tables t × ((a : A) → o ≡ some a → g s.tables ≡ some a))
              (λ _. ⊥) (attempt (λ (v : Session). x) s))
          (sym e) h

    read :
        (o : Option A)
        → g s.tables ≡ o
        → (b : Bool) → s.faults s.step ≡ b
        → Ends
            (λ o t. Becomes s s.tables t × ((a : A) → o ≡ some a → g s.tables ≡ some a))
            (λ _. ⊥)
            (attempt (query (λ t. or_error not_found (g t))) s)
    read o e true f =
        given (err engine, record s { step = s.step + 1 }) (rw f refl)
          ((refl, refl), λ a h. absurd (cc (h)))
    read none e false f =
        given (err not_found, record s { step = s.step + 1 }) (rw (f, e) refl)
          ((refl, refl), λ a h. absurd (cc (h)))
    read (some c) e false f =
        given (ok c, record s { step = s.step + 1 }) (rw (f, e) refl) ((refl, refl), λ a h. e ∙ h)
