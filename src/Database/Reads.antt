-- ===== src/Database/Reads.antt =====
-- The calls of database/sqlitedb/sqlitedb.go that only read: the tables stay, however they end.
use multiwallet.Prelude.{◌≡◌, refl, ◌∙◌, inl, inr, Bool-cases}
use multiwallet.Database.Models.{Tables}
use multiwallet.Database.Tx.{Result, ok, err, Session, Tx, ◌>>=◌, lift, query}

-- The tables at the end of a call are those at its start, also where it ends with an error.
abbrev pub Keeps : {A : Type 0} → Tx A → Type 0
Keeps m = (s : Session) → (m s).1.tables ≡ s.tables

pub query-Keeps : {A : Type 0} (q : Tables → Result A) → Keeps (query q)
unfolding query
query-Keeps q s = elim (Bool-cases (s.faults s.step)) [
  | inl bad ↦ rw bad refl
  | inr good ↦ rw good refl
]

pub lift-Keeps : {A : Type 0} (r : Result A) → Keeps (lift r)
lift-Keeps r s = refl

continue-Keeps :
    {A B : Type 0} (r : Result A × Session) (f : A → Tx B)
    → ((a : A) → Keeps (f a))
    → (((λ (s : Session). r) >>= f) r.1).1.tables ≡ r.1.tables
continue-Keeps (ok a, t) f k = k a t
continue-Keeps (err e, t) f k = refl

pub bind-Keeps :
    {A B : Type 0} (m : Tx A) (f : A → Tx B) → Keeps m → ((a : A) → Keeps (f a)) → Keeps (m >>= f)
bind-Keeps m f h k s = continue-Keeps (m s) f k ∙ h s
