-- ===== src/Database/Laws.antt =====
-- How a transaction may end, rule by rule: the laws that the components' proofs use instead of the
-- definitions of Database/Tx.
use mathlib.Core.Path.{ap, subst}
use multiwallet.Prelude.{
  ℕ, ◌+◌, ◌≡◌, refl, ◌⊎◌, inl, inr, Bool, true, false, Option, none, some, Bool-cases,
}
use multiwallet.Database.Models.{Tables}
use multiwallet.Database.Tx.{
  Error, Exec, engine, Result, ok, err, Engine, Session, Tx, ◌>>=◌, or_error, lift, query, write,
  write_tx, finish, update,
}

-- The error is one of the engine's, and the engine has failed at some statement.
abbrev pub Faulted : Error → (ℕ → Bool) → Type 0
Faulted e faults = (e ≡ engine) × ((n : ℕ) × (faults n ≡ true))

-- A call ends with `Q` of its value and session, or with an error in `E`, or by an engine fault.
abbrev pub Ends :
    {A : Type 0} → (A → Session → Type 0) → (Error → Type 0) → Result A × Session → Type 0
Ends Q E (ok a, s) = Q a s
Ends Q E (err e, s) = E e ⊎ Faulted e s.faults

-- A managed transaction from the tables `before` commits with `Q`, or leaves the tables alone.
abbrev pub Commits :
    {A : Type 0} → (A → Tables → Type 0) → (Error → Type 0) → Tables → Result A × Engine → Type 0
Commits Q E before (ok a, e) = Q a e.tables
Commits Q E before (err x, e) = (e.tables ≡ before) × (E x ⊎ Faulted x e.faults)

-- The session goes on from `s` with the tables `T`.
abbrev pub Becomes : Session → Tables → Session → Type 0
Becomes s T t = (t.tables ≡ T) × (t.for_writes ≡ s.for_writes)

-- What a sequence of two calls does after the first one is known.
module _ {S A B : Type 0} (m : Exec S A) (f : A → Exec S B) (s : S) where
  pub bind_ok : (a : A) (t : S) → m s ≡ (ok a, t) → (m >>= f) s ≡ f a t
  bind_ok a t h = ap (λ p. ((λ (_ : S). p) >>= f) s) h

  pub bind_err : (e : Error) (t : S) → m s ≡ (err e, t) → (m >>= f) s ≡ (err e, t)
  bind_err e t h = ap (λ p. ((λ (_ : S). p) >>= f) s) h

module _ {A B : Type 0} (R : A → Session → Type 0) (Q : B → Session → Type 0)
    (E : Error → Type 0) where
  continue-Ends :
      (r : Result A × Session) (f : A → Tx B)
      → Ends R E r
      → ((a : A) (t : Session) → R a t → Ends Q E (f a t))
      → Ends Q E (((λ (s : Session). r) >>= f) r.1)
  continue-Ends (ok a, t) f h k = k a t h
  continue-Ends (err e, t) f h k = h

  pub bind-Ends :
      (m : Tx A) (f : A → Tx B) (s : Session)
      → Ends R E (m s)
      → ((a : A) (t : Session) → R a t → Ends Q E (f a t))
      → Ends Q E ((m >>= f) s)
  bind-Ends m f s h k = continue-Ends (m s) f h k

module _ {A : Type 0} (Q R : A → Session → Type 0) (E F : Error → Type 0) where
  pub map-Ends :
      (r : Result A × Session)
      → ((a : A) (t : Session) → Q a t → R a t)
      → ((e : Error) → E e → F e)
      → Ends Q E r
      → Ends R F r
  map-Ends (ok a, t) f g h = f a t h
  map-Ends (err e, t) f g (inl h) = inl (g e h)
  map-Ends (err e, t) f g (inr h) = inr h

module _ {A : Type 0} (q : Tables → Result A) (s : Session) where
  query_answer :
      (r : Result A)
      → q s.tables ≡ r
      → (b : Bool) → s.faults s.step ≡ b
      → Ends
          (λ a t. Becomes s s.tables t × (q s.tables ≡ ok a))
          (λ e. q s.tables ≡ err e)
          (query q s)
  unfolding query
  query_answer r e true h = rw h (inr (refl, (s.step, h)))
  query_answer (ok a) e false h = rw (h, e) ((refl, refl), e)
  query_answer (err x) e false h = rw (h, e) (inl e)

  -- A query leaves the tables alone, and its value or its own error is what the tables hold.
  pub query-Ends :
      Ends (λ a t. Becomes s s.tables t × (q s.tables ≡ ok a)) (λ e. q s.tables ≡ err e) (query q s)
  query-Ends = query_answer (q s.tables) refl (s.faults s.step) refl

module _ (f : Tables → Tables) (s : Session) where
  -- In a read-write transaction a statement that writes fails only by the engine.
  pub write-Ends : s.for_writes ≡ true → Ends (λ _ t. Becomes s (f s.tables) t) (λ _. ⊥) (write f s)
  unfolding write
  write-Ends w = elim (Bool-cases (s.faults s.step)) [
    | inl bad ↦ rw (w, bad) (inr (refl, (s.step, bad)))
    | inr good ↦ simp (w, good) (refl, refl)
  ]

module _ {A : Type 0} (Q : A → Tables → Type 0) (E : Error → Type 0) (e : Engine) where
  finish-Commits :
      (r : Result A × Session) → Ends (λ a t. Q a t.tables) E r → Commits Q E e.tables (finish e r)
  unfolding finish
  finish-Commits (ok a, s) h = elim (Bool-cases (s.faults s.step)) [
    | inl bad ↦ rw bad (refl, inr (refl, (s.step, bad)))
    | inr good ↦ rw good h
  ]
  finish-Commits (err x, s) h = (refl, h)

  pub update-Commits :
      (fn : Tx A)
      → Ends (λ a t. Q a t.tables) E (fn (write_tx e))
      → Commits Q E e.tables (update fn e)
  unfolding update
  update-Commits fn h = finish-Commits (fn (write_tx e)) h

-- Reading what the tables hold fails only by the engine.
pub read-Ends :
    {A : Type 0} (g : Tables → A) (E : Error → Type 0) (s : Session)
    → Ends (λ a t. Becomes s s.tables t × (a ≡ g s.tables)) E (query (λ t. ok (g t)) s)
unfolding query
read-Ends g E s = elim (Bool-cases (s.faults s.step)) [
  | inl bad ↦ rw bad (inr (refl, (s.step, bad)))
  | inr good ↦ rw good ((refl, refl), refl)
]

-- A read that the engine takes.
pub read_taken :
    {A : Type 0} (g : Tables → A) (s : Session)
    → s.faults s.step ≡ false
    → query (λ t. ok (g t)) s ≡ (ok (g s.tables), record s { step = s.step + 1 })
unfolding query
read_taken g s h = rw h refl

module _ {A B : Type 0} (g : Tables → A) (f : A → Tx B) (Q : B → Session → Type 0)
    (E : Error → Type 0) (s : Session) where
  -- What follows a read goes on with the value read and the same tables.
  pub read-bind-Ends :
      ((t : Session) → Becomes s s.tables t → Ends Q E (f (g s.tables) t))
      → Ends Q E ((query (λ t. ok (g t)) >>= f) s)
  read-bind-Ends k =
      bind-Ends (λ a t. Becomes s s.tables t × (a ≡ g s.tables)) Q E (query (λ t. ok (g t))) f s
        (read-Ends g E s) (λ a t h. rw h.1 (k t h.0))

module _ {A B : Type 0} (g : Tables → Option A) (x : Error) (f : A → Tx B)
    (Q : B → Session → Type 0) (E : Error → Type 0) (s : Session) where
  -- A look-up ends with its error where the tables hold nothing, and else goes on with what it found.
  pub lookup-bind-Ends :
      (g s.tables ≡ none → E x)
      → ((a : A) (t : Session) → g s.tables ≡ some a → Becomes s s.tables t → Ends Q E (f a t))
      → Ends Q E ((query (λ t. or_error x (g t)) >>= f) s)
  lookup-bind-Ends missing k =
      bind-Ends (λ a t. Becomes s s.tables t × (g s.tables ≡ some a)) Q E
        (query (λ t. or_error x (g t))) f s
        (map-Ends (λ a t. Becomes s s.tables t × (or_error x (g s.tables) ≡ ok a)) _
          (λ e. or_error x (g s.tables) ≡ err e) E _ (λ a t h. (h.0, found (g s.tables) a h.1))
          (λ e h. lost (g s.tables) e refl h) (query-Ends (λ t. or_error x (g t)) s))
        (λ a t h. k a t h.1 h.0)
    where
      found : (o : Option A) (a : A) → or_error x o ≡ ok a → o ≡ some a
      found none a h = absurd (cc)
      found (some b) a h = cc

      lost : (o : Option A) (e : Error) → g s.tables ≡ o → or_error x o ≡ err e → E e
      lost none e h d = let p : x ≡ e = cc in subst E p (missing h)
      lost (some b) e h d = absurd (cc)

module _ {A : Type 0} (Q R : A → Tables → Type 0) (E : Error → Type 0) (before : Tables) where
  pub map-Commits :
      (r : Result A × Engine)
      → ((a : A) (T : Tables) → Q a T → R a T)
      → Commits Q E before r
      → Commits R E before r
  map-Commits (ok a, e) f h = f a e.tables h
  map-Commits (err x, e) f h = h

module _ {A B : Type 0} (f : A → Tx B) (Q : B → Session → Type 0) (E : Error → Type 0)
    (s : Session) where
  -- A pure step ends the transaction with its error, or goes on with its value.
  pub lift-bind-Ends :
      (r : Result A)
      → ((x : Error) → r ≡ err x → E x)
      → ((a : A) → r ≡ ok a → Ends Q E (f a s))
      → Ends Q E ((lift r >>= f) s)
  lift-bind-Ends (ok a) g k = k a refl
  lift-bind-Ends (err x) g k = inl (g x refl)

pub lift-Ends :
    {A : Type 0} (Q : A → Session → Type 0) (E : Error → Type 0) (s : Session) (r : Result A)
    → ((x : Error) → r ≡ err x → E x)
    → ((a : A) → r ≡ ok a → Q a s)
    → Ends Q E (lift r s)
lift-Ends Q E s (ok a) g k = k a refl
lift-Ends Q E s (err x) g k = inl (g x refl)
