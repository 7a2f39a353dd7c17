-- ===== src/Database/Beside.antt =====
-- Closures of `Update` that also change what is in memory: a session beside a memory `M`, which an
-- error leaves as it is. Laws like those of Database/Laws.
use multiwallet.Prelude.{◌≡◌, refl, ◌⊎◌, inl, inr, Bool-cases}
use multiwallet.Database.Models.{Tables}
use multiwallet.Database.Tx.{
  Result, ok, err, Error, Tx, Exec, Engine, Session, ◌>>=◌, lift, write_tx, finish,
}
use multiwallet.Database.Laws.{Faulted, Ends}

abbrev pub Beside : Type 0 → Type 0
Beside M = Session × M

module _ {M A : Type 0} where
  abbrev pub on_session : Tx A → Exec (Beside M) A
  on_session m v = let (r, s) = m v.0 in (r, (s, v.1))

  -- `Update` of such a closure: the engine commits or rolls back, the memory stays as the closure
  -- left it.
  unfoldable pub update_beside : Exec (Beside M) A → Exec (Engine × M) A
  unfolding write_tx finish
  update_beside fn k =
      let (r, v) = fn (write_tx k.0, k.1) in let (r', e) = finish k.0 (r, v.0) in (r', (e, v.1))

  abbrev pub BesideEnds : (A → Beside M → Type 0) → (Error → Type 0) → Result A × Beside M → Type 0
  BesideEnds Q E (ok a, v) = Q a v
  BesideEnds Q E (err e, v) = E e ⊎ Faulted e v.0.faults

-- Only the memory changes.
abbrev pub in_memory : {M : Type 0} → (M → M) → Exec (Beside M) (Unit {0})
in_memory f v = (ok tt, (v.0, f v.1))

module _ {M A B : Type 0} (R : A → Beside M → Type 0) (Q : B → Beside M → Type 0)
    (E : Error → Type 0) where
  continue-BesideEnds :
      (r : Result A × Beside M) (f : A → Exec (Beside M) B)
      → BesideEnds R E r
      → ((a : A) (w : Beside M) → R a w → BesideEnds Q E (f a w))
      → BesideEnds Q E (((λ (v : Beside M). r) >>= f) r.1)
  continue-BesideEnds (ok a, w) f h k = k a w h
  continue-BesideEnds (err e, w) f h k = h

  pub bind-BesideEnds :
      (m : Exec (Beside M) A) (f : A → Exec (Beside M) B) (v : Beside M)
      → BesideEnds R E (m v)
      → ((a : A) (w : Beside M) → R a w → BesideEnds Q E (f a w))
      → BesideEnds Q E ((m >>= f) v)
  bind-BesideEnds m f v h k = continue-BesideEnds (m v) f h k

module _ {M A : Type 0} (Q R : A → Beside M → Type 0) (E : Error → Type 0) where
  pub map-BesideEnds :
      (r : Result A × Beside M)
      → ((a : A) (v : Beside M) → Q a v → R a v)
      → BesideEnds Q E r
      → BesideEnds R E r
  map-BesideEnds (ok a, v) f h = f a v h
  map-BesideEnds (err e, v) f h = h

module _ {M A : Type 0} (Q : A → Session → Type 0) (E : Error → Type 0) (x : M) where
  run_on_session :
      (r : Result A × Session)
      → Ends Q E r
      → BesideEnds (λ a w. Q a w.0 × (w.1 ≡ x)) E (r.0, (r.1, x))
  run_on_session (ok a, t) h = (h, refl)
  run_on_session (err e, t) h = h

  pub on_session-BesideEnds :
      (m : Tx A) (s : Session)
      → Ends Q E (m s)
      → BesideEnds (λ a w. Q a w.0 × (w.1 ≡ x)) E (on_session m (s, x))
  on_session-BesideEnds m s h = run_on_session (m s) h

module _ {M A B : Type 0} (Q : B → Beside M → Type 0) (E : Error → Type 0) where
  pub lift-bind-BesideEnds :
      (r : Result A) (f : A → Exec (Beside M) B) (v : Beside M)
      → ((x : Error) → r ≡ err x → E x)
      → ((a : A) → r ≡ ok a → BesideEnds Q E (f a v))
      → BesideEnds Q E ((lift r >>= f) v)
  lift-bind-BesideEnds (ok a) f v bad good = good a refl
  lift-bind-BesideEnds (err e) f v bad good = inl (bad e refl)

-- What an update of an engine beside a memory commits.
abbrev pub CommitsBeside :
    {M A : Type 0}
    → (A → Tables → M → Type 0)
    → (Error → Type 0)
    → Tables
    → Result A × (Engine × M)
    → Type 0
CommitsBeside Q E before (ok a, k) = Q a k.0.tables k.1
CommitsBeside Q E before (err x, k) = (k.0.tables ≡ before) × (E x ⊎ Faulted x k.0.faults)

module _ {M A : Type 0} (Q : A → Tables → M → Type 0) (E : Error → Type 0) where
  closing :
      (e : Engine) (r : Result A × Beside M)
      → BesideEnds (λ a v. Q a v.0.tables v.1) E r
      → CommitsBeside Q E e.tables (let (r', e') = finish e (r.0, r.1.0) in (r', (e', r.1.1)))
  unfolding finish
  closing e (ok a, v) h = elim (Bool-cases (v.0.faults v.0.step)) [
    | inl bad ↦ rw bad (refl, inr (refl, (v.0.step, bad)))
    | inr good ↦ rw good h
  ]
  closing e (err x, v) h = (refl, h)

  pub update_beside-CommitsBeside :
      (fn : Exec (Beside M) A) (k : Engine × M)
      → BesideEnds (λ a v. Q a v.0.tables v.1) E (fn (write_tx k.0, k.1))
      → CommitsBeside Q E k.0.tables (update_beside fn k)
  unfolding update_beside
  update_beside-CommitsBeside fn k h = closing k.0 (fn (write_tx k.0, k.1)) h
