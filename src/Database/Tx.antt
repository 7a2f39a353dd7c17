-- ===== src/Database/Tx.antt =====
-- Transactions of the database: `tx`, `View` and `Update` of database/sqlitedb/sqlitedb.go. The
-- engine below gorm may fail at any statement: `faults n` says whether the nth one does.
use multiwallet.Prelude.{ℕ, ◌+◌, Bool, true, false, Option, none, some, if◌then◌else◌}
use multiwallet.Database.Models.{Tables}

-- The errors that the program tells apart, and those that it makes; `engine` is any error of the
-- database engine, `out_of_fuel` is the model's own.
pub data Error : Type 0 where
  engine not_found read_only : Error
  already_encrypted not_encrypted bad_base64 short_ciphertext invalid_passphrase : Error
  bad_key bad_cipher no_randomness encrypted_keychain external_only_keychain : Error
  bad_address bad_json out_of_range : Error
  out_of_fuel : Error

pub data Result {ℓ} (A : Type ℓ) : Type ℓ where
  ok : A → Result A
  err : Error → Result A

-- The database between transactions.
pub record Engine : Type 0 where
  pub tables : Tables
  pub step : ℕ
  pub faults : ℕ → Bool

-- An open transaction.
pub record Session : Type 0 where
  pub tables : Tables
  pub step : ℕ
  pub faults : ℕ → Bool
  pub for_writes : Bool

-- A call on a state of type `S` that may fail; what it wrote before a failure stays written.
abbrev pub Exec : Type 0 → Type 0 → Type 0
Exec S A = S → Result A × S

abbrev pub Tx : Type 0 → Type 0
Tx = Exec Session

infixl 5 ◌>>=◌ ◌>>◌
abbrev pub ◌>>=◌ : {S A B : Type 0} → Exec S A → (A → Exec S B) → Exec S B
◌>>=◌ m f s = let (r, s') = m s in elim r [ ok a ↦ f a s' | err e ↦ (err e, s') ]

abbrev pub ◌>>◌ : {S A B : Type 0} → Exec S A → Exec S B → Exec S B
m >> k = m >>= λ _. k

module _ {S A : Type 0} where
  abbrev pub pure : A → Exec S A
  pure a s = (ok a, s)

  abbrev pub raise : Error → Exec S A
  raise e s = (err e, s)

  abbrev pub lift : Result A → Exec S A
  lift r s = (r, s)

module _ {A : Type 0} where
  -- One statement that reaches the engine.
  unfoldable pub statement : (Tables → Result A × Tables) → Tx A
  statement run s =
      if s.faults s.step
      then (err engine, record s { step = s.step + 1 })
      else (let (r, t) = run s.tables in (r, record s { tables = t; step = s.step + 1 }))

  unfoldable pub query : (Tables → Result A) → Tx A
  unfolding statement
  query q = statement (λ t. (q t, t))

  abbrev pub or_error : Error → Option A → Result A
  or_error e none = err e
  or_error e (some a) = ok a

-- `Save`, `Update`, `Delete` and `Migrate` refuse a read-only transaction.
unfoldable pub write : (Tables → Tables) → Tx (Unit {0})
unfolding statement
write f s = if s.for_writes then statement (λ t. (ok tt, f t)) s else (err read_only, s)

unfoldable pub read_tx : Engine → Session
read_tx e = record { tables = e.tables; step = e.step; faults = e.faults; for_writes = false }

-- `Begin` is a statement of its own, which does not fail here.
unfoldable pub write_tx : Engine → Session
write_tx e = record { tables = e.tables; step = e.step + 1; faults = e.faults; for_writes = true }

-- The end of a transaction that began at `e`: `Rollback` after an error, else `Commit`, which rolls
-- back if the engine fails it.
unfoldable pub finish : {A : Type 0} → Engine → Result A × Session → Result A × Engine
finish e (err x, s) = (err x, record { tables = e.tables; step = s.step + 1; faults = s.faults })
finish e (ok a, s) =
    if s.faults s.step
    then (err engine, record { tables = e.tables; step = s.step + 1; faults = s.faults })
    else (ok a, record { tables = s.tables; step = s.step + 1; faults = s.faults })

unfoldable pub update : {A : Type 0} → Tx A → Engine → Result A × Engine
unfolding write_tx finish
update fn e = finish e (fn (write_tx e))

-- A read-only transaction neither commits nor rolls back.
unfoldable pub view : {A : Type 0} → Tx A → Engine → Result A × Engine
unfolding read_tx
view fn e =
    let (r, s) = fn (read_tx e) in
    (r, record { tables = s.tables; step = s.step; faults = s.faults })
