-- ===== src/Database/Tables.antt =====
-- A table as the list of its rows under a primary key: what `Save`, `Delete` and a look-up by the
-- key do to it, as database/database.go documents them.
use multiwallet.Prelude.{
  ◌≡◌, refl, inl, inr, Option, none, some, List, [], ◌∷◌, ◌++◌, arith, if◌then◌else◌, Bool-cases,
  Text, text_eq, text_eq_iff, All,
}
use mathlib.Core.Path.{subst}

module _ {ℓ} {Row : Type ℓ} (key : Row → Text) where
  -- `Where("key=?", k).First`
  unfoldable pub find_by : Text → List Row → Option Row
  find_by k [] = none
  find_by k (r ∷ rows) = if text_eq (key r) k then some r else find_by k rows

  -- `Save`: a row with the key is overridden, else the row is inserted.
  unfoldable pub upsert : Row → List Row → List Row
  upsert r [] = r ∷ []
  upsert r (x ∷ rows) = if text_eq (key x) (key r) then r ∷ rows else x ∷ upsert r rows

  -- `Delete`: every row with the key goes.
  unfoldable pub delete_by : Text → List Row → List Row
  delete_by k [] = []
  delete_by k (x ∷ rows) =
      let rest = delete_by k rows in if text_eq (key x) k then rest else x ∷ rest

  pub find_by-upsert :
      (k : Text) (r : Row) (rows : List Row)
      → find_by k (upsert r rows) ≡ (if text_eq (key r) k then some r else find_by k rows)
  unfolding find_by upsert
  find_by-upsert k r [] = refl
  find_by-upsert k r (x ∷ rows) = ground (
    arith,
    find_by-upsert k r rows,
    text_eq_iff (key x) (key r),
    text_eq_iff (key r) k,
    text_eq_iff (key x) k,
  )

  pub find_by-delete_by :
      (k j : Text) (rows : List Row)
      → find_by k (delete_by j rows) ≡ (if text_eq j k then none else find_by k rows)
  unfolding find_by delete_by
  find_by-delete_by k j [] = ground arith
  find_by-delete_by k j (x ∷ rows) = ground (
    arith,
    find_by-delete_by k j rows,
    text_eq_iff (key x) j,
    text_eq_iff j k,
    text_eq_iff (key x) k,
  )

  -- A row whose key is new goes to the end.
  pub upsert_new :
      (r : Row) (rows : List Row) → find_by (key r) rows ≡ none → upsert r rows ≡ rows ++ r ∷ []
  unfolding find_by upsert
  upsert_new r [] h = refl
  upsert_new r (x ∷ rows) h = ground (arith, upsert_new r rows)

  pub find_by-key : (k : Text) (r : Row) (rows : List Row) → find_by k rows ≡ some r → key r ≡ k
  unfolding find_by
  find_by-key k r [] h = cc
  find_by-key k r (x ∷ rows) h = ground (arith, find_by-key k r rows, text_eq_iff (key x) k)

  -- A property of all rows holds of the row that is found, and survives a `Save`.
  pub All-find_by {κ} :
      (P : Row → Type κ) (k : Text) (r : Row) (rows : List Row)
      → All P rows
      → find_by k rows ≡ some r
      → P r
  unfolding find_by
  All-find_by P k r [] h e = absurd (cc)
  All-find_by P k r (x ∷ rows) h e = elim (Bool-cases (text_eq (key x) k)) [
    | inl same ↦ subst P (ground arith) h.0
    | inr other ↦ All-find_by P k r rows h.1 (ground arith)
  ]

  pub All-delete_by {κ} :
      (P : Row → Type κ) (k : Text) (rows : List Row) → All P rows → All P (delete_by k rows)
  unfolding delete_by
  All-delete_by P k [] h = h
  All-delete_by P k (x ∷ rows) h = elim (Bool-cases (text_eq (key x) k)) [
    | inl same ↦ rw same (All-delete_by P k rows h.1)
    | inr other ↦ rw other (h.0, All-delete_by P k rows h.1)
  ]

  pub All-upsert {κ} :
      (P : Row → Type κ) (r : Row) (rows : List Row) → P r → All P rows → All P (upsert r rows)
  unfolding upsert
  All-upsert P r [] p h = (p, tt)
  All-upsert P r (x ∷ rows) p h = elim (Bool-cases (text_eq (key x) (key r))) [
    | inl same ↦ rw same (p, h.1)
    | inr other ↦ rw other (h.0, All-upsert P r rows p h.1)
  ]

  pub find_by-append :
      (k : Text) (r : Row) (xs ys : List Row)
      → find_by k xs ≡ some r
      → find_by k (xs ++ ys) ≡ some r
  unfolding find_by
  find_by-append k r [] ys h = absurd (cc)
  find_by-append k r (x ∷ xs) ys h = ground (arith, find_by-append k r xs ys)
