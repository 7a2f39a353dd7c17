-- ===== src/Keychain/Addresses/Rows.antt =====
-- What a look-up of an address record finds.
use mathlib.Core.Path.{subst}
use multiwallet.Prelude.{
  ◌≡◌, inl, inr, Bool, true, ◌&&◌, some, List, [], ◌∷◌, arith, All, Bool-cases, Text, text_eq,
  text_eq_iff, first,
}
use multiwallet.Database.Models.{AddressRecord}
use multiwallet.Keychain.Addresses.{find_address}

pub first-All {κ} :
    {A : Type 0} (P : A → Type κ) (p : A → Bool) (rows : List A) (r : A)
    → All P rows
    → first p rows ≡ some r
    → P r
first-All P p [] r h e = absurd (cc)
first-All P p (x ∷ rows) r h e = elim (Bool-cases (p x)) [
  | inl hit ↦ subst P (ground arith) h.0
  | inr miss ↦ first-All P p rows r h.1 (ground arith)
]

pub first-holds :
    {A : Type 0} (p : A → Bool) (rows : List A) (r : A) → first p rows ≡ some r → p r ≡ true
first-holds p [] r e = absurd (cc)
first-holds p (x ∷ rows) r e = ground (arith, first-holds p rows r)

-- The record that is found has the coin and the address that were asked for.
pub find_address-key :
    (coin addr : Text) (rows : List AddressRecord) (r : AddressRecord)
    → find_address coin addr rows ≡ some r
    → (r.coin ≡ coin) × (r.addr ≡ addr)
unfolding find_address
find_address-key coin addr rows r e =
    let hit = first-holds (λ x. text_eq x.coin coin && text_eq x.addr addr) rows r e in
    (
      ground (arith, text_eq_iff r.coin coin),
      ground (arith, text_eq_iff r.addr addr, text_eq_iff r.coin coin),
    )

pub find_address-All {κ} :
    (P : AddressRecord → Type κ) (coin addr : Text) (rows : List AddressRecord) (r : AddressRecord)
    → All P rows
    → find_address coin addr rows ≡ some r
    → P r
unfolding find_address
find_address-All P coin addr rows r h e =
    first-All P (λ x. text_eq x.coin coin && text_eq x.addr addr) rows r h e
