-- ===== src/Coins/Scripts/Bits.antt =====
-- The loop that puts bytes together: for up to five bytes it is the little-endian number.
use multiwallet.Prelude.{
  ℕ, zero, suc, ◌+◌, ◌*◌, ◌/◌, ◌%◌, ◌^◌, ◌≤◌, ◌<◌, ◌≡◌, refl, ◌∙◌, ap, [], ◌∷◌, length, arith, All,
  Text,
}
use Prim.Native.Nat.{bit_or, bit_or-bitwise, digits, max}
use native.Mathlib.Nat.{two-pow-succ}
use multiwallet.Coins.Scripts.{shifted, or_bytes}

-- The number that the bytes are, lowest first.
abbrev pub value : Text → ℕ
value [] = 0
value (b ∷ bs) = b + 256 * value bs

twice : (q k : ℕ) → q * 2 ^ suc k ≡ 2 * (q * 2 ^ k)
twice q k = omega (arith, ap (λ (t : ℕ). q * t) (two-pow-succ k))

-- Digits below the lowest digit of the other number.
digits_below :
    (n k r q : ℕ) → r ≤ n → r < 2 ^ k → digits (λ b. b) max n r (q * 2 ^ k) ≡ r + q * 2 ^ k
digits_below zero k zero q le lt = omega arith
digits_below zero k (suc r) q le lt = absurd (omega arith)
digits_below (suc n) k zero q le lt = omega arith
digits_below (suc n) zero (suc r) q le lt = absurd (omega arith)
digits_below (suc n) (suc k) (suc r) q le lt =
    let half : q * 2 ^ suc k / 2 ≡ q * 2 ^ k = omega (arith, twice q k) in
    let even : q * 2 ^ suc k % 2 ≡ 0 = omega (arith, twice q k) in
    rw (half, even)
      (ground (
        arith,
        twice q k,
        two-pow-succ k,
        digits_below n k (suc r / 2) q (omega arith) (omega (arith, two-pow-succ k)),
      ))

pub bit_or-add : (k r q : ℕ) → r < 2 ^ k → bit_or r (q * 2 ^ k) ≡ r + q * 2 ^ k
bit_or-add k r q h = (λ i. bit_or-bitwise r (q * 2 ^ k) i) ∙ digits_below r k r q (omega arith) h

-- One round of the loop, where the byte lands in the 64 bits and above what is there.
or_byte :
    (k acc b : ℕ)
    → acc < 2 ^ k
    → k < 64
    → b * 2 ^ k < 2 ^ 64
    → bit_or acc (shifted b k) ≡ acc + b * 2 ^ k
or_byte k acc b below low fits = ground (arith, bit_or-add k acc b below)

-- The loop from each index on.
or_none : (i acc : ℕ) → or_bytes i acc [] ≡ acc
unfolding or_bytes
or_none i acc = refl

module _ (acc b : ℕ) (v : Text) where
  or_round :
      (i : ℕ)
      → acc < 2 ^ (8 * i % 256)
      → 8 * i % 256 < 64
      → b * 2 ^ (8 * i % 256) < 2 ^ 64
      → or_bytes i acc (b ∷ v) ≡ or_bytes (i + 1) (acc + b * 2 ^ (8 * i % 256)) v
  unfolding or_bytes
  or_round i below low fits =
      ap (λ r. or_bytes (i + 1) r v) (or_byte (8 * i % 256) acc b below low fits)

or_from_4 :
    (acc : ℕ) (v : Text)
    → acc < 2 ^ 32
    → length v ≤ 1
    → All (λ b. b < 256) v
    → or_bytes 4 acc v ≡ acc + 2 ^ 32 * value v
or_from_4 acc [] below short bytes = omega (arith, or_none 4 acc)
or_from_4 acc (b ∷ []) below short bytes =
    let small = bytes.0 in
    omega
      (arith, or_round acc b [] 4 below (omega arith) (omega arith), or_none 5 (acc + b * 2 ^ 32))
or_from_4 acc (b ∷ c ∷ v) below short bytes = absurd (omega arith)

or_from_3 :
    (acc : ℕ) (v : Text)
    → acc < 2 ^ 24
    → length v ≤ 2
    → All (λ b. b < 256) v
    → or_bytes 3 acc v ≡ acc + 2 ^ 24 * value v
or_from_3 acc [] below short bytes = omega (arith, or_none 3 acc)
or_from_3 acc (b ∷ v) below short bytes =
    let small = bytes.0 in
    omega (
      arith,
      or_round acc b v 3 below (omega arith) (omega arith),
      or_from_4 (acc + b * 2 ^ 24) v (omega arith) (omega arith) bytes.1,
    )

or_from_2 :
    (acc : ℕ) (v : Text)
    → acc < 2 ^ 16
    → length v ≤ 3
    → All (λ b. b < 256) v
    → or_bytes 2 acc v ≡ acc + 2 ^ 16 * value v
or_from_2 acc [] below short bytes = omega (arith, or_none 2 acc)
or_from_2 acc (b ∷ v) below short bytes =
    let small = bytes.0 in
    omega (
      arith,
      or_round acc b v 2 below (omega arith) (omega arith),
      or_from_3 (acc + b * 2 ^ 16) v (omega arith) (omega arith) bytes.1,
    )

or_from_1 :
    (acc : ℕ) (v : Text)
    → acc < 2 ^ 8
    → length v ≤ 4
    → All (λ b. b < 256) v
    → or_bytes 1 acc v ≡ acc + 2 ^ 8 * value v
or_from_1 acc [] below short bytes = omega (arith, or_none 1 acc)
or_from_1 acc (b ∷ v) below short bytes =
    let small = bytes.0 in
    omega (
      arith,
      or_round acc b v 1 below (omega arith) (omega arith),
      or_from_2 (acc + b * 2 ^ 8) v (omega arith) (omega arith) bytes.1,
    )

-- Up to five bytes are read as their number.
pub or_bytes-value : (v : Text) → length v ≤ 5 → All (λ b. b < 256) v → or_bytes 0 0 v ≡ value v
or_bytes-value [] short bytes = or_none 0 0
or_bytes-value (b ∷ v) short bytes =
    let small = bytes.0 in
    omega (
      arith,
      or_round 0 b v 0 (omega arith) (omega arith) (omega arith),
      or_from_1 (0 + b * 2 ^ 0) v (omega arith) (omega arith) bytes.1,
    )
