-- ===== src/Coins/Outpoints.antt =====
-- The bytes of an outpoint, which the bitcoin, the litecoin and the zcash wallet use as the id of an input or an
-- output: `serializeOutpoint` and `deserializeOutpoint`.
use multiwallet.Prelude.{
  ℕ, zero, suc, ◌+◌, ◌-◌, ◌*◌, ◌/◌, ◌%◌, ◌^◌, ◌<◌, ◌≡◌, refl, sym, ◌∙◌, ap, Option, some, [], ◌∷◌,
  ◌++◌, take, drop, length, length-append, false, ltb, if◌then◌else◌, All, arith, Text,
}
use multiwallet.Coins.Scripts.{Outcome, done, failed, ◌>>=◌, or_failed, out_of_range, bad_hash}

-- wire's `OutPoint`
pub record OutPoint : Type 0 where
  pub hash : Text
  pub index : ℕ

-- `binary.LittleEndian.PutUint32` and `Uint32`
abbrev pub put_uint32 : ℕ → Text
put_uint32 n = n % 256 ∷ n / 256 % 256 ∷ n / 65536 % 256 ∷ n / 16777216 % 256 ∷ []

abbrev pub get_uint32 : Text → Outcome ℕ
get_uint32 (a ∷ b ∷ c ∷ d ∷ rest) = done (a + 256 * b + 65536 * c + 16777216 * d)
get_uint32 other = failed out_of_range

unfoldable pub serialize_outpoint : OutPoint → Text
serialize_outpoint op = op.hash ++ put_uint32 op.index

-- chainhash's `NewHash` on the first 32 bytes; a slice that is too short is a panic.
module _ (new_hash : Text → Option Text) where
  unfoldable pub deserialize_outpoint : Text → Outcome OutPoint
  deserialize_outpoint ser = if ltb (length ser) 32 then failed out_of_range else (do
    h ← or_failed bad_hash (new_hash (take 32 ser))
    i ← get_uint32 (drop 32 ser)
    done (record { hash = h; index = i }))

-- The four bytes make up the number.
uint32_bytes :
    (n : ℕ)
    → n < 2 ^ 32
    → n % 256 + 256 * (n / 256 % 256) + 65536 * (n / 65536 % 256) + 16777216 * (n / 16777216 % 256)
      ≡ n
uint32_bytes n h = omega arith

take-append : (xs ys : Text) (n : ℕ) → length xs ≡ n → take n (xs ++ ys) ≡ xs
take-append [] ys n h = rw (sym h) refl
take-append (x ∷ xs) ys n h = rw (sym h) (ap (λ t. x ∷ t) (take-append xs ys (length xs) refl))

drop-append : (xs ys : Text) (n : ℕ) → length xs ≡ n → drop n (xs ++ ys) ≡ ys
drop-append [] ys n h = rw (sym h) refl
drop-append (x ∷ xs) ys n h = rw (sym h) (drop-append xs ys (length xs) refl)

take-drop-append : (n : ℕ) (xs : Text) → take n xs ++ drop n xs ≡ xs
take-drop-append zero xs = refl
take-drop-append (suc n) [] = refl
take-drop-append (suc n) (x ∷ xs) = ap (λ t. x ∷ t) (take-drop-append n xs)

length-drop : (n : ℕ) (xs : Text) → length (drop n xs) ≡ length xs - n
length-drop zero xs = omega arith
length-drop (suc n) [] = omega arith
length-drop (suc n) (x ∷ xs) = omega (arith, length-drop n xs)

All-drop : (P : ℕ → Type 0) (n : ℕ) (xs : Text) → All P xs → All P (drop n xs)
All-drop P zero xs h = h
All-drop P (suc n) [] h = h
All-drop P (suc n) (x ∷ xs) h = All-drop P n xs h.1

put_uint32-get_uint32 :
    (v : Text)
    → length v ≡ 4
    → All (λ b. b < 256) v
    → (n : ℕ) × (get_uint32 v ≡ done n) × (put_uint32 n ≡ v)
put_uint32-get_uint32 [] h bytes = absurd (omega arith)
put_uint32-get_uint32 (a ∷ []) h bytes = absurd (omega arith)
put_uint32-get_uint32 (a ∷ b ∷ []) h bytes = absurd (omega arith)
put_uint32-get_uint32 (a ∷ b ∷ c ∷ []) h bytes = absurd (omega arith)
put_uint32-get_uint32 (a ∷ b ∷ c ∷ d ∷ []) h bytes =
    let ha = bytes.0 in
    let hb = bytes.1.0 in
    let hc = bytes.1.1.0 in
    let hd = bytes.1.1.1.0 in
    let n = a + 256 * b + 65536 * c + 16777216 * d in
    let ea : n % 256 ≡ a = omega arith in
    let eb : n / 256 % 256 ≡ b = omega arith in
    let ec : n / 65536 % 256 ≡ c = omega arith in
    let ed : n / 16777216 % 256 ≡ d = omega arith in (n, refl, λ i. ea i ∷ eb i ∷ ec i ∷ ed i ∷ [])
put_uint32-get_uint32 (a ∷ b ∷ c ∷ d ∷ e ∷ v) h bytes = absurd (omega arith)

module _ (new_hash : Text → Option Text)
    (copies : (t : Text) → length t ≡ 32 → new_hash t ≡ some t) where
  -- Where the hash constructor copies 32 bytes: an outpoint with a hash of 32 bytes and an index of 32
  -- bits is read back from its bytes.
  pub deserialize_outpoint-serialize_outpoint :
      (op : OutPoint)
      → length op.hash ≡ 32
      → op.index < 2 ^ 32
      → deserialize_outpoint new_hash (serialize_outpoint op) ≡ done op
  unfolding deserialize_outpoint serialize_outpoint
  deserialize_outpoint-serialize_outpoint op h fits =
      let long : ltb (length (op.hash ++ put_uint32 op.index)) 32 ≡ false =
        ground (arith, length-append op.hash (put_uint32 op.index)) in
      let hash = take-append op.hash (put_uint32 op.index) 32 h in
      let index = drop-append op.hash (put_uint32 op.index) 32 h in
      rw (long, hash, index, copies op.hash h)
        (ap (λ n. done (record { hash = op.hash; index = n })) (uint32_bytes op.index fits))

  -- Where the hash constructor copies 32 bytes: any 36 bytes are read as an outpoint, whose bytes they
  -- are.
  pub serialize_outpoint-deserialize_outpoint :
      (ser : Text)
      → length ser ≡ 36
      → All (λ b. b < 256) ser
      → (op : OutPoint) × (deserialize_outpoint new_hash ser ≡ done op)
        × (serialize_outpoint op ≡ ser)
  unfolding deserialize_outpoint serialize_outpoint
  serialize_outpoint-deserialize_outpoint ser h bytes =
      let long : ltb (length ser) 32 ≡ false = ground arith in
      let whole = take-drop-append 32 ser in
      let size : length (take 32 ser) ≡ 32 =
        omega
          (arith, length-append (take 32 ser) (drop 32 ser), ap length whole, length-drop 32 ser) in
      let (n, got, put) =
        put_uint32-get_uint32 (drop 32 ser) (omega (arith, length-drop 32 ser))
          (All-drop (λ b. b < 256) 32 ser bytes) in
      (
        record { hash = take 32 ser; index = n },
        rw (long, copies (take 32 ser) size, got) refl,
        ap (λ t. take 32 ser ++ t) put ∙ whole,
      )
