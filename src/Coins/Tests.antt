-- ===== src/Coins/Tests.antt =====
-- The escrow theorems over a builder that appends bytes, and a 2-of-3 escrow with a timeout.
use multiwallet.Prelude.{
  ℕ, zero, suc, ◌+◌, ◌/◌, ◌%◌, ◌^◌, ◌<◌, ◌≡◌, refl, ap, inl, inr, some, List, [], ◌∷◌, ◌++◌, length,
  arith, All, Text, codes, if◌then◌else◌, ◌==◌, leb, true, false, Bool-cases,
}
use mathlib.Core.Path.{subst}
use multiwallet.Prelude.Int.{ℤ, pos}
use multiwallet.Coins.Scripts.{
  Scripting, done, failed, bad_length, multisig_script, timeout_script,
  lock_time_from_redeem_script,
}
use multiwallet.Coins.Scripts.Bits.{value}
use multiwallet.Coins.Scripts.Push.{IsPush, push_zero, push_small, push_bytes}
use multiwallet.Coins.Scripts.Building.{AreScripts, timeout_script_one_key}
use multiwallet.Coins.Outpoints.{
  OutPoint, serialize_outpoint, deserialize_outpoint, deserialize_outpoint-serialize_outpoint,
  serialize_outpoint-deserialize_outpoint,
}
use multiwallet.Coins.Escrows.{ReadsBack, bitcoin_lock_time}
use multiwallet.Coins.Bitcoin
use multiwallet.Coins.BitcoinCash
use multiwallet.Coins.Litecoin
use multiwallet.Coins.Zcash

abbrev replicate : ℕ → ℕ → Text
replicate zero b = []
replicate (suc n) b = b ∷ replicate n b

-- Five bytes hold any number of 32 bits.
abbrev five_bytes : ℕ → Text
five_bytes n = n % 256 ∷ n / 256 % 256 ∷ n / 65536 % 256 ∷ n / 16777216 % 256 ∷ 0 ∷ []

abbrev push : ℕ → Text
push n = if n == 0 then 0 ∷ [] else (if leb n 16 then (80 + n) ∷ [] else 5 ∷ five_bytes n)

abbrev push_ℤ : ℤ → Text
push_ℤ (pos n) = push n
push_ℤ other = 79 ∷ []

abbrev lib : Scripting
lib = record {
  Builder = Text;
  Key = ℕ;
  new_script_builder = [];
  add_op = λ o b. b ++ o ∷ [];
  add_int64 = λ n b. b ++ push_ℤ n;
  add_data = λ d b. b ++ length d ∷ d;
  script = λ b. some b;
  serialize_compressed = λ k. 2 ∷ replicate 32 k;
  lock_time_to_sequence = λ seconds n. n;
  ten_minutes = λ timeout. 144;
  op_if = 99;
  op_else = 103;
  op_endif = 104;
  op_checkmultisig = 174;
  op_checksequenceverify = 178;
  op_drop = 117;
  op_checksig = 172;
}

push-IsPush : (n : ℕ) → n < 2 ^ 32 → IsPush n (push n)
push-IsPush n h = elim (Bool-cases (n == 0)) [
  | inl none ↦ rw none (subst (λ (m : ℕ). IsPush m (0 ∷ [])) (the_zero none) push_zero)
  | inr other ↦ rw other (elim (Bool-cases (leb n 16)) [
    | inl few ↦ rw few (push_small n (ground arith) (ground arith))
    | inr many ↦ rw many (
        subst (λ (m : ℕ). IsPush m (5 ∷ five_bytes n)) (number many)
          (push_bytes (five_bytes n) (omega arith) (omega arith)
            (omega arith, (omega arith, (omega arith, (omega arith, (omega arith, tt)))))
            (big many)))
  ])
]
  where
    the_zero : (n == 0) ≡ true → 0 ≡ n
    the_zero e = ground arith

    number : leb n 16 ≡ false → value (five_bytes n) ≡ n
    number e = omega arith

    big : leb n 16 ≡ false → 16 < value (five_bytes n)
    big e = let k : 16 < n = ground arith in omega (arith, number e)

lib-AreScripts : AreScripts lib
lib-AreScripts = record {
  Holds = λ b t. b ≡ t;
  new = refl;
  op = λ b t o room h. ap (λ x. x ++ o ∷ []) h;
  int = λ b t n fits room h. (push n, push-IsPush n fits, ap (λ x. x ++ push n) h);
  key = λ b t k room h. ap (λ x. x ++ 33 ∷ lib.serialize_compressed k) h;
  key_size = λ k. refl;
  finish = λ b t h. ap some h;
  else_is = refl;
}

abbrev keys : List ℕ
keys = 11 ∷ 12 ∷ 13 ∷ []

bitcoin_timeout_example :
    ReadsBack
      (Bitcoin.create_multisig_with_timeout lib
        (λ t. t)
        (λ t. some t)
        (codes "BTC")
        keys
        (pos 2)
        (pos 86400000000000)
        14)
      144
bitcoin_timeout_example =
    bitcoin_lock_time lib lib-AreScripts (codes "BTC") keys 2 (pos 86400000000000) 14 (λ t. t)
      (λ t. some t) (λ t. (t, refl)) refl (omega arith) (omega arith)

-- The script of a 2-of-3 escrow, which each wallet's address is made of.
abbrev two_of_three : Text
two_of_three =
    82 ∷ (33 ∷ 2 ∷ replicate 32 11)
    ++ (33 ∷ 2 ∷ replicate 32 12)
    ++ (33 ∷ 2 ∷ replicate 32 13)
    ++ 83 ∷ 174 ∷ []

escrow_results :
    (Bitcoin.create_multisig_address lib (λ t. 0 ∷ t) (λ t. some t) (codes "BTC") keys (pos 2)
      ≡ done (record { text = 0 ∷ two_of_three; coin = codes "BTC" }, two_of_three))
    × (Litecoin.create_multisig_address lib (λ t. 0 ∷ t) (λ t. some t) (codes "LTC") keys (pos 2)
        ≡ done (record { text = 0 ∷ two_of_three; coin = codes "LTC" }, two_of_three))
    × (BitcoinCash.create_multisig_address lib (λ t. some t) (codes "BCH") keys (pos 2)
        ≡ done (record { text = two_of_three; coin = codes "BCH" }, two_of_three))
    × (Zcash.create_multisig_address lib (λ t. some t) (codes "ZEC") keys (pos 2)
        ≡ done (record { text = two_of_three; coin = codes "ZEC" }, two_of_three))
unfolding Bitcoin.create_multisig_address Litecoin.create_multisig_address
    BitcoinCash.create_multisig_address Zcash.create_multisig_address multisig_script
escrow_results = (refl, refl, refl, refl)

one_key_example :
    (s : Text) × (timeout_script lib (11 ∷ []) (pos 1) (pos 86400000000000) 14 ≡ done s)
    × (lock_time_from_redeem_script s ≡ failed bad_length)
one_key_example = timeout_script_one_key lib lib-AreScripts 11 (pos 86400000000000) 14 (omega arith)

outpoint_example :
    deserialize_outpoint
      (λ t. some t)
      (serialize_outpoint (record { hash = replicate 32 7; index = 300 }))
    ≡ done (record { hash = replicate 32 7; index = 300 })
outpoint_example =
    deserialize_outpoint-serialize_outpoint (λ t. some t) (λ t h. refl)
      (record { hash = replicate 32 7; index = 300 }) refl (omega arith)

outpoint_bytes_example :
    (op : OutPoint) × (deserialize_outpoint (λ t. some t) (replicate 36 9) ≡ done op)
    × (serialize_outpoint op ≡ replicate 36 9)
outpoint_bytes_example =
    serialize_outpoint-deserialize_outpoint (λ t. some t) (λ t h. refl) (replicate 36 9) refl
      (all_nine 36)
  where
    all_nine : (n : ℕ) → All (λ b. b < 256) (replicate n 9)
    all_nine zero = tt
    all_nine (suc n) = (omega arith, all_nine n)
