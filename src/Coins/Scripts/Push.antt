-- ===== src/Coins/Scripts/Push.antt =====
-- Reading back the lock time of a script with a timeout: the round trip through the script.
use multiwallet.Prelude.{
  ℕ, suc, ◌+◌, ◌%◌, ◌^◌, ◌≤◌, ◌<◌, ◌≡◌, refl, sym, ◌∙◌, ap, some, List, [], ◌∷◌, ◌++◌, length,
  length-append, get_elem?, arith, All, Text, ltb, false,
}
use mathlib.Core.List.{append_assoc}
use multiwallet.Coins.Scripts.{
  Outcome, done, ◌>>=◌, or_failed, read_bytes, or_bytes, pushed, lock_time_from_redeem_script,
  out_of_range,
}
use multiwallet.Coins.Scripts.Bits.{value, or_bytes-value}

-- The ways in which a script pushes a number: an opcode for 0 and for each of 1 to 16, else the count
-- of its bytes and the bytes, lowest first.
pub data IsPush : ℕ → Text → Type 0 where
  push_zero : IsPush 0 (0 ∷ [])
  push_small : (n : ℕ) → 1 ≤ n → n ≤ 16 → IsPush n ((80 + n) ∷ [])
  push_bytes :
      (v : Text)
      → 1 ≤ length v
      → length v ≤ 5
      → All (λ b. b < 256) v
      → 16 < value v
      → IsPush (value v) (length v ∷ v)

module _ {A : Type 0} where
  get_elem?-append_right :
      (xs ys : List A) (i : ℕ) → get_elem? (xs ++ ys) (length xs + i) ≡ get_elem? ys i
  get_elem?-append_right [] ys i = ap (λ j. get_elem? ys j) (omega arith)
  get_elem?-append_right (x ∷ xs) ys i =
      let shift : suc (length xs) + i ≡ suc (length xs + i) = omega arith in
      ap (λ j. get_elem? (x ∷ (xs ++ ys)) j) shift ∙ get_elem?-append_right xs ys i

  pub get_elem?-behind :
      (xs ys s : List A) (n i j : ℕ)
      → s ≡ xs ++ ys
      → length xs ≡ n
      → j ≡ n + i
      → get_elem? s j ≡ get_elem? ys i
  get_elem?-behind xs ys s n i j e h k = rw (e, k, sym h) (get_elem?-append_right xs ys i)

then_done :
    (o : Outcome ℕ) (rest : Outcome Text) (b : ℕ) (v : Text)
    → o ≡ done b
    → rest ≡ done v
    → (o >>= λ x. rest >>= λ u. done (x ∷ u)) ≡ done (b ∷ v)
then_done o rest b v h k = rw (h, k) refl

-- Bytes that stand at an index are read.
read_bytes-there :
    (v pre post s : Text) (i : ℕ)
    → s ≡ pre ++ (v ++ post)
    → length pre ≡ i
    → read_bytes (length v) i s ≡ done v
unfolding read_bytes
read_bytes-there [] pre post s i e h = refl
read_bytes-there (b ∷ v) pre post s i e h =
    then_done (or_failed out_of_range (get_elem? s i)) (read_bytes (length v) (i + 1) s) b v
      (ap (or_failed out_of_range)
        (get_elem?-behind pre (b ∷ (v ++ post)) s i 0 i e h (omega arith)))
      (read_bytes-there v (pre ++ b ∷ []) post s (i + 1)
        (e ∙ sym (append_assoc pre (b ∷ []) (v ++ post)))
        (length-append pre (b ∷ []) ∙ ap (λ n. n + 1) h))

-- The branch that reads the bytes of a number.
pushed-read :
    (op : ℕ) (s v : Text)
    → 1 ≤ op
    → op ≤ 75
    → read_bytes op 108 s ≡ done v
    → pushed op s ≡ done (or_bytes 0 0 v % 2 ^ 32)
pushed-read op s v lo hi there = rw there (ground arith)

pushed-IsPush :
    (n : ℕ) (push pre post s : Text) (op : ℕ)
    → n < 2 ^ 32
    → IsPush n push
    → get_elem? push 0 ≡ some op
    → s ≡ pre ++ (push ++ post)
    → length pre ≡ 107
    → pushed op s ≡ done n
pushed-IsPush n push pre post s op fits push_zero at e h =
    let same : op ≡ 0 = ground arith in rw same refl
pushed-IsPush n push pre post s op fits (push_small m lo hi) at e h =
    let same : op ≡ 80 + n = ground arith in ground arith
pushed-IsPush n push pre post s op fits (push_bytes v lo hi bytes big) at e h =
    let same : op ≡ length v = ground arith in
    let there : read_bytes op 108 s ≡ done v =
      ap (λ k. read_bytes k 108 s) same
      ∙ read_bytes-there v (pre ++ length v ∷ []) post s 108
          (e ∙ sym (append_assoc pre (length v ∷ []) (v ++ post)))
          (length-append pre (length v ∷ []) ∙ ap (λ k. k + 1) h) in
    let number = or_bytes-value v hi bytes in
    pushed-read op s v (omega arith) (omega arith) there ∙ ap done (omega arith)

-- A script that has OP_ELSE at index 106 and then the push of a number is read as that number.
pub lock_time-IsPush :
    (n : ℕ) (push pre post s : Text)
    → n < 2 ^ 32
    → IsPush n push
    → s ≡ pre ++ (103 ∷ (push ++ post))
    → length pre ≡ 106
    → 113 ≤ length s
    → lock_time_from_redeem_script s ≡ done n
unfolding lock_time_from_redeem_script
lock_time-IsPush n push pre post s fits is e h long =
    let (op, first) = first_of n push is in
    let tag : get_elem? s 106 ≡ some 103 =
      get_elem?-behind pre (103 ∷ (push ++ post)) s 106 0 106 e h (omega arith) in
    let at : get_elem? s 107 ≡ some op =
      get_elem?-behind pre (103 ∷ (push ++ post)) s 106 1 107 e h (omega arith)
      ∙ first_append push post op first in
    let read =
      pushed-IsPush n push (pre ++ 103 ∷ []) post s op fits is first
        (e ∙ sym (append_assoc pre (103 ∷ []) (push ++ post)))
        (length-append pre (103 ∷ []) ∙ ap (λ k. k + 1) h) in
    let short : ltb (length s) 113 ≡ false = ground arith in rw (short, tag, at) read
  where
    first_of : (n : ℕ) (push : Text) → IsPush n push → (op : ℕ) × (get_elem? push 0 ≡ some op)
    first_of n push push_zero = (0, refl)
    first_of n push (push_small m lo hi) = (80 + m, refl)
    first_of n push (push_bytes v lo hi bytes big) = (length v, refl)

    first_append :
        (push post : Text) (op : ℕ)
        → get_elem? push 0 ≡ some op
        → get_elem? (push ++ post) 0 ≡ some op
    first_append [] post op h = absurd (cc (h))
    first_append (b ∷ push) post op h = h

-- How long a push is.
pub length-IsPush : (n : ℕ) (push : Text) → IsPush n push → (1 ≤ length push) × (length push ≤ 6)
length-IsPush n push push_zero = (omega arith, omega arith)
length-IsPush n push (push_small m lo hi) = (omega arith, omega arith)
length-IsPush n push (push_bytes v lo hi bytes big) = (omega arith, omega arith)

pub length_small : (n : ℕ) (push : Text) → IsPush n push → n ≤ 16 → length push ≡ 1
length_small n push push_zero h = omega arith
length_small n push (push_small m lo hi) h = omega arith
length_small n push (push_bytes v lo hi bytes big) h = absurd (omega arith)
