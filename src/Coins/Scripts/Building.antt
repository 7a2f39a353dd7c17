-- ===== src/Coins/Scripts/Building.antt =====
-- What the builder makes of a script with a timeout, and the lock time that is read back from it.
use multiwallet.Prelude.{
  ℕ, ◌+◌, ◌*◌, ◌^◌, ◌≤◌, ◌<◌, ◌≡◌, refl, ◌∙◌, ap, some, List, [], ◌∷◌, ◌++◌, length, length-append,
  arith, Text, ltb, true, false,
}
use multiwallet.Prelude.Int.{ℤ, pos, ltb_ℤ}
use mathlib.Core.List.{append_assoc}
use mathlib.Core.Path.{subst}
use multiwallet.Coins.Scripts.{
  Scripting, done, failed, bad_length, add_keys, add_multisig, add_timeout, sequence_lock,
  timeout_script, lock_time_from_redeem_script,
}
use multiwallet.Coins.Scripts.Push.{IsPush, lock_time-IsPush, length-IsPush, length_small}

-- What the wallets rely on of the builder, whose scripts have at most 10000 bytes: `Holds b t` says
-- that no addition has failed so far and the bytes are `t`. A compressed key has 33 bytes.
pub record AreScripts (lib : Scripting) : Type 1 where
  pub Holds : lib.Builder → Text → Type 0
  pub new : Holds lib.new_script_builder []
  pub op :
      (b : lib.Builder) (t : Text) (o : ℕ)
      → length t < 10000
      → Holds b t
      → Holds (lib.add_op o b) (t ++ o ∷ [])
  pub int :
      (b : lib.Builder) (t : Text) (n : ℕ)
      → n < 2 ^ 32
      → length t + 6 ≤ 10000
      → Holds b t
      → (p : Text) × IsPush n p × Holds (lib.add_int64 (pos n) b) (t ++ p)
  pub key :
      (b : lib.Builder) (t : Text) (k : lib.Key)
      → length t + 34 ≤ 10000
      → Holds b t
      → Holds (lib.add_data (lib.serialize_compressed k) b) (t ++ 33 ∷ lib.serialize_compressed k)
  pub key_size : (k : lib.Key) → length (lib.serialize_compressed k) ≡ 33
  pub finish : (b : lib.Builder) (t : Text) → Holds b t → lib.script b ≡ some t
  pub else_is : lib.op_else ≡ 103

module _ (lib : Scripting) (are : AreScripts lib) where
  open lib use {Builder, Key}

  keys-Holds :
      (keys : List Key) (b : Builder) (t : Text)
      → length t + 34 * length keys ≤ 10000
      → are.Holds b t
      → (u : Text) × are.Holds (add_keys lib keys b) u × (length u ≡ length t + 34 * length keys)
  keys-Holds [] b t room h = (t, h, omega arith)
  keys-Holds (k ∷ keys) b t room h =
      let t' = t ++ 33 ∷ lib.serialize_compressed k in
      let size : length t' ≡ length t + 34 =
        omega (arith, length-append t (33 ∷ lib.serialize_compressed k), are.key_size k) in
      let (u, holds, sized) =
        keys-Holds keys (lib.add_data (lib.serialize_compressed k) b) t' (omega arith)
          (are.key b t k (omega arith) h) in
      (u, holds, omega arith)

  multisig-Holds :
      (m : ℕ) (keys : List Key) (b : Builder) (t : Text)
      → m ≤ 16
      → length keys ≤ 16
      → length t ≤ 100
      → are.Holds b t
      → (u : Text) × are.Holds (add_multisig lib (pos m) keys b) u
        × (length u ≡ length t + 34 * length keys + 3)
  multisig-Holds m keys b t few many room h =
      let (p, is_p, h1) = are.int b t m (omega arith) (omega arith) h in
      let size1 = length_small m p is_p few in
      let len1 = length-append t p in
      let (u, h2, len2) = keys-Holds keys (lib.add_int64 (pos m) b) (t ++ p) (omega arith) h1 in
      let (q, is_q, h3) =
        are.int (add_keys lib keys (lib.add_int64 (pos m) b)) u (length keys) (omega arith)
          (omega arith) h2 in
      let size3 = length_small (length keys) q is_q many in
      let len3 = length-append u q in
      (
        (u ++ q) ++ lib.op_checkmultisig ∷ [],
        are.op (lib.add_int64 (pos (length keys)) (add_keys lib keys (lib.add_int64 (pos m) b)))
            (u ++ q) lib.op_checkmultisig (omega arith) h3,
        omega (arith, length-append (u ++ q) (lib.op_checkmultisig ∷ [])),
      )

  -- One more opcode, or a key, behind what a script begins with.
  op_behind :
      (b : Builder) (pre post : Text) (o : ℕ)
      → length pre + length post < 10000
      → are.Holds b (pre ++ post)
      → are.Holds (lib.add_op o b) (pre ++ (post ++ o ∷ []))
  op_behind b pre post o room h =
      subst (λ (t : Text). are.Holds (lib.add_op o b) t) (append_assoc pre post (o ∷ []))
        (are.op b (pre ++ post) o (omega (arith, length-append pre post)) h)

  key_behind :
      (b : Builder) (pre post : Text) (k : Key)
      → length pre + length post + 34 ≤ 10000
      → are.Holds b (pre ++ post)
      → are.Holds
          (lib.add_data (lib.serialize_compressed k) b)
          (pre ++ (post ++ 33 ∷ lib.serialize_compressed k))
  key_behind b pre post k room h =
      subst (λ (t : Text). are.Holds (lib.add_data (lib.serialize_compressed k) b) t)
        (append_assoc pre post (33 ∷ lib.serialize_compressed k))
        (are.key b (pre ++ post) k (omega (arith, length-append pre post)) h)

  -- The bytes behind the push of the lock time.
  abbrev tail_bytes : Key → Text
  tail_bytes k =
      (((lib.op_checksequenceverify ∷ [] ++ lib.op_drop ∷ []) ++ 33 ∷ lib.serialize_compressed k)
        ++ lib.op_checksig ∷ [])
      ++ lib.op_endif ∷ []

  timeout-Holds :
      (sequence : ℕ) (k : Key) (b : Builder) (t : Text)
      → sequence < 2 ^ 32
      → length t ≤ 1000
      → are.Holds b t
      → (push : Text) × IsPush sequence push
        × are.Holds (add_timeout lib sequence k b) (t ++ (103 ∷ (push ++ tail_bytes k)))
  timeout-Holds sequence k b t fits room h =
      let other : are.Holds (lib.add_op lib.op_else b) (t ++ 103 ∷ []) =
        subst (λ (o : ℕ). are.Holds (lib.add_op lib.op_else b) (t ++ o ∷ [])) are.else_is
          (are.op b t lib.op_else (omega arith) h) in
      let len1 = length-append t (103 ∷ []) in
      let (p, is, h1) =
        are.int (lib.add_op lib.op_else b) (t ++ 103 ∷ []) sequence fits (omega arith) other in
      let pre : Text = (t ++ 103 ∷ []) ++ p in
      let (p_lo, p_hi) = length-IsPush sequence p is in
      let len2 : length pre ≡ length t + 1 + length p =
        omega (arith, length-append (t ++ 103 ∷ []) p) in
      let b1 = lib.add_int64 (pos sequence) (lib.add_op lib.op_else b) in
      let h2 = are.op b1 pre lib.op_checksequenceverify (omega arith) h1 in
      let b2 = lib.add_op lib.op_checksequenceverify b1 in
      let post2 : Text = lib.op_checksequenceverify ∷ [] in
      let h3 = op_behind b2 pre post2 lib.op_drop (omega arith) h2 in
      let b3 = lib.add_op lib.op_drop b2 in
      let post3 : Text = post2 ++ lib.op_drop ∷ [] in
      let h4 = key_behind b3 pre post3 k (omega arith) h3 in
      let b4 = lib.add_data (lib.serialize_compressed k) b3 in
      let post4 : Text = post3 ++ 33 ∷ lib.serialize_compressed k in
      let len4 : length post4 ≡ 36 =
        omega (arith, length-append post3 (33 ∷ lib.serialize_compressed k), are.key_size k) in
      let h5 = op_behind b4 pre post4 lib.op_checksig (omega arith) h4 in
      let b5 = lib.add_op lib.op_checksig b4 in
      let post5 : Text = post4 ++ lib.op_checksig ∷ [] in
      let len5 : length post5 ≡ 37 = omega (arith, length-append post4 (lib.op_checksig ∷ [])) in
      let h6 = op_behind b5 pre post5 lib.op_endif (omega arith) h5 in
      (
        p,
        is,
        subst (λ (x : Text). are.Holds (add_timeout lib sequence k b) x)
            (ap (λ x. x ++ tail_bytes k) (append_assoc t (103 ∷ []) p)
              ∙ append_assoc t (103 ∷ p) (tail_bytes k))
            h6,
      )

  length-tail_bytes : (k : Key) → length (tail_bytes k) ≡ 38
  length-tail_bytes k =
      let post3 : Text = lib.op_checksequenceverify ∷ [] ++ lib.op_drop ∷ [] in
      let post4 : Text = post3 ++ 33 ∷ lib.serialize_compressed k in
      omega (
        arith,
        length-append post3 (33 ∷ lib.serialize_compressed k),
        length-append post4 (lib.op_checksig ∷ []),
        length-append (post4 ++ lib.op_checksig ∷ []) (lib.op_endif ∷ []),
        are.key_size k,
      )

  -- The script that a call makes of a threshold and at most eight keys.
  pub made :
      (keys : List Key) (m : ℕ) (timeout : ℤ) (k : Key)
      → m ≤ length keys
      → length keys ≤ 8
      → sequence_lock lib timeout < 2 ^ 32
      → (pre : Text) × (push : Text) × IsPush (sequence_lock lib timeout) push
        × (length pre ≡ 34 * length keys + 4)
        × (timeout_script lib keys (pos m) timeout k ≡ done (pre ++ (103 ∷ (push ++ tail_bytes k))))
  unfolding timeout_script
  made keys m timeout k enough few fits =
      let (pre, h, len) =
        multisig-Holds m keys (lib.add_op lib.op_if lib.new_script_builder) (lib.op_if ∷ [])
          (omega arith) (omega arith) (omega arith)
          (are.op lib.new_script_builder [] lib.op_if (omega arith) are.new) in
      let (push, is, end) =
        timeout-Holds (sequence_lock lib timeout) k
          (add_multisig lib (pos m) keys (lib.add_op lib.op_if lib.new_script_builder)) pre fits
          (omega arith) h in
      let first : ltb_ℤ (pos (length keys)) (pos m) ≡ false = ground arith in
      let second : ltb 8 (length keys) ≡ false = ground arith in
      (pre, push, is, omega arith, rw (first, second, are.finish _ _ end) refl)

  -- The lock time of a script for three keys is read back.
  pub timeout_script_round_trip :
      (keys : List Key) (m : ℕ) (timeout : ℤ) (k : Key)
      → length keys ≡ 3
      → m ≤ 3
      → sequence_lock lib timeout < 2 ^ 32
      → (s : Text) × (timeout_script lib keys (pos m) timeout k ≡ done s)
        × (lock_time_from_redeem_script s ≡ done (sequence_lock lib timeout))
  timeout_script_round_trip keys m timeout k three few fits =
      let (pre, push, is, len, h) = made keys m timeout k (omega arith) (omega arith) fits in
      let s : Text = pre ++ (103 ∷ (push ++ tail_bytes k)) in
      let long : 113 ≤ length s = omega (
        arith,
        length-append pre (103 ∷ (push ++ tail_bytes k)),
        length-append push (tail_bytes k),
        length-tail_bytes k,
      ) in
      (
        s,
        h,
        lock_time-IsPush (sequence_lock lib timeout) push pre (tail_bytes k) s fits is refl
            (omega arith) long,
      )

  -- Over a builder of scripts up to 10000 bytes, and for a sequence lock below 2 ^ 32: the script with a
  -- timeout for a single key is made, but `lockTimeFromRedeemScript` refuses it as too short.
  pub timeout_script_one_key :
      (key : Key) (timeout : ℤ) (k : Key)
      → sequence_lock lib timeout < 2 ^ 32
      → (s : Text) × (timeout_script lib (key ∷ []) (pos 1) timeout k ≡ done s)
        × (lock_time_from_redeem_script s ≡ failed bad_length)
  unfolding lock_time_from_redeem_script
  timeout_script_one_key key timeout k fits =
      let (pre, push, is, len, h) = made (key ∷ []) 1 timeout k (omega arith) (omega arith) fits in
      let s : Text = pre ++ (103 ∷ (push ++ tail_bytes k)) in
      let (lo, hi) = length-IsPush (sequence_lock lib timeout) push is in
      let size : length s < 113 = omega (
        arith,
        length-append pre (103 ∷ (push ++ tail_bytes k)),
        length-append push (tail_bytes k),
        length-tail_bytes k,
      ) in
      let short : ltb (length s) 113 ≡ true = ground arith in (s, h, rw short refl)
