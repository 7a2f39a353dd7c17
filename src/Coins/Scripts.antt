-- ===== src/Coins/Scripts.antt =====
-- The escrow scripts that the wallets of the coins make, and the lock time that they read back from a
-- script with a timeout. The script builder and the keys are packages outside the repository.
pub mod Bits
pub mod Push
pub mod Building
use multiwallet.Prelude.{
  ℕ, zero, suc, ◌+◌, ◌-◌, ◌*◌, ◌%◌, ◌^◌, ◌≤◌, ◌<◌, ◌≡◌, Bool, true, false, ◌&&◌, not, Option, none,
  some, List, [], ◌∷◌, ◌++◌, length, get_elem?, ltb, leb, ◌==◌, if◌then◌else◌, Text, All,
}
use multiwallet.Prelude.Int.{ℤ, pos, ltb_ℤ}
use Prim.Native.Nat.{bit_or}

-- txscript's `ScriptBuilder` and its opcodes, btcec's public keys, `LockTimeToSequence`, and the number
-- that Go computes for `uint32(timeout.Hours()*6)`.
pub record Scripting : Type 1 where
  pub Builder : Type 0
  pub Key : Type 0
  pub new_script_builder : Builder
  pub add_op : ℕ → Builder → Builder
  pub add_int64 : ℤ → Builder → Builder
  pub add_data : Text → Builder → Builder
  pub script : Builder → Option Text
  pub serialize_compressed : Key → Text
  pub lock_time_to_sequence : Bool → ℕ → ℕ
  pub ten_minutes : ℤ → ℕ
  pub op_if : ℕ
  pub op_else : ℕ
  pub op_endif : ℕ
  pub op_checkmultisig : ℕ
  pub op_checksequenceverify : ℕ
  pub op_drop : ℕ
  pub op_checksig : ℕ

-- The errors of the wallets, each by the call that makes it; `out_of_range` is Go's panic.
pub data Failure : Type 0 where
  too_few_keys too_many_keys bad_script bad_address bad_length bad_opcode too_many_bytes
        out_of_range bad_hash :
      Failure

pub data Outcome {ℓ} (A : Type ℓ) : Type ℓ where
  done : A → Outcome A
  failed : Failure → Outcome A

infixl 5 ◌>>=◌ ◌>>◌
abbrev pub ◌>>=◌ : {A B : Type 0} → Outcome A → (A → Outcome B) → Outcome B
◌>>=◌ (done a) f = f a
◌>>=◌ (failed e) f = failed e

abbrev pub ◌>>◌ : {A B : Type 0} → Outcome A → Outcome B → Outcome B
m >> k = m >>= λ _. k

abbrev pub or_failed : {A : Type 0} → Failure → Option A → Outcome A
or_failed e none = failed e
or_failed e (some a) = done a

abbrev pub check : Bool → Failure → Outcome (Unit {0})
check true e = failed e
check false e = done tt

module _ (lib : Scripting) where
  open lib use {Builder, Key}

  abbrev pub add_keys : List Key → Builder → Builder
  add_keys [] b = b
  add_keys (k ∷ keys) b = add_keys keys (lib.add_data (lib.serialize_compressed k) b)

  -- The threshold, the keys, their number, and OP_CHECKMULTISIG.
  abbrev pub add_multisig : ℤ → List Key → Builder → Builder
  add_multisig threshold keys b =
      lib.add_op lib.op_checkmultisig
        (lib.add_int64 (pos (length keys)) (add_keys keys (lib.add_int64 threshold b)))

  -- From OP_ELSE on.
  abbrev pub add_timeout : ℕ → Key → Builder → Builder
  add_timeout sequence timeout_key b = lib.add_op lib.op_endif (
      lib.add_op lib.op_checksig (
        lib.add_data (lib.serialize_compressed timeout_key) (
          lib.add_op lib.op_drop (
            lib.add_op lib.op_checksequenceverify
              (lib.add_int64 (pos sequence) (lib.add_op lib.op_else b))))))

  -- The two guards on the keys.
  abbrev pub check_keys : ℤ → List Key → Outcome (Unit {0})
  check_keys threshold keys = do
    check (ltb_ℤ (pos (length keys)) threshold) too_few_keys
    check (ltb 8 (length keys)) too_many_keys

  unfoldable pub multisig_script : List Key → ℤ → Outcome Text
  multisig_script keys threshold = do
    check_keys threshold keys
    or_failed bad_script (lib.script (add_multisig threshold keys lib.new_script_builder))

  abbrev pub sequence_lock : ℤ → ℕ
  sequence_lock timeout = lib.lock_time_to_sequence false (lib.ten_minutes timeout)

  unfoldable pub timeout_script : List Key → ℤ → ℤ → Key → Outcome Text
  timeout_script keys threshold timeout timeout_key = do
    check_keys threshold keys
    or_failed bad_script (
        lib.script (
          add_timeout (sequence_lock timeout) timeout_key
            (add_multisig threshold keys (lib.add_op lib.op_if lib.new_script_builder))))

-- `redeemScript[108+i]` for each `i` below the count, from an index on.
unfoldable pub read_bytes : ℕ → ℕ → Text → Outcome Text
read_bytes zero i s = done []
read_bytes (suc n) i s =
    let rest = read_bytes n (i + 1) s in
    (or_failed out_of_range (get_elem? s i) >>= λ b. rest >>= λ v. done (b ∷ v))

-- `int64(val) << uint8(s)`, as 64 bits.
abbrev pub shifted : ℕ → ℕ → ℕ
shifted val s = if ltb s 64 then val * 2 ^ s % 2 ^ 64 else 0

-- The loop `result |= int64(val) << uint8(8*i)`.
unfoldable pub or_bytes : ℕ → ℕ → Text → ℕ
or_bytes i result [] = result
or_bytes i result (val ∷ v) = or_bytes (i + 1) (bit_or result (shifted val (8 * i % 256))) v

-- What the push at index 107 says, by its opcode.
abbrev pub pushed : ℕ → Text → Outcome ℕ
pushed op s =
    if op == 0
    then done 0
    else (if leb 81 op && leb op 96
        then done (op - 81 + 1)
        else (if leb 1 op && leb op 75
            then (read_bytes op 108 s >>= λ v. done (or_bytes 0 0 v % 2 ^ 32))
            else failed too_many_bytes))

unfoldable pub lock_time_from_redeem_script : Text → Outcome ℕ
lock_time_from_redeem_script s = do
  check (ltb (length s) 113) bad_length
  tag ← or_failed out_of_range (get_elem? s 106)
  check (not (tag == 103)) bad_opcode
  op ← or_failed out_of_range (get_elem? s 107)
  pushed op s
