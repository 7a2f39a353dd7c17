-- ===== src/Coins/Escrows.antt =====
-- The escrow with a timeout of the bitcoin wallet: what its script says.
use multiwallet.Prelude.{ℕ, ◌^◌, ◌≤◌, ◌<◌, ◌≡◌, refl, Option, some, List, length, Text}
use multiwallet.Prelude.Int.{ℤ, pos}
use multiwallet.Keychain.Addresses.{Address}
use multiwallet.Coins.Scripts.{
  Scripting, Outcome, done, sequence_lock, lock_time_from_redeem_script,
}
use multiwallet.Coins.Scripts.Building.{AreScripts, timeout_script_round_trip}
use multiwallet.Coins.Bitcoin

-- A call of `CreateMultisigWithTimeout` that gives a script from which the lock time is read back.
abbrev pub ReadsBack : Outcome (Address × Text) → ℕ → Type 0
ReadsBack r n =
    (addr : Address) × (s : Text) × (r ≡ done (addr, s)) × (lock_time_from_redeem_script s ≡ done n)

module _ (lib : Scripting) (are : AreScripts lib) (coin_type : Text) (keys : List lib.Key) (m : ℕ)
    (timeout : ℤ) (k : lib.Key) where
  -- `CreateMultisigWithTimeout` of the bitcoin wallet, over a builder of scripts up to 10000 bytes, where
  -- the script's address can be made, three keys, a threshold of at most 3, and a sequence lock below
  -- 2 ^ 32: the call succeeds, and `lockTimeFromRedeemScript` reads the sequence lock back from the
  -- script that it returns.
  pub bitcoin_lock_time :
      (sha256 : Text → Text) (new_address_witness_script_hash : Text → Option Text)
      → ((t : Text) → (a : Text) × (new_address_witness_script_hash (sha256 t) ≡ some a))
      → length keys ≡ 3
      → m ≤ 3
      → sequence_lock lib timeout < 2 ^ 32
      → ReadsBack
          (Bitcoin.create_multisig_with_timeout lib sha256 new_address_witness_script_hash coin_type
            keys
            (pos m)
            timeout
            k)
          (sequence_lock lib timeout)
  unfolding Bitcoin.create_multisig_with_timeout
  bitcoin_lock_time sha256 new_address has three few fits =
      let (s, made, read) = timeout_script_round_trip lib are keys m timeout k three few fits in
      let (a, named) = has s in
      (record { text = a; coin = coin_type }, s, rw (made, named) refl, read)
