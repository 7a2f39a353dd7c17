-- ===== src/Coins/BitcoinCash.antt =====
-- The bitcoin cash wallet (coins/bitcoincash/wallet.go): the addresses of its escrow, and what its scripts say.
use multiwallet.Prelude.{Option, List, Text}
use multiwallet.Prelude.Int.{ℤ}
use multiwallet.Keychain.Addresses.{Address}
use multiwallet.Coins.Scripts.{
  Scripting, Outcome, done, ◌>>=◌, or_failed, bad_address, multisig_script, timeout_script,
}

-- `NewAddressScriptHash` on the parameters of the network;
-- the coin type is a constant of the wallet interface.
module _ (lib : Scripting) (new_address_script_hash : Text → Option Text) (coin_type : Text) where
  abbrev script_address : Text → Outcome Address
  script_address s = do
    text ← or_failed bad_address (new_address_script_hash s)
    done (record { text = text; coin = coin_type })

  unfoldable pub create_multisig_address : List lib.Key → ℤ → Outcome (Address × Text)
  create_multisig_address keys threshold = do
    redeem_script ← multisig_script lib keys threshold
    addr ← script_address redeem_script
    done (addr, redeem_script)

  unfoldable pub create_multisig_with_timeout :
      List lib.Key → ℤ → ℤ → lib.Key → Outcome (Address × Text)
  create_multisig_with_timeout keys threshold timeout timeout_key = do
    redeem_script ← timeout_script lib keys threshold timeout timeout_key
    addr ← script_address redeem_script
    done (addr, redeem_script)
