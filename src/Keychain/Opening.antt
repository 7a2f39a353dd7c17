-- ===== src/Keychain/Opening.antt =====
-- `NewKeychain` of base/keys.go, with the configuration that its options make.
pub mod Paired
use multiwallet.Prelude.{ℕ, Bool, true, false, Option, none, some, if◌then◌else◌, Text}
use multiwallet.Database.Models.{CoinRecord}
use multiwallet.Database.Tx.{
  Result, ok, err, Exec, Engine, ◌>>=◌, ◌>>◌, pure, lift, or_error, query, view, bad_key,
}
use multiwallet.Keychain.Keys.{HdKeys, Keychain, generate_account_keys}
use multiwallet.Keychain.Lookahead.{extend_in_update}
use multiwallet.Keychain.Passphrase.{find_coin}

pub record KeychainConfig : Type 0 where
  pub lookahead_window_size : ℕ
  pub external_only : Bool
  pub disable_mark_as_used : Bool

-- The configuration without options.
abbrev pub default_config : KeychainConfig
default_config = record {
  lookahead_window_size = 10;
  external_only = false;
  disable_mark_as_used = false;
}

module _ (hd : HdKeys) where
  open hd use {Key, from_text}

  abbrev pub chains_of : Option Key → Result (Key × Key)
  chains_of none = err bad_key
  chains_of (some account) = generate_account_keys hd account

  abbrev pub as_known : Result (Key × Key) → Result (Option Key × Option Key)
  as_known (ok (external, internal)) = ok (some external, some internal)
  as_known (err e) = err e

  -- (external, internal); an encrypted record gives no private keys.
  abbrev pub private_chains : CoinRecord → Result (Option Key × Option Key)
  private_chains rec =
      if rec.encrypted_master_key
      then ok (none, none)
      else as_known (chains_of (from_text rec.master_priv))

  abbrev pub keychain_of : KeychainConfig → Text → Key × Key → Option Key × Option Key → Keychain hd
  keychain_of cfg coin pub_keys priv_keys = record {
    internal_privkey = priv_keys.1;
    internal_pubkey = pub_keys.1;
    external_privkey = priv_keys.0;
    external_pubkey = pub_keys.0;
    lookahead_window_size = cfg.lookahead_window_size;
    external_only = cfg.external_only;
    disable_mark_as_used = cfg.disable_mark_as_used;
    coin_type = coin;
  }

  unfoldable pub new_keychain : ℕ → KeychainConfig → Text → Exec Engine (Keychain hd)
  new_keychain fuel cfg coin = do
    rec ← view (query (λ t. ok (find_coin coin t)))
    pub_keys ← lift (chains_of (from_text rec.master_pub))
    priv_keys ← lift (private_chains rec)
    extend_in_update hd (keychain_of cfg coin pub_keys priv_keys) fuel
    pure (keychain_of cfg coin pub_keys priv_keys)
