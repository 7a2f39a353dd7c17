-- ===== src/Keychain/Tests/Openings.antt =====
-- `NewKeychain` over the small key tree, from a record that is not encrypted.
use multiwallet.Prelude.{◌≡◌, refl, true, false, some, [], ◌∷◌, codes, text_eq}
use multiwallet.Database.Models.{CoinRecord, empty_tables, zero_coin}
use multiwallet.Database.Tables.{find_by}
use multiwallet.Database.Tx.{Engine}
use multiwallet.Database.Laws.{Commits}
use multiwallet.Keychain.Keys.{generate_account_keys}
use multiwallet.Keychain.Lookahead.Meaning.{windows}
use multiwallet.Keychain.Lookahead.Extend.{filled}
use multiwallet.Keychain.Addresses.PrivateKeys.{IsPaired}
use multiwallet.Keychain.Opening.{KeychainConfig, new_keychain}
use multiwallet.Keychain.Opening.Paired.{new_keychain-IsPaired}
use multiwallet.Keychain.Tests.{tree, chain, chain-IsDerivable}
use multiwallet.Keychain.Tests.Runs.{rows, rows-CanExtend, tree-neuter}

abbrev config : KeychainConfig
config = record { lookahead_window_size = 3; external_only = false; disable_mark_as_used = false }

abbrev coin : CoinRecord
coin = record zero_coin {
  master_priv = codes "xprv";
  master_pub = codes "xpub";
  coin = codes "BTC";
}

abbrev store : Engine
store = record {
  tables = record empty_tables { coins = coin ∷ []; addresses = rows };
  step = 0;
  faults = λ n. false;
}

new_keychain_example :
    Commits
      (λ kc T.
        (kc ≡ chain)
        × IsPaired tree chain (some (true, []))
        × (windows tree chain T.addresses ≡ filled tree chain (windows tree chain rows)))
      (λ _. ⊥)
      store.tables
      (new_keychain tree 6 config (codes "BTC") store)
unfolding find_by text_eq generate_account_keys
new_keychain_example =
    new_keychain-IsPaired tree (true, []) (true, 0 ∷ []) (true, 1 ∷ []) tree-neuter refl 6 1 config
      (codes "BTC") store coin refl refl (λ _. refl) chain-IsDerivable rows-CanExtend
