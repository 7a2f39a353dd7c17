-- ===== src/Keychain/Tests/Passphrases.antt =====
-- The passphrase theorems over a toy cipher, which shifts each byte by the length of the passphrase.
use multiwallet.Prelude.{
  ◌==◌, ℕ, zero, suc, ◌+◌, ◌-◌, ◌≡◌, refl, sym, ◌∙◌, ap, true, false, none, some, List, [], ◌∷◌,
  ◌++◌, arith, Text, codes, text_eq, text_eq_iff, length, if◌then◌else◌, inl, ◌⊎◌,
}
use multiwallet.Database.Models.{CoinRecord, empty_tables, zero_coin}
use multiwallet.Database.Tables.{find_by}
use multiwallet.Database.Tx.{engine, err, ok, invalid_passphrase, bad_key, already_encrypted}
use multiwallet.Keychain.Keys.{HdKeys, Keychain, generate_account_keys}
use multiwallet.Keychain.Passphrase.{
  Crypto, Keyring, with_keys, find_coin, open_record, set_passphase, change_passphrase,
  remove_passphrase, unlock,
}
use multiwallet.Keychain.Passphrase.Seals.{IsCrypto, Holds, IsChecked}
use multiwallet.Keychain.Passphrase.Rules.{VaultCommits}
use multiwallet.Keychain.Passphrase.Calls.{
  IsSealError, CommitsHeld, set_passphase_seals, set_passphase_refuses,
}
use multiwallet.Keychain.Passphrase.Openings.{
  IsOpenError, change_passphrase_reseals, remove_passphrase_restores,
}
use multiwallet.Keychain.Passphrase.Failures.{remove_passphrase_leaves_keys}
use multiwallet.Keychain.Passphrase.Unlocking.{UnlockEnds, unlock_opens}
use multiwallet.Keychain.Passphrase.Safety.{
  Event, setting, changing, removing, unlocking, expiring, handle_all, IsSafe, handle_all-IsSafe,
}
use multiwallet.Keychain.Tests.{tree}

repeat : ℕ → ℕ → Text
repeat zero x = []
repeat (suc n) x = x ∷ repeat n x

length-repeat : (n x : ℕ) → length (repeat n x) ≡ n
unfolding repeat
length-repeat zero x = refl
length-repeat (suc n) x = ap suc (length-repeat n x)

raise_all : ℕ → Text → Text
raise_all n [] = []
raise_all n (x ∷ xs) = (x + n) ∷ raise_all n xs

lower_all : ℕ → Text → Text
lower_all n [] = []
lower_all n (x ∷ xs) = (x - n) ∷ lower_all n xs

lower_all-raise_all : (n : ℕ) (xs : Text) → lower_all n (raise_all n xs) ≡ xs
unfolding lower_all raise_all
lower_all-raise_all n [] = refl
lower_all-raise_all n (x ∷ xs) =
    let here : x + n - n ≡ x = omega arith in rw (here, lower_all-raise_all n xs) refl

abbrev box : Crypto
box = record {
  Block = Text;
  derive_key = λ pw salt rounds key_len. pw;
  new_cipher = λ key. some key;
  encrypt = λ b iv x. raise_all (length b) x;
  decrypt = λ b iv x. lower_all (length b) x;
  encode = λ x. x;
  decode = λ x. some x;
  random = λ d n. some (repeat n d);
}

box-IsCrypto : IsCrypto box
box-IsCrypto = record {
  decode_encode = λ x. refl;
  decrypt_encrypt = λ b iv x. lower_all-raise_all (length b) x;
  random_length =
      λ d n x h. let same : repeat n d ≡ x = cc in ap length (sym same) ∙ length-repeat n d;
}

abbrev xprv : Text
xprv = codes "xprv"

-- The key tree with one master key.
abbrev checked_tree : HdKeys
checked_tree = record tree { from_text = λ t. if text_eq t xprv then some (true, []) else none }

xprv-IsChecked : IsChecked box checked_tree xprv
xprv-IsChecked lock rec pw text key held opened parse = ground (arith, text_eq_iff text xprv)

xprv-parse : checked_tree.from_text xprv ≡ some (true, [])
unfolding text_eq
xprv-parse = refl

xprv-generate : generate_account_keys checked_tree (true, []) ≡ ok ((true, 0 ∷ []), (true, 1 ∷ []))
unfolding generate_account_keys
xprv-generate = refl

abbrev plain_chain : Keychain checked_tree
plain_chain = record {
  internal_privkey = some (true, 1 ∷ []);
  internal_pubkey = (false, 1 ∷ []);
  external_privkey = some (true, 0 ∷ []);
  external_pubkey = (false, 0 ∷ []);
  lookahead_window_size = 3;
  external_only = false;
  disable_mark_as_used = false;
  coin_type = codes "BTC";
}

abbrev with_coin : CoinRecord → Keychain checked_tree → Keyring checked_tree
with_coin rec kc = record {
  engine = record {
    tables = record empty_tables { coins = rec ∷ [] };
    step = 0;
    faults = λ n. false;
  };
  keychain = kc;
  timers = 0;
}

-- A plain record of a coin, and one that is sealed under "ab".
abbrev plain : Keyring checked_tree
plain = with_coin (record zero_coin { master_priv = xprv; coin = codes "BTC" }) plain_chain

abbrev sealed : Keyring checked_tree
sealed =
    with_coin
      (record zero_coin {
        master_priv = repeat 16 7 ++ raise_all 2 xprv;
        encrypted_master_key = true;
        coin = codes "BTC";
      })
      (with_keys checked_tree none none plain_chain)

plain-Holds : Holds box (codes "BTC") xprv none plain.engine.tables
unfolding find_by text_eq
plain-Holds = (_, refl, (refl, refl))

sealed-Holds : Holds box (codes "BTC") xprv (some (codes "ab")) sealed.engine.tables
unfolding find_by text_eq open_record repeat raise_all lower_all
sealed-Holds = (_, refl, (refl, refl))

set_passphase_example :
    CommitsHeld checked_tree box box-IsCrypto xprv
      (some (codes "ab"))
      (IsSealError checked_tree box box-IsCrypto)
      (λ kc. (kc ≡ plain_chain) ⊎ (kc ≡ with_keys checked_tree none none plain_chain))
      (with_keys checked_tree none none plain_chain)
      plain
      (set_passphase checked_tree box (codes "ab") 0 plain)
set_passphase_example =
    set_passphase_seals checked_tree box box-IsCrypto xprv plain (codes "ab") 0 plain-Holds

set_passphase_again_example :
    VaultCommits checked_tree
      (λ _ _ _. ⊥)
      (λ x. x ≡ already_encrypted)
      (λ kc. kc ≡ sealed.keychain)
      sealed
      (set_passphase checked_tree box (codes "cd") 0 sealed)
set_passphase_again_example =
    set_passphase_refuses checked_tree box box-IsCrypto xprv sealed (codes "cd") (codes "ab") 0
      sealed-Holds

change_passphrase_example :
    CommitsHeld checked_tree box box-IsCrypto xprv
      (some (codes "cde"))
      (λ x.
        IsOpenError checked_tree box
          (codes "ab")
          (find_coin (codes "BTC") sealed.engine.tables)
          invalid_passphrase
          x
        ⊎ IsSealError checked_tree box box-IsCrypto x)
      (λ kc. kc ≡ sealed.keychain)
      sealed.keychain
      sealed
      (change_passphrase checked_tree box (codes "ab") (codes "cde") 0 sealed)
change_passphrase_example =
    change_passphrase_reseals checked_tree box xprv xprv-IsChecked box-IsCrypto sealed
      (some (codes "ab")) (codes "ab") (codes "cde") 0 sealed-Holds refl

remove_passphrase_example :
    CommitsHeld checked_tree box box-IsCrypto xprv none
      (IsOpenError checked_tree box
        (codes "ab")
        (find_coin (codes "BTC") sealed.engine.tables)
        invalid_passphrase)
      (λ kc. (kc ≡ sealed.keychain) ⊎ (kc ≡ plain_chain))
      plain_chain
      sealed
      (remove_passphrase checked_tree box (codes "ab") sealed)
remove_passphrase_example =
    remove_passphrase_restores checked_tree box xprv xprv-IsChecked box-IsCrypto sealed
      (some (codes "ab")) (codes "ab") (true, []) (true, 0 ∷ []) (true, 1 ∷ []) sealed-Holds refl
      xprv-parse xprv-generate

unlock_example :
    UnlockEnds checked_tree box
      (IsOpenError checked_tree box
        (codes "ab")
        (find_coin (codes "BTC") sealed.engine.tables)
        bad_key)
      plain_chain
      sealed
      (unlock checked_tree box (codes "ab") sealed)
unlock_example =
    unlock_opens checked_tree box xprv xprv-IsChecked sealed (true, []) (true, 0 ∷ [])
      (true, 1 ∷ []) xprv-parse xprv-generate (some (codes "ab")) (codes "ab") sealed-Holds refl

abbrev week : List Event
week =
    unlocking (codes "ab")
    ∷ expiring
    ∷ changing (codes "ab") (codes "cde") 0
    ∷ removing (codes "cde")
    ∷ setting (codes "fg") 2
    ∷ []

handle_all_example :
    IsSafe checked_tree box xprv plain_chain
      (true, 0 ∷ [])
      (true, 1 ∷ [])
      (handle_all checked_tree box week (some (codes "ab")) sealed).0
      (handle_all checked_tree box week (some (codes "ab")) sealed).1
handle_all_example =
    handle_all-IsSafe checked_tree box xprv plain_chain (true, 0 ∷ []) (true, 1 ∷ []) box-IsCrypto
      xprv-IsChecked (true, []) xprv-parse xprv-generate week (some (codes "ab")) sealed
      (inl refl, sealed-Holds)

-- The database fails the save.
abbrev failing : Keyring checked_tree
failing = record sealed {
  engine = record { tables = sealed.engine.tables; step = 0; faults = λ n. n == 2 };
}

remove_passphrase_faulty_example :
    let (r, k') = remove_passphrase checked_tree box (codes "ab") failing in
    (r ≡ err engine)
    × Holds box (codes "BTC") xprv (some (codes "ab")) k'.engine.tables
    × (k'.timers ≡ 0)
    × (k'.keychain ≡ plain_chain)
remove_passphrase_faulty_example =
    remove_passphrase_leaves_keys checked_tree box xprv failing (true, []) (true, 0 ∷ [])
      (true, 1 ∷ []) xprv-parse xprv-generate (codes "ab") sealed-Holds refl refl refl
