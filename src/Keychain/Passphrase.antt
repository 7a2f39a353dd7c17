-- ===== src/Keychain/Passphrase.antt =====
-- The passphrase of a keychain in base/keys.go: `SetPassphase`, `ChangePassphrase`,
-- `RemovePassphrase`, `Unlock` with its timer, and `IsEncrypted`. PBKDF2, AES in CFB mode, base64 and
-- the source of randomness come as a record of operations.
pub mod Seals
pub mod Rules
pub mod Calls
pub mod Openings
pub mod Unlocking
pub mod Safety
pub mod Failures
use multiwallet.Prelude.{
  ℕ, zero, suc, ◌+◌, Bool, true, false, ◌||◌, Option, none, some, List, ◌++◌, ltb, if◌then◌else◌,
  Text, length, take, drop,
}
use multiwallet.Database.Models.{CoinRecord, Tables, zero_coin}
use multiwallet.Database.Tables.{find_by, upsert}
use multiwallet.Database.Tx.{
  Result, ok, err, Error, Tx, Exec, Engine, Session, ◌>>=◌, ◌>>◌, pure, raise, lift, or_error,
  query, write, write_tx, finish, view, already_encrypted, not_encrypted, bad_base64,
  short_ciphertext, invalid_passphrase, bad_key, bad_cipher, no_randomness,
}
use multiwallet.Keychain.Keys.{HdKeys, Keychain, generate_account_keys}

pub record Crypto : Type 1 where
  pub Block : Type 0
  -- `pbkdf2.Key(pw, salt, rounds, keyLen, sha512.New)`
  pub derive_key : Text → Text → ℕ → ℕ → Text
  -- `aes.NewCipher`
  pub new_cipher : Text → Option Block
  -- `XORKeyStream` of `NewCFBEncrypter(block, iv)` and of `NewCFBDecrypter(block, iv)`
  pub encrypt : Block → Text → Text → Text
  pub decrypt : Block → Text → Text → Text
  -- `base64.StdEncoding`
  pub encode : Text → Text
  pub decode : Text → Option Text
  -- `random d n`: the `d`th read of `n` bytes from `rand.Reader`
  pub random : ℕ → ℕ → Option Text

abbrev pub default_kdf_rounds : ℕ
default_kdf_rounds = 8192

abbrev pub default_key_length : ℕ
default_key_length = 32

-- `aes.BlockSize`
abbrev pub block_size : ℕ
block_size = 16

abbrev pub or_zero : Option CoinRecord → CoinRecord
or_zero none = zero_coin
or_zero (some rec) = rec

-- `Where("coin=?", coin).Find(&coinRecord)`, which is no error where there is no row.
abbrev pub find_coin : Text → Tables → CoinRecord
find_coin coin t = or_zero (find_by (λ r. r.coin) coin t.coins)

-- `tx.Save(&coinRecord)`
unfoldable pub save_coin : CoinRecord → Tx (Unit {0})
save_coin r = write (λ t. record t { coins = upsert (λ x. x.coin) r t.coins })

-- The text is encrypted, and stored with what derived the key.
abbrev pub locked_record : Text → Text → CoinRecord → CoinRecord
locked_record salt text rec = record rec {
  master_priv = text;
  encrypted_master_key = true;
  kdf_rounds = default_kdf_rounds;
  kdf_key_len = default_key_length;
  salt = salt;
}

abbrev pub plain_record : Text → CoinRecord → CoinRecord
plain_record text rec = record rec { master_priv = text; encrypted_master_key = false }

module _ (c : Crypto) where
  abbrev pub seal_under : c.Block → Option Text → Text → Result Text
  seal_under block none plaintext = err no_randomness
  seal_under block (some iv) plaintext = ok (c.encode (iv ++ c.encrypt block iv plaintext))

  abbrev pub seal_with : Option c.Block → Option Text → Text → Result Text
  seal_with none iv plaintext = err bad_cipher
  seal_with (some block) iv plaintext = seal_under block iv plaintext

  -- A passphrase, a salt and the bytes read for the IV, and the text to encrypt.
  unfoldable pub seal : Text → Text → Option Text → Text → Result Text
  seal pw salt iv plaintext =
      seal_with (c.new_cipher (c.derive_key pw salt default_kdf_rounds default_key_length)) iv
        plaintext

  abbrev pub open_with : Option c.Block → Text → Result Text
  open_with none ciphertext = err bad_cipher
  open_with (some block) ciphertext =
      if ltb (length ciphertext) block_size
      then err short_ciphertext
      else ok (c.decrypt block (take block_size ciphertext) (drop block_size ciphertext))

  abbrev pub open_bytes : Option Text → Text → CoinRecord → Result Text
  open_bytes none pw rec = err bad_base64
  open_bytes (some ciphertext) pw rec =
      open_with (c.new_cipher (c.derive_key pw rec.salt rec.kdf_rounds rec.kdf_key_len)) ciphertext

  -- The decryption that the three calls with a passphrase of before begin with.
  unfoldable pub open_record : Text → CoinRecord → Result Text
  open_record pw rec = open_bytes (c.decode rec.master_priv) pw rec

-- The keychain in memory beside the database, and how many timers of `Unlock` are running.
pub record Keyring (hd : HdKeys) : Type 0 where
  pub engine : Engine
  pub keychain : Keychain hd
  pub timers : ℕ

abbrev pub is_some : {A : Type 0} → Option A → Bool
is_some none = false
is_some (some k) = true

module _ (hd : HdKeys) where
  -- The state of a closure of `Update`, which also changes the keychain in memory.
  abbrev pub Vault : Type 0
  Vault = Session × Keychain hd

  abbrev pub on_db : {A : Type 0} → Tx A → Exec Vault A
  on_db m v = let (r, s) = m v.0 in (r, (s, v.1))

  -- Both private keys are replaced.
  abbrev pub with_keys : Option hd.Key → Option hd.Key → Keychain hd → Keychain hd
  with_keys external internal kc = record kc {
    external_privkey = external;
    internal_privkey = internal;
  }

  abbrev pub set_keys : Option hd.Key → Option hd.Key → Exec Vault (Unit {0})
  set_keys external internal v = (ok tt, (v.0, with_keys external internal v.1))

  -- `kc.db.Update` of such a closure: the engine commits or rolls back, the memory stays as it is.
  unfoldable pub in_update : {A : Type 0} → Exec Vault A → Exec (Keyring hd) A
  unfolding write_tx finish
  in_update fn k =
      let (r, v) = fn (write_tx k.engine, k.keychain) in
      let (r', e) = finish k.engine (r, v.0) in (r', record k { engine = e; keychain = v.1 })

  abbrev pub is_unlocked : Keychain hd → Bool
  is_unlocked kc = is_some kc.internal_privkey || is_some kc.external_privkey

  abbrev pub on_engine : {A : Type 0} → Exec Engine A → Exec (Keyring hd) A
  on_engine m k = let (r, e) = m k.engine in (r, record k { engine = e })

  -- The keys come into memory and the timer starts.
  abbrev pub start_timer : hd.Key × hd.Key → Exec (Keyring hd) (Unit {0})
  start_timer (external, internal) k = (
    ok tt,
    record k {
      keychain = with_keys (some external) (some internal) k.keychain;
      timers = k.timers + 1;
    },
  )

module _ (hd : HdKeys) (c : Crypto) where
  unfoldable pub set_passphase_tx : Text → Text → ℕ → Exec (Vault hd) (Unit {0})
  set_passphase_tx coin pw draw = do
    rec ← on_db hd (query (λ t. ok (find_coin coin t)))
    if rec.encrypted_master_key then raise already_encrypted else pure tt
    salt ← lift (or_error no_randomness (c.random draw 32))
    text ← lift (seal c pw salt (c.random (draw + 1) block_size) rec.master_priv)
    set_keys hd none none
    on_db hd (save_coin (locked_record salt text rec))

  unfoldable pub set_passphase : Text → ℕ → Exec (Keyring hd) (Unit {0})
  set_passphase pw draw k = in_update hd (set_passphase_tx k.keychain.coin_type pw draw) k

  unfoldable pub change_passphrase_tx : Text → Text → Text → ℕ → Exec (Vault hd) (Unit {0})
  change_passphrase_tx coin old new draw = do
    rec ← on_db hd (query (λ t. ok (find_coin coin t)))
    plaintext ← lift (open_record c old rec)
    key ← lift (or_error invalid_passphrase (hd.from_text plaintext))
    salt ← lift (or_error no_randomness (c.random draw 32))
    text ← lift (seal c new salt (c.random (draw + 1) block_size) plaintext)
    on_db hd (save_coin (locked_record salt text rec))

  unfoldable pub change_passphrase : Text → Text → ℕ → Exec (Keyring hd) (Unit {0})
  change_passphrase old new draw k =
      if is_unlocked hd k.keychain
      then (err not_encrypted, k)
      else in_update hd (change_passphrase_tx k.keychain.coin_type old new draw) k

  -- Where a chain of the account has no key, both keys become nil in Go, which they are by the guard.
  unfoldable pub remove_passphrase_tx : Text → Text → Exec (Vault hd) (Unit {0})
  remove_passphrase_tx coin pw = do
    rec ← on_db hd (query (λ t. ok (find_coin coin t)))
    plaintext ← lift (open_record c pw rec)
    key ← lift (or_error invalid_passphrase (hd.from_text plaintext))
    (external, internal) ← lift (generate_account_keys hd key)
    set_keys hd (some external) (some internal)
    on_db hd (save_coin (plain_record plaintext rec))

  unfoldable pub remove_passphrase : Text → Exec (Keyring hd) (Unit {0})
  remove_passphrase pw k =
      if is_unlocked hd k.keychain
      then (err not_encrypted, k)
      else in_update hd (remove_passphrase_tx k.keychain.coin_type pw) k

  -- `Unlock`, from the record on.
  abbrev pub account_of : Text → CoinRecord → Exec (Keyring hd) (hd.Key × hd.Key)
  account_of pw rec = do
    plaintext ← lift (open_record c pw rec)
    key ← lift (or_error bad_key (hd.from_text plaintext))
    lift (generate_account_keys hd key)

  unfoldable pub unlock : Text → Exec (Keyring hd) (Unit {0})
  unlock pw k =
      if is_unlocked hd k.keychain
      then (err not_encrypted, k)
      else (do
        rec ← on_engine hd (view (query (λ t. ok (find_coin k.keychain.coin_type t))))
        keys ← account_of pw rec
        start_timer hd keys)
          k

  -- The function that a timer of `Unlock` runs, if one is running.
  unfoldable pub expire : Exec (Keyring hd) (Unit {0})
  expire k = elim k.timers [
    | zero ↦ (ok tt, k)
    | suc n ↦ (ok tt, record k { keychain = with_keys hd none none k.keychain; timers = n })
  ]

  unfoldable pub is_encrypted : Keychain hd → Bool
  is_encrypted kc = elim kc.internal_privkey [
    | none ↦ true
    | some i ↦ elim kc.external_privkey [ none ↦ true | some e ↦ false ]
  ]
