-- ===== src/Keychain/Passphrase/Seals.antt =====
-- A sealed text opens under its passphrase, and what the record of a master key is to hold.
use mathlib.Core.Path.{subst}
use multiwallet.Prelude.{
  ℕ, zero, suc, ◌≡◌, refl, ◌∙◌, ap, true, false, Option, none, some, [], ◌∷◌, ◌++◌, arith, ltb,
  Text, length, length-append, take, drop,
}
use multiwallet.Database.Models.{CoinRecord, Tables}
use multiwallet.Database.Tables.{find_by}
use multiwallet.Database.Tx.{ok}
use multiwallet.Keychain.Keys.{HdKeys}
use multiwallet.Keychain.Passphrase.{
  Crypto, block_size, seal, seal_with, open_with, open_record, locked_record,
}

-- What is documented of base64, of CFB decryption, and of reading `n` random bytes.
pub record IsCrypto (c : Crypto) : Type 0 where
  pub decode_encode : (x : Text) → c.decode (c.encode x) ≡ some x
  pub decrypt_encrypt : (b : c.Block) (iv x : Text) → c.decrypt b iv (c.encrypt b iv x) ≡ x
  pub random_length : (d n : ℕ) (x : Text) → c.random d n ≡ some x → length x ≡ n

take-append : (n : ℕ) (xs ys : Text) → length xs ≡ n → take n (xs ++ ys) ≡ xs
take-append zero [] ys h = refl
take-append zero (x ∷ xs) ys h = absurd (omega arith)
take-append (suc n) [] ys h = absurd (omega arith)
take-append (suc n) (x ∷ xs) ys h = ap (λ zs. x ∷ zs) (take-append n xs ys (omega arith))

drop-append : (n : ℕ) (xs ys : Text) → length xs ≡ n → drop n (xs ++ ys) ≡ ys
drop-append zero [] ys h = refl
drop-append zero (x ∷ xs) ys h = absurd (omega arith)
drop-append (suc n) [] ys h = absurd (omega arith)
drop-append (suc n) (x ∷ xs) ys h = drop-append n xs ys (omega arith)

module _ (c : Crypto) (laws : IsCrypto c) where
  open_with-blocks :
      (b : c.Block) (iv x : Text)
      → length iv ≡ block_size
      → open_with c (some b) (iv ++ x) ≡ ok (c.decrypt b iv x)
  open_with-blocks b iv x h =
      let long : ltb (length (iv ++ x)) block_size ≡ false = ground (arith, length-append iv x) in
      rw (long, take-append block_size iv x h, drop-append block_size iv x h) refl

  open_with-seal_with :
      (o : Option c.Block) (iv : Option Text) (plaintext text : Text)
      → ((v : Text) → iv ≡ some v → length v ≡ block_size)
      → seal_with c o iv plaintext ≡ ok text
      → (x : Text) × (c.decode text ≡ some x) × (open_with c o x ≡ ok plaintext)
  open_with-seal_with none iv plaintext text h e = absurd (cc)
  open_with-seal_with (some b) none plaintext text h e = absurd (cc)
  open_with-seal_with (some b) (some v) plaintext text h e =
      let same : c.encode (v ++ c.encrypt b v plaintext) ≡ text = cc in
      (
        v ++ c.encrypt b v plaintext,
        subst (λ t. c.decode t ≡ some (v ++ c.encrypt b v plaintext)) same (laws.decode_encode _),
        open_with-blocks b v (c.encrypt b v plaintext) (h v refl)
            ∙ ap ok (laws.decrypt_encrypt b v plaintext),
      )

  -- A text that was sealed under a passphrase opens under it.
  pub open_record-seal :
      (pw salt plaintext text : Text) (d : ℕ) (rec : CoinRecord)
      → seal c pw salt (c.random d block_size) plaintext ≡ ok text
      → open_record c pw (locked_record salt text rec) ≡ ok plaintext
  unfolding open_record seal
  open_record-seal pw salt plaintext text d rec e =
      let (x, decoded, opened) =
        open_with-seal_with (c.new_cipher (c.derive_key pw salt 8192 32)) (c.random d block_size)
          plaintext text (laws.random_length d block_size) e in
      rw decoded opened

module _ (c : Crypto) where
  -- The record holds the text of a master key: plainly, or sealed under a passphrase.
  abbrev pub IsHeld : Text → Option Text → CoinRecord → Type 0
  IsHeld master none rec = (rec.encrypted_master_key ≡ false) × (rec.master_priv ≡ master)
  IsHeld master (some pw) rec =
      (rec.encrypted_master_key ≡ true) × (open_record c pw rec ≡ ok master)

  -- The coin has a record, and it holds the master key.
  abbrev pub Holds : Text → Text → Option Text → Tables → Type 0
  Holds coin master lock T =
      (rec : CoinRecord) × (find_by (λ r. r.coin) coin T.coins ≡ some rec) × IsHeld master lock rec

  -- The checksum in the text of a key: no passphrase opens a record of the master key to the text of
  -- another key.
  abbrev pub IsChecked : HdKeys → Text → Type 0
  IsChecked hd master =
      (lock : Option Text) (rec : CoinRecord) (pw text : Text) (key : hd.Key)
      → IsHeld master lock rec
      → open_record c pw rec ≡ ok text
      → hd.from_text text ≡ some key
      → text ≡ master
