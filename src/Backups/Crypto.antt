-- ===== src/Backups/Crypto.antt =====
-- server/src/services/backup-crypto.service.ts: the format of an encrypted file, the magic "DBB1", a
-- salt of 16 bytes, an iv of 12, the ciphertext and a tag of 16. The key derivation and the cipher are
-- parameters.
use db_backup.Prelude.{
  ℕ, zero, suc, ◌+◌, ◌-◌, String, ◌≡◌, refl, ap, sym, ◌∙◌, Bool, true, false, ◌&&◌, Option, none,
  some, List, [], ◌∷◌, List-cases, inl, inr, ◌++◌, if◌then◌else◌, eqb, ltb, length, take, drop,
  arith, length-append, append_assoc,
}

pub record Cipher : Type 0 where
  pub derive_key : String → List ℕ → List ℕ
  -- the ciphertext and the tag
  pub seal : (key iv plain : List ℕ) → List ℕ × List ℕ
  pub unseal : (key iv tag ciphertext : List ℕ) → Option (List ℕ)

abbrev pub magic : List ℕ
magic = b'D' ∷ b'B' ∷ b'B' ∷ b'1' ∷ []

abbrev pub header_len : ℕ
header_len = 32

abbrev pub tag_len : ℕ
tag_len = 16

abbrev pub same_bytes : List ℕ → List ℕ → Bool
same_bytes [] [] = true
same_bytes [] (b ∷ ys) = false
same_bytes (a ∷ xs) [] = false
same_bytes (a ∷ xs) (b ∷ ys) = eqb a b && same_bytes xs ys

-- isEncryptedFile
unfoldable pub is_encrypted_file : List ℕ → Bool
is_encrypted_file bytes = same_bytes (take 4 bytes) magic

-- the salt and the iv are random
unfoldable pub encrypt_backup_file : Cipher → (salt iv : List ℕ) → String → List ℕ → List ℕ
encrypt_backup_file cipher salt iv passphrase plain =
    let (ciphertext, tag) = cipher.seal (cipher.derive_key passphrase salt) iv plain in
    magic ++ (salt ++ (iv ++ (ciphertext ++ tag)))

-- `none` is an exception; a stream that would end before its start is one
unfoldable pub decrypt_backup_file : Cipher → String → List ℕ → Option (List ℕ)
unfolding is_encrypted_file
decrypt_backup_file cipher passphrase bytes =
    let size = length bytes in
    let tag = drop (size - tag_len) bytes in
    let salt = take 16 (drop 4 bytes) in
    let iv = take 12 (drop 20 bytes) in
    let ciphertext = take (size - tag_len - header_len) (drop header_len bytes) in
    if ltb size (header_len + tag_len)
    then none
    else if is_encrypted_file bytes
    then if ltb (size - tag_len - 1) header_len
      then none
      else cipher.unseal (cipher.derive_key passphrase salt) iv tag ciphertext
    else none

take-append_left : (n : ℕ) (xs ys : List ℕ) → length xs ≡ n → take n (xs ++ ys) ≡ xs
take-append_left zero [] ys h = refl
take-append_left zero (x ∷ xs) ys h = absurd (omega (arith, h))
take-append_left (suc n) [] ys h = absurd (omega (arith, h))
take-append_left (suc n) (x ∷ xs) ys h =
    ap (λ l. x ∷ l) (take-append_left n xs ys (omega (arith, h)))

drop-append_left : (n : ℕ) (xs ys : List ℕ) → length xs ≡ n → drop n (xs ++ ys) ≡ ys
drop-append_left zero [] ys h = refl
drop-append_left zero (x ∷ xs) ys h = absurd (omega (arith, h))
drop-append_left (suc n) [] ys h = absurd (omega (arith, h))
drop-append_left (suc n) (x ∷ xs) ys h = drop-append_left n xs ys (omega (arith, h))

-- the parts of a file: its length, and where the salt, the iv, the ciphertext and the tag stand
module _ (salt iv ciphertext tag : List ℕ) (salt16 : length salt ≡ 16) (iv12 : length iv ≡ 12)
    (tag16 : length tag ≡ 16) where
  abbrev sealed_file : List ℕ
  sealed_file = magic ++ (salt ++ (iv ++ (ciphertext ++ tag)))

  length-sealed_file : length sealed_file ≡ length ciphertext + 48
  length-sealed_file = omega (
    arith,
    salt16,
    iv12,
    tag16,
    length-append salt (iv ++ (ciphertext ++ tag)),
    length-append iv (ciphertext ++ tag),
    length-append ciphertext tag,
  )

  salt_part : take 16 (drop 4 sealed_file) ≡ salt
  salt_part = take-append_left 16 salt _ salt16

  iv_part : take 12 (drop 20 sealed_file) ≡ iv
  iv_part = ap (take 12) (drop-append_left 16 salt _ salt16) ∙ take-append_left 12 iv _ iv12

  rest_part : drop 32 sealed_file ≡ ciphertext ++ tag
  rest_part =
      ap (drop 28) (sym (append_assoc salt iv (ciphertext ++ tag)))
      ∙ drop-append_left 28 (salt ++ iv) _ (omega (arith, length-append salt iv, salt16, iv12))

  ciphertext_part : take (length ciphertext) (drop 32 sealed_file) ≡ ciphertext
  ciphertext_part =
      ap (take (length ciphertext)) rest_part
      ∙ take-append_left (length ciphertext) ciphertext _ refl

  tag_part : drop (length ciphertext + 32) sealed_file ≡ tag
  tag_part =
      let front = magic ++ (salt ++ (iv ++ ciphertext)) in
      let whole : sealed_file ≡ front ++ tag =
        ap (λ l. magic ++ l)
          (ap (λ l. salt ++ l) (sym (append_assoc iv ciphertext tag))
            ∙ sym (append_assoc salt (iv ++ ciphertext) tag)) in
      ap (drop (length ciphertext + 32)) whole
      ∙ drop-append_left (length ciphertext + 32) front tag (
          omega (
            arith,
            salt16,
            iv12,
            length-append salt (iv ++ ciphertext),
            length-append iv ciphertext,
          ))

module _ (cipher : Cipher) (salt iv plain : List ℕ) (passphrase : String)
    (salt16 : length salt ≡ 16) (iv12 : length iv ≡ 12)
    (sealed-length : (key iv plain : List ℕ)
      → (length (cipher.seal key iv plain).0 ≡ length plain)
        × (length (cipher.seal key iv plain).1 ≡ 16))
    (unseal-seal : (key iv plain : List ℕ)
      → cipher.unseal key iv (cipher.seal key iv plain).1 (cipher.seal key iv plain).0
        ≡ some plain) where
  -- An encrypted file decrypts, with its passphrase, to the bytes that were encrypted, and is known by
  -- its header; only the encryption of an empty file does not decrypt. The salt has 16 bytes and the
  -- iv 12; the cipher keeps the length, makes a tag of 16 bytes and opens what it sealed.
  pub decrypt-encrypt_backup_file :
      (is_encrypted_file (encrypt_backup_file cipher salt iv passphrase plain) ≡ true)
      × (decrypt_backup_file cipher passphrase (encrypt_backup_file cipher salt iv passphrase plain)
          ≡ elim plain [ [] ↦ none | b ∷ bs ↦ some (b ∷ bs) ])
  unfolding decrypt_backup_file encrypt_backup_file is_encrypted_file
  decrypt-encrypt_backup_file =
      let key = cipher.derive_key passphrase salt in
      let ciphertext = (cipher.seal key iv plain).0 in
      let tag = (cipher.seal key iv plain).1 in
      let lens = sealed-length key iv plain in
      let file = magic ++ (salt ++ (iv ++ (ciphertext ++ tag))) in
      let size : length file ≡ length plain + 48 =
        length-sealed_file salt iv ciphertext tag salt16 iv12 lens.1 ∙ omega (arith, lens.0) in
      let to_tag : length file - 16 ≡ length ciphertext + 32 = omega (arith, size, lens.0) in
      let to_end : length ciphertext + 32 - 32 ≡ length ciphertext = omega arith in
      let opened : cipher.unseal (cipher.derive_key passphrase (take 16 (drop 4 file)))
            (take 12 (drop 20 file)) (drop (length file - 16) file)
            (take (length file - 16 - 32) (drop 32 file))
          ≡ some plain =
        rw
          (
            salt_part salt iv ciphertext tag salt16 iv12 lens.1,
            iv_part salt iv ciphertext tag salt16 iv12 lens.1,
            to_tag,
            to_end,
            tag_part salt iv ciphertext tag salt16 iv12 lens.1,
            ciphertext_part salt iv ciphertext tag salt16 iv12 lens.1,
          )
          (unseal-seal key iv plain) in
      (
        refl,
        elim (List-cases plain) [
          | inl empty ↦ ground (arith, size, to_tag, ap length empty, empty)
          | inr (b, bs, e) ↦ ground (arith, size, to_tag, ap length e, opened, e)
        ],
      )
