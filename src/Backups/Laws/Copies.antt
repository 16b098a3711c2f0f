-- ===== src/Backups/Laws/Copies.antt =====
-- The copies of one dump while it is encrypted: which path holds what.
use text.Mathlib.TextLemmas.{append_assoc, append_cancel_left, append-nil, cons-append}
use Prim.Native.String
use db_backup.Prelude.{
  ℕ, ◌≡◌, refl, ◌∙◌, sym, subst, true, false, some, List, ◌==◌, Map, get, put, remove, get-put,
  get-remove, eq_iff, eq_refl, arith, Option-cases, Bool-cases, inl, inr,
}
use db_backup.Sync.Values.{◌<>◌}
use db_backup.Backups.{Entry, file, ends_with, is_encrypted_name}
use db_backup.Backups.Crypto.{Cipher, same_bytes, encrypt_backup_file, decrypt_backup_file}
use db_backup.Backups.Worker.{
  Outside, enc_path, verify_path, check_copy, encrypt_once, encrypt_twice,
}

-- a path with something behind it is another one
pub longer-ne :
    (path more : String.String) → (more == "") ≡ false → ((path <> more) == path) ≡ false
longer-ne path more h = elim (Bool-cases ((path <> more) == path)) [
  | inr differs ↦ differs
  | inl same ↦
      let equal : path <> more ≡ path <> "" =
        (eq_iff (path <> more) path).0 same ∙ sym (append-nil path) in
      let empty : more ≡ "" = append_cancel_left path more "" equal in
      absurd (ground (arith, h, empty, eq_iff more ""))
]

pub is_encrypted_name_enc : (name : String.String) → is_encrypted_name (name <> ".enc") ≡ true
unfolding is_encrypted_name ends_with
is_encrypted_name_enc String.[] = refl
is_encrypted_name_enc (String.◌∷◌ c name) =
    rw (cons-append c name ".enc") (ground (arith, is_encrypted_name_enc name))

module _ (cipher : Cipher) (hash : List ℕ → List ℕ) (out : Outside)
    (passphrase path : String.String) (plain : List ℕ)
    (no_collision : (copy : List ℕ)
      → same_bytes (hash copy) (hash plain) ≡ true
      → copy ≡ plain) where
  apart :
      ((enc_path path == path) ≡ false)
      × ((path == enc_path path) ≡ false)
      × ((verify_path path == path) ≡ false)
      × ((verify_path path == enc_path path) ≡ false)
  apart =
      let one = longer-ne path ".enc" refl in
      let two = longer-ne path ".enc.verify" refl in
      let three : (verify_path path == enc_path path) ≡ false =
        rw (sym (append_assoc path ".enc" ".verify")) (longer-ne (path <> ".enc") ".verify" refl) in
      (
        one,
        ground (arith, one, eq_iff (enc_path path) path, eq_iff path (enc_path path)),
        two,
        three,
      )

  -- the copy of an attempt that succeeded
  abbrev pub IsSealed : Map Entry → Type 0
  IsSealed disk =
      (enc : List ℕ) × (get disk (enc_path path) ≡ some (file enc))
      × (decrypt_backup_file cipher passphrase enc ≡ some plain)

  check_copy-ok :
      (n : ℕ) (enc : List ℕ) (disk : Map Entry)
      → get disk (enc_path path) ≡ some (file enc)
      → (check_copy cipher hash out n passphrase path plain enc disk).0 ≡ true
      → IsSealed (check_copy cipher hash out n passphrase path plain enc disk).1
  unfolding check_copy
  check_copy-ok n enc disk here h =
      elim (Option-cases (decrypt_backup_file cipher passphrase enc)) [
        | inl failed ↦ elim (Option-cases (out.partial n)) [
          | inl nothing ↦ absurd (ground (arith, failed, nothing, h))
          | inr (left, some_left) ↦ absurd (ground (arith, failed, some_left, h))
        ]
        | inr (copy, opened) ↦ elim (Bool-cases (same_bytes (hash copy) (hash plain))) [
          | inr differs ↦ absurd (ground (arith, opened, differs, h))
          | inl same ↦ (
            enc,
            ground (
              arith,
              opened,
              same,
              here,
              apart,
              get-remove disk (verify_path path) (enc_path path),
            ),
            ground (arith, opened, no_collision copy same),
          )
        ]
      ]

  -- a failed attempt leaves the other files but the copies
  check_copy-kept :
      (n : ℕ) (enc : List ℕ) (disk : Map Entry)
      → get (check_copy cipher hash out n passphrase path plain enc disk).1 path ≡ get disk path
  unfolding check_copy
  check_copy-kept n enc disk = elim (Option-cases (decrypt_backup_file cipher passphrase enc)) [
    | inl failed ↦ elim (Option-cases (out.partial n)) [
      | inl nothing ↦ ground (arith, failed, nothing, apart, get-remove disk (enc_path path) path)
      | inr (left, some_left) ↦ ground (
        arith,
        failed,
        some_left,
        apart,
        get-remove (put disk (verify_path path) (file left)) (enc_path path) path,
        get-put disk (verify_path path) path (file left),
      )
    ]
    | inr (copy, opened) ↦ elim (Bool-cases (same_bytes (hash copy) (hash plain))) [
      | inr differs ↦ ground (
        arith,
        opened,
        differs,
        apart,
        get-remove (remove disk (verify_path path)) (enc_path path) path,
        get-remove disk (verify_path path) path,
      )
      | inl same ↦ ground (arith, opened, same, apart, get-remove disk (verify_path path) path)
    ]
  ]

  encrypt_once-ok :
      (n : ℕ) (disk : Map Entry)
      → (encrypt_once cipher hash out n passphrase path plain disk).0 ≡ true
      → IsSealed (encrypt_once cipher hash out n passphrase path plain disk).1
  unfolding encrypt_once
  encrypt_once-ok n disk h =
      let bytes = encrypt_backup_file cipher (out.salt n) (out.iv n) passphrase plain in
      elim (Option-cases (out.written n bytes)) [
        | inl failed ↦ absurd (ground (arith, failed, h))
        | inr (enc, done) ↦
            let disk' = put disk (enc_path path) (file enc) in
            let checked : encrypt_once cipher hash out n passphrase path plain disk
                ≡ check_copy cipher hash out n passphrase path plain enc disk' =
              ground (arith, done) in
            subst (λ r. IsSealed r.1) (sym checked)
              (check_copy-ok n enc disk'
                (ground (
                  arith,
                  get-put disk (enc_path path) (enc_path path) (file enc),
                  eq_refl (enc_path path),
                ))
                (subst (λ r. r.0 ≡ true) checked h))
      ]

  encrypt_once-kept :
      (n : ℕ) (disk : Map Entry)
      → get (encrypt_once cipher hash out n passphrase path plain disk).1 path ≡ get disk path
  unfolding encrypt_once
  encrypt_once-kept n disk =
      let bytes = encrypt_backup_file cipher (out.salt n) (out.iv n) passphrase plain in
      elim (Option-cases (out.written n bytes)) [
        | inl failed ↦ ground (arith, failed, apart, get-remove disk (enc_path path) path)
        | inr (enc, done) ↦
            let disk' = put disk (enc_path path) (file enc) in
            ground (
              arith,
              done,
              apart,
              check_copy-kept n enc disk',
              get-put disk (enc_path path) path (file enc),
            )
      ]

  pub encrypt_twice-ok :
      (disk : Map Entry)
      → (encrypt_twice cipher hash out passphrase path plain disk).0 ≡ true
      → IsSealed (encrypt_twice cipher hash out passphrase path plain disk).1
  unfolding encrypt_twice
  encrypt_twice-ok disk h =
      let first = encrypt_once cipher hash out 1 passphrase path plain disk in
      elim (Bool-cases first.0) [
        | inl ok ↦ rw ok (encrypt_once-ok 1 disk ok)
        | inr failed ↦ rw failed (encrypt_once-ok 2 first.1 (rw failed at h))
      ]

  pub encrypt_twice-kept :
      (disk : Map Entry)
      → get (encrypt_twice cipher hash out passphrase path plain disk).1 path ≡ get disk path
  unfolding encrypt_twice
  encrypt_twice-kept disk =
      let first = encrypt_once cipher hash out 1 passphrase path plain disk in
      elim (Bool-cases first.0) [
        | inl ok ↦ rw ok (encrypt_once-kept 1 disk)
        | inr failed ↦ rw failed (encrypt_once-kept 2 first.1 ∙ encrypt_once-kept 1 disk)
      ]
