-- ===== src/Tests/KeyManager.antt =====
-- A primary key, its successor, and an envelope that hides nothing.
use db_backup.Prelude.{
  ℕ, String, ◌≡◌, refl, true, false, none, some, [], ◌∷◌, if◌then◌else◌, eqb, get, put, or_else,
  arith, Bool-cases, inl, inr,
}
use db_backup.Sync.Values.{◌<>◌}
use db_backup.KeyManager.{
  Environment, KeyManager, is_hex, is_hex_text, add_key, add_present, add_versions, primary_of,
  environment_keys, manager_of, load_keys, get_primary_key, Envelope, encrypt, decrypt,
  needs_re_encryption,
}
use db_backup.KeyManager.Laws.{has_colon}
use db_backup.KeyManager.Rotation.{decrypt-encrypt, decrypt-rotated}

abbrev zeros : String
zeros = "0000000000000000000000000000000000000000000000000000000000000000"

abbrev ones : String
ones = "1111111111111111111111111111111111111111111111111111111111111111"

abbrev index_name : ℕ → String
index_name n = if eqb n 1 then "1" else "2"

abbrev clear : Envelope
clear = record {
  seal = λ key plain. plain;
  unseal = λ key sealed. some sealed;
  unseal_legacy = λ key sealed. none;
}

abbrev before_rotation : Environment
before_rotation = record {
  encryption_key_primary = some zeros;
  encryption_key = none;
  encryption_keys = [];
  has_wrapped_key = false;
}

abbrev after_rotation : Environment
after_rotation = record before_rotation {
  encryption_key_primary = some ones;
  encryption_keys = zeros ∷ [];
}

abbrev no_manager : KeyManager
no_manager = record { keys = []; primary_key_id = none; awaiting_kms_unwrap = true }

abbrev first_manager : KeyManager
first_manager = or_else (load_keys index_name before_rotation) no_manager

abbrev second_manager : KeyManager
second_manager = or_else (load_keys index_name after_rotation) no_manager

first_loaded : load_keys index_name before_rotation ≡ some first_manager
unfolding load_keys environment_keys add_present add_versions add_key is_hex_text is_hex manager_of
    primary_of put get
first_loaded = refl

second_loaded : load_keys index_name after_rotation ≡ some second_manager
unfolding load_keys environment_keys add_present add_versions add_key is_hex_text is_hex manager_of
    primary_of put get
second_loaded = refl

second_keys : second_manager.keys ≡ ("primary", ones) ∷ ("v1", zeros) ∷ []
unfolding load_keys environment_keys add_present add_versions add_key is_hex_text is_hex manager_of
    primary_of put get
second_keys = refl

malformed : add_key "legacy" "not a key" [] ≡ none
unfolding add_key is_hex_text is_hex
malformed = refl

encrypted : encrypt clear first_manager "pw" ≡ some "primary:pw"
unfolding load_keys environment_keys add_present add_versions add_key is_hex_text is_hex manager_of
    primary_of put get encrypt get_primary_key
encrypted = refl

plain_names : (n : ℕ) → has_colon ("v" <> index_name n) ≡ false
plain_names n = elim (Bool-cases (eqb n 1)) [ inl one ↦ rw one refl | inr other ↦ rw other refl ]

-- one more key is loaded, and none taken away
abbrev grown : Environment
grown = record before_rotation { encryption_keys = ones ∷ [] }

abbrev grown_manager : KeyManager
grown_manager = or_else (load_keys index_name grown) no_manager

same_primary :
    (id : String)
    → first_manager.primary_key_id ≡ some id
    → get grown_manager.keys id ≡ get first_manager.keys id
unfolding load_keys environment_keys add_present add_versions add_key is_hex_text is_hex manager_of
    primary_of put get
same_primary id e = let name : "primary" ≡ id = ground (arith, e) in rw⁻¹ name refl

decrypt-encrypt_example :
    (text : String) × (encrypt clear first_manager "pw" ≡ some text)
    × (needs_re_encryption first_manager text ≡ false)
    × (decrypt clear grown_manager text ≡ some "pw")
decrypt-encrypt_example =
    decrypt-encrypt clear index_name before_rotation first_manager grown_manager "pw"
      (λ key. (refl, refl, refl)) plain_names refl first_loaded same_primary

decrypt-rotated_example : decrypt clear second_manager "primary:pw" ≡ some "pw"
decrypt-rotated_example =
    decrypt-rotated clear index_name before_rotation after_rotation first_manager second_manager
      zeros ones "pw" "primary:pw" (λ key. (refl, refl, refl)) refl refl refl refl refl refl
      first_loaded second_loaded encrypted
