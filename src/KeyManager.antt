-- ===== src/KeyManager.antt =====
-- KeyManager of server/src/services/crypto/key-manager.ts: which key encrypts, and which one decrypts. The
-- envelope of a ciphertext, the cipher, the decoding of a key and AWS KMS are parameters; a key that
-- KMS unwraps is given.
pub mod Laws
pub mod Rotation
use Prim.Native.Char.{Char, code}
use Prim.Native.String
use db_backup.Prelude.{
  ℕ, zero, suc, ◌+◌, Bool, true, false, not, ◌&&◌, ◌||◌, Option, none, some, List, [], ◌∷◌,
  if◌then◌else◌, leb, eqb, ◌==◌, Map, get, put,
}
use db_backup.Sync.Values.{◌<>◌}

-- the variables; those of the rotation are ENCRYPTION_KEY_V1, V2, … in their order
pub record Environment : Type 0 where
  pub encryption_key_primary : Option String.String
  pub encryption_key : Option String.String
  pub encryption_keys : List String.String
  pub has_wrapped_key : Bool

-- the keys in the order in which they were first set; no primary key while KMS is awaited
pub record KeyManager : Type 0 where
  pub keys : Map String.String
  pub primary_key_id : Option String.String
  pub awaiting_kms_unwrap : Bool

unfoldable pub is_hex : ℕ → Bool
is_hex c = (leb b'0' c && leb c b'9') || (leb b'a' c && leb c b'f') || (leb b'A' c && leb c b'F')

-- `/^[0-9a-fA-F]{n}$/`
unfoldable pub is_hex_text : ℕ → String.String → Bool
unfolding is_hex
is_hex_text zero String.[] = true
is_hex_text zero (String.◌∷◌ c text) = false
is_hex_text (suc n) String.[] = false
is_hex_text (suc n) (String.◌∷◌ c text) = is_hex (code c) && is_hex_text n text

-- `none` is the exception of a malformed key; a key stands for its text
unfoldable pub add_key :
    String.String → String.String → Map String.String → Option (Map String.String)
unfolding is_hex_text
add_key id key keys = if is_hex_text 64 key then some (put keys id key) else none

-- `if (key) this.addKey(id, key)`
unfoldable pub add_present :
    String.String → Option String.String → Map String.String → Option (Map String.String)
unfolding add_key
add_present id none keys = some keys
add_present id (some key) keys = if key == "" then some keys else add_key id key keys

-- the loop over the keys of the rotation, up to the first that is not set; the name of the index
unfoldable pub add_versions :
    (ℕ → String.String) → ℕ → List String.String → Map String.String → Option (Map String.String)
unfolding add_key
add_versions name index [] keys = some keys
add_versions name index (key ∷ rest) keys =
    if key == "" then some keys else elim (add_key ("v" <> name index) key keys) [
      | none ↦ none
      | some keys' ↦ add_versions name (index + 1) rest keys'
    ]

-- `this.keys.has('primary') ? 'primary' : first ?? 'legacy'`, for keys that are not empty
unfoldable pub primary_of : Map String.String → String.String
primary_of keys = elim (get keys "primary") [
  | some key ↦ "primary"
  | none ↦ elim keys [ [] ↦ "legacy" | ◌∷◌ first rest ↦ first.0 ]
]

unfoldable pub environment_keys : (ℕ → String.String) → Environment → Option (Map String.String)
unfolding add_present add_versions
environment_keys name env = elim (add_present "primary" env.encryption_key_primary []) [
  | none ↦ none
  | some keys ↦ elim (add_present "legacy" env.encryption_key keys) [
    | none ↦ none
    | some keys' ↦ add_versions name 1 env.encryption_keys keys'
  ]
]

-- the manager of the keys; without a key there is none
unfoldable pub manager_of : Map String.String → Option KeyManager
unfolding primary_of
manager_of [] = none
manager_of (first ∷ rest) = some (record {
  keys = first ∷ rest;
  primary_key_id = some (primary_of (first ∷ rest));
  awaiting_kms_unwrap = false;
})

-- `none` is an exception
unfoldable pub load_keys : (ℕ → String.String) → Environment → Option KeyManager
unfolding environment_keys manager_of
load_keys name env = elim (environment_keys name env) [
  | none ↦ none
  | some keys ↦
      if env.has_wrapped_key
      then some (record { keys = keys; primary_key_id = none; awaiting_kms_unwrap = true })
      else manager_of keys
]

-- initializeFromKms, with the key that KMS unwraps, as its text
unfoldable pub initialize_from_kms : String.String → KeyManager → Option KeyManager
unfolding add_key
initialize_from_kms key m =
    if m.awaiting_kms_unwrap
    then elim (add_key "kms" key m.keys) [
      | none ↦ none
      | some keys ↦
          some (record { keys = keys; primary_key_id = some "kms"; awaiting_kms_unwrap = false })
    ]
    else some m

-- the id and the key of getPrimaryKey
unfoldable pub get_primary_key : KeyManager → Option (String.String × String.String)
get_primary_key m = if m.awaiting_kms_unwrap then none else elim m.primary_key_id [
  | none ↦ none
  | some id ↦ elim (get m.keys id) [ none ↦ none | some key ↦ some (id, key) ]
]

abbrev pub is_colon : Char → Bool
is_colon c = eqb (code c) b':'

-- `text.split(':')`: the part before the first colon, and what follows the colon, if there is one
unfoldable pub before_colon : String.String → String.String
before_colon String.[] = ""
before_colon (String.◌∷◌ c text) = if is_colon c then "" else String.◌∷◌ c (before_colon text)

unfoldable pub after_colon : String.String → Option String.String
after_colon String.[] = none
after_colon (String.◌∷◌ c text) = if is_colon c then some text else after_colon text

-- encryptWithKey with its random bytes, and the two forms of decryption
pub record Envelope : Type 0 where
  pub seal : (key plain : String.String) → String.String
  pub unseal : (key sealed : String.String) → Option String.String
  pub unseal_legacy : (key sealed : String.String) → Option String.String

unfoldable pub encrypt : Envelope → KeyManager → String.String → Option String.String
unfolding get_primary_key
encrypt box m plain = elim (get_primary_key m) [
  | none ↦ none
  | some p ↦ some (p.0 <> ":" <> box.seal p.1 plain)
]

unfoldable pub decrypt_legacy : Envelope → KeyManager → String.String → Option String.String
decrypt_legacy box m text = elim (get m.keys "legacy") [
  | none ↦ none
  | some key ↦ box.unseal_legacy key text
]

unfoldable pub decrypt_version :
    Envelope → KeyManager → String.String → String.String → String.String → Option String.String
unfolding decrypt_legacy
decrypt_version box m text version sealed =
    if sealed == ""
    then decrypt_legacy box m text
    else elim (get m.keys version) [ none ↦ none | some key ↦ box.unseal key sealed ]

unfoldable pub decrypt : Envelope → KeyManager → String.String → Option String.String
unfolding before_colon after_colon decrypt_version
decrypt box m text = elim (after_colon text) [
  | none ↦ decrypt_legacy box m text
  | some rest ↦ decrypt_version box m text (before_colon text) (before_colon rest)
]

abbrev pub is_version : Option String.String → String.String → Bool
is_version none version = false
is_version (some id) version = id == version

unfoldable pub needs_re_encryption : KeyManager → String.String → Bool
unfolding before_colon
needs_re_encryption m text = not (is_version m.primary_key_id (before_colon text))
