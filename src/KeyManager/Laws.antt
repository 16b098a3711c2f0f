-- ===== src/KeyManager/Laws.antt =====
-- What is encrypted under one set of keys, and decrypted under a later one.
use text.Mathlib.TextLemmas.{nil-append, cons-append}
use Prim.Native.String
use db_backup.Prelude.{
  ℕ, ◌+◌, ◌≡◌, refl, ap, ◌∙◌, sym, subst, inl, inr, Bool, false, ◌||◌, Option, none, some, List, [],
  ◌∷◌, ◌==◌, Map, get, put, eq_iff, eq_refl, arith, Option-cases, Bool-cases,
}
use db_backup.Sync.Values.{◌<>◌}
use db_backup.KeyManager.{
  Environment, KeyManager, add_key, add_present, add_versions, primary_of, environment_keys,
  is_colon, before_colon, after_colon, Envelope, decrypt, decrypt_version,
}

abbrev pub has_colon : String.String → Bool
has_colon String.[] = false
has_colon (String.◌∷◌ c text) = is_colon c || has_colon text

before_colon-none : (text : String.String) → has_colon text ≡ false → before_colon text ≡ text
unfolding before_colon
before_colon-none String.[] h = refl
before_colon-none (String.◌∷◌ c text) h = ground (arith, h, before_colon-none text)

colon-append : (rest : String.String) → ":" <> rest ≡ String.◌∷◌ ":" rest
colon-append rest = cons-append ":" "" rest ∙ ap (λ t. String.◌∷◌ ":" t) (nil-append rest)

pub split-prefix :
    (id rest : String.String)
    → has_colon id ≡ false
    → (before_colon (id <> ":" <> rest) ≡ id) × (after_colon (id <> ":" <> rest) ≡ some rest)
unfolding before_colon after_colon
split-prefix String.[] rest h = rw (nil-append (":" <> rest), colon-append rest) (refl, refl)
split-prefix (String.◌∷◌ c id) rest h =
    let tail = split-prefix id rest in
    rw (cons-append c id (":" <> rest)) (ground (arith, h, tail), ground (arith, h, tail))

-- what the envelope does with a text: no colon in a ciphertext, and a key opens what it sealed
abbrev pub Opens : Envelope → String.String → Type 0
Opens box plain =
    (key : String.String)
    → (has_colon (box.seal key plain) ≡ false)
      × ((box.seal key plain == "") ≡ false)
      × (box.unseal key (box.seal key plain) ≡ some plain)

-- the key under the id that a ciphertext carries is the one that decrypts it
pub decrypt-prefix :
    (box : Envelope) (m : KeyManager) (id key plain sealing : String.String)
    → Opens box plain
    → has_colon id ≡ false
    → get m.keys id ≡ some key
    → decrypt box m (id <> ":" <> box.seal sealing plain) ≡ box.unseal key (box.seal sealing plain)
unfolding decrypt decrypt_version
decrypt-prefix box m id key plain sealing opens plain_id found =
    let sealed = box.seal sealing plain in
    let parts = split-prefix id sealed plain_id in
    let whole = before_colon-none sealed (opens sealing).0 in
    ground (arith, parts, whole, found, (opens sealing).1)

-- a manager from which the primary key can be had
abbrev pub IsReady : KeyManager → Type 0
IsReady m =
    (id : String.String) × (key : String.String) × (m.awaiting_kms_unwrap ≡ false)
    × (m.primary_key_id ≡ some id)
    × (get m.keys id ≡ some key)

get-first :
    (first : String.String × String.String) (rest : Map String.String)
    → get (first ∷ rest) first.0 ≡ some first.1
unfolding get
get-first (id, key) rest = ground (arith, eq_refl id)

pub primary_of-found :
    (first : String.String × String.String) (rest : Map String.String)
    → (key : String.String) × (get (first ∷ rest) (primary_of (first ∷ rest)) ≡ some key)
unfolding primary_of
primary_of-found first rest = elim (Option-cases (get (first ∷ rest) "primary")) [
  | inl missing ↦
      let e : primary_of (first ∷ rest) ≡ first.0 = ground (arith, missing) in
      (first.1, subst (λ i. get (first ∷ rest) i ≡ some first.1) (sym e) (get-first first rest))
  | inr (key, found) ↦
      let e : primary_of (first ∷ rest) ≡ "primary" = ground (arith, found) in
      (key, subst (λ i. get (first ∷ rest) i ≡ some key) (sym e) found)
]

-- ids without a colon
abbrev pub Plain : Map String.String → Type 0
Plain [] = Unit
Plain (k ∷ keys) = (has_colon k.0 ≡ false) × Plain keys

pub put-Plain :
    (keys : Map String.String) (id key : String.String)
    → has_colon id ≡ false
    → Plain keys
    → Plain (put keys id key)
unfolding put
put-Plain [] id key h p = (h, tt)
put-Plain ((j, v) ∷ keys) id key h (k, p) = elim (Bool-cases (j == id)) [
  | inl same ↦ rw same (k, p)
  | inr other ↦ rw other (k, put-Plain keys id key h p)
]

pub get-Plain :
    (keys : Map String.String) (id key : String.String)
    → Plain keys
    → get keys id ≡ some key
    → has_colon id ≡ false
unfolding get
get-Plain [] id key p h = absurd (ground (arith, h))
get-Plain ((j, v) ∷ keys) id key (k, p) h = elim (Bool-cases (j == id)) [
  | inl same ↦ ground (arith, same, eq_iff j id, k)
  | inr other ↦ get-Plain keys id key p (ground (arith, other, h))
]

-- what an added key changes
pub added :
    (id key : String.String) (keys keys' : Map String.String)
    → add_key id key keys ≡ some keys'
    → keys' ≡ put keys id key
unfolding add_key
added id key keys keys' h = ground (arith, h)

-- What holds of the keys before one is added and is kept by an addition holds of all that are loaded.
module _ (P : Map String.String → Type 0) (name : ℕ → String.String)
    (legacy : (keys : Map String.String) (key : String.String) → P keys → P (put keys "legacy" key))
    (version : (keys : Map String.String) (n : ℕ) (key : String.String)
      → P keys
      → P (put keys ("v" <> name n) key)) where
  add_versions-keeps :
      (n : ℕ) (rest : List String.String) (keys keys' : Map String.String)
      → P keys
      → add_versions name n rest keys ≡ some keys'
      → P keys'
  unfolding add_versions
  add_versions-keeps n [] keys keys' p h = subst P (ground (arith, h)) p
  add_versions-keeps n (key ∷ rest) keys keys' p h = elim (Bool-cases (key == "")) [
    | inl ends ↦ subst P (ground (arith, ends, h)) p
    | inr set ↦ elim (Option-cases (add_key ("v" <> name n) key keys)) [
      | inl malformed ↦ absurd (ground (arith, set, malformed, h))
      | inr (more, done) ↦
          add_versions-keeps (n + 1) rest more keys'
            (subst P (sym (added ("v" <> name n) key keys more done)) (version keys n key p))
            (ground (arith, set, done, h))
    ]
  ]

  add_legacy-keeps :
      (given : Option String.String) (keys keys' : Map String.String)
      → P keys
      → add_present "legacy" given keys ≡ some keys'
      → P keys'
  unfolding add_present
  add_legacy-keeps none keys keys' p h = subst P (ground (arith, h)) p
  add_legacy-keeps (some key) keys keys' p h = elim (Bool-cases (key == "")) [
    | inl unset ↦ subst P (ground (arith, unset, h)) p
    | inr set ↦
        subst P (sym (added "legacy" key keys keys' (ground (arith, set, h)))) (legacy keys key p)
  ]

  pub environment_keys-keeps :
      (env : Environment) (keys : Map String.String)
      → ((first : Map String.String)
          → add_present "primary" env.encryption_key_primary [] ≡ some first
          → P first)
      → environment_keys name env ≡ some keys
      → P keys
  unfolding environment_keys
  environment_keys-keeps env keys start h =
      elim (Option-cases (add_present "primary" env.encryption_key_primary [])) [
        | inl malformed ↦ absurd (ground (arith, malformed, h))
        | inr (first, one) ↦ elim (Option-cases (add_present "legacy" env.encryption_key first)) [
          | inl malformed ↦ absurd (ground (arith, one, malformed, h))
          | inr (second, two) ↦
              add_versions-keeps 1 env.encryption_keys second keys
                (add_legacy-keeps env.encryption_key first second (start first one) two)
                (ground (arith, one, two, h))
        ]
      ]
