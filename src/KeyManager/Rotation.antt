-- ===== src/KeyManager/Rotation.antt =====
-- What survives a change of the keys.
use text.Mathlib.TextLemmas.{cons-append, head-eq_of_cons-eq}
use Prim.Native.Char.{code}
use Prim.Native.String
use db_backup.Prelude.{
  ℕ, ◌≡◌, refl, ap, ◌∙◌, sym, subst, false, Option, none, some, [], ◌∷◌, ◌==◌, Map, get, put,
  get-put, eq_iff, eq_refl, arith, Option-cases, Bool-cases, inl, inr, ◌⊎◌,
}
use db_backup.Sync.Values.{◌<>◌}
use db_backup.KeyManager.{
  Environment, KeyManager, add_present, primary_of, environment_keys, manager_of, load_keys,
  get_primary_key, Envelope, encrypt, decrypt, needs_re_encryption,
}
use db_backup.KeyManager.Laws.{
  has_colon, Opens, decrypt-prefix, IsReady, primary_of-found, Plain, put-Plain, get-Plain, added,
  environment_keys-keeps, split-prefix,
}

manager_of-IsReady :
    (keys : Map String.String) (m : KeyManager)
    → manager_of keys ≡ some m
    → (m.keys ≡ keys) × IsReady m
unfolding manager_of
manager_of-IsReady [] m h = absurd (ground (arith, h))
manager_of-IsReady (first ∷ rest) m h =
    let (key, found) = primary_of-found first rest in
    let same : record {
      keys = first ∷ rest;
      primary_key_id = some (primary_of (first ∷ rest));
      awaiting_kms_unwrap = false;
    }
        ≡ m =
      ground (arith, h) in
    subst (λ (n : KeyManager). (n.keys ≡ first ∷ rest) × IsReady n) same
      (refl, (primary_of (first ∷ rest), key, refl, refl, found))

-- a manager without KMS is that of the keys of the environment
load_keys-IsReady :
    (name : ℕ → String.String) (env : Environment) (m : KeyManager)
    → env.has_wrapped_key ≡ false
    → load_keys name env ≡ some m
    → (environment_keys name env ≡ some m.keys) × IsReady m
unfolding load_keys
load_keys-IsReady name env m alone h = elim (Option-cases (environment_keys name env)) [
  | inl malformed ↦ absurd (ground (arith, malformed, h))
  | inr (keys, found) ↦
      let (same, ready) = manager_of-IsReady keys m (ground (arith, found, alone, h)) in
      (found ∙ ap (λ k. some k) (sym same), ready)
]

-- the first key that is looked for
added_primary :
    (given : Option String.String) (first : Map String.String)
    → add_present "primary" given [] ≡ some first
    → (first ≡ []) ⊎ ((key : String.String) × (given ≡ some key) × (first ≡ ("primary", key) ∷ []))
unfolding add_present put
added_primary none first h = inl (ground (arith, h))
added_primary (some key) first h = elim (Bool-cases (key == "")) [
  | inl unset ↦ inl (ground (arith, unset, h))
  | inr set ↦ inr (key, refl, added "primary" key [] first (ground (arith, set, h)))
]

-- the keys that are loaded have ids without a colon
environment_keys-Plain :
    (name : ℕ → String.String) (env : Environment) (keys : Map String.String)
    → ((n : ℕ) → has_colon ("v" <> name n) ≡ false)
    → environment_keys name env ≡ some keys
    → Plain keys
environment_keys-Plain name env keys plain h =
    environment_keys-keeps Plain name (λ k key p. put-Plain k "legacy" key refl p)
      (λ k n key p. put-Plain k ("v" <> name n) key (plain n) p) env keys
      (λ first e. elim (added_primary env.encryption_key_primary first e) [
        | inl nothing ↦ subst Plain (sym nothing) tt
        | inr (key, given, one) ↦ subst Plain (sym one) (refl, tt)
      ])
      h

-- What a manager that is loaded without KMS encrypts carries the id of its primary key, and every
-- manager that has the same key under that id decrypts it, whatever else its keys are; the manager
-- itself does not ask for a new encryption. The envelope has no colon and opens under the key that
-- sealed it, and the names of the rotated keys have no colon.
pub decrypt-encrypt :
    (box : Envelope) (name : ℕ → String.String) (env : Environment) (m m' : KeyManager)
    (plain : String.String)
    → Opens box plain
    → ((n : ℕ) → has_colon ("v" <> name n) ≡ false)
    → env.has_wrapped_key ≡ false
    → load_keys name env ≡ some m
    → ((id : String.String) → m.primary_key_id ≡ some id → get m'.keys id ≡ get m.keys id)
    → (text : String.String) × (encrypt box m plain ≡ some text)
      × (needs_re_encryption m text ≡ false)
      × (decrypt box m' text ≡ some plain)
unfolding encrypt get_primary_key needs_re_encryption
decrypt-encrypt box name env m m' plain opens plain_names alone loaded keeps =
    let (from, (id, key, awake, primary, found)) = load_keys-IsReady name env m alone loaded in
    let plain_id =
      get-Plain m.keys id key (environment_keys-Plain name env m.keys plain_names from) found in
    let version = (split-prefix id (box.seal key plain) plain_id).0 in
    (
      id <> ":" <> box.seal key plain,
      ground (arith, awake, primary, found),
      ground (arith, primary, version, eq_refl id),
      decrypt-prefix box m' id key plain key opens plain_id (keeps id primary ∙ found)
          ∙ (opens key).2,
    )

version-ne : (n : String.String) → (("v" <> n) == "primary") ≡ false
version-ne n = elim (Bool-cases (("v" <> n) == "primary")) [
  | inr differs ↦ differs
  | inl same ↦
      let heads : String.◌∷◌ "v" ("" <> n) ≡ String.◌∷◌ "p" "rimary" =
        sym (cons-append "v" "" n) ∙ (eq_iff ("v" <> n) "primary").0 same in
      absurd (omega (arith, ap code (head-eq_of_cons-eq heads)))
]

abbrev HasPrimary : String.String → Map String.String → Type 0
HasPrimary key keys = get keys "primary" ≡ some key

-- the key of ENCRYPTION_KEY_PRIMARY stands under "primary", whatever else is set
environment_keys-HasPrimary :
    (name : ℕ → String.String) (env : Environment) (keys : Map String.String) (key : String.String)
    → env.encryption_key_primary ≡ some key
    → (key == "") ≡ false
    → environment_keys name env ≡ some keys
    → HasPrimary key keys
unfolding add_present
environment_keys-HasPrimary name env keys key given set h =
    environment_keys-keeps (HasPrimary key) name
      (λ k other p. get-put k "legacy" "primary" other ∙ p)
      (λ k n other p.
        ground (arith, get-put k ("v" <> name n) "primary" other, version-ne (name n), p))
      env keys
      (λ first e.
        let one : first ≡ put [] "primary" key =
          added "primary" key [] first (ground (arith, given, set, e)) in
        subst (HasPrimary key) (sym one) (get-put [] "primary" "primary" key))
      h

primary_of-primary :
    (keys : Map String.String) (m : KeyManager) (key : String.String)
    → HasPrimary key keys
    → manager_of keys ≡ some m
    → m.primary_key_id ≡ some "primary"
unfolding manager_of primary_of
primary_of-primary [] m key p h = absurd (ground (arith, h))
primary_of-primary (first ∷ rest) m key p h = ground (arith, p, h)

-- A new ENCRYPTION_KEY_PRIMARY takes over the ciphertexts of the old one: without KMS, what was
-- encrypted under the old key is decrypted with the new one, even if the old key is loaded as a rotated
-- key. The envelope has no colon.
pub decrypt-rotated :
    (box : Envelope) (name : ℕ → String.String) (env env' : Environment) (m m' : KeyManager)
    (old new plain text : String.String)
    → Opens box plain
    → env.has_wrapped_key ≡ false
    → env'.has_wrapped_key ≡ false
    → env.encryption_key_primary ≡ some old
    → env'.encryption_key_primary ≡ some new
    → (old == "") ≡ false
    → (new == "") ≡ false
    → load_keys name env ≡ some m
    → load_keys name env' ≡ some m'
    → encrypt box m plain ≡ some text
    → decrypt box m' text ≡ box.unseal new (box.seal old plain)
unfolding encrypt get_primary_key load_keys
decrypt-rotated box name env env' m m' old new plain text opens alone alone' given given' set set'
      loaded loaded' encrypted =
    let (from, ready) = load_keys-IsReady name env m alone loaded in
    let (from', ready') = load_keys-IsReady name env' m' alone' loaded' in
    let old_key = environment_keys-HasPrimary name env m.keys old given set from in
    let new_key = environment_keys-HasPrimary name env' m'.keys new given' set' from' in
    let primary = primary_of-primary m.keys m old old_key (ground (arith, from, alone, loaded)) in
    let whole : text ≡ "primary" <> ":" <> box.seal old plain =
      ground (arith, encrypted, ready.2, primary, old_key) in
    rw whole (decrypt-prefix box m' "primary" new plain old opens refl new_key)
