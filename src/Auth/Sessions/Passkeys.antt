-- ===== src/Auth/Sessions/Passkeys.antt =====
-- server/src/services/passkey.service.ts and the passkey handlers of
-- server/src/controllers/auth.controller.ts. What the WebAuthn library makes of a browser's response
-- is a parameter.
use db_backup.Prelude.{
  ℕ, ◌+◌, String, ◌==◌, Bool, false, not, ◌&&◌, ◌||◌, Option, none, some, List, [], ◌∷◌, leb, ltb,
  eqb, if◌then◌else◌, select, any, count, map, Map, get, put, remove,
}
use db_backup.Auth.Lockout.{clear_login_failures}
use db_backup.Auth.Login.{login_lock_remaining}
use db_backup.Auth.Sessions.{
  Account, Passkey, Challenge, Accounts, Issuer, Moment, Grant, Handling, answered, rejected,
  open_session,
}

-- A response to a registration, for the challenge, is a credential with its counter; a response to
-- a sign-in has a challenge and a credential, and answers the new counter of the passkey.
pub record Library : Type 0 where
  pub registers : String → String → Option (String × ℕ)
  pub challenge_of : String → String
  pub credential_of : String → String
  pub asserts : String → String → Passkey → Option ℕ

abbrev pub challenge_ttl_ms : ℕ
challenge_ttl_ms = 300000

unfoldable pub sweep_reg : ℕ → Map Challenge → Map Challenge
sweep_reg now = select (λ entry. not (ltb entry.1.expires_at now))

unfoldable pub sweep_auth : ℕ → Map ℕ → Map ℕ
sweep_auth now = select (λ entry. not (ltb entry.1 now))

abbrev pub swept : ℕ → Accounts → Accounts
swept now w = record w {
  reg_challenges = sweep_reg now w.reg_challenges;
  auth_challenges = sweep_auth now w.auth_challenges;
}

-- `challenge` is the one that the library made up
unfoldable pub create_registration_challenge : String → String → ℕ → Accounts → Accounts
unfolding sweep_reg sweep_auth
create_registration_challenge id challenge now w = record (swept now w) {
  reg_challenges =
      put (sweep_reg now w.reg_challenges) id
        (record { challenge = challenge; expires_at = now + challenge_ttl_ms });
}

unfoldable pub create_authentication_challenge : String → ℕ → Accounts → Accounts
unfolding sweep_reg sweep_auth
create_authentication_challenge challenge now w = record (swept now w) {
  auth_challenges = put (sweep_auth now w.auth_challenges) challenge (now + challenge_ttl_ms);
}

-- the handler `passkeyRegisterVerify`; the credential is unique
unfoldable pub verify_registration :
    Library → String → String → Moment → Accounts → Accounts × Handling String
verify_registration library id response m w = elim (get w.reg_challenges id) [
  | none ↦ (w, rejected 400)
  | some stored ↦
      if ltb stored.expires_at m.now
      then (w, rejected 400)
      else let v = record w { reg_challenges = remove w.reg_challenges id } in
        elim (library.registers response stored.challenge) [
          | none ↦ (v, rejected 400)
          | some found ↦
              if any (λ p. p.credential_id == found.0) v.passkeys then (v, rejected 409) else (
                record v {
                  passkeys =
                      record {
                        passkey_id = m.id;
                        user_id = id;
                        credential_id = found.0;
                        counter = found.1;
                      }
                      ∷ v.passkeys;
                },
                answered found.0,
              )
        ]
]

unfoldable pub find_credential : String → List Passkey → Option Passkey
find_credential credential [] = none
find_credential credential (p ∷ ps) =
    if p.credential_id == credential then some p else find_credential credential ps

unfoldable pub with_counter : String → ℕ → List Passkey → List Passkey
with_counter id counter =
    map (λ p. if p.passkey_id == id then record p { counter = counter } else p)

-- the user of a passkey that answers its challenge
unfoldable pub verify_authentication : Library → String → ℕ → Accounts → Accounts × Handling String
unfolding find_credential with_counter
verify_authentication library response now w =
    let challenge = library.challenge_of response in
    elim (get w.auth_challenges challenge) [
      | none ↦ (w, rejected 401)
      | some expected ↦
          if eqb expected 0 || ltb expected now
          then (w, rejected 401)
          else let v = record w { auth_challenges = remove w.auth_challenges challenge } in
            elim (find_credential (library.credential_of response) v.passkeys) [
              | none ↦ (v, rejected 401)
              | some p ↦ elim (get v.users p.user_id) [
                | none ↦ (v, rejected 401)
                | some a ↦
                    if not a.user.is_active
                    then (v, rejected 401)
                    else elim (library.asserts response challenge p) [
                      | none ↦ (v, rejected 401)
                      | some counter ↦ (
                        record v { passkeys = with_counter p.passkey_id counter v.passkeys },
                        answered p.user_id,
                      )
                    ]
              ]
            ]
    ]

-- the user of `passkeyLoginVerify`, after the passkey
unfoldable pub enter :
    Issuer → Option String → Moment → String → Accounts → Accounts × Handling Grant
unfolding open_session login_lock_remaining
enter issuer ip m id w = elim (get w.users id) [
  | none ↦ (w, rejected 401)
  | some a ↦
      let v = record w { auth = record w.auth { locks = clear_login_failures w.auth.locks ip } } in
      if ltb 0 (login_lock_remaining a.user.login_locked_until m.now)
      then (v, rejected 423)
      else open_session issuer m id a v
]

abbrev pub entered :
    Issuer → Option String → Moment → Accounts × Handling String → Accounts × Handling Grant
entered issuer ip m (v, rejected status) = (v, rejected status)
entered issuer ip m (v, answered id) = enter issuer ip m id v

unfoldable pub passkey_login_verify :
    Issuer → Library → Option String → String → Moment → Accounts → Accounts × Handling Grant
unfolding verify_authentication
passkey_login_verify issuer library ip response m w =
    entered issuer ip m (verify_authentication library response m.now w)

-- the first row that passes the test
unfoldable pub remove_first : (Passkey → Bool) → List Passkey → List Passkey
remove_first p [] = []
remove_first p (x ∷ xs) = if p x then xs else x ∷ remove_first p xs

abbrev pub owned_by : String → Passkey → Bool
owned_by id p = p.user_id == id

abbrev pub is_passkey_only : Option Account → Bool
is_passkey_only none = false
is_passkey_only (some a) = a.user.password_login_disabled

abbrev pub is_its : String → String → Passkey → Bool
is_its id passkey_id p = p.passkey_id == passkey_id && owned_by id p

-- the handler `passkeyDelete`, of the user's passkey with the id
unfoldable pub delete_passkey : String → String → Accounts → Accounts × Handling Unit
unfolding remove_first
delete_passkey id passkey_id w =
    if not (any (is_its id passkey_id) w.passkeys)
    then (w, rejected 404)
    else if is_passkey_only (get w.users id) && leb (count (owned_by id) w.passkeys) 1
    then (w, rejected 400)
    else (record w { passkeys = remove_first (is_its id passkey_id) w.passkeys }, answered tt)

unfoldable pub toggle_password_login : String → Bool → Accounts → Accounts × Handling Unit
toggle_password_login id disabled w =
    if disabled && eqb (count (owned_by id) w.passkeys) 0
    then (w, rejected 400)
    else elim (get w.users id) [
      | none ↦ (w, rejected 404)
      | some a ↦ (
        record w {
          users =
              put w.users id
                (record a { user = record a.user { password_login_disabled = disabled } });
        },
        answered tt,
      )
    ]
