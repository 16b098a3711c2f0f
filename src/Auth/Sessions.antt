-- ===== src/Auth/Sessions.antt =====
-- The sessions of an account: server/src/middleware/auth.middleware.ts,
-- server/src/services/token.service.ts, the session handlers of
-- server/src/controllers/auth.controller.ts and setUserStatus of
-- server/src/controllers/admin.controller.ts, over the password sign-in of Login. A handler is one
-- step. JSON Web Tokens, hashes, bcrypt, random ids and the calendar are parameters; the cookie, the
-- audit rows and the mails of these handlers are not modelled.
pub mod Signing
pub mod Revoking
pub mod Passkeys
pub mod Reach
pub mod Moves
pub mod Rows
pub mod Opened
pub mod Requests
pub mod PasskeyRequests
pub mod Granted
pub mod Laws
pub mod Ended
pub mod CoolDown
pub mod Refreshed
pub mod Spent
pub mod Between
use db_backup.Prelude.{
  ℕ, suc, ◌+◌, ◌-◌, String, ◌==◌, Bool, true, false, not, ◌&&◌, ◌||◌, Option, none, some, List, [],
  ◌∷◌, ltb, eqb, if◌then◌else◌, select, any, Map, get, put,
}
use db_backup.Auth.Lockout.{Env}
use db_backup.Auth.Login.{User, Request, AuthState, signed_in, login}

-- a row of the users, with the columns that sign-ins read under `user`
pub record Account : Type 0 where
  pub user : User
  pub token_version : ℕ

pub record RefreshRow : Type 0 where
  pub row_id : String
  pub token_hash : String
  pub user_id : String
  pub expires_at : ℕ

pub record Passkey : Type 0 where
  pub passkey_id : String
  pub user_id : String
  pub credential_id : String
  pub counter : ℕ

pub record Challenge : Type 0 where
  pub challenge : String
  pub expires_at : ℕ

-- The tables of the users, the refresh tokens and the passkeys, the maps of the lockout service, and
-- the challenges of the passkey service: by user, and by their own text.
pub record Accounts : Type 0 where
  pub users : Map Account
  pub refresh_tokens : List RefreshRow
  pub passkeys : List Passkey
  pub auth : AuthState
  pub reg_challenges : Map Challenge
  pub auth_challenges : Map ℕ

pub record TokenPayload : Type 0 where
  pub user_id : String
  pub email : String
  pub token_version : Option ℕ

-- the libraries: tokens are signed and verified at a time, a refresh token with an id of its own
pub record Issuer : Type 0 where
  pub sign_access : TokenPayload → ℕ → String
  pub verify_access : String → ℕ → Option TokenPayload
  pub sign_refresh : TokenPayload → String → ℕ → String
  pub verify_refresh : String → ℕ → Option TokenPayload
  pub sha256 : String → String
  pub compare : String → String → Bool
  pub bcrypt : String → String
  pub in_a_week : ℕ → ℕ

-- the time of a request, and the ids that it draws
pub record Moment : Type 0 where
  pub now : ℕ
  pub id : String
  pub jwt_id : String

pub record Grant : Type 0 where
  pub user_id : String
  pub access_token : String
  pub refresh_token : String

-- an answer, or the status of a refusal
pub data Handling (A : Type 0) : Type 0 where
  answered : A → Handling A
  rejected : (status : ℕ) → Handling A

-- `payload.tokenVersion ?? 0`
abbrev pub version_of : Option ℕ → ℕ
version_of none = 0
version_of (some n) = n

-- the user of a request, if it is let in
unfoldable pub authenticate : Issuer → ℕ → Option String → Accounts → Option String
authenticate issuer now none w = none
authenticate issuer now (some token) w = elim (issuer.verify_access token now) [
  | none ↦ none
  | some p ↦ elim (get w.users p.user_id) [
    | none ↦ none
    | some a ↦
        if not a.user.is_active
        then none
        else if eqb (version_of p.token_version) a.token_version
        then some p.user_id
        else none
  ]
]

-- `prisma.refreshToken.create`: the hash is unique
unfoldable pub create_token : RefreshRow → List RefreshRow → Option (List RefreshRow)
create_token row rows =
    if any (λ r. r.token_hash == row.token_hash) rows then none else some (row ∷ rows)

-- the row of a new refresh token of the user
abbrev pub row_of : Issuer → Moment → String → String → RefreshRow
row_of issuer m user_id token = record {
  row_id = m.id;
  token_hash = issuer.sha256 token;
  user_id = user_id;
  expires_at = issuer.in_a_week m.now;
}

-- the two tokens for the account, and the row of the second
unfoldable pub open_session :
    Issuer → Moment → String → Account → Accounts → Accounts × Handling Grant
unfolding create_token
open_session issuer m user_id a w =
    let email = a.user.email in
    let access =
      issuer.sign_access
        (record { user_id = user_id; email = email; token_version = some a.token_version }) m.now in
    let refresh =
      issuer.sign_refresh (record { user_id = user_id; email = email; token_version = none })
        m.jwt_id m.now in
    elim (create_token (row_of issuer m user_id refresh) w.refresh_tokens) [
      | none ↦ (w, rejected 409)
      | some rows ↦ (
        record w { refresh_tokens = rows },
        answered (record { user_id = user_id; access_token = access; refresh_token = refresh }),
      )
    ]

-- `prisma.$transaction`: a refusal leaves the tables as they were
abbrev pub committed : {A : Type 0} → Accounts → Accounts × Handling A → Accounts × Handling A
committed w (v, answered a) = (v, answered a)
committed w (v, rejected status) = (w, rejected status)
