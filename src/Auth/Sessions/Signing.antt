-- ===== src/Auth/Sessions/Signing.antt =====
-- login, register, refreshToken and logout of server/src/controllers/auth.controller.ts.
use db_backup.Prelude.{
  String, ◌==◌, Bool, true, false, not, Option, none, some, List, [], ◌∷◌, ltb, if◌then◌else◌,
  select, Map, get,
}
use db_backup.Auth.Lockout.{Env}
use db_backup.Auth.Login.{
  User, Request, Response, signed_in, address_locked, invalid_credentials, passkey_only, cool_down,
  login,
}
use db_backup.Auth.Sessions.{
  Account, RefreshRow, Accounts, Issuer, Moment, Grant, Handling, answered, rejected, open_session,
  committed,
}

-- the id of the first account with the address, which is unique
unfoldable pub find_by_email : Map Account → String → Option String
find_by_email [] email = none
find_by_email ((id, a) ∷ users) email =
    if a.user.email == email then some id else find_by_email users email

-- the account with its id
unfoldable pub find_account : Map Account → String → Option (String × Account)
unfolding find_by_email
find_account users email = elim (find_by_email users email) [
  | none ↦ none
  | some id ↦ elim (get users id) [ none ↦ none | some a ↦ some (id, a) ]
]

abbrev pub user_of : Option (String × Account) → Option User
user_of none = none
user_of (some found) = some found.1.user

-- the answer to a request whose password sign-in was decided
unfoldable pub respond : Issuer → Request → Moment → Accounts → Response → Accounts × Handling Grant
unfolding find_account open_session
respond issuer req m w (signed_in email) = elim (find_account w.users req.email) [
  | none ↦ (w, rejected 401)
  | some found ↦ open_session issuer m found.0 found.1 w
]
respond issuer req m w (address_locked minutes) = (w, rejected 429)
respond issuer req m w invalid_credentials = (w, rejected 401)
respond issuer req m w passkey_only = (w, rejected 403)
respond issuer req m w (cool_down ms) = (w, rejected 423)

-- the handler `login`: the decision of Login, and a session after a success
unfoldable pub sign_in : Issuer → Env → Request → Moment → Accounts → Accounts × Handling Grant
unfolding respond
sign_in issuer env req m w =
    let reply =
      login env (λ email. user_of (find_account w.users email)) issuer.compare req m.now w.auth in
    respond issuer req m (record w { auth = reply.state }) reply.response

abbrev pub has_users : Map Account → Bool
has_users [] = false
has_users (first ∷ rest) = true

abbrev pub first_account : Issuer → String → String → Account
first_account issuer email password = record {
  user = record {
    email = email;
    password_hash = issuer.bcrypt password;
    is_active = true;
    password_login_disabled = false;
    login_locked_until = none;
  };
  token_version = 0;
}

-- the first account only
unfoldable pub register : Issuer → String → String → Moment → Accounts → Accounts × Handling Grant
unfolding open_session
register issuer email password m w =
    let a = first_account issuer email password in
    if has_users w.users
    then (w, rejected 403)
    else open_session issuer m m.id a (record w { users = (m.id, a) ∷ [] })

-- `delete where id`
abbrev pub without : String → List RefreshRow → List RefreshRow
without id = select (λ r. not (r.row_id == id))

unfoldable pub find_row : String → List RefreshRow → Option RefreshRow
find_row hash [] = none
find_row hash (r ∷ rows) = if r.token_hash == hash then some r else find_row hash rows

-- One transaction. A token that cannot be verified is an error of the library, with the status 500.
unfoldable pub refresh : Issuer → String → Moment → Accounts → Accounts × Handling Grant
unfolding find_row
refresh issuer token m w = elim (find_row (issuer.sha256 token) w.refresh_tokens) [
  | none ↦ (w, rejected 401)
  | some row ↦
      if ltb row.expires_at m.now
      then (w, rejected 401)
      else elim (issuer.verify_refresh token m.now) [
        | none ↦ (w, rejected 500)
        | some p ↦ elim (get w.users p.user_id) [
          | none ↦ (w, rejected 401)
          | some a ↦
              if not a.user.is_active
              then (w, rejected 401)
              else committed w (
                  open_session issuer m p.user_id a
                    (record w { refresh_tokens = without row.row_id w.refresh_tokens }))
        ]
      ]
]

-- the handler `refreshToken`, with or without the header against forged requests
unfoldable pub refresh_token :
    Issuer → Bool → String → Moment → Accounts → Accounts × Handling Grant
unfolding refresh
refresh_token issuer csrf token m w =
    if not csrf
    then (w, rejected 403)
    else if token == ""
    then (w, rejected 400)
    else refresh issuer token m w

unfoldable pub logout : Issuer → Bool → String → Accounts → Accounts × Handling Unit
logout issuer csrf token w = if not csrf then (w, rejected 403) else (
  record w {
    refresh_tokens = select (λ r. not (r.token_hash == issuer.sha256 token)) w.refresh_tokens;
  },
  answered tt,
)
