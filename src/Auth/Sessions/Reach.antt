-- ===== src/Auth/Sessions/Reach.antt =====
-- What the requests of users and administrators lead to, one request at a time. A change of the
-- password is two steps, since other requests may come between its update and its deletion of the
-- refresh tokens.
use db_backup.Prelude.{ℕ, ◌≤◌, String, ◌≡◌, Bool, Option, some, [], get}
use db_backup.Auth.Lockout.{Env}
use db_backup.Auth.Login.{Request}
use db_backup.Auth.Sessions.{Account, Accounts, Issuer, Moment}
use db_backup.Auth.Sessions.Signing.{sign_in, register, refresh_token, logout}
use db_backup.Auth.Sessions.Revoking.{
  set_password, revoke_all_user_tokens, revoke_session, revoke_all_sessions, set_user_status,
}
use db_backup.Auth.Sessions.Passkeys.{
  Library, create_registration_challenge, create_authentication_challenge, verify_registration,
  passkey_login_verify, delete_passkey, toggle_password_login,
}

-- one request at a time `now`, of any user
pub data Step (issuer : Issuer) (lockdown_ms : ℕ) : ℕ → Accounts → Accounts → Type 0 where
  signs_in :
      (env : Env) (req : Request) (m : Moment) (w : Accounts)
      → Step issuer lockdown_ms m.now w (sign_in issuer env req m w).0
  registers :
      (email password : String) (m : Moment) (w : Accounts)
      → Step issuer lockdown_ms m.now w (register issuer email password m w).0
  refreshes :
      (csrf : Bool) (token : String) (m : Moment) (w : Accounts)
      → Step issuer lockdown_ms m.now w (refresh_token issuer csrf token m w).0
  logs_out :
      (csrf : Bool) (token : String) (now : ℕ) (w : Accounts)
      → Step issuer lockdown_ms now w (logout issuer csrf token w).0
  sets_password :
      (now : ℕ) (id password : String) (a : Account) (w : Accounts)
      → get w.users id ≡ some a
      → Step issuer lockdown_ms now w (set_password issuer lockdown_ms now id password a w)
  revokes_tokens :
      (now : ℕ) (id : String) (w : Accounts)
      → Step issuer lockdown_ms now w (revoke_all_user_tokens id w)
  revokes_one :
      (now : ℕ) (id row_id : String) (w : Accounts)
      → Step issuer lockdown_ms now w (revoke_session id row_id w).0
  revokes_all :
      (now : ℕ) (id : String) (w : Accounts)
      → Step issuer lockdown_ms now w (revoke_all_sessions id w).0
  sets_status :
      (now : ℕ) (admin id : String) (on : Bool) (w : Accounts)
      → Step issuer lockdown_ms now w (set_user_status admin id on w).0
  begins_registration :
      (now : ℕ) (id challenge : String) (w : Accounts)
      → Step issuer lockdown_ms now w (create_registration_challenge id challenge now w)
  begins_sign_in :
      (now : ℕ) (challenge : String) (w : Accounts)
      → Step issuer lockdown_ms now w (create_authentication_challenge challenge now w)
  adds_passkey :
      (library : Library) (id response : String) (m : Moment) (w : Accounts)
      → Step issuer lockdown_ms m.now w (verify_registration library id response m w).0
  uses_passkey :
      (library : Library) (ip : Option String) (response : String) (m : Moment) (w : Accounts)
      → Step issuer lockdown_ms m.now w (passkey_login_verify issuer library ip response m w).0
  deletes_passkey :
      (now : ℕ) (id passkey_id : String) (w : Accounts)
      → Step issuer lockdown_ms now w (delete_passkey id passkey_id w).0
  toggles :
      (now : ℕ) (id : String) (disabled : Bool) (w : Accounts)
      → Step issuer lockdown_ms now w (toggle_password_login id disabled w).0

-- the states that follow `w`, with the time of the last request, on a clock that is not set back
pub data Later (issuer : Issuer) (lockdown_ms : ℕ) (w : Accounts) (since : ℕ)
    : Accounts → ℕ → Type 0 where
  here : Later issuer lockdown_ms w since w since
  then_at :
      {v u : Accounts} {t now : ℕ}
      → Later issuer lockdown_ms w since v t
      → t ≤ now
      → Step issuer lockdown_ms now v u
      → Later issuer lockdown_ms w since u now

unfoldable pub nobody : Accounts
nobody = record {
  users = [];
  refresh_tokens = [];
  passkeys = [];
  auth = record { locks = []; accounts = []; last_notify = [] };
  reg_challenges = [];
  auth_challenges = [];
}
