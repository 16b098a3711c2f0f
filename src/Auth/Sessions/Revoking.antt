-- ===== src/Auth/Sessions/Revoking.antt =====
-- What ends sessions: changePassword, revokeSession and revokeAllSessions of
-- server/src/controllers/auth.controller.ts, and setUserStatus of
-- server/src/controllers/admin.controller.ts.
use db_backup.Prelude.{
  ℕ, suc, ◌+◌, String, ◌==◌, Bool, not, ◌&&◌, ◌||◌, true, false, Option, none, some, ltb,
  if◌then◌else◌, select, any, get, put,
}
use db_backup.Auth.Sessions.{Account, Accounts, Issuer, Handling, answered, rejected}

-- `revokeAllUserTokens`
unfoldable pub revoke_all_user_tokens : String → Accounts → Accounts
revoke_all_user_tokens id w = record w {
  refresh_tokens = select (λ r. not (r.user_id == id)) w.refresh_tokens;
}

-- the end of the cool-down that begins at `now`, if there is one
abbrev pub cool_down_end : ℕ → ℕ → Option ℕ
cool_down_end lockdown_ms now = if ltb 0 lockdown_ms then some (now + lockdown_ms) else none

abbrev pub bumped : Account → Account
bumped a = record a { token_version = suc a.token_version }

-- the update of the row in `changePassword`, which raises its version
unfoldable pub set_password : Issuer → ℕ → ℕ → String → String → Account → Accounts → Accounts
set_password issuer lockdown_ms now id password a w = record w {
  users = put w.users id (
      bumped (record a {
        user = record a.user {
          password_hash = issuer.bcrypt password;
          login_locked_until = cool_down_end lockdown_ms now;
        };
      }));
}

unfoldable pub change_password :
    Issuer → ℕ → ℕ → String → String → String → Accounts → Accounts × Handling Unit
unfolding set_password revoke_all_user_tokens
change_password issuer lockdown_ms now id current password w = elim (get w.users id) [
  | none ↦ (w, rejected 404)
  | some a ↦ if not (issuer.compare current a.user.password_hash) then (w, rejected 401) else (
    revoke_all_user_tokens id (set_password issuer lockdown_ms now id password a w),
    answered tt,
  )
]

unfoldable pub revoke_session : String → String → Accounts → Accounts × Handling Unit
revoke_session id row_id w =
    if any (λ r. r.row_id == row_id && r.user_id == id) w.refresh_tokens
    then (
      record w {
        refresh_tokens = select (λ r. not (r.row_id == row_id && r.user_id == id)) w.refresh_tokens;
      },
      answered tt,
    )
    else (w, rejected 404)

-- a missing row fails after the tokens are gone
unfoldable pub revoke_all_sessions : String → Accounts → Accounts × Handling Unit
unfolding revoke_all_user_tokens
revoke_all_sessions id w =
    let v = revoke_all_user_tokens id w in
    elim (get v.users id) [
      | none ↦ (v, rejected 404)
      | some a ↦ (record v { users = put v.users id (bumped a) }, answered tt)
    ]

abbrev pub same : Bool → Bool → Bool
same b c = if b then c else not c

-- a suspension also raises the version
abbrev pub status_row : Bool → Account → Account
status_row true a = record a { user = record a.user { is_active = true } }
status_row false a = bumped (record a { user = record a.user { is_active = false } })

-- by the administrator `admin`; the answer is whether anything changed
unfoldable pub set_user_status : String → String → Bool → Accounts → Accounts × Handling Bool
set_user_status admin id on w =
    if id == "" || id == admin then (w, rejected 400) else elim (get w.users id) [
      | none ↦ (w, rejected 404)
      | some a ↦
          if same a.user.is_active on
          then (w, answered false)
          else (record w { users = put w.users id (status_row on a) }, answered true)
    ]
