-- ===== src/Tests/Sessions.antt =====
-- One account, its sessions and a passkey.
use db_backup.Prelude.{
  ℕ, ◌+◌, String, ◌==◌, ◌≡◌, ◌≢◌, ◌≤◌, ltb, refl, true, false, Option, none, some, if◌then◌else◌,
  arith, eq_iff, nan, get, put, eqb,
}
use db_backup.Auth.Lockout.{Env}
use db_backup.Auth.Login.{Request}
use db_backup.Auth.Sessions.{
  Account, Accounts, TokenPayload, Issuer, Moment, rejected, authenticate, open_session,
  create_token,
}
use db_backup.Auth.Sessions.Signing.{register, refresh, refresh_token, sign_in, find_row}
use db_backup.Auth.Sessions.Revoking.{set_password, revoke_all_user_tokens, change_password}
use db_backup.Auth.Sessions.Passkeys.{Library, passkey_login_verify}
use db_backup.Auth.Sessions.Reach.{Later, here, then_at, registers, nobody}
use db_backup.Auth.Sessions.Granted.{Granted}
use db_backup.Auth.Sessions.Laws.{IsSound, Reachable-IsSound}
use db_backup.Auth.Sessions.Ended.{changes, authenticate-ended}
use db_backup.Auth.Sessions.CoolDown.{NotFor, change_password-cool_down}
use db_backup.Auth.Sessions.Spent.{refreshed, refresh-spent}
use db_backup.Auth.Sessions.Between.{authenticate-between}

abbrev payload : ℕ → TokenPayload
payload version = record { user_id = "ann"; email = "ann@b.c"; token_version = some version }

abbrev signed : Option ℕ → String
signed none = ""
signed (some n) = if eqb n 0 then "first" else "second"

abbrev read_token : String → Option TokenPayload
read_token token =
    if token == "first"
    then some (payload 0)
    else if token == "second"
    then some (payload 1)
    else none

-- the refresh tokens that are signed before the time 5 are called `ann`
abbrev issuer : Issuer
issuer = record {
  sign_access = λ p now. signed p.token_version;
  verify_access = λ token now. read_token token;
  sign_refresh = λ p id now. if ltb now 5 then "ann" else "next";
  verify_refresh = λ token now. some (payload 0);
  sha256 = λ token. token;
  compare = λ password hash. password == hash;
  bcrypt = λ password. password;
  in_a_week = λ now. now + 604800000;
}

abbrev at : ℕ → String → Moment
at now id = record { now = now; id = id; jwt_id = id }

abbrev registered : Accounts
unfolding register
registered = (register issuer "ann@b.c" "old" (at 1 "ann") nobody).0

reached : Later issuer 7200000 nobody 0 registered 1
unfolding registered
reached = then_at here (omega arith) (registers "ann@b.c" "old" (at 1 "ann") nobody)

Reachable-IsSound_example : IsSound registered
Reachable-IsSound_example = Reachable-IsSound issuer 7200000 0 1 registered reached

abbrev changed : Accounts
unfolding change_password registered
changed = (change_password issuer 7200000 5 "ann" "old" "new" registered).0

one_payload :
    (s r : ℕ) (p q : TokenPayload)
    → issuer.verify_access "first" s ≡ some p
    → issuer.verify_access "first" r ≡ some q
    → p ≡ q
one_payload s r p q h k = cc

authenticate-ended_example : authenticate issuer 9 (some "first") changed ≡ none
unfolding get registered changed register change_password open_session create_token nobody
    authenticate set_password revoke_all_user_tokens
authenticate-ended_example =
    authenticate-ended issuer 7200000 5 "first" "ann" 3 5 9 registered changed changed one_payload
      refl (changes "old" "new" refl) here

abbrev library : Library
library = record {
  registers = λ response challenge. none;
  challenge_of = λ response. response;
  credential_of = λ response. response;
  asserts = λ response challenge passkey. none;
}

abbrev ann : Account
ann = record {
  user = record {
    email = "ann@b.c";
    password_hash = "old";
    is_active = true;
    password_login_disabled = false;
    login_locked_until = none;
  };
  token_version = 0;
}

abbrev limits : Env
limits = record { attempts = nan; minutes = nan; threshold = nan }

abbrev again : Request
again = record { email = "ann@b.c"; password = "new"; ip = none }

change_password-cool_down_example :
    Granted (NotFor "ann") (sign_in issuer limits again (at 7199999 "x") changed)
    × Granted
        (NotFor "ann")
        (passkey_login_verify issuer library none "assertion" (at 7199999 "x") changed)
unfolding get registered changed register change_password open_session create_token nobody
    set_password revoke_all_user_tokens
change_password-cool_down_example =
    change_password-cool_down issuer 7200000 5 "ann" "old" "new" 5 registered changed changed ann
      limits again library none "assertion" (at 7199999 "x") refl refl (omega arith) here
      (omega arith)

abbrev renewed : Accounts
unfolding refresh_token registered
renewed = (refresh_token issuer true "ann" (at 9 "next") registered).0

two_tokens : ◌≢◌ {A = String} "next" "ann"
two_tokens = ground (arith, eq_iff "next" "ann")

later_tokens :
    (payload : TokenPayload) (id : String) (t : ℕ)
    → 9 ≤ t
    → issuer.sha256 (issuer.sign_refresh payload id t) ≢ "ann"
later_tokens payload id t late =
    let past : ltb t 5 ≡ false = ground (arith, late) in rw past two_tokens

refresh-spent_example : refresh issuer "ann" (at 20 "more") renewed ≡ (renewed, rejected 401)
unfolding get registered renewed register refresh_token refresh open_session create_token nobody
    find_row
refresh-spent_example =
    refresh-spent issuer 7200000 0 1 9 9 "ann" (at 20 "more") registered renewed renewed reached
      (refreshed true (at 9 "next")
        (record { user_id = "ann"; access_token = "first"; refresh_token = "next" }) refl
        two_tokens)
      later_tokens here

abbrev between : Accounts
unfolding set_password refresh registered
between =
    (refresh issuer "ann" (at 6 "next")
      (set_password issuer 7200000 5 "ann" "new" ann registered)).0

authenticate-between_example :
    authenticate issuer 9 (some "second") (revoke_all_user_tokens "ann" between) ≡ some "ann"
unfolding get put registered between register refresh set_password open_session create_token nobody
    find_row
authenticate-between_example =
    authenticate-between issuer 7200000 5 9 "ann" "ann" "new" (at 6 "next") ann registered between
      (record { user_id = "ann"; access_token = "second"; refresh_token = "next" }) refl refl refl
      refl
