-- ===== src/Auth/Sessions/CoolDown.antt =====
-- Sign-ins during the cool-down after a change of the password.
use db_backup.Prelude.{
  ℕ, suc, ◌+◌, ◌≤◌, ◌<◌, String, ◌≡◌, ◌≢◌, refl, inl, inr, Bool, Option, none, some, arith, sym,
  ◌∙◌, subst, ltb, Bool-cases, Option-cases, Map, get, or_else,
}
use db_backup.Auth.Lockout.{Env, clear_login_failures}
use db_backup.Auth.Login.{
  User, Request, Response, AuthState, signed_in, address_locked, invalid_credentials, passkey_only,
  cool_down, login_lock_remaining, login,
}
use db_backup.Auth.Sessions.{
  Account, Accounts, Issuer, Moment, Grant, Handling, answered, rejected, open_session,
}
use db_backup.Auth.Sessions.Signing.{find_by_email, find_account, user_of, respond, sign_in}
use db_backup.Auth.Sessions.Revoking.{cool_down_end, change_password}
use db_backup.Auth.Sessions.Passkeys.{
  Library, verify_authentication, enter, entered, passkey_login_verify,
}
use db_backup.Auth.Sessions.PasskeyRequests.{verify_authentication-Moves}
use db_backup.Auth.Sessions.Reach.{Later}
use db_backup.Auth.Sessions.Laws.{lock_end, Keeps, Moves-Keeps, Later-Keeps}
use db_backup.Auth.Sessions.Granted.{Granted, Granted-implies, Opened, open_session-Opened}
use db_backup.Auth.Sessions.Ended.{change_password-Keeps}

-- a session is opened for another user
abbrev pub NotFor : String → Grant → Accounts → Type 0
NotFor id g w = g.user_id ≢ id

open_session-NotFor :
    (issuer : Issuer) (m : Moment) (id other : String) (a : Account) (w : Accounts)
    → other ≢ id
    → Granted (NotFor id) (open_session issuer m other a w)
open_session-NotFor issuer m id other a w ne =
    Granted-implies (Opened issuer m other a w) (NotFor id) (open_session issuer m other a w)
      (λ g v opened same. ne (sym opened.0 ∙ same)) (open_session-Opened issuer m other a w)

abbrev IsFound : Map Account → Option (String × Account) → Type 0
IsFound users none = Unit
IsFound users (some found) = get users found.0 ≡ some found.1

find_account-IsFound :
    (users : Map Account) (email : String) → IsFound users (find_account users email)
unfolding find_account
find_account-IsFound users email = elim (Option-cases (find_by_email users email)) [
  | inl none_such ↦ rw (find_account, none_such) tt
  | inr (id, known) ↦ elim (Option-cases (get users id)) [
    | inl gone ↦ rw (find_account, known, gone) tt
    | inr (a, there) ↦ rw (find_account, known, there) there
  ]
]

-- the account that is locked until `until` is not one whose cool-down is over
locked-apart :
    (id : String) (version until now : ℕ) (w : Accounts) (other : String) (a : Account)
    → Keeps id version until w
    → now < until
    → get w.users other ≡ some a
    → login_lock_remaining a.user.login_locked_until now ≡ 0
    → other ≢ id
unfolding login_lock_remaining
locked-apart id version until now w other a (b, there, up, locked) before found over same =
    let e : some a ≡ some b = sym found ∙ subst (λ k. get w.users k ≡ some b) (sym same) there in
    let late : lock_end b.user.login_locked_until ≤ now =
      subst (λ o. lock_end (or_else o a).user.login_locked_until ≤ now) e (ground (arith, over)) in
    omega (arith, locked, before, late)

login-cooled_down :
    (env : Env) (find_user : String → Option User) (matches : String → String → Bool)
    (req : Request) (now : ℕ) (s : AuthState) (user : User) (email : String)
    → find_user req.email ≡ some user
    → (login env find_user matches req now s).response ≡ signed_in email
    → login_lock_remaining user.login_locked_until now ≡ 0
unfolding login
login-cooled_down env find_user matches req now s user email found signed = ground arith

module _ (issuer : Issuer) (id : String) (version until : ℕ) where
  respond-NotFor :
      (req : Request) (m : Moment) (w : Accounts) (r : Response)
      → Keeps id version until w
      → m.now < until
      → ((found : String × Account) (email : String)
          → find_account w.users req.email ≡ some found
          → r ≡ signed_in email
          → login_lock_remaining found.1.user.login_locked_until m.now ≡ 0)
      → Granted (NotFor id) (respond issuer req m w r)
  unfolding respond
  respond-NotFor req m w (signed_in email) kept before over =
      elim (Option-cases (find_account w.users req.email)) [
        | inl gone ↦ rw (gone, respond) tt
        | inr (found, there) ↦
            let account : get w.users found.0 ≡ some found.1 =
              subst (λ o. IsFound w.users o) there (find_account-IsFound w.users req.email) in
            rw (there, respond)
              (open_session-NotFor issuer m id found.0 found.1 w (
                locked-apart id version until m.now w found.0 found.1 kept before account
                  (over found email there refl)))
      ]
  respond-NotFor req m w (address_locked minutes) kept before over = tt
  respond-NotFor req m w invalid_credentials kept before over = tt
  respond-NotFor req m w passkey_only kept before over = tt
  respond-NotFor req m w (cool_down ms) kept before over = tt

  sign_in-NotFor :
      (env : Env) (req : Request) (m : Moment) (w : Accounts)
      → Keeps id version until w
      → m.now < until
      → Granted (NotFor id) (sign_in issuer env req m w)
  unfolding sign_in
  sign_in-NotFor env req m w kept before =
      let find_user = λ (email : String). user_of (find_account w.users email) in
      let reply = login env find_user issuer.compare req m.now w.auth in
      respond-NotFor req m (record w { auth = reply.state }) reply.response kept before
        (λ found email there signed.
          login-cooled_down env find_user issuer.compare req m.now w.auth found.1.user email
            (rw there refl) signed)

  enter-NotFor :
      (ip : Option String) (m : Moment) (other : String) (w : Accounts)
      → Keeps id version until w
      → m.now < until
      → Granted (NotFor id) (enter issuer ip m other w)
  unfolding enter
  enter-NotFor ip m other w kept before = elim (Option-cases (get w.users other)) [
    | inl gone ↦ rw (gone, enter) tt
    | inr (a, found) ↦
        elim (Bool-cases (ltb 0 (login_lock_remaining a.user.login_locked_until m.now))) [
          | inl locked ↦ rw (found, enter, locked) tt
          | inr over ↦
              let v = record w {
                auth = record w.auth { locks = clear_login_failures w.auth.locks ip };
              } in
              rw (found, enter, over)
                (open_session-NotFor issuer m id other a v (
                  locked-apart id version until m.now w other a kept before found
                    (ground (arith, over))))
        ]
  ]

  passkey_login_verify-NotFor :
      (library : Library) (ip : Option String) (response : String) (m : Moment) (w : Accounts)
      → Keeps id version until w
      → m.now < until
      → Granted (NotFor id) (passkey_login_verify issuer library ip response m w)
  unfolding passkey_login_verify
  passkey_login_verify-NotFor library ip response m w kept before =
      go (verify_authentication library response m.now w) (
        Moves-Keeps issuer until id version until m.now w
          (verify_authentication library response m.now w).0 (ground (arith, before))
          (verify_authentication-Moves issuer library until response m.now w) kept)
    where
      go :
          (r : Accounts × Handling String)
          → Keeps id version until r.0
          → Granted (NotFor id) (entered issuer ip m r)
      go (v, rejected status) kept = tt
      go (v, answered other) kept = enter-NotFor ip m other v kept before

-- After a change of the password of a user has been answered, where a cool-down is configured, no
-- sign-in until its end opens a session for the user, by password or by passkey, in any later state.
pub change_password-cool_down :
    (issuer : Issuer) (lockdown_ms now : ℕ) (id current password : String) (later : ℕ)
    (w v u : Accounts) (a : Account) (env : Env) (req : Request) (library : Library)
    (ip : Option String) (response : String) (m : Moment)
    → get w.users id ≡ some a
    → change_password issuer lockdown_ms now id current password w ≡ (v, answered tt)
    → 0 < lockdown_ms
    → Later issuer lockdown_ms v now u later
    → m.now < now + lockdown_ms
    → Granted (NotFor id) (sign_in issuer env req m u)
      × Granted (NotFor id) (passkey_login_verify issuer library ip response m u)
change_password-cool_down issuer lockdown_ms now id current password later w v u a env req library
      ip response m found done some_time after before =
    let until = lock_end (cool_down_end lockdown_ms now) in
    let kept =
      Later-Keeps issuer lockdown_ms id (suc a.token_version) until now v u later (omega arith)
        (change_password-Keeps issuer lockdown_ms now id w v a current password found done) after in
    let early : m.now < until = ground (arith, some_time, before) in
    (
      sign_in-NotFor issuer id (suc a.token_version) until env req m u kept early,
      passkey_login_verify-NotFor issuer id (suc a.token_version) until library ip response m u kept
          early,
    )
