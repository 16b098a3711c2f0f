-- ===== src/Auth/Sessions/Opened.antt =====
-- Sign-ins, refreshes and logouts move the tables as `Moves` says.
use db_backup.Prelude.{
  ℕ, String, ◌==◌, ◌≡◌, refl, inl, inr, Bool, true, false, not, none, some, [], ◌∷◌, arith,
  if◌then◌else◌, any, ltb, Map, Bool-cases, Option-cases, get, or_else, subst,
}
use db_backup.Auth.Lockout.{Env}
use db_backup.Auth.Login.{
  Request, Response, login, signed_in, address_locked, invalid_credentials, passkey_only, cool_down,
}
use db_backup.Auth.Sessions.{
  Account, Accounts, Issuer, Moment, row_of, create_token, open_session, committed,
}
use db_backup.Auth.Sessions.Signing.{
  has_users, first_account, respond, find_account, user_of, sign_in, register, without, find_row,
  refresh, refresh_token, logout,
}
use db_backup.Auth.Sessions.Moves.{
  kept, deleted, added, Moves, Moves-calm, Moves-refl, Moves-trans, Moves-committed,
}

get-nobody : (users : Map Account) (id : String) → has_users users ≡ false → get users id ≡ none
unfolding get
get-nobody [] id h = refl
get-nobody (first ∷ rest) id h = cc

pub if-Moves :
    {A : Type 0} {issuer : Issuer} {lockdown_ms now : ℕ} {w : Accounts} (b : Bool)
    (x y : Accounts × A)
    → Moves issuer lockdown_ms now w x.0
    → Moves issuer lockdown_ms now w y.0
    → Moves issuer lockdown_ms now w (if b then x else y).0
if-Moves true x y h k = h
if-Moves false x y h k = k

module _ (issuer : Issuer) (lockdown_ms : ℕ) where
  pub open_session-Moves :
      (m : Moment) (id : String) (a : Account) (w : Accounts)
      → Moves issuer lockdown_ms m.now w (open_session issuer m id a w).0
  unfolding open_session create_token
  open_session-Moves m id a w =
      let row = row_of issuer m id (
        issuer.sign_refresh (record { user_id = id; email = a.user.email; token_version = none })
          m.jwt_id m.now) in
      elim (Bool-cases (any (λ r. r.token_hash == row.token_hash) w.refresh_tokens)) [
        | inl taken ↦ rw (open_session, create_token, taken) (Moves-refl issuer lockdown_ms m.now w)
        | inr fresh ↦
            rw (open_session, create_token, fresh)
              (Moves-calm issuer lockdown_ms m.now w
                (record w { refresh_tokens = row ∷ w.refresh_tokens }) refl refl
                (added (record { user_id = id; email = a.user.email; token_version = none })
                  m.jwt_id row fresh refl))
      ]

  respond-Moves :
      (req : Request) (m : Moment) (w : Accounts) (r : Response)
      → Moves issuer lockdown_ms m.now w (respond issuer req m w r).0
  unfolding respond
  respond-Moves req m w (signed_in email) = elim (Option-cases (find_account w.users req.email)) [
    | inl gone ↦ rw (gone, respond) (Moves-refl issuer lockdown_ms m.now w)
    | inr (found, there) ↦ rw (there, respond) (open_session-Moves m found.0 found.1 w)
  ]
  respond-Moves req m w (address_locked minutes) = Moves-refl issuer lockdown_ms m.now w
  respond-Moves req m w invalid_credentials = Moves-refl issuer lockdown_ms m.now w
  respond-Moves req m w passkey_only = Moves-refl issuer lockdown_ms m.now w
  respond-Moves req m w (cool_down ms) = Moves-refl issuer lockdown_ms m.now w

  pub sign_in-Moves :
      (env : Env) (req : Request) (m : Moment) (w : Accounts)
      → Moves issuer lockdown_ms m.now w (sign_in issuer env req m w).0
  unfolding sign_in
  sign_in-Moves env req m w =
      let reply =
        login env (λ email. user_of (find_account w.users email)) issuer.compare req m.now w.auth in
      let v = record w { auth = reply.state } in
      Moves-trans issuer lockdown_ms m.now w v (respond issuer req m v reply.response).0
        (Moves-calm issuer lockdown_ms m.now w v refl refl kept)
        (respond-Moves req m v reply.response)

  first-Moves :
      (m : Moment) (email password : String) (w : Accounts)
      → has_users w.users ≡ false
      → Moves issuer lockdown_ms m.now w
          (record w { users = (m.id, first_account issuer email password) ∷ [] })
  unfolding get
  first-Moves m email password w none_yet = record {
    accounts = λ id a found. ground (arith, found, get-nobody w.users id none_yet);
    rows = kept;
    ways = λ has id a found only.
        let eq : some a ≡ some (first_account issuer email password) = ground (arith, found) in
        let never : false ≡ true =
          subst (λ x. (or_else x a).user.password_login_disabled ≡ true) eq only in
        ground (arith, never);
  }

  pub register-Moves :
      (email password : String) (m : Moment) (w : Accounts)
      → Moves issuer lockdown_ms m.now w (register issuer email password m w).0
  unfolding register
  register-Moves email password m w = elim (Bool-cases (has_users w.users)) [
    | inl some_user ↦ rw (some_user, register) (Moves-refl issuer lockdown_ms m.now w)
    | inr none_yet ↦
        let a = first_account issuer email password in
        let v = record w { users = (m.id, a) ∷ [] } in
        rw (none_yet, register)
          (Moves-trans issuer lockdown_ms m.now w v (open_session issuer m m.id a v).0
            (first-Moves m email password w none_yet) (open_session-Moves m m.id a v))
  ]

  delete-Moves :
      (m : Moment) (id row_id : String) (a : Account) (w : Accounts)
      → Moves issuer lockdown_ms m.now w
          (committed w (
            open_session issuer m id a
              (record w { refresh_tokens = without row_id w.refresh_tokens }))).0
  delete-Moves m id row_id a w =
      let v = record w { refresh_tokens = without row_id w.refresh_tokens } in
      Moves-committed issuer lockdown_ms m.now w (open_session issuer m id a v) (
        Moves-trans issuer lockdown_ms m.now w v (open_session issuer m id a v).0
          (Moves-calm issuer lockdown_ms m.now w v refl refl
            (deleted (λ r. not (r.row_id == row_id))))
          (open_session-Moves m id a v))

  refresh-Moves :
      (token : String) (m : Moment) (w : Accounts)
      → Moves issuer lockdown_ms m.now w (refresh issuer token m w).0
  unfolding refresh
  refresh-Moves token m w =
      let same = Moves-refl issuer lockdown_ms m.now w in
      elim (Option-cases (find_row (issuer.sha256 token) w.refresh_tokens)) [
        | inl gone ↦ rw (gone, refresh) same
        | inr (row, there) ↦
            rw (there, refresh)
              (if-Moves (ltb row.expires_at m.now) _ _ same
                (elim (Option-cases (issuer.verify_refresh token m.now)) [
                  | inl bad ↦ rw bad same
                  | inr (p, good) ↦ elim (Option-cases (get w.users p.user_id)) [
                    | inl gone ↦ rw (good, gone) same
                    | inr (a, found) ↦
                        rw (good, found)
                          (if-Moves (not a.user.is_active) _ _ same
                            (delete-Moves m p.user_id row.row_id a w))
                  ]
                ]))
      ]

  pub refresh_token-Moves :
      (csrf : Bool) (token : String) (m : Moment) (w : Accounts)
      → Moves issuer lockdown_ms m.now w (refresh_token issuer csrf token m w).0
  unfolding refresh_token
  refresh_token-Moves csrf token m w =
      if-Moves (not csrf) _ _ (Moves-refl issuer lockdown_ms m.now w) (
        if-Moves (token == "") _ _ (Moves-refl issuer lockdown_ms m.now w)
          (refresh-Moves token m w))

  pub logout-Moves :
      (csrf : Bool) (token : String) (now : ℕ) (w : Accounts)
      → Moves issuer lockdown_ms now w (logout issuer csrf token w).0
  unfolding logout
  logout-Moves false token now w = Moves-refl issuer lockdown_ms now w
  logout-Moves true token now w =
      Moves-calm issuer lockdown_ms now w (logout issuer true token w).0 refl refl
        (deleted (λ r. not (r.token_hash == issuer.sha256 token)))
