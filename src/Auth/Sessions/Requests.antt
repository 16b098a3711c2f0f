-- ===== src/Auth/Sessions/Requests.antt =====
-- Changes of the password, revocations, suspensions and new challenges move the tables as `Moves`
-- says.
use db_backup.Prelude.{
  ℕ, String, ◌==◌, ◌≡◌, refl, inl, inr, Bool, true, false, not, ◌&&◌, ◌||◌, some, arith, sym, any,
  Option-cases, get,
}
use db_backup.Auth.Sessions.{Account, Accounts, Issuer}
use db_backup.Auth.Sessions.Revoking.{
  bumped, same, status_row, set_password, revoke_all_user_tokens, revoke_session,
  revoke_all_sessions, set_user_status,
}
use db_backup.Auth.Sessions.Passkeys.{
  owned_by, create_registration_challenge, create_authentication_challenge,
}
use db_backup.Auth.Sessions.Moves.{
  Follows, Moves, kept, deleted, Moves-calm, Moves-refl, Moves-trans, Moves-put,
}
use db_backup.Auth.Sessions.Opened.{if-Moves}

module _ (issuer : Issuer) (lockdown_ms now : ℕ) where
  pub set_password-Moves :
      (id password : String) (a : Account) (w : Accounts)
      → get w.users id ≡ some a
      → Moves issuer lockdown_ms now w (set_password issuer lockdown_ms now id password a w)
  unfolding set_password
  set_password-Moves id password a w found =
      Moves-put issuer lockdown_ms now id a _ w found (omega arith, inr refl) (λ only. inl only)

  pub revoke_all_user_tokens-Moves :
      (id : String) (w : Accounts) → Moves issuer lockdown_ms now w (revoke_all_user_tokens id w)
  unfolding revoke_all_user_tokens
  revoke_all_user_tokens-Moves id w =
      Moves-calm issuer lockdown_ms now w (revoke_all_user_tokens id w) refl refl
        (deleted (λ r. not (r.user_id == id)))

  pub revoke_session-Moves :
      (id row_id : String) (w : Accounts)
      → Moves issuer lockdown_ms now w (revoke_session id row_id w).0
  unfolding revoke_session
  revoke_session-Moves id row_id w =
      if-Moves (any (λ r. r.row_id == row_id && r.user_id == id) w.refresh_tokens) _ _
        (Moves-calm issuer lockdown_ms now w _ refl refl
          (deleted (λ r. not (r.row_id == row_id && r.user_id == id))))
        (Moves-refl issuer lockdown_ms now w)

  pub revoke_all_sessions-Moves :
      (id : String) (w : Accounts) → Moves issuer lockdown_ms now w (revoke_all_sessions id w).0
  unfolding revoke_all_sessions
  revoke_all_sessions-Moves id w =
      let v = revoke_all_user_tokens id w in
      Moves-trans issuer lockdown_ms now w v (revoke_all_sessions id w).0
        (revoke_all_user_tokens-Moves id w)
        (elim (Option-cases (get v.users id)) [
          | inl gone ↦ rw (revoke_all_sessions, gone) (Moves-refl issuer lockdown_ms now v)
          | inr (a, found) ↦
              rw (revoke_all_sessions, found)
                (Moves-put issuer lockdown_ms now id a (bumped a) v found (omega arith, inl refl)
                  (λ only. inl only))
        ])

  status_row-Follows : (on : Bool) (a : Account) → Follows lockdown_ms now a (status_row on a)
  status_row-Follows true a = (omega arith, inl refl)
  status_row-Follows false a = (omega arith, inl refl)

  status_row-disabled :
      (on : Bool) (a : Account)
      → (status_row on a).user.password_login_disabled ≡ true
      → a.user.password_login_disabled ≡ true
  status_row-disabled true a only = only
  status_row-disabled false a only = only

  pub set_user_status-Moves :
      (admin id : String) (on : Bool) (w : Accounts)
      → Moves issuer lockdown_ms now w (set_user_status admin id on w).0
  unfolding set_user_status
  set_user_status-Moves admin id on w =
      if-Moves (id == "" || id == admin) _ _ (Moves-refl issuer lockdown_ms now w)
        (elim (Option-cases (get w.users id)) [
          | inl gone ↦ rw gone (Moves-refl issuer lockdown_ms now w)
          | inr (a, found) ↦ rw found (
              if-Moves (same a.user.is_active on) _ _ (Moves-refl issuer lockdown_ms now w) (
                Moves-put issuer lockdown_ms now id a (status_row on a) w found
                  (status_row-Follows on a) (λ only. inl (status_row-disabled on a only))))
        ])

  -- a change of the challenges alone
  pub challenges-Moves :
      (id challenge : String) (w : Accounts)
      → Moves issuer lockdown_ms now w (create_registration_challenge id challenge now w)
  unfolding create_registration_challenge
  challenges-Moves id challenge w = Moves-calm issuer lockdown_ms now w _ refl refl kept

  pub sign_in_challenges-Moves :
      (challenge : String) (w : Accounts)
      → Moves issuer lockdown_ms now w (create_authentication_challenge challenge now w)
  unfolding create_authentication_challenge
  sign_in_challenges-Moves challenge w = Moves-calm issuer lockdown_ms now w _ refl refl kept

  -- accounts and tokens stay, and so does every user's having a passkey
  pub passkeys-Moves :
      (w v : Accounts)
      → v.users ≡ w.users
      → v.refresh_tokens ≡ w.refresh_tokens
      → ((id : String) → any (owned_by id) w.passkeys ≡ true → any (owned_by id) v.passkeys ≡ true)
      → Moves issuer lockdown_ms now w v
  passkeys-Moves w v users tokens more = record {
    accounts = λ id a found. (a, rw users found, (omega arith, inl refl));
    rows = rw tokens kept;
    ways = λ has id a found only. more id (has id a (rw (sym users) found) only);
  }
