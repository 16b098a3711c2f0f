-- ===== src/Auth/Sessions/Between.antt =====
-- What a refresh token gives while the password is being changed.
use db_backup.Prelude.{
  ℕ, String, ◌≡◌, refl, Bool, true, false, not, some, ◌∷◌, arith, eq_iff, sym, ap, ◌∙◌, subst, eqb,
  get, get-put, or_else,
}
use db_backup.Auth.Sessions.{
  Account, Accounts, TokenPayload, Issuer, Moment, Grant, answered, version_of, authenticate,
  row_of,
}
use db_backup.Auth.Sessions.Signing.{without, refresh}
use db_backup.Auth.Sessions.Revoking.{bumped, cool_down_end, set_password, revoke_all_user_tokens}
use db_backup.Auth.Sessions.Granted.{Granted, payload_of}
use db_backup.Auth.Sessions.Refreshed.{Refreshed, refresh-Refreshed}

-- the row of the account after the update
abbrev with_password : Issuer → ℕ → ℕ → String → Account → Account
with_password issuer lockdown_ms now password a = bumped (record a {
  user = record a.user {
    password_hash = issuer.bcrypt password;
    login_locked_until = cool_down_end lockdown_ms now;
  };
})

set_password-row :
    (issuer : Issuer) (lockdown_ms now : ℕ) (id password : String) (a b : Account) (w : Accounts)
    → get (set_password issuer lockdown_ms now id password a w).users id ≡ some b
    → with_password issuer lockdown_ms now password a ≡ b
unfolding set_password
set_password-row issuer lockdown_ms now id password a b w found =
    let c = with_password issuer lockdown_ms now password a in
    let e : some c ≡ some b = ground (arith, get-put w.users id id c, eq_iff id id, found) in
    ap (λ o. or_else o c) e

authenticate-current :
    (issuer : Issuer) (t : ℕ) (token id : String) (p : TokenPayload) (b : Account) (w : Accounts)
    → issuer.verify_access token t ≡ some p
    → get w.users p.user_id ≡ some b
    → b.user.is_active ≡ true
    → version_of p.token_version ≡ b.token_version
    → p.user_id ≡ id
    → authenticate issuer t (some token) w ≡ some id
unfolding authenticate
authenticate-current issuer t token id p b w good found on version same =
    let current : eqb (version_of p.token_version) b.token_version ≡ true =
      ground (arith, version) in
    rw (good, found, authenticate, current, not_off b.user.is_active on) (ap some same)
  where
    not_off : (b : Bool) → b ≡ true → not b ≡ false
    not_off b h = ground arith

-- A refresh between the two writes of a change of the password, by a token of the user: if it is
-- answered, and its access token is verified as the payload that was signed, that token lets requests
-- in as the user after the change.
pub authenticate-between :
    (issuer : Issuer) (lockdown_ms now t : ℕ) (token id password : String) (m : Moment)
    (a : Account) (w v : Accounts) (g : Grant)
    → a.user.is_active ≡ true
    → refresh issuer token m (set_password issuer lockdown_ms now id password a w) ≡ (v, answered g)
    → g.user_id ≡ id
    → issuer.verify_access
        (issuer.sign_access (payload_of id (with_password issuer lockdown_ms now password a)) m.now)
        t
      ≡ some (payload_of id (with_password issuer lockdown_ms now password a))
    → authenticate issuer t (some g.access_token) (revoke_all_user_tokens id v) ≡ some id
unfolding revoke_all_user_tokens
authenticate-between issuer lockdown_ms now t token id password m a w v g on done whose valid =
    let u = set_password issuer lockdown_ms now id password a w in
    let c = with_password issuer lockdown_ms now password a in
    let (row, p, b, there, account, (user, access, new)) =
      subst (λ r. Granted (Refreshed issuer token m u) r) done
        (refresh-Refreshed issuer token m u) in
    let x = record u {
      refresh_tokens =
          row_of issuer m p.user_id g.refresh_token ∷ without row.row_id u.refresh_tokens;
    } in
    let same : p.user_id ≡ id = sym user ∙ whose in
    let account' : get u.users id ≡ some b = subst (λ k. get u.users k ≡ some b) same account in
    let written : c ≡ b = set_password-row issuer lockdown_ms now id password a b w account' in
    let signed : g.access_token ≡ issuer.sign_access (payload_of id c) m.now =
      subst (λ k. g.access_token ≡ issuer.sign_access (payload_of k c) m.now) same
        (subst (λ y. g.access_token ≡ issuer.sign_access (payload_of p.user_id y) m.now)
          (sym written) access) in
    subst (λ access. authenticate issuer t (some access) (revoke_all_user_tokens id v) ≡ some id)
      (sym signed)
      (authenticate-current issuer t (issuer.sign_access (payload_of id c) m.now) id
        (payload_of id c) c (revoke_all_user_tokens id v) valid
        (subst (λ y. get y.users id ≡ some c) (sym new)
          (subst (λ y. get u.users id ≡ some y) (sym written) account'))
        on refl refl)
