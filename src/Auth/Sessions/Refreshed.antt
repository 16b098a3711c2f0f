-- ===== src/Auth/Sessions/Refreshed.antt =====
-- What a refresh that is answered found and did.
use db_backup.Prelude.{String, ◌==◌, ◌≡◌, inl, inr, Bool, not, some, ltb, Option-cases, get}
use db_backup.Auth.Sessions.{
  Account, RefreshRow, Accounts, TokenPayload, Issuer, Moment, Grant, open_session,
}
use db_backup.Auth.Sessions.Signing.{without, find_row, refresh, refresh_token}
use db_backup.Auth.Sessions.Granted.{
  Granted, if-Granted, Granted-implies, Granted-committed, Opened, open_session-Opened,
}

-- what a refresh that is answered found and did
abbrev pub Refreshed : Issuer → String → Moment → Accounts → Grant → Accounts → Type 0
Refreshed issuer token m w g v =
    (row : RefreshRow) × (p : TokenPayload) × (a : Account) × (find_row (issuer.sha256 token)
        w.refresh_tokens
      ≡ some row)
    × (get w.users p.user_id ≡ some a)
    × Opened issuer m p.user_id a
        (record w { refresh_tokens = without row.row_id w.refresh_tokens }) g v

pub refresh-Refreshed :
    (issuer : Issuer) (token : String) (m : Moment) (w : Accounts)
    → Granted (Refreshed issuer token m w) (refresh issuer token m w)
unfolding refresh
refresh-Refreshed issuer token m w =
    elim (Option-cases (find_row (issuer.sha256 token) w.refresh_tokens)) [
      | inl gone ↦ rw (gone, refresh) tt
      | inr (row, there) ↦
          rw (there, refresh)
            (if-Granted (Refreshed issuer token m w) (ltb row.expires_at m.now) _ _ tt
              (elim (Option-cases (issuer.verify_refresh token m.now)) [
                | inl bad ↦ rw bad tt
                | inr (p, good) ↦ elim (Option-cases (get w.users p.user_id)) [
                  | inl gone ↦ rw (good, gone) tt
                  | inr (a, found) ↦
                      rw (good, found)
                        (if-Granted (Refreshed issuer token m w) (not a.user.is_active) _ _ tt (
                          let x = record w {
                            refresh_tokens = without row.row_id w.refresh_tokens;
                          } in
                          Granted-committed (Refreshed issuer token m w) w
                            (open_session issuer m p.user_id a x)
                            (Granted-implies (Opened issuer m p.user_id a x)
                              (Refreshed issuer token m w) (open_session issuer m p.user_id a x)
                              (λ g v opened. (row, p, a, there, found, opened))
                              (open_session-Opened issuer m p.user_id a x))))
                ]
              ]))
    ]

pub refresh_token-Refreshed :
    (issuer : Issuer) (csrf : Bool) (token : String) (m : Moment) (w : Accounts)
    → Granted (Refreshed issuer token m w) (refresh_token issuer csrf token m w)
unfolding refresh_token
refresh_token-Refreshed issuer csrf token m w =
    let P = Refreshed issuer token m w in
    if-Granted P (not csrf) _ _ tt
      (if-Granted P (token == "") _ _ tt (refresh-Refreshed issuer token m w))
