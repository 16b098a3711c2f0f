-- ===== src/Auth/Sessions/Spent.antt =====
-- Refresh tokens are used once.
use db_backup.Prelude.{
  ℕ, ◌≤◌, String, ◌==◌, ◌≡◌, ◌≢◌, refl, inl, inr, Bool, true, false, not, none, some, List, [], ◌∷◌,
  arith, eq_iff, sym, subst, select, includes, Distinct, Bool-cases, Option-cases, get, or_else,
}
use db_backup.Auth.Sessions.{
  RefreshRow, Accounts, TokenPayload, Issuer, Moment, Grant, answered, rejected,
}
use db_backup.Auth.Sessions.Signing.{find_row, refresh, refresh_token, logout}
use db_backup.Auth.Sessions.Revoking.{
  set_password, revoke_all_user_tokens, change_password, revoke_all_sessions,
}
use db_backup.Auth.Sessions.Rows.{hashes}
use db_backup.Auth.Sessions.Reach.{Later, nobody}
use db_backup.Auth.Sessions.Laws.{Later-absent, Reachable-IsSound}
use db_backup.Auth.Sessions.Granted.{Granted, if-Granted}
use db_backup.Auth.Sessions.Refreshed.{Refreshed, refresh_token-Refreshed}

find_row-absent :
    (h : String) (rows : List RefreshRow)
    → includes (hashes rows) h ≡ false
    → find_row h rows ≡ none
unfolding find_row
find_row-absent h [] absent = refl
find_row-absent h (r ∷ rows) absent = ground (arith, absent, find_row-absent h rows)

absent-find_row :
    (h : String) (rows : List RefreshRow)
    → find_row h rows ≡ none
    → includes (hashes rows) h ≡ false
unfolding find_row
absent-find_row h [] absent = refl
absent-find_row h (r ∷ rows) absent = ground (arith, absent, absent-find_row h rows)

find_row-none :
    (h : String) (p : RefreshRow → Bool) (rows : List RefreshRow)
    → find_row h rows ≡ none
    → find_row h (select p rows) ≡ none
unfolding find_row
find_row-none h p [] absent = refl
find_row-none h p (r ∷ rows) absent = ground (arith, absent, find_row-none h p rows)

-- deleting the row of a hash, with any others, leaves none
find_row-select :
    (h : String) (p : RefreshRow → Bool) (row : RefreshRow) (rows : List RefreshRow)
    → Distinct (hashes rows)
    → find_row h rows ≡ some row
    → p row ≡ false
    → find_row h (select p rows) ≡ none
unfolding find_row
find_row-select h p row [] d found gone = refl
find_row-select h p row (r ∷ rows) d found gone = elim (Bool-cases (r.token_hash == h)) [
  | inl it ↦
      let same : r.token_hash ≡ h = ground (arith, eq_iff r.token_hash h, it) in
      let e : some r ≡ some row = ground (arith, found, it) in
      let dropped : p r ≡ false = subst (λ o. p (or_else o r) ≡ false) (sym e) gone in
      rw dropped (
        find_row-none h p rows
          (find_row-absent h rows (subst (λ k. includes (hashes rows) k ≡ false) same d.0)))
  | inr other ↦
      ground (arith, other, find_row-select h p row rows d.1 (ground (arith, found, other)) gone)
]

find_row-hash :
    (h : String) (row : RefreshRow) (rows : List RefreshRow)
    → find_row h rows ≡ some row
    → (row.token_hash == h) ≡ true
unfolding find_row
find_row-hash h row [] found = cc
find_row-hash h row (r ∷ rows) found = elim (Bool-cases (r.token_hash == h)) [
  | inl it ↦
      let e : some r ≡ some row = ground (arith, found, it) in
      subst (λ o. ((or_else o r).token_hash == h) ≡ true) e it
  | inr other ↦ find_row-hash h row rows (ground (arith, found, other))
]

-- What spends a refresh token: a refresh by it, a logout with it, and a change of the password or a
-- revocation of all sessions of its user.
pub data Spends (issuer : Issuer) (token : String) (w v : Accounts) : Type 0 where
  refreshed :
      (csrf : Bool) (m : Moment) (g : Grant)
      → refresh_token issuer csrf token m w ≡ (v, answered g)
      → issuer.sha256 g.refresh_token ≢ issuer.sha256 token
      → Spends issuer token w v
  logged_out : logout issuer true token w ≡ (v, answered tt) → Spends issuer token w v
  password_changed :
      (lockdown_ms now : ℕ) (current password : String) (row : RefreshRow)
      → find_row (issuer.sha256 token) w.refresh_tokens ≡ some row
      → change_password issuer lockdown_ms now row.user_id current password w ≡ (v, answered tt)
      → Spends issuer token w v
  all_revoked :
      (row : RefreshRow)
      → find_row (issuer.sha256 token) w.refresh_tokens ≡ some row
      → revoke_all_sessions row.user_id w ≡ (v, answered tt)
      → Spends issuer token w v

-- no row has the hash of the token
abbrev IsSpent : Issuer → String → Accounts → Type 0
IsSpent issuer token v = find_row (issuer.sha256 token) v.refresh_tokens ≡ none

module _ (issuer : Issuer) (token : String) (w v : Accounts)
    (d : Distinct (hashes w.refresh_tokens)) where
  of_user-IsSpent :
      (row : RefreshRow)
      → find_row (issuer.sha256 token) w.refresh_tokens ≡ some row
      → IsSpent issuer token (revoke_all_user_tokens row.user_id w)
  unfolding revoke_all_user_tokens
  of_user-IsSpent row found =
      find_row-select (issuer.sha256 token) (λ r. not (r.user_id == row.user_id)) row
        w.refresh_tokens d found (ground (arith, eq_iff row.user_id row.user_id))

  Spends-IsSpent : Spends issuer token w v → IsSpent issuer token v
  unfolding find_row logout change_password set_password revoke_all_sessions
  Spends-IsSpent (refreshed csrf m g done fresh) =
      let (row, p, a, found, there, (whose, access, new)) =
        subst (λ r. Granted (Refreshed issuer token m w) r) done
          (refresh_token-Refreshed issuer csrf token m w) in
      subst (λ x. IsSpent issuer token x) (sym new)
        (ground (
          arith,
          eq_iff (issuer.sha256 g.refresh_token) (issuer.sha256 token),
          fresh,
          find_row-select (issuer.sha256 token) (λ r. not (r.row_id == row.row_id)) row
              w.refresh_tokens d found (ground (arith, eq_iff row.row_id row.row_id)),
        ))
  Spends-IsSpent (logged_out done) =
      subst (λ r. Granted {A = Unit} (λ x u. IsSpent issuer token u) r) done
        (elim (Option-cases (find_row (issuer.sha256 token) w.refresh_tokens)) [
          | inl absent ↦
              find_row-none (issuer.sha256 token) (λ r. not (r.token_hash == issuer.sha256 token))
                w.refresh_tokens absent
          | inr (row, found) ↦
              find_row-select (issuer.sha256 token) (λ r. not (r.token_hash == issuer.sha256 token))
                row w.refresh_tokens d found
                (ground (arith, find_row-hash (issuer.sha256 token) row w.refresh_tokens found))
        ])
  Spends-IsSpent (password_changed lockdown_ms now current password row found done) =
      let P : Unit → Accounts → Type 0 = λ x u. IsSpent issuer token u in
      subst (λ r. Granted P r) done
        (elim (Option-cases (get w.users row.user_id)) [
          | inl gone ↦ rw (gone, change_password) tt
          | inr (a, there) ↦
              rw (there, change_password)
                (if-Granted P (not (issuer.compare current a.user.password_hash)) _ _ tt
                  (of_user-IsSpent row found))
        ])
  Spends-IsSpent (all_revoked row found done) =
      subst (λ r. Granted {A = Unit} (λ x u. IsSpent issuer token u) r) done
        (elim (Option-cases (get w.users row.user_id)) [
          | inl gone ↦ rw (gone, revoke_all_sessions) tt
          | inr (a, there) ↦ rw (there, revoke_all_sessions) (of_user-IsSpent row found)
        ])

-- From every state that requests lead to from empty tables: a refresh token is worth nothing after it
-- was used for a refresh, whose new token has another hash, after a logout with it, and after a
-- change of the password or a revocation of all sessions of its user. In every later state, as long
-- as no token signed from then on has its hash, a refresh by it at any time is refused with the
-- status 401 and changes nothing.
pub refresh-spent :
    (issuer : Issuer) (lockdown_ms since now after later : ℕ) (token : String) (m : Moment)
    (w v u : Accounts)
    → Later issuer lockdown_ms nobody since w now
    → Spends issuer token w v
    → ((payload : TokenPayload) (id : String) (t : ℕ)
        → after ≤ t
        → issuer.sha256 (issuer.sign_refresh payload id t) ≢ issuer.sha256 token)
    → Later issuer lockdown_ms v after u later
    → refresh issuer token m u ≡ (u, rejected 401)
unfolding refresh
refresh-spent issuer lockdown_ms since now after later token m w v u reached spends other follows =
    let sound = Reachable-IsSound issuer lockdown_ms since now w reached in
    let hash = issuer.sha256 token in
    let absent =
      Later-absent issuer lockdown_ms hash v after u later other
        (absent-find_row hash v.refresh_tokens (Spends-IsSpent issuer token w v sound.0 spends))
        follows in
    rw (find_row-absent hash u.refresh_tokens absent, refresh) refl
