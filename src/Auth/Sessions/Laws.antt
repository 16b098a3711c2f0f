-- ===== src/Auth/Sessions/Laws.antt =====
-- What holds of the accounts in every state that requests lead to.
use db_backup.Prelude.{
  ℕ, ◌≤◌, String, ◌≡◌, ◌≢◌, false, includes, inl, inr, Option, some, arith, Distinct, get, or_else,
}
use db_backup.Auth.Sessions.{Account, Accounts, TokenPayload, Issuer}
use db_backup.Auth.Sessions.Revoking.{cool_down_end}
use db_backup.Auth.Sessions.Moves.{HasWay, Moves}
use db_backup.Auth.Sessions.Rows.{hashes, Rows-Distinct, Rows-absent}
use db_backup.Auth.Sessions.Opened.{
  sign_in-Moves, register-Moves, refresh_token-Moves, logout-Moves,
}
use db_backup.Auth.Sessions.Requests.{
  set_password-Moves, revoke_all_user_tokens-Moves, revoke_session-Moves, revoke_all_sessions-Moves,
  set_user_status-Moves, challenges-Moves, sign_in_challenges-Moves,
}
use db_backup.Auth.Sessions.PasskeyRequests.{
  verify_registration-Moves, passkey_login_verify-Moves, delete_passkey-Moves,
  toggle_password_login-Moves,
}
use db_backup.Auth.Sessions.Reach.{
  Step, signs_in, registers, refreshes, logs_out, sets_password, revokes_tokens, revokes_one,
  revokes_all, sets_status, begins_registration, begins_sign_in, adds_passkey, uses_passkey,
  deletes_passkey, toggles, Later, here, then_at, nobody,
}

-- the time until which the account is locked, or 0
abbrev pub lock_end : Option ℕ → ℕ
lock_end until = or_else until 0

-- the account is there, with at least the version and the lock
abbrev pub Keeps : String → ℕ → ℕ → Accounts → Type 0
Keeps id version until w =
    (a : Account) × (get w.users id ≡ some a)
    × (version ≤ a.token_version)
    × (until ≤ lock_end a.user.login_locked_until)

-- no two refresh tokens have one hash, and passkey-only accounts have a passkey
abbrev pub IsSound : Accounts → Type 0
IsSound w = Distinct (hashes w.refresh_tokens) × HasWay w

module _ (issuer : Issuer) (lockdown_ms : ℕ) where
  Step-Moves :
      (now : ℕ) (w v : Accounts)
      → Step issuer lockdown_ms now w v
      → Moves issuer lockdown_ms now w v
  Step-Moves _ _ _ (signs_in env req m w) = sign_in-Moves issuer lockdown_ms env req m w
  Step-Moves _ _ _ (registers email password m w) =
      register-Moves issuer lockdown_ms email password m w
  Step-Moves _ _ _ (refreshes csrf token m w) =
      refresh_token-Moves issuer lockdown_ms csrf token m w
  Step-Moves _ _ _ (logs_out csrf token now w) = logout-Moves issuer lockdown_ms csrf token now w
  Step-Moves _ _ _ (sets_password now id password a w found) =
      set_password-Moves issuer lockdown_ms now id password a w found
  Step-Moves _ _ _ (revokes_tokens now id w) =
      revoke_all_user_tokens-Moves issuer lockdown_ms now id w
  Step-Moves _ _ _ (revokes_one now id row_id w) =
      revoke_session-Moves issuer lockdown_ms now id row_id w
  Step-Moves _ _ _ (revokes_all now id w) = revoke_all_sessions-Moves issuer lockdown_ms now id w
  Step-Moves _ _ _ (sets_status now admin id on w) =
      set_user_status-Moves issuer lockdown_ms now admin id on w
  Step-Moves _ _ _ (begins_registration now id challenge w) =
      challenges-Moves issuer lockdown_ms now id challenge w
  Step-Moves _ _ _ (begins_sign_in now challenge w) =
      sign_in_challenges-Moves issuer lockdown_ms now challenge w
  Step-Moves _ _ _ (adds_passkey library id response m w) =
      verify_registration-Moves issuer library lockdown_ms id response m w
  Step-Moves _ _ _ (uses_passkey library ip response m w) =
      passkey_login_verify-Moves issuer library lockdown_ms ip response m w
  Step-Moves _ _ _ (deletes_passkey now id passkey_id w) =
      delete_passkey-Moves issuer lockdown_ms now id passkey_id w
  Step-Moves _ _ _ (toggles now id disabled w) =
      toggle_password_login-Moves issuer lockdown_ms now id disabled w

  Later-le :
      (w : Accounts) (since : ℕ) (u : Accounts) (now : ℕ)
      → Later issuer lockdown_ms w since u now
      → since ≤ now
  Later-le w since _ _ here = omega arith
  Later-le w since _ _ (then_at {v} {u} {t} {now} before le step) =
      omega (arith, le, Later-le w since v t before)

  pub Moves-Keeps :
      (id : String) (version until now : ℕ) (w v : Accounts)
      → until ≤ lock_end (cool_down_end lockdown_ms now)
      → Moves issuer lockdown_ms now w v
      → Keeps id version until w
      → Keeps id version until v
  Moves-Keeps id version until now w v early moves (a, found, at_least, locked) =
      let (b, there, (up, lock)) = moves.accounts id a found in
      (
        b,
        there,
        omega (arith, at_least, up),
        elim lock [ inl e ↦ rw e locked | inr e ↦ rw e early ],
      )

  -- versions and locks do not fall, for locks that end before one that begins now
  pub Later-Keeps :
      (id : String) (version until since : ℕ) (w u : Accounts) (now : ℕ)
      → until ≤ lock_end (cool_down_end lockdown_ms since)
      → Keeps id version until w
      → Later issuer lockdown_ms w since u now
      → Keeps id version until u
  Later-Keeps id version until since w _ _ early kept here = kept
  Later-Keeps id version until since w _ _ early kept (then_at {v} {u} {t} {now} before le step) =
      Moves-Keeps id version until now v u (ground (arith, early, le, Later-le w since v t before))
        (Step-Moves now v u step) (Later-Keeps id version until since w v t early kept before)

  Later-IsSound :
      (w : Accounts) (since : ℕ) (u : Accounts) (now : ℕ)
      → IsSound w
      → Later issuer lockdown_ms w since u now
      → IsSound u
  Later-IsSound w since _ _ sound here = sound
  Later-IsSound w since _ _ sound (then_at {v} {u} {t} {now} before le step) =
      let moves = Step-Moves now v u step in
      let (unique, ways) = Later-IsSound w since v t sound before in
      (
        Rows-Distinct issuer now v.refresh_tokens u.refresh_tokens moves.rows unique,
        moves.ways ways,
      )

  -- a hash that no token signed from then on has does not come back
  pub Later-absent :
      (h : String) (w : Accounts) (since : ℕ) (u : Accounts) (now : ℕ)
      → ((payload : TokenPayload) (id : String) (t : ℕ)
          → since ≤ t
          → issuer.sha256 (issuer.sign_refresh payload id t) ≢ h)
      → includes (hashes w.refresh_tokens) h ≡ false
      → Later issuer lockdown_ms w since u now
      → includes (hashes u.refresh_tokens) h ≡ false
  Later-absent h w since _ _ other absent here = absent
  Later-absent h w since _ _ other absent (then_at {v} {u} {t} {now} before le step) =
      Rows-absent issuer now h v.refresh_tokens u.refresh_tokens
        (λ payload id. other payload id now (omega (arith, le, Later-le w since v t before)))
        (Step-Moves now v u step).rows (Later-absent h w since v t other absent before)

  -- In every state that the requests of users and administrators lead to from empty tables: no two
  -- refresh tokens have the same hash, and an account whose password sign-in is turned off has a
  -- passkey.
  pub Reachable-IsSound :
      (since now : ℕ) (w : Accounts) → Later issuer lockdown_ms nobody since w now → IsSound w
  unfolding nobody get
  Reachable-IsSound since now w reached =
      Later-IsSound nobody since w now (tt, λ id a found only. cc) reached
