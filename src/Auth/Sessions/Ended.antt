-- ===== src/Auth/Sessions/Ended.antt =====
-- Access tokens after the end of an account's sessions, and sign-ins during the cool-down after a
-- change of the password.
use db_backup.Prelude.{
  ℕ, suc, ◌≤◌, ◌<◌, String, ◌==◌, ◌≡◌, refl, inl, inr, Bool, true, false, not, ◌||◌, Option, none,
  some, arith, eq_iff, sym, subst, eqb, if◌then◌else◌, Bool-cases, Option-cases, get, put, get-put,
}
use db_backup.Auth.Sessions.{
  Account, Accounts, TokenPayload, Issuer, answered, version_of, authenticate,
}
use db_backup.Auth.Sessions.Revoking.{
  cool_down_end, bumped, same, status_row, set_password, revoke_all_user_tokens, change_password,
  revoke_all_sessions, set_user_status,
}
use db_backup.Auth.Sessions.Granted.{Granted, if-Granted}
use db_backup.Auth.Sessions.Reach.{Later}
use db_backup.Auth.Sessions.Laws.{lock_end, Keeps, Later-Keeps}

-- what ends the sessions of a user: a change of the password, a revocation of all sessions and a
-- suspension
pub data Ends (issuer : Issuer) (lockdown_ms now : ℕ) (id : String) (w v : Accounts) : Type 0 where
  changes :
      (current password : String)
      → change_password issuer lockdown_ms now id current password w ≡ (v, answered tt)
      → Ends issuer lockdown_ms now id w v
  revokes : revoke_all_sessions id w ≡ (v, answered tt) → Ends issuer lockdown_ms now id w v
  suspends :
      (admin : String)
      → set_user_status admin id false w ≡ (v, answered true)
      → Ends issuer lockdown_ms now id w v

-- the row of the account after it is written
put-Keeps :
    (id : String) (version until : ℕ) (b : Account) (w : Accounts)
    → version ≤ b.token_version
    → until ≤ lock_end b.user.login_locked_until
    → Keeps id version until (record w { users = put w.users id b })
put-Keeps id version until b w up locked =
    (b, ground (arith, get-put w.users id id b, eq_iff id id), up, locked)

module _ (issuer : Issuer) (lockdown_ms now : ℕ) (id : String) (w v : Accounts) (a : Account) where
  pub change_password-Keeps :
      (current password : String)
      → get w.users id ≡ some a
      → change_password issuer lockdown_ms now id current password w ≡ (v, answered tt)
      → Keeps id (suc a.token_version) (lock_end (cool_down_end lockdown_ms now)) v
  unfolding change_password set_password revoke_all_user_tokens
  change_password-Keeps current password found done =
      let until = lock_end (cool_down_end lockdown_ms now) in
      let P : Unit → Accounts → Type 0 = λ x u. Keeps id (suc a.token_version) until u in
      let b : Account = bumped (record a {
        user = record a.user {
          password_hash = issuer.bcrypt password;
          login_locked_until = cool_down_end lockdown_ms now;
        };
      }) in
      subst (λ r. Granted P r) done
        (rw (found, change_password)
          (if-Granted P (not (issuer.compare current a.user.password_hash)) _ _ tt
            (put-Keeps id (suc a.token_version) until b w (omega arith) (omega arith))))

  revoke_all_sessions-Keeps :
      get w.users id ≡ some a
      → revoke_all_sessions id w ≡ (v, answered tt)
      → Keeps id (suc a.token_version) 0 v
  unfolding revoke_all_sessions revoke_all_user_tokens
  revoke_all_sessions-Keeps found done =
      subst (λ r. Granted {A = Unit} (λ x u. Keeps id (suc a.token_version) 0 u) r) done
        (rw (found, revoke_all_sessions)
          (put-Keeps id (suc a.token_version) 0 (bumped a) w (omega arith) (omega arith)))

  set_user_status-Keeps :
      (admin : String)
      → get w.users id ≡ some a
      → set_user_status admin id false w ≡ (v, answered true)
      → Keeps id (suc a.token_version) 0 v
  unfolding set_user_status
  set_user_status-Keeps admin found done =
      let P : Bool → Accounts → Type 0 =
        λ changed u. if changed then Keeps id (suc a.token_version) 0 u else Unit in
      subst (λ r. Granted P r) done
        (if-Granted P (id == "" || id == admin) _ _ tt (
          rw found (
            if-Granted P (same a.user.is_active false) _ _ tt (
              put-Keeps id (suc a.token_version) 0 (status_row false a) w (omega arith)
                (omega arith)))))

-- what the end of the sessions leaves of the account
Ends-Keeps :
    (issuer : Issuer) (lockdown_ms now : ℕ) (id : String) (w v : Accounts) (a : Account)
    → get w.users id ≡ some a
    → Ends issuer lockdown_ms now id w v
    → Keeps id (suc a.token_version) 0 v
Ends-Keeps issuer lockdown_ms now id w v a found (changes current password done) =
    let (b, there, up, locked) =
      change_password-Keeps issuer lockdown_ms now id w v a current password found done in
    (b, there, up, omega arith)
Ends-Keeps issuer lockdown_ms now id w v a found (revokes done) =
    revoke_all_sessions-Keeps issuer lockdown_ms now id w v a found done
Ends-Keeps issuer lockdown_ms now id w v a found (suspends admin done) =
    set_user_status-Keeps issuer lockdown_ms now id w v a admin found done

-- the payload and the account of a request that is let in
abbrev Admits : Issuer → ℕ → String → Accounts → Option String → Type 0
Admits issuer t token w none = Unit
Admits issuer t token w (some id) =
    (p : TokenPayload) × (a : Account) × (issuer.verify_access token t ≡ some p)
    × (p.user_id ≡ id)
    × (get w.users p.user_id ≡ some a)
    × (version_of p.token_version ≡ a.token_version)

authenticate-Admits :
    (issuer : Issuer) (t : ℕ) (token : String) (w : Accounts)
    → Admits issuer t token w (authenticate issuer t (some token) w)
unfolding authenticate
authenticate-Admits issuer t token w = elim (Option-cases (issuer.verify_access token t)) [
  | inl bad ↦ rw (bad, authenticate) tt
  | inr (p, good) ↦ elim (Option-cases (get w.users p.user_id)) [
    | inl gone ↦ rw (good, gone, authenticate) tt
    | inr (a, found) ↦ elim (Bool-cases (not a.user.is_active)) [
      | inl off ↦ rw (good, found, authenticate, off) tt
      | inr on ↦ elim (Bool-cases (eqb (version_of p.token_version) a.token_version)) [
        | inr old ↦ rw (good, found, authenticate, on, old) tt
        | inl current ↦
            rw (good, found, authenticate, on, current)
              (p, a, good, refl, found, ground (arith, current))
      ]
    ]
  ]
]

authenticate-old :
    (issuer : Issuer) (t : ℕ) (token : String) (p : TokenPayload) (b : Account) (w : Accounts)
    → issuer.verify_access token t ≡ some p
    → get w.users p.user_id ≡ some b
    → version_of p.token_version < b.token_version
    → authenticate issuer t (some token) w ≡ none
unfolding authenticate
authenticate-old issuer t token p b w good found old =
    let other : eqb (version_of p.token_version) b.token_version ≡ false = ground (arith, old) in
    rw (good, found, authenticate, other)
      (elim (Bool-cases (not b.user.is_active)) [ inl off ↦ rw off refl | inr on ↦ rw on refl ])

-- An access token that lets a request in as a user at any time is refused in every later state, at
-- any time, once a change of the password, a revocation of all sessions or a suspension of the user
-- has been answered, if a token is verified as one payload whenever it is.
pub authenticate-ended :
    (issuer : Issuer) (lockdown_ms now : ℕ) (token id : String) (t later at : ℕ) (w v u : Accounts)
    → ((s r : ℕ) (p q : TokenPayload)
        → issuer.verify_access token s ≡ some p
        → issuer.verify_access token r ≡ some q
        → p ≡ q)
    → authenticate issuer t (some token) w ≡ some id
    → Ends issuer lockdown_ms now id w v
    → Later issuer lockdown_ms v now u later
    → authenticate issuer at (some token) u ≡ none
unfolding authenticate
authenticate-ended issuer lockdown_ms now token id t later at w v u one admitted ends after =
    let (p, a, good, whose, found, version) =
      subst (λ o. Admits issuer t token w o) admitted (authenticate-Admits issuer t token w) in
    let kept =
      Ends-Keeps issuer lockdown_ms now id w v a (subst (λ k. get w.users k ≡ some a) whose found)
        ends in
    let (b, there, up, locked) =
      Later-Keeps issuer lockdown_ms id (suc a.token_version) 0 now v u later (omega arith) kept
        after in
    elim (Option-cases (issuer.verify_access token at)) [
      | inl bad ↦ rw (bad, authenticate) refl
      | inr (q, again) ↦
          let e = one t at p q good again in
          authenticate-old issuer at token q b u again
            (subst (λ x. get u.users x.user_id ≡ some b) e
              (subst (λ k. get u.users k ≡ some b) (sym whose) there))
            (subst (λ x. version_of x.token_version < b.token_version) e
              (omega (arith, version, up)))
    ]
