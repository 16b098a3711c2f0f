-- ===== src/Auth/Login/Laws.antt =====
-- Who is signed in, and how many guesses a locked address gets.
use db_backup.Prelude.{
  ℕ, ◌+◌, ◌/◌, ◌≤◌, ◌<◌, String, ◌≡◌, refl, ◌≢◌, ◌↔◌, Bool, true, false, Option, none, some, List,
  [], ◌∷◌, arith, All, Bool-cases, inl, inr, ◌⊎◌,
}
use db_backup.Auth.Lockout.{Env, max_attempts, lock_ms, is_login_locked, record_login_failure}
use db_backup.Auth.Lockout.Laws.{
  fails_of, fails-record_login_failure, is_login_locked-record_login_failure,
}
use db_backup.Auth.Login.{
  User, Request, AuthState, address_locked, invalid_credentials, signed_in, login_lock_remaining,
  login,
}

module _ (env : Env) (find_user : String → Option User) (matches : String → String → Bool) where
  -- what a sign-in needs
  pub record MaySignIn (req : Request) (now : ℕ) (s : AuthState) (user : User) : Type 0 where
    pub found : find_user req.email ≡ some user
    pub active : user.is_active ≡ true
    pub right : matches req.password user.password_hash ≡ true
    pub password_login : user.password_login_disabled ≡ false
    pub cooled_down : login_lock_remaining user.login_locked_until now ≡ 0
    pub open_address : (is_login_locked s.locks req.ip now).locked ≡ false

  -- A request is answered by a session for the address of a user exactly when its address is not
  -- locked and it names a user who is active, whose password hash matches, who has not disabled
  -- password sign-in and whose cool-down after a password change is over.
  pub login-signed_in_iff :
      (req : Request) (now : ℕ) (s : AuthState) (user : User)
      → find_user req.email ≡ some user
      → ((login env find_user matches req now s).response ≡ signed_in user.email)
        ↔ MaySignIn req now s user
  unfolding login
  login-signed_in_iff req now s user found = (
    λ h. record {
      found = found;
      active = ground arith;
      right = ground arith;
      password_login = ground arith;
      cooled_down = ground arith;
      open_address = ground arith;
    },
    λ m. ground arith,
  )

  -- a request from `ip` inside the window that no password check lets through
  pub record IsWrong (ip : String) (start : ℕ) (r : Request × ℕ) : Type 0 where
    pub from : r.0.ip ≡ some ip
    pub not_before : start ≤ r.1
    pub not_after : r.1 ≤ start + lock_ms env
    pub wrong :
        (find_user r.0.email ≡ none)
        ⊎ ((user : User) × (find_user r.0.email ≡ some user)
            × ((user.is_active ≡ false) ⊎ (matches r.0.password user.password_hash ≡ false)))

  -- the requests that reached the check of the credentials and failed it
  abbrev pub guesses : AuthState → List (Request × ℕ) → ℕ
  guesses s [] = 0
  guesses s (r ∷ rs) =
      let reply = login env find_user matches r.0 r.1 s in
      let rest = guesses reply.state rs in
      elim reply.response [ invalid_credentials ↦ rest + 1 | _ ↦ rest ]

  module _ (ip : String) (named : ip ≢ "") (start : ℕ) (running : 0 < start) where
    login-locked :
        (r : Request × ℕ) (s : AuthState)
        → r.0.ip ≡ some ip
        → (is_login_locked s.locks (some ip) r.1).locked ≡ true
        → ((login env find_user matches r.0 r.1 s).state ≡ s)
          × ((minutes : ℕ) × ((login env find_user matches r.0 r.1 s).response
                ≡ address_locked minutes))
    unfolding login
    login-locked r s from locked =
        let locked' : (is_login_locked s.locks r.0.ip r.1).locked ≡ true = rw from locked in
        (
          ground arith,
          (((is_login_locked s.locks r.0.ip r.1).seconds_left + 59) / 60, ground arith),
        )

    login-wrong :
        (r : Request × ℕ) (s : AuthState)
        → IsWrong ip start r
        → (is_login_locked s.locks (some ip) r.1).locked ≡ false
        → ((login env find_user matches r.0 r.1 s).state.locks
            ≡ (record_login_failure env s.locks (some ip) r.1).0)
          × ((login env find_user matches r.0 r.1 s).response ≡ invalid_credentials)
    unfolding login
    login-wrong r s w locked =
        let open' : (is_login_locked s.locks r.0.ip r.1).locked ≡ false = rw w.from locked in
        elim w.wrong [
          | inl absent ↦ rw (← w.from) (ground arith)
          | inr (user, found, bad) ↦ rw (← w.from) (ground arith)
        ]

    after-lock :
        (r : Request × ℕ) (s s' : AuthState)
        → IsWrong ip start r
        → s'.locks ≡ (record_login_failure env s.locks (some ip) r.1).0
        → (record_login_failure env s.locks (some ip) r.1).1 ≡ true
        → (later : ℕ) → start ≤ later
        → later ≤ start + lock_ms env
        → (is_login_locked s'.locks (some ip) later).locked ≡ true
    after-lock r s s' w stored hit later after before =
        let decided =
          is_login_locked-record_login_failure env ip named s.locks r.1 later (omega arith) in
        rw stored (rw decided (rw hit (ground arith)))

    guesses-locked :
        (s : AuthState) (rs : List (Request × ℕ))
        → All (IsWrong ip start) rs
        → ((later : ℕ)
            → start ≤ later
            → later ≤ start + lock_ms env
            → (is_login_locked s.locks (some ip) later).locked ≡ true)
        → guesses s rs ≡ 0
    guesses-locked s [] wrong locked = refl
    guesses-locked s (r ∷ rs) (w, wrong) locked =
        let step = login-locked r s w.from (locked r.1 w.not_before w.not_after) in
        ground (arith, step, guesses-locked s rs wrong locked)

    -- Requests from one address, handled one after the other, each naming no active user or carrying
    -- a wrong password, and all inside one span of the lock time: those that reach the check of the
    -- credentials and the failures counted before number the limit at most.
    pub guesses-le :
        (s : AuthState) (rs : List (Request × ℕ))
        → All (IsWrong ip start) rs
        → fails_of s.locks ip < max_attempts env
        → guesses s rs + fails_of s.locks ip ≤ max_attempts env
    guesses-le s [] wrong few = omega arith
    guesses-le s (r ∷ rs) (w, wrong) few =
        elim (Bool-cases (is_login_locked s.locks (some ip) r.1).locked) [
          | inl locked ↦
              let step = login-locked r s w.from locked in
              ground (arith, step, guesses-le s rs wrong few)
          | inr free ↦
              let step = login-wrong r s w free in
              let s' = (login env find_user matches r.0 r.1 s).state in
              let counted = fails-record_login_failure env ip named s.locks r.1 few in
              elim (Bool-cases (record_login_failure env s.locks (some ip) r.1).1) [
                | inl hit ↦ ground (
                  arith,
                  step,
                  counted,
                  guesses-locked s' rs wrong (after-lock r s s' w step.0 hit),
                )
                | inr miss ↦
                    ground (arith, step, counted, guesses-le s' rs wrong (rw step.0 counted.0))
              ]
        ]
