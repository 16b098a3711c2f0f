-- ===== src/Auth/Sessions/PasskeyRequests.antt =====
-- Requests with passkeys move the tables as `Moves` says.
use db_backup.Prelude.{
  ℕ, ◌+◌, ◌≤◌, String, ◌==◌, ◌≡◌, refl, inl, inr, Bool, true, false, not, ◌&&◌, ◌||◌, Option, some,
  List, [], ◌∷◌, arith, eq_iff, sym, subst, ◌∙◌, any, count, leb, ltb, eqb, Bool-cases,
  Option-cases, get, remove,
}
use db_backup.Auth.Lockout.{clear_login_failures}
use db_backup.Auth.Login.{login_lock_remaining}
use db_backup.Auth.Sessions.{
  Account, Passkey, Accounts, Issuer, Moment, Handling, answered, rejected, open_session,
}
use db_backup.Auth.Sessions.Passkeys.{
  Library, owned_by, is_its, is_passkey_only, remove_first, with_counter, find_credential,
  verify_registration, verify_authentication, enter, entered, passkey_login_verify, delete_passkey,
  toggle_password_login,
}
use db_backup.Auth.Sessions.Moves.{
  HasWay, Moves, kept, Moves-calm, Moves-refl, Moves-trans, Moves-put,
}
use db_backup.Auth.Sessions.Opened.{if-Moves, open_session-Moves}
use db_backup.Auth.Sessions.Requests.{passkeys-Moves}

any-with_counter :
    (id key : String) (counter : ℕ) (ps : List Passkey)
    → any (owned_by id) (with_counter key counter ps) ≡ any (owned_by id) ps
unfolding with_counter
any-with_counter id key counter [] = refl
any-with_counter id key counter (p ∷ ps) = ground (arith, any-with_counter id key counter ps)

any-remove_first :
    (q : Passkey → Bool) (id other : String) (ps : List Passkey)
    → ((p : Passkey) → q p ≡ true → owned_by id p ≡ true)
    → (id == other) ≡ false
    → any (owned_by other) ps ≡ true
    → any (owned_by other) (remove_first q ps) ≡ true
unfolding remove_first
any-remove_first q id other [] own ne h = h
any-remove_first q id other (p ∷ ps) own ne h = ground (
  arith,
  h,
  own p,
  ne,
  eq_iff p.user_id id,
  eq_iff id other,
  eq_iff p.user_id other,
  any-remove_first q id other ps own ne,
)

count-remove_first :
    (q r : Passkey → Bool) (ps : List Passkey) → count r ps ≤ count r (remove_first q ps) + 1
unfolding remove_first
count-remove_first q r [] = omega arith
count-remove_first q r (p ∷ ps) = ground (arith, count-remove_first q r ps)

any-count : (r : Passkey → Bool) (ps : List Passkey) → any r ps ≡ ltb 0 (count r ps)
any-count r [] = ground arith
any-count r (p ∷ ps) = ground (arith, any-count r ps)

module _ (issuer : Issuer) (library : Library) (lockdown_ms : ℕ) where
  pub verify_registration-Moves :
      (id response : String) (m : Moment) (w : Accounts)
      → Moves issuer lockdown_ms m.now w (verify_registration library id response m w).0
  unfolding verify_registration
  verify_registration-Moves id response m w = elim (Option-cases (get w.reg_challenges id)) [
    | inl gone ↦ rw (gone, verify_registration) (Moves-refl issuer lockdown_ms m.now w)
    | inr (stored, there) ↦
        let v = record w { reg_challenges = remove w.reg_challenges id } in
        let consumed = Moves-calm issuer lockdown_ms m.now w v refl refl kept in
        rw (there, verify_registration)
          (if-Moves (ltb stored.expires_at m.now) _ _ (Moves-refl issuer lockdown_ms m.now w)
            (elim (Option-cases (library.registers response stored.challenge)) [
              | inl bad ↦ rw bad consumed
              | inr (found, good) ↦ rw good (
                  if-Moves (any (λ p. p.credential_id == found.0) w.passkeys) _ _ consumed (
                    passkeys-Moves issuer lockdown_ms m.now w _ refl refl
                      (λ j h. ground (arith, h))))
            ]))
  ]

  pub verify_authentication-Moves :
      (response : String) (now : ℕ) (w : Accounts)
      → Moves issuer lockdown_ms now w (verify_authentication library response now w).0
  unfolding verify_authentication
  verify_authentication-Moves response now w =
      elim (Option-cases (get w.auth_challenges (library.challenge_of response))) [
        | inl gone ↦ rw (gone, verify_authentication) (Moves-refl issuer lockdown_ms now w)
        | inr (expected, there) ↦
            let v = record w {
              auth_challenges = remove w.auth_challenges (library.challenge_of response);
            } in
            let consumed = Moves-calm issuer lockdown_ms now w v refl refl kept in
            rw (there, verify_authentication)
              (if-Moves (eqb expected 0 || ltb expected now) _ _
                (Moves-refl issuer lockdown_ms now w)
                (elim (Option-cases (find_credential (library.credential_of response) w.passkeys)) [
                  | inl unknown ↦ rw unknown consumed
                  | inr (p, known) ↦ elim (Option-cases (get w.users p.user_id)) [
                    | inl gone ↦ rw (known, gone) consumed
                    | inr (a, found) ↦
                        rw (known, found)
                          (if-Moves (not a.user.is_active) _ _ consumed
                            (elim (Option-cases
                              (library.asserts response (library.challenge_of response) p)) [
                                | inl bad ↦ rw bad consumed
                                | inr (counter, good) ↦ rw good (
                                    passkeys-Moves issuer lockdown_ms now w _ refl refl (λ j h.
                                      any-with_counter j p.passkey_id counter w.passkeys ∙ h))
                              ]))
                  ]
                ]))
      ]

module _ (issuer : Issuer) (library : Library) (lockdown_ms : ℕ) where
  enter-Moves :
      (ip : Option String) (m : Moment) (id : String) (w : Accounts)
      → Moves issuer lockdown_ms m.now w (enter issuer ip m id w).0
  unfolding enter
  enter-Moves ip m id w = elim (Option-cases (get w.users id)) [
    | inl gone ↦ rw (gone, enter) (Moves-refl issuer lockdown_ms m.now w)
    | inr (a, found) ↦
        let v = record w {
          auth = record w.auth { locks = clear_login_failures w.auth.locks ip };
        } in
        let calm = Moves-calm issuer lockdown_ms m.now w v refl refl kept in
        rw (found, enter)
          (if-Moves (ltb 0 (login_lock_remaining a.user.login_locked_until m.now)) _ _ calm (
            Moves-trans issuer lockdown_ms m.now w v (open_session issuer m id a v).0 calm
              (open_session-Moves issuer lockdown_ms m id a v)))
  ]

  pub passkey_login_verify-Moves :
      (ip : Option String) (response : String) (m : Moment) (w : Accounts)
      → Moves issuer lockdown_ms m.now w (passkey_login_verify issuer library ip response m w).0
  unfolding passkey_login_verify
  passkey_login_verify-Moves ip response m w =
      entered-Moves (verify_authentication library response m.now w)
        (verify_authentication-Moves issuer library lockdown_ms response m.now w)
    where
      entered-Moves :
          (r : Accounts × Handling String)
          → Moves issuer lockdown_ms m.now w r.0
          → Moves issuer lockdown_ms m.now w (entered issuer ip m r).0
      entered-Moves (v, rejected status) h = h
      entered-Moves (v, answered id) h =
          Moves-trans issuer lockdown_ms m.now w v (enter issuer ip m id v).0 h
            (enter-Moves ip m id v)

module _ (issuer : Issuer) (lockdown_ms now : ℕ) where
  has_left :
      (id passkey_id other : String) (w : Accounts)
      → HasWay w
      → (is_passkey_only (get w.users id) && leb (count (owned_by id) w.passkeys) 1) ≡ false
      → (a : Account) → get w.users other ≡ some a
      → a.user.password_login_disabled ≡ true
      → any (owned_by other) (remove_first (is_its id passkey_id) w.passkeys) ≡ true
  has_left id passkey_id other w has more a found only = elim (Bool-cases (id == other)) [
    | inr ne ↦
        any-remove_first (is_its id passkey_id) id other w.passkeys (λ p its. ground (arith, its))
          ne (has other a found only)
    | inl it ↦
        let left = remove_first (is_its id passkey_id) w.passkeys in
        let e : id ≡ other = ground (arith, eq_iff id other, it) in
        let f : get w.users id ≡ some a = subst (λ k. get w.users k ≡ some a) (sym e) found in
        let on : is_passkey_only (get w.users id) ≡ true =
          subst (λ o. is_passkey_only o ≡ true) (sym f) only in
        subst (λ k. any (owned_by k) left ≡ true) e
          (ground (
            arith,
            on,
            more,
            count-remove_first (is_its id passkey_id) (owned_by id) w.passkeys,
            any-count (owned_by id) left,
          ))
  ]

  pub delete_passkey-Moves :
      (id passkey_id : String) (w : Accounts)
      → Moves issuer lockdown_ms now w (delete_passkey id passkey_id w).0
  unfolding delete_passkey
  delete_passkey-Moves id passkey_id w =
      elim (Bool-cases
        (is_passkey_only (get w.users id) && leb (count (owned_by id) w.passkeys) 1)) [
          | inl last ↦
              rw (delete_passkey, last)
                (if-Moves (not (any (is_its id passkey_id) w.passkeys)) _ _
                  (Moves-refl issuer lockdown_ms now w) (Moves-refl issuer lockdown_ms now w))
          | inr more ↦
              rw (delete_passkey, more)
                (if-Moves (not (any (is_its id passkey_id) w.passkeys)) _ _
                  (Moves-refl issuer lockdown_ms now w)
                  (record {
                    accounts = λ j a found. (a, found, (omega arith, inl refl));
                    rows = kept;
                    ways = λ has j a found only. has_left id passkey_id j w has more a found only;
                  }))
        ]

  pub toggle_password_login-Moves :
      (id : String) (disabled : Bool) (w : Accounts)
      → Moves issuer lockdown_ms now w (toggle_password_login id disabled w).0
  unfolding toggle_password_login
  toggle_password_login-Moves id disabled w =
      let same = Moves-refl issuer lockdown_ms now w in
      elim (Bool-cases (disabled && eqb (count (owned_by id) w.passkeys) 0)) [
        | inl none_left ↦ rw (toggle_password_login, none_left) same
        | inr some_left ↦ elim (Option-cases (get w.users id)) [
          | inl gone ↦ rw (toggle_password_login, some_left, gone) same
          | inr (a, found) ↦
              rw (toggle_password_login, some_left, found)
                (Moves-put issuer lockdown_ms now id a _ w found (omega arith, inl refl)
                  (λ only.
                    inr (ground (arith, only, some_left, any-count (owned_by id) w.passkeys))))
        ]
      ]
