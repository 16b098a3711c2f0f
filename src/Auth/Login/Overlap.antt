-- ===== src/Auth/Login/Overlap.antt =====
-- Requests to login of server/src/controllers/auth.controller.ts that overlap.
use db_backup.Prelude.{
  ℕ, zero, suc, ◌+◌, ◌≤◌, ◌<◌, String, ◌≡◌, refl, ◌≢◌, Bool, true, false, Option, none, some, List,
  [], ◌∷◌, All, arith, ◌⊎◌, inl, inr, Bool-cases, Option-cases, length, subst,
}
use db_backup.Auth.Lockout.{Env, max_attempts, lock_ms, is_login_locked, record_login_failure}
use db_backup.Auth.Lockout.Laws.{
  fails_of, fails-record_login_failure, is_login_locked-record_login_failure,
}
use db_backup.Auth.Login.{
  User, Request, AuthState, Turn, arriving, going_on, nth_waiting, without_nth, admit, check,
  let_in, peak,
}

without_nth-All :
    (P : Request → Type 0) (n : ℕ) (waiting : List Request)
    → All P waiting
    → All P (without_nth n waiting)
unfolding without_nth
without_nth-All P n [] h = tt
without_nth-All P zero (req ∷ waiting) h = h.1
without_nth-All P (suc n) (req ∷ waiting) h = (h.0, without_nth-All P n waiting h.1)

nth_waiting-All :
    (P : Request → Type 0) (n : ℕ) (waiting : List Request) (req : Request)
    → All P waiting
    → nth_waiting n waiting ≡ some req
    → P req
unfolding nth_waiting
nth_waiting-All P n [] req h e = absurd (ground (arith, e))
nth_waiting-All P zero (r ∷ waiting) req h e = subst P (ground (arith, e)) h.0
nth_waiting-All P (suc n) (r ∷ waiting) req h e = nth_waiting-All P n waiting req h.1 e

length-without_nth :
    (n : ℕ) (waiting : List Request) (req : Request)
    → nth_waiting n waiting ≡ some req
    → length (without_nth n waiting) + 1 ≡ length waiting
unfolding nth_waiting without_nth
length-without_nth n [] req e = absurd (ground (arith, e))
length-without_nth zero (r ∷ waiting) req e = omega arith
length-without_nth (suc n) (r ∷ waiting) req e = omega (arith, length-without_nth n waiting req e)

module _ (env : Env) (find_user : String → Option User) (matches : String → String → Bool)
    (ip : String) (named : ip ≢ "") (start : ℕ) (running : 0 < start) where
  -- a request from the address that no password check lets through
  abbrev pub IsGuess : Request → Type 0
  IsGuess req =
      (req.ip ≡ some ip)
      × ((find_user req.email ≡ none)
          ⊎ ((user : User) × (find_user req.email ≡ some user)
              × ((user.is_active ≡ false) ⊎ (matches req.password user.password_hash ≡ false))))

  abbrev pub InWindow : ℕ → Type 0
  InWindow now = (start ≤ now) × (now ≤ start + lock_ms env)

  abbrev pub IsTurn : Turn → Type 0
  IsTurn (arriving req now) = IsGuess req × InWindow now
  IsTurn (going_on n now) = InWindow now

  abbrev Locked : AuthState → Type 0
  Locked s = (later : ℕ) → InWindow later → (is_login_locked s.locks (some ip) later).locked ≡ true

  check-counted :
      (req : Request) (now : ℕ) (s : AuthState)
      → IsGuess req
      → (check env find_user matches req now s (find_user req.email)).state.locks
        ≡ (record_login_failure env s.locks (some ip) now).0
  unfolding check
  check-counted req now s (from, inl absent) = rw (← from) (ground arith)
  check-counted req now s (from, inr (user, found, bad)) = rw (← from) (ground arith)

  check-Locked :
      (req : Request) (now : ℕ) (s : AuthState)
      → IsGuess req
      → InWindow now
      → ((record_login_failure env s.locks (some ip) now).1 ≡ true) ⊎ Locked s
      → Locked (check env find_user matches req now s (find_user req.email)).state
  check-Locked req now s guess within because later at =
      let decided =
        is_login_locked-record_login_failure env ip named s.locks now later (omega arith) in
      elim (Bool-cases (record_login_failure env s.locks (some ip) now).1) [
        | inl hit ↦ rw (check-counted req now s guess) (rw decided (rw hit (ground arith)))
        | inr miss ↦ rw (check-counted req now s guess) (rw decided (rw miss (still because miss)))
      ]
    where
      still :
          ((record_login_failure env s.locks (some ip) now).1 ≡ true) ⊎ Locked s
          → (record_login_failure env s.locks (some ip) now).1 ≡ false
          → (is_login_locked s.locks (some ip) later).locked ≡ true
      still (inl hit) miss = cc
      still (inr locked) miss = locked later at

  let_in-Locked :
      (turns : List Turn) (s : AuthState) (waiting : List Request)
      → All IsTurn turns
      → All IsGuess waiting
      → Locked s
      → let_in env find_user matches turns s waiting ≡ 0
  unfolding let_in admit
  let_in-Locked [] s waiting all guesses locked = refl
  let_in-Locked (arriving req now ∷ turns) s waiting (((from, wrong), within), all) guesses locked =
      let shut : (is_login_locked s.locks req.ip now).locked ≡ true = rw from (locked now within) in
      ground (arith, shut, let_in-Locked turns s waiting all guesses locked)
  let_in-Locked (going_on n now ∷ turns) s waiting (within, all) guesses locked =
      elim (Option-cases (nth_waiting n waiting)) [
        | inl nobody ↦ ground (arith, nobody, let_in-Locked turns s waiting all guesses locked)
        | inr (req, there) ↦
            let guess = nth_waiting-All IsGuess n waiting req guesses there in
            let s' = (check env find_user matches req now s (find_user req.email)).state in
            ground (
              arith,
              there,
              let_in-Locked turns s' (without_nth n waiting) all
                  (without_nth-All IsGuess n waiting guesses)
                  (check-Locked req now s guess within (inr locked)),
            )
      ]

  length-peak :
      (turns : List Turn) (s : AuthState) (waiting : List Request)
      → length waiting ≤ peak env find_user matches turns s waiting
  unfolding peak
  length-peak [] s waiting = omega arith
  length-peak (arriving req now ∷ turns) s waiting =
      ground (arith, length-peak turns s waiting, length-peak turns s (req ∷ waiting))
  length-peak (going_on n now ∷ turns) s waiting = elim (Option-cases (nth_waiting n waiting)) [
    | inl nobody ↦ ground (arith, nobody, length-peak turns s waiting)
    | inr (req, there) ↦ ground (arith, there)
  ]

  -- Requests from one address that overlap in any way, each naming no active user or carrying a wrong
  -- password, and all inside one span of the lock time: those that pass the lock, those that wait at
  -- the beginning and the failures counted before are fewer than the limit and the most requests that
  -- wait at once together.
  pub let_in-lt :
      (turns : List Turn) (s : AuthState) (waiting : List Request)
      → All IsTurn turns
      → All IsGuess waiting
      → fails_of s.locks ip < max_attempts env
      → let_in env find_user matches turns s waiting + fails_of s.locks ip + length waiting
        < max_attempts env + peak env find_user matches turns s waiting
  unfolding let_in peak admit
  let_in-lt [] s waiting all guesses few = omega arith
  let_in-lt (arriving req now ∷ turns) s waiting ((guess, within), all) guesses few = ground (
    arith,
    let_in-lt turns s waiting all guesses few,
    let_in-lt turns s (req ∷ waiting) all (guess, guesses) few,
  )
  let_in-lt (going_on n now ∷ turns) s waiting (within, all) guesses few =
      elim (Option-cases (nth_waiting n waiting)) [
        | inl nobody ↦ ground (arith, nobody, let_in-lt turns s waiting all guesses few)
        | inr (req, there) ↦
            let guess = nth_waiting-All IsGuess n waiting req guesses there in
            let s' = (check env find_user matches req now s (find_user req.email)).state in
            let rest = without_nth-All IsGuess n waiting guesses in
            let fewer = length-without_nth n waiting req there in
            let locks = check-counted req now s guess in
            let counted = fails-record_login_failure env ip named s.locks now few in
            let waits = length-peak turns s' (without_nth n waiting) in
            elim (Bool-cases (record_login_failure env s.locks (some ip) now).1) [
              | inl hit ↦
                  let none_in =
                    let_in-Locked turns s' (without_nth n waiting) all rest
                      (check-Locked req now s guess within (inl hit)) in
                  ground (arith, there, none_in, fewer, waits)
              | inr miss ↦
                  let on =
                    let_in-lt turns s' (without_nth n waiting) all rest
                      (rw locks (ground (arith, counted, miss))) in
                  let fails : fails_of s'.locks ip ≡ fails_of s.locks ip + 1 =
                    rw locks (ground (arith, counted, miss)) in
                  ground (arith, there, on, fails, fewer)
            ]
      ]
