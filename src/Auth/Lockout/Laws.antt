-- ===== src/Auth/Lockout/Laws.antt =====
-- What the lock of an address, the detector and the mail throttle do over sequences of failures.
use db_backup.Prelude.{
  ℕ, ◌+◌, ◌*◌, ◌≤◌, ◌<◌, String, ◌≡◌, ◌≢◌, some, List, [], ◌∷◌, arith, leb, if◌then◌else◌, ◌==◌,
  eq_iff, length, Map, get, put, or_else, get-put, le-at_least, Bool-cases, inl, inr,
}
use db_backup.Auth.Lockout.{
  Env, max_attempts, lock_ms, LockState, fresh, present, lock_of, is_login_locked, count_failure,
  record_login_failure,
}

pub max_attempts-pos : (env : Env) → 1 ≤ max_attempts env
unfolding max_attempts
max_attempts-pos env = le-at_least 1 env.attempts 3

pub lock_ms-pos : (env : Env) → 60000 ≤ lock_ms env
unfolding lock_ms
lock_ms-pos env = omega (arith, le-at_least 1 env.minutes 15)

present-some : (ip : String) → ip ≢ "" → present (some ip) ≡ some ip
unfolding present
present-some ip h = ground (arith, eq_iff ip "")

-- the failures counted against an address
abbrev pub fails_of : Map LockState → String → ℕ
fails_of state ip = (or_else (get state ip) fresh).fails

-- The failures of one address at the given times: the final state, and how many locked it.
abbrev pub record_all : Env → Map LockState → String → List ℕ → Map LockState × ℕ
record_all env state ip [] = (state, 0)
record_all env state ip (now ∷ times) =
    let step = record_login_failure env state (some ip) now in
    let rest = record_all env step.0 ip times in (rest.0, if step.1 then rest.1 + 1 else rest.1)

module _ (env : Env) (ip : String) (named : ip ≢ "") where
  record_login_failure_lem :
      (state : Map LockState) (now : ℕ)
      → record_login_failure env state (some ip) now ≡ (
        put state ip (count_failure env (or_else (get state ip) fresh) now).0,
        (count_failure env (or_else (get state ip) fresh) now).1,
      )
  unfolding record_login_failure
  record_login_failure_lem state now = ground (arith, present-some ip named)

  pub get-record_login_failure :
      (state : Map LockState) (now : ℕ) (j : String)
      → get (record_login_failure env state (some ip) now).0 j ≡ (
          if ip == j
          then some (count_failure env (or_else (get state ip) fresh) now).0
          else get state j)
  get-record_login_failure state now j =
      rw (record_login_failure_lem state now) (get-put state ip j _)

  pub fails-record_login_failure :
      (state : Map LockState) (now : ℕ)
      → fails_of state ip < max_attempts env
      → (fails_of (record_login_failure env state (some ip) now).0 ip < max_attempts env)
        × ((if (record_login_failure env state (some ip) now).1 then max_attempts env else 0)
              + fails_of (record_login_failure env state (some ip) now).0 ip
            ≡ fails_of state ip + 1)
  unfolding count_failure
  fails-record_login_failure state now h = ground (
    arith,
    max_attempts-pos env,
    get-record_login_failure state now ip,
    eq_iff ip ip,
    record_login_failure_lem state now,
  )

  -- From fewer counted failures than the limit, any number of further failures of one address
  -- locks it once for each full round of the limit: the locks times the limit plus the failures
  -- still counted are all the failures, and fewer than the limit stay counted.
  pub record_all-locks :
      (state : Map LockState) (times : List ℕ)
      → fails_of state ip < max_attempts env
      → (fails_of (record_all env state ip times).0 ip < max_attempts env)
        × ((record_all env state ip times).1 * max_attempts env
              + fails_of (record_all env state ip times).0 ip
            ≡ fails_of state ip + length times)
  record_all-locks state [] h = omega arith
  record_all-locks state (now ∷ times) h =
      let step = fails-record_login_failure state now h in
      let rest = record_all-locks (record_login_failure env state (some ip) now).0 times step.0 in
      elim (Bool-cases (record_login_failure env state (some ip) now).1) [
        | inl hit ↦ rw hit (ground (arith, rw hit at step))
        | inr miss ↦ rw miss (ground (arith, rw miss at step))
      ]

  -- A failure decides the lock of its address at every later moment: if it reached the limit,
  -- the address is locked exactly until the lock time has passed, with at most that time left on
  -- the count-down; otherwise what the address had stays as it was.
  pub is_login_locked-record_login_failure :
      (state : Map LockState) (now later : ℕ)
      → 0 < later
      → (is_login_locked (record_login_failure env state (some ip) now).0 (some ip) later).locked
        ≡ (if (record_login_failure env state (some ip) now).1
            then leb later (now + lock_ms env)
            else (is_login_locked state (some ip) later).locked)
  unfolding is_login_locked count_failure lock_of
  is_login_locked-record_login_failure state now later h = ground (
    arith,
    present-some ip named,
    get-record_login_failure state now ip,
    eq_iff ip ip,
    record_login_failure_lem state now,
  )

  -- A failure of one address changes the lock of no other.
  pub is_login_locked-record_login_failure_ne :
      (state : Map LockState) (now later : ℕ) (j : String)
      → ip ≢ j
      → is_login_locked (record_login_failure env state (some ip) now).0 (some j) later
        ≡ is_login_locked state (some j) later
  unfolding is_login_locked present
  is_login_locked-record_login_failure_ne state now later j other =
      ground (arith, get-record_login_failure state now j, eq_iff ip j, eq_iff j "")
