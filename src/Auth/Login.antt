-- ===== src/Auth/Login.antt =====
-- `login` of server/src/controllers/auth.controller.ts: the password sign-in, over the lock of
-- server/src/services/login-lockout.service.ts. The user table and bcrypt are parameters; the
-- tokens and the texts of the messages are not modelled. The handler reads the lock before it awaits
-- the user and bcrypt, and counts a failure after that: `login` takes a request that no other one
-- comes between, `let_in` takes requests that overlap in any way.
pub mod Laws
pub mod Overlap
use db_backup.Prelude.{
  ℕ, zero, suc, length, ◌+◌, ◌-◌, ◌*◌, ◌/◌, String, Bool, true, false, not, Option, none, some,
  List, [], ◌∷◌, ◌++◌, ltb, if◌then◌else◌, Map,
}
use db_backup.Auth.Lockout.{
  Env, LockState, AcctState, is_login_locked, record_login_failure, clear_login_failures,
  record_account_failure, should_notify_failure,
}

pub record User : Type 0 where
  pub email : String
  pub password_hash : String
  pub is_active : Bool
  pub password_login_disabled : Bool
  pub login_locked_until : Option ℕ

pub record Request : Type 0 where
  pub email : String
  pub password : String
  pub ip : Option String

-- the maps of the lockout service
pub record AuthState : Type 0 where
  pub locks : Map LockState
  pub accounts : Map AcctState
  pub last_notify : Map ℕ

-- the statuses 429, 401, 403, 423 and 200
pub data Response : Type 0 where
  address_locked : (minutes : ℕ) → Response
  invalid_credentials : Response
  passkey_only : Response
  cool_down : (ms : ℕ) → Response
  signed_in : String → Response

-- the audit rows and the alerts, in the order in which they are sent
pub data Event : Type 0 where
  login_ip_locked login_failed login_ip_lockout brute_force_suspect failure_mail : Event
  blocked_passkey_only blocked_lockdown login_recorded login_alert : Event

pub record Reply : Type 0 where
  pub state : AuthState
  pub response : Response
  pub events : List Event

-- the milliseconds left of the cool-down after a password change
unfoldable pub login_lock_remaining : Option ℕ → ℕ → ℕ
login_lock_remaining none now = 0
login_lock_remaining (some until) now = until - now

-- the new locks, and the alert when this failure locked the address
unfoldable pub maybe_lockout : Env → Map LockState → Option String → ℕ → Map LockState × List Event
maybe_lockout env locks ip now =
    let recorded = record_login_failure env locks ip now in
    (recorded.0, if recorded.1 then login_ip_lockout ∷ [] else [])

pub data Turn : Type 0 where
  arriving : Request → ℕ → Turn
  going_on : ℕ → ℕ → Turn

unfoldable pub nth_waiting : ℕ → List Request → Option Request
nth_waiting n [] = none
nth_waiting zero (req ∷ waiting) = some req
nth_waiting (suc n) (req ∷ waiting) = nth_waiting n waiting

unfoldable pub without_nth : ℕ → List Request → List Request
without_nth n [] = []
without_nth zero (req ∷ waiting) = waiting
without_nth (suc n) (req ∷ waiting) = req ∷ without_nth n waiting

module _ (env : Env) (find_user : String → Option User) (matches : String → String → Bool) where
  -- a wrong password of a known user
  unfoldable pub reject : Request → ℕ → AuthState → User → Reply
  unfolding maybe_lockout
  reject req now s user =
      let locked = maybe_lockout env s.locks req.ip now in
      let suspect = record_account_failure env s.accounts user.email req.ip now in
      let mail = should_notify_failure s.last_notify user.email now in
      if suspect.1
      then record {
        state = record s { locks = locked.0; accounts = suspect.0 };
        response = invalid_credentials;
        events = login_failed ∷ locked.1 ++ brute_force_suspect ∷ [];
      }
      else record {
        state = record { locks = locked.0; accounts = suspect.0; last_notify = mail.0 };
        response = invalid_credentials;
        events = login_failed ∷ locked.1 ++ (if mail.1 then failure_mail ∷ [] else []);
      }

  -- the right password
  unfoldable pub accept : Request → ℕ → AuthState → User → Reply
  unfolding login_lock_remaining
  accept req now s user =
      let cleared = record s { locks = clear_login_failures s.locks req.ip } in
      let left = login_lock_remaining user.login_locked_until now in
      if user.password_login_disabled
      then record { state = s; response = passkey_only; events = blocked_passkey_only ∷ [] }
      else if ltb 0 left
      then record { state = cleared; response = cool_down left; events = blocked_lockdown ∷ [] }
      else record {
        state = cleared;
        response = signed_in user.email;
        events = login_recorded ∷ login_alert ∷ [];
      }

  -- an unknown or inactive user
  unfoldable pub refuse : Request → ℕ → AuthState → Reply
  unfolding maybe_lockout
  refuse req now s =
      let locked = maybe_lockout env s.locks req.ip now in
      record {
        state = record s { locks = locked.0 };
        response = invalid_credentials;
        events = login_failed ∷ locked.1;
      }

  unfoldable pub check : Request → ℕ → AuthState → Option User → Reply
  unfolding reject accept refuse
  check req now s none = refuse req now s
  check req now s (some user) =
      if not user.is_active
      then refuse req now s
      else if matches req.password user.password_hash
      then accept req now s user
      else reject req now s user

  -- Up to the first `await`: a request of a locked address is turned away.
  unfoldable pub admit : Request → ℕ → AuthState → Option Reply
  admit req now s =
      let lock = is_login_locked s.locks req.ip now in
      if lock.locked
      then some (record {
        state = s;
        response = address_locked ((lock.seconds_left + 59) / 60);
        events = login_ip_locked ∷ [];
      })
      else none

  -- the whole handler, for a request that no other one comes between
  unfoldable pub login : Request → ℕ → AuthState → Reply
  unfolding admit check
  login req now s = elim (admit req now s) [
    | some reply ↦ reply
    | none ↦ check req now s (find_user req.email)
  ]

  -- The turns of requests that overlap: one arrives, or one that waits for the user and bcrypt goes
  -- on. `let_in` counts those that pass the lock.
  unfoldable pub let_in : List Turn → AuthState → List Request → ℕ
  unfolding admit check nth_waiting without_nth
  let_in [] s waiting = 0
  let_in (arriving req now ∷ turns) s waiting =
      let away = let_in turns s waiting in
      let inside = let_in turns s (req ∷ waiting) in
      elim (admit req now s) [ some reply ↦ away | none ↦ inside + 1 ]
  let_in (going_on n now ∷ turns) s waiting = elim (nth_waiting n waiting) [
    | none ↦ let_in turns s waiting
    | some req ↦ let_in turns (check req now s (find_user req.email)).state (without_nth n waiting)
  ]

  -- the most requests that wait at once
  unfoldable pub peak : List Turn → AuthState → List Request → ℕ
  unfolding admit check nth_waiting without_nth
  peak [] s waiting = length waiting
  peak (arriving req now ∷ turns) s waiting =
      let away = peak turns s waiting in
      let inside = peak turns s (req ∷ waiting) in
      elim (admit req now s) [ some reply ↦ away | none ↦ inside ]
  peak (going_on n now ∷ turns) s waiting = elim (nth_waiting n waiting) [
    | none ↦ peak turns s waiting
    | some req ↦
        let rest =
          peak turns (check req now s (find_user req.email)).state (without_nth n waiting) in
        if ltb rest (length waiting) then length waiting else rest
  ]
