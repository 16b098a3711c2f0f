-- ===== src/Auth/Lockout.antt =====
-- server/src/services/login-lockout.service.ts: the lock of an address after failed sign-ins, the
-- detector of attacks from several addresses, and the throttle of failure mails. The in-memory
-- maps are arguments and results; `now` is what `Date.now()` returns, in milliseconds.
pub mod Laws
pub mod Alerts
use db_backup.Prelude.{
  ℕ, ◌+◌, ◌-◌, ◌*◌, ◌/◌, String, Bool, true, false, ◌&&◌, ◌||◌, Option, none, some, List, [], ltb,
  leb, if◌then◌else◌, ◌==◌, length, add, Map, get, put, remove, or_else, ParsedInt, at_least,
}

-- LOGIN_LOCKOUT_ATTEMPTS, LOGIN_LOCKOUT_MINUTES, LOGIN_CROSS_IP_ALERT_THRESHOLD as they are parsed
pub record Env : Type 0 where
  pub attempts : ParsedInt
  pub minutes : ParsedInt
  pub threshold : ParsedInt

unfoldable pub max_attempts : Env → ℕ
max_attempts env = at_least 1 env.attempts 3

unfoldable pub lock_ms : Env → ℕ
lock_ms env = at_least 1 env.minutes 15 * 60 * 1000

pub record LockState : Type 0 where
  pub fails : ℕ
  pub locked_until : ℕ

abbrev pub fresh : LockState
fresh = record { fails = 0; locked_until = 0 }

-- `if (!ip)` is true of `undefined` and of the empty text
unfoldable pub present : Option String → Option String
present none = none
present (some ip) = if ip == "" then none else some ip

pub record Lock : Type 0 where
  pub locked : Bool
  pub seconds_left : ℕ

abbrev pub unlocked : Lock
unlocked = record { locked = false; seconds_left = 0 }

unfoldable pub lock_of : Option LockState → ℕ → Lock
lock_of none now = unlocked
lock_of (some s) now =
    if ltb s.locked_until now
    then unlocked
    else record { locked = true; seconds_left = (s.locked_until - now + 999) / 1000 }

unfoldable pub is_login_locked : Map LockState → Option String → ℕ → Lock
unfolding lock_of
is_login_locked state ip now = elim (present ip) [
  | none ↦ unlocked
  | some k ↦ lock_of (get state k) now
]

-- `s.fails += 1`, and the lock when that reaches the limit
unfoldable pub count_failure : Env → LockState → ℕ → LockState × Bool
count_failure env s now =
    if leb (max_attempts env) (s.fails + 1)
    then (record { fails = 0; locked_until = now + lock_ms env }, true)
    else (record s { fails = s.fails + 1 }, false)

unfoldable pub record_login_failure : Env → Map LockState → Option String → ℕ → Map LockState × Bool
unfolding count_failure
record_login_failure env state ip now = elim (present ip) [
  | none ↦ (state, false)
  | some k ↦
      let counted = count_failure env (or_else (get state k) fresh) now in
      (put state k counted.0, counted.1)
]

unfoldable pub clear_login_failures : Map LockState → Option String → Map LockState
clear_login_failures state ip = elim (present ip) [ none ↦ state | some k ↦ remove state k ]

abbrev pub acct_window_ms : ℕ
acct_window_ms = 900000

unfoldable pub acct_threshold : Env → ℕ
acct_threshold env = at_least 2 env.threshold 10

pub record AcctState : Type 0 where
  pub window_start : ℕ
  pub count : ℕ
  pub ips : List String
  pub last_alert_at : ℕ

abbrev pub acct_fresh : ℕ → AcctState
acct_fresh now = record { window_start = now; count = 0; ips = []; last_alert_at = 0 }

-- the entry of the account, or a new window where there is none or it has run out
unfoldable pub acct_current : Option AcctState → ℕ → AcctState
acct_current none now = acct_fresh now
acct_current (some s) now = if ltb acct_window_ms (now - s.window_start) then acct_fresh now else s

unfoldable pub add_ip : List String → Option String → List String
add_ip ips none = ips
add_ip ips (some ip) = add ips ip

-- one failure against the account: the new entry, and whether it raises the alert
unfoldable pub count_account : Env → AcctState → Option String → ℕ → AcctState × Bool
unfolding add_ip
count_account env s ip now =
    let n = s.count + 1 in
    let ips = add_ip s.ips (present ip) in
    if leb (acct_threshold env) n
      && leb 2 (length ips)
      && ltb acct_window_ms (now - s.last_alert_at)
    then (record { window_start = now; count = 0; ips = []; last_alert_at = now }, true)
    else (record s { count = n; ips = ips }, false)

unfoldable pub record_account_failure :
    Env → Map AcctState → String → Option String → ℕ → Map AcctState × Bool
unfolding count_account acct_current
record_account_failure env accounts email ip now =
    let counted = count_account env (acct_current (get accounts email) now) ip now in
    (put accounts email counted.0, counted.1)

abbrev pub failure_notify_interval_ms : ℕ
failure_notify_interval_ms = 300000

unfoldable pub should_notify_failure : Map ℕ → String → ℕ → Map ℕ × Bool
should_notify_failure last email now =
    if ltb (now - or_else (get last email) 0) failure_notify_interval_ms
    then (last, false)
    else (put last email now, true)
