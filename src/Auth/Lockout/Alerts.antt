-- ===== src/Auth/Lockout/Alerts.antt =====
-- The alerts of server/src/services/login-lockout.service.ts over sequences of failures: the
-- detector of attacks from several addresses, and the throttle of failure mails.
use db_backup.Prelude.{
  ℕ, ◌+◌, ◌≤◌, ◌<◌, String, ◌≡◌, refl, true, false, Option, none, some, List, [], ◌∷◌, arith,
  if◌then◌else◌, eq_iff, Map, get, or_else, get-put, Bool-cases, inl, inr, ◌⊎◌, map,
}
use db_backup.Auth.Lockout.{
  Env, present, AcctState, acct_window_ms, acct_current, count_account, record_account_failure,
  failure_notify_interval_ms, should_notify_failure,
}

-- Each time is at least `gap` after the one before it, the first after `last`.
abbrev pub Spaced : ℕ → ℕ → List ℕ → Type 0
Spaced gap last [] = Unit
Spaced gap last (t ∷ ts) = (last + gap ≤ t) × Spaced gap t ts

abbrev pub Sorted : ℕ → List (Option String × ℕ) → Type 0
Sorted last [] = Unit
Sorted last (e ∷ es) = (last ≤ e.1) × Sorted e.1 es

-- the times at which a failure mail for the account is sent
abbrev pub notified : Map ℕ → String → List ℕ → List ℕ
notified last email [] = []
notified last email (now ∷ times) =
    let step = should_notify_failure last email now in
    let rest = notified step.0 email times in if step.1 then now ∷ rest else rest

-- Whatever the times of the failures, two mails about one account are at least the interval apart.
pub notified-Spaced :
    (last : Map ℕ) (email : String) (times : List ℕ)
    → Spaced failure_notify_interval_ms (or_else (get last email) 0) (notified last email times)
unfolding should_notify_failure
notified-Spaced last email [] = tt
notified-Spaced last email (now ∷ times) = ground (
  arith,
  notified-Spaced (should_notify_failure last email now).0 email times,
  get-put last email email now,
  eq_iff email email,
)

-- the times at which failures against the account raise the alert
abbrev pub alerts : Env → Map AcctState → String → List (Option String × ℕ) → List ℕ
alerts env accounts email [] = []
alerts env accounts email (e ∷ es) =
    let step = record_account_failure env accounts email e.0 e.1 in
    let rest = alerts env step.0 email es in if step.1 then e.1 ∷ rest else rest

get-record_account_failure :
    (env : Env) (accounts : Map AcctState) (email : String) (ip : Option String) (now : ℕ)
    → get (record_account_failure env accounts email ip now).0 email
      ≡ some (count_account env (acct_current (get accounts email) now) ip now).0
unfolding record_account_failure
get-record_account_failure env accounts email ip now = ground (
  arith,
  get-put accounts email email (count_account env (acct_current (get accounts email) now) ip now).0,
  eq_iff email email,
)

-- the alert at `last` was the latest, seen from the entry of the account
abbrev pub Since : ℕ → ℕ → Option AcctState → Type 0
Since last now none = last ≡ 0
Since last now (some s) =
    (last ≤ s.window_start)
    × (s.window_start ≤ now)
    × ((s.last_alert_at ≡ last) ⊎ (last + acct_window_ms < s.window_start))

module _ (env : Env) (last before now : ℕ) (ip : Option String) (le : before ≤ now) where
  Since-count_alert :
      (o : Option AcctState)
      → Since last before o
      → (count_account env (acct_current o now) ip now).1 ≡ true
      → (last + (acct_window_ms + 1) ≤ now)
        × Since now now (some (count_account env (acct_current o now) ip now).0)
  unfolding count_account acct_current
  Since-count_alert none h hit = ground arith
  Since-count_alert (some s) h hit = ground arith

  Since-count_quiet :
      (o : Option AcctState)
      → Since last before o
      → (count_account env (acct_current o now) ip now).1 ≡ false
      → Since last now (some (count_account env (acct_current o now) ip now).0)
  unfolding count_account acct_current
  Since-count_quiet none h hit = ground arith
  Since-count_quiet (some s) h hit = ground arith

alerts-Spaced-Since :
    (env : Env) (last before : ℕ) (accounts : Map AcctState) (email : String)
    (es : List (Option String × ℕ))
    → Since last before (get accounts email)
    → Sorted before es
    → Spaced (acct_window_ms + 1) last (alerts env accounts email es)
unfolding record_account_failure
alerts-Spaced-Since env last before accounts email [] h sorted = tt
alerts-Spaced-Since env last before accounts email ((ip, now) ∷ es) h sorted =
    let o = get accounts email in
    let next = (record_account_failure env accounts email ip now).0 in
    let stored = get-record_account_failure env accounts email ip now in
    elim (Bool-cases (count_account env (acct_current o now) ip now).1) [
      | inl hit ↦
          let since = Since-count_alert env last before now ip sorted.0 o h hit in
          rw hit
            (since.0, alerts-Spaced-Since env now now next email es (rw stored since.1) sorted.1)
      | inr quiet ↦
          let since = Since-count_quiet env last before now ip sorted.0 o h quiet in
          rw quiet (alerts-Spaced-Since env last now next email es (rw stored since) sorted.1)
    ]

-- On an account with no entry yet, and failures in the order of their times: two brute-force
-- alerts are more than the window of 15 minutes apart, and none comes in the first 15 minutes of
-- the clock.
pub alerts-Spaced :
    (env : Env) (accounts : Map AcctState) (email : String) (es : List (Option String × ℕ))
    → get accounts email ≡ none
    → Sorted 0 es
    → Spaced (acct_window_ms + 1) 0 (alerts env accounts email es)
alerts-Spaced env accounts email es unknown sorted =
    alerts-Spaced-Since env 0 0 accounts email es (rw unknown refl) sorted

-- the entry has seen no other address than `ip`
abbrev pub Only : String → Option AcctState → Type 0
Only ip none = Unit {0}
Only ip (some s) = (s.ips ≡ []) ⊎ (s.ips ≡ ip ∷ [])

Only-count :
    (env : Env) (ip : String) (now : ℕ) (o : Option AcctState)
    → Only ip o
    → ((count_account env (acct_current o now) (some ip) now).1 ≡ false)
      × Only ip (some (count_account env (acct_current o now) (some ip) now).0)
unfolding count_account acct_current present
Only-count env ip now none h = ground (arith, eq_iff ip ip, eq_iff ip "")
Only-count env ip now (some s) h = ground (arith, eq_iff ip ip, eq_iff ip "")

-- Failures from a single address never raise the brute-force alert, however many they are.
pub alerts-single_address :
    (env : Env) (accounts : Map AcctState) (email ip : String) (times : List ℕ)
    → Only ip (get accounts email)
    → alerts env accounts email (map (λ t. (some ip, t)) times) ≡ []
unfolding record_account_failure
alerts-single_address env accounts email ip [] h = refl
alerts-single_address env accounts email ip (now ∷ times) h =
    let one = Only-count env ip now (get accounts email) h in
    let next = (record_account_failure env accounts email (some ip) now).0 in
    let stored = get-record_account_failure env accounts email (some ip) now in
    rw one.0 (alerts-single_address env next email ip times (rw stored one.1))
