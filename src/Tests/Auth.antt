-- ===== src/Tests/Auth.antt =====
-- Sign-ins from two addresses.
use db_backup.Prelude.{
  ℕ, ◌+◌, ◌*◌, ◌≤◌, ◌<◌, String, ◌≡◌, ◌≢◌, ◌↔◌, refl, inr, true, false, Option, none, some, List,
  [], ◌∷◌, arith, if◌then◌else◌, ◌==◌, eq_iff, get, put, nan, natural, at_least,
}
use db_backup.Auth.Lockout.{
  Env, max_attempts, lock_ms, is_login_locked, record_login_failure, acct_window_ms, acct_threshold,
  record_account_failure, should_notify_failure, present,
}
use db_backup.Auth.Lockout.Laws.{
  max_attempts-pos, lock_ms-pos, fails_of, record_all, record_all-locks,
}
use db_backup.Auth.Lockout.Alerts.{Spaced, alerts, alerts-Spaced}
use db_backup.Auth.Login.{
  User, Request, AuthState, Turn, arriving, going_on, signed_in, login, let_in, peak,
}
use db_backup.Auth.Login.Laws.{MaySignIn, login-signed_in_iff, guesses}
use db_backup.Auth.Login.Overlap.{IsGuess, let_in-lt}

abbrev defaults : Env
defaults = record { attempts = nan; minutes = nan; threshold = natural 2 }

abbrev home : String
home = "10.0.0.1"

home_named : ◌≢◌ {A = String} "10.0.0.1" ""
home_named = ground (arith, eq_iff "10.0.0.1" "")

four_failures : (record_all defaults [] home (10 ∷ 20 ∷ 30 ∷ 40 ∷ [])).1 ≡ 1
unfolding record_login_failure get put max_attempts lock_ms at_least present
four_failures = refl

abbrev times : List ℕ
times = 10 ∷ 20 ∷ 30 ∷ 40 ∷ []

record_all-locks_example :
    (fails_of (record_all defaults [] home times).0 home < max_attempts defaults)
    × ((record_all defaults [] home times).1 * max_attempts defaults
          + fails_of (record_all defaults [] home times).0 home
        ≡ fails_of [] home + 4)
unfolding get
record_all-locks_example =
    record_all-locks defaults home home_named [] times (omega (arith, max_attempts-pos defaults))

abbrev attack : List (Option String × ℕ)
attack = (some home, 1000000) ∷ (some "10.0.0.2", 1000001) ∷ (some home, 1000002) ∷ []

attack-alerts : alerts defaults [] "a@b.c" attack ≡ 1000001 ∷ []
unfolding record_account_failure get put acct_threshold at_least present
attack-alerts = refl

alerts-Spaced_example : Spaced (acct_window_ms + 1) 0 (alerts defaults [] "a@b.c" attack)
unfolding get
alerts-Spaced_example = alerts-Spaced defaults [] "a@b.c" attack refl (omega arith)

abbrev ann : User
ann = record {
  email = "a@b.c";
  password_hash = "secret";
  is_active = true;
  password_login_disabled = false;
  login_locked_until = none;
}

abbrev find_ann : String → Option User
find_ann email = if email == "a@b.c" then some ann else none

abbrev quiet : AuthState
quiet = record { locks = []; accounts = []; last_notify = [] }

abbrev ask : String → Request
ask password = record { email = "a@b.c"; password = password; ip = some home }

login-signed_in_iff_example :
    ((login defaults find_ann ◌==◌ (ask "secret") 5 quiet).response ≡ signed_in "a@b.c")
    ↔ MaySignIn defaults find_ann ◌==◌ (ask "secret") 5 quiet ann
login-signed_in_iff_example =
    login-signed_in_iff defaults find_ann ◌==◌ (ask "secret") 5 quiet ann refl

abbrev wrong_asks : List (Request × ℕ)
wrong_asks = (ask "a", 10) ∷ (ask "b", 20) ∷ (ask "c", 30) ∷ (ask "d", 40) ∷ []

four_guesses : guesses defaults find_ann ◌==◌ quiet wrong_asks ≡ 3
unfolding login is_login_locked record_login_failure record_account_failure should_notify_failure
    get put max_attempts lock_ms acct_threshold at_least present
four_guesses = refl

-- four requests that all arrive before the first goes on
abbrev crowd : List Turn
crowd =
    arriving (ask "a") 10
    ∷ arriving (ask "b") 11
    ∷ arriving (ask "c") 12
    ∷ arriving (ask "d") 13
    ∷ going_on 3 14
    ∷ going_on 0 15
    ∷ going_on 0 16
    ∷ arriving (ask "e") 17
    ∷ going_on 0 18
    ∷ []

-- more than the limit of three
four_at_once :
    (let_in defaults find_ann ◌==◌ crowd quiet [] ≡ 4)
    × (peak defaults find_ann ◌==◌ crowd quiet [] ≡ 4)
unfolding let_in peak is_login_locked record_login_failure record_account_failure
    should_notify_failure get put max_attempts lock_ms acct_threshold at_least present
four_at_once = (refl, refl)

IsGuess-ask :
    (password : String)
    → (password == "secret") ≡ false
    → IsGuess defaults find_ann ◌==◌ home home_named 10 (omega arith) (ask password)
IsGuess-ask password wrong = (refl, inr (ann, refl, inr wrong))

in_window : (now : ℕ) → 10 ≤ now → now ≤ 18 → (10 ≤ now) × (now ≤ 10 + lock_ms defaults)
in_window now late early = (late, omega (arith, lock_ms-pos defaults))

let_in-lt_example :
    let_in defaults find_ann ◌==◌ crowd quiet [] + fails_of [] home + 0
    < max_attempts defaults + peak defaults find_ann ◌==◌ crowd quiet []
unfolding get
let_in-lt_example =
    let_in-lt defaults find_ann ◌==◌ home home_named 10 (omega arith) crowd quiet []
      (
        (IsGuess-ask "a" refl, in_window 10 (omega arith) (omega arith)),
        (
          (IsGuess-ask "b" refl, in_window 11 (omega arith) (omega arith)),
          (
            (IsGuess-ask "c" refl, in_window 12 (omega arith) (omega arith)),
            (
              (IsGuess-ask "d" refl, in_window 13 (omega arith) (omega arith)),
              (
                in_window 14 (omega arith) (omega arith),
                (
                  in_window 15 (omega arith) (omega arith),
                  (
                    in_window 16 (omega arith) (omega arith),
                    (
                      (IsGuess-ask "e" refl, in_window 17 (omega arith) (omega arith)),
                      (in_window 18 (omega arith) (omega arith), tt),
                    ),
                  ),
                ),
              ),
            ),
          ),
        ),
      )
      tt (omega (arith, max_attempts-pos defaults))
