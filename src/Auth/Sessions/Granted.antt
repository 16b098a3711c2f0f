-- ===== src/Auth/Sessions/Granted.antt =====
-- What holds after a request that is answered, and what a new session is.
use db_backup.Prelude.{
  String, ◌==◌, ◌≡◌, refl, inl, inr, Bool, true, false, none, some, ◌∷◌, any, if◌then◌else◌,
  Bool-cases,
}
use db_backup.Auth.Sessions.{
  Account, Accounts, TokenPayload, Issuer, Moment, Grant, Handling, answered, rejected, row_of,
  create_token, open_session, committed,
}

-- what holds of an answer and the state after it
abbrev pub Granted : {A : Type 0} → (A → Accounts → Type 0) → Accounts × Handling A → Type 0
Granted P (v, answered a) = P a v
Granted P (v, rejected status) = Unit

pub if-Granted :
    {A : Type 0} (P : A → Accounts → Type 0) (b : Bool) (x y : Accounts × Handling A)
    → Granted P x
    → Granted P y
    → Granted P (if b then x else y)
if-Granted P true x y h k = h
if-Granted P false x y h k = k

pub Granted-implies :
    {A : Type 0} (P Q : A → Accounts → Type 0) (r : Accounts × Handling A)
    → ((a : A) (v : Accounts) → P a v → Q a v)
    → Granted P r
    → Granted Q r
Granted-implies P Q (v, answered a) f h = f a v h
Granted-implies P Q (v, rejected status) f h = tt

pub Granted-committed :
    {A : Type 0} (P : A → Accounts → Type 0) (w : Accounts) (r : Accounts × Handling A)
    → Granted P r
    → Granted P (committed w r)
Granted-committed P w (v, answered a) h = h
Granted-committed P w (v, rejected status) h = tt

-- the payload of an access token of the account
abbrev pub payload_of : String → Account → TokenPayload
payload_of id a = record {
  user_id = id;
  email = a.user.email;
  token_version = some a.token_version;
}

-- the session `g` of the account, whose refresh token has got a row
abbrev pub Opened : Issuer → Moment → String → Account → Accounts → Grant → Accounts → Type 0
Opened issuer m id a w g v =
    (g.user_id ≡ id)
    × (g.access_token ≡ issuer.sign_access (payload_of id a) m.now)
    × (v ≡ record w { refresh_tokens = row_of issuer m id g.refresh_token ∷ w.refresh_tokens })

pub open_session-Opened :
    (issuer : Issuer) (m : Moment) (id : String) (a : Account) (w : Accounts)
    → Granted (Opened issuer m id a w) (open_session issuer m id a w)
unfolding open_session create_token
open_session-Opened issuer m id a w =
    let row = row_of issuer m id (
      issuer.sign_refresh (record { user_id = id; email = a.user.email; token_version = none })
        m.jwt_id m.now) in
    elim (Bool-cases (any (λ r. r.token_hash == row.token_hash) w.refresh_tokens)) [
      | inl taken ↦ rw (open_session, create_token, taken) tt
      | inr fresh ↦ rw (open_session, create_token, fresh) (refl, refl, refl)
    ]
