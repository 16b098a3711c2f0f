-- ===== src/Auth/Sessions/Moves.antt =====
-- What a request may do to the tables: accounts stay and their versions do not fall, refresh tokens
-- change as `Rows` says, and a passkey-only account keeps a passkey.
use db_backup.Prelude.{
  ℕ, ◌≤◌, String, ◌==◌, ◌≡◌, refl, ◌⊎◌, inl, inr, Bool, true, false, Option, some, List, ◌∷◌, arith,
  eq_iff, ◌∙◌, sym, select, any, Bool-cases, get, put, get-put, or_else, subst,
}
use db_backup.Auth.Sessions.{
  Account, RefreshRow, Accounts, TokenPayload, Issuer, Handling, answered, rejected, committed,
}
use db_backup.Auth.Sessions.Revoking.{cool_down_end}
use db_backup.Auth.Sessions.Passkeys.{owned_by}

-- What a request does to the refresh tokens: it keeps them, deletes some, or adds one that it signs
-- and whose hash is new.
pub data Rows (issuer : Issuer) (now : ℕ) : List RefreshRow → List RefreshRow → Type 0 where
  kept : {rows : List RefreshRow} → Rows issuer now rows rows
  deleted : {rows : List RefreshRow} (p : RefreshRow → Bool) → Rows issuer now rows (select p rows)
  added :
      {rows : List RefreshRow} (payload : TokenPayload) (id : String) (row : RefreshRow)
      → any (λ r. r.token_hash == row.token_hash) rows ≡ false
      → row.token_hash ≡ issuer.sha256 (issuer.sign_refresh payload id now)
      → Rows issuer now rows (row ∷ rows)
  both : {a b c : List RefreshRow} → Rows issuer now a b → Rows issuer now b c → Rows issuer now a c

-- how an account `b` may follow `a`: its cool-down stays or is one that begins now
abbrev pub Follows : ℕ → ℕ → Account → Account → Type 0
Follows lockdown_ms now a b =
    (a.token_version ≤ b.token_version)
    × ((b.user.login_locked_until ≡ a.user.login_locked_until)
        ⊎ (b.user.login_locked_until ≡ cool_down_end lockdown_ms now))

-- a passkey-only account has a passkey
abbrev pub HasWay : Accounts → Type 0
HasWay w =
    (id : String) (a : Account)
    → get w.users id ≡ some a
    → a.user.password_login_disabled ≡ true
    → any (owned_by id) w.passkeys ≡ true

pub record Moves (issuer : Issuer) (lockdown_ms now : ℕ) (w v : Accounts) : Type 0 where
  pub accounts :
      (id : String) (a : Account)
      → get w.users id ≡ some a
      → (b : Account) × (get v.users id ≡ some b) × Follows lockdown_ms now a b
  pub rows : Rows issuer now w.refresh_tokens v.refresh_tokens
  pub ways : HasWay w → HasWay v

module _ (issuer : Issuer) (lockdown_ms now : ℕ) where
  -- neither accounts nor passkeys change
  pub Moves-calm :
      (w v : Accounts)
      → v.users ≡ w.users
      → v.passkeys ≡ w.passkeys
      → Rows issuer now w.refresh_tokens v.refresh_tokens
      → Moves issuer lockdown_ms now w v
  Moves-calm w v users passkeys rows = record {
    accounts = λ id a found. (a, rw users found, (omega arith, inl refl));
    rows = rows;
    ways = λ has id a found only. rw passkeys (has id a (rw (sym users) found) only);
  }

  pub Moves-refl : (w : Accounts) → Moves issuer lockdown_ms now w w
  Moves-refl w = Moves-calm w w refl refl kept

  then_locked :
      {a b c until : Option ℕ}
      → (b ≡ a) ⊎ (b ≡ until)
      → (c ≡ b) ⊎ (c ≡ until)
      → (c ≡ a) ⊎ (c ≡ until)
  then_locked (inl e) (inl f) = inl (f ∙ e)
  then_locked (inr e) (inl f) = inr (f ∙ e)
  then_locked h (inr f) = inr f

  pub Moves-trans :
      (w v u : Accounts)
      → Moves issuer lockdown_ms now w v
      → Moves issuer lockdown_ms now v u
      → Moves issuer lockdown_ms now w u
  Moves-trans w v u first second = record {
    accounts = λ id a found.
        let (b, there, (up, lock)) = first.accounts id a found in
        let (c, later, (up', lock')) = second.accounts id b there in
        (c, later, (omega (arith, up, up'), then_locked lock lock'));
    rows = both first.rows second.rows;
    ways = λ has. second.ways (first.ways has);
  }

  pub Moves-committed :
      {A : Type 0} (w : Accounts) (r : Accounts × Handling A)
      → Moves issuer lockdown_ms now w r.0
      → Moves issuer lockdown_ms now w (committed w r).0
  Moves-committed w (v, answered a) h = h
  Moves-committed w (v, rejected status) h = Moves-refl w

  put-Follows :
      (id : String) (a b : Account) (w : Accounts)
      → get w.users id ≡ some a
      → Follows lockdown_ms now a b
      → (j : String) (c : Account) → get w.users j ≡ some c
      → ((id == j) ≡ true) ⊎ ((id == j) ≡ false)
      → (d : Account) × (get (put w.users id b) j ≡ some d) × Follows lockdown_ms now c d
  put-Follows id a b w found follows j c there (inr other) =
      (c, ground (arith, get-put w.users id j b, there, other), (omega arith, inl refl))
  put-Follows id a b w found follows j c there (inl it) =
      let e : id ≡ j = ground (arith, eq_iff id j, it) in
      let eq : some a ≡ some c = sym found ∙ subst (λ k. get w.users k ≡ some c) (sym e) there in
      (
        b,
        ground (arith, get-put w.users id j b, it),
        subst (λ x. Follows lockdown_ms now (or_else x a) b) eq follows,
      )

  put_way :
      (id : String) (a b : Account) (w : Accounts)
      → get w.users id ≡ some a
      → (b.user.password_login_disabled ≡ true
          → (a.user.password_login_disabled ≡ true) ⊎ (any (owned_by id) w.passkeys ≡ true))
      → HasWay w
      → (j : String) (c : Account) → get (put w.users id b) j ≡ some c
      → c.user.password_login_disabled ≡ true
      → ((id == j) ≡ true) ⊎ ((id == j) ≡ false)
      → any (owned_by j) w.passkeys ≡ true
  put_way id a b w found way has j c there only (inr other) =
      has j c (ground (arith, get-put w.users id j b, there, other)) only
  put_way id a b w found way has j c there only (inl it) =
      let e : id ≡ j = ground (arith, eq_iff id j, it) in
      let eq : some c ≡ some b = ground (arith, get-put w.users id j b, it, there) in
      let off : b.user.password_login_disabled ≡ true =
        subst (λ x. (or_else x c).user.password_login_disabled ≡ true) eq only in
      subst (λ k. any (owned_by k) w.passkeys ≡ true) e
        (elim (way off) [ inl was ↦ has id a found was | inr holds ↦ holds ])

  -- one account changes
  pub Moves-put :
      (id : String) (a b : Account) (w : Accounts)
      → get w.users id ≡ some a
      → Follows lockdown_ms now a b
      → (b.user.password_login_disabled ≡ true
          → (a.user.password_login_disabled ≡ true) ⊎ (any (owned_by id) w.passkeys ≡ true))
      → Moves issuer lockdown_ms now w (record w { users = put w.users id b })
  Moves-put id a b w found follows way = record {
    accounts = λ j c there. put-Follows id a b w found follows j c there (Bool-cases (id == j));
    rows = kept;
    ways =
        λ has j c there only. put_way id a b w found way has j c there only (Bool-cases (id == j));
  }
