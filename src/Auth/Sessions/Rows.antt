-- ===== src/Auth/Sessions/Rows.antt =====
-- What requests keep of the hashes of refresh tokens.
use db_backup.Prelude.{
  ℕ, String, ◌==◌, ◌≡◌, ◌≢◌, refl, inl, inr, Bool, false, List, [], ◌∷◌, map, arith, eq_iff, sym,
  ◌∙◌, select, any, includes, Distinct, Bool-cases,
}
use db_backup.Auth.Sessions.{RefreshRow, TokenPayload, Issuer}
use db_backup.Auth.Sessions.Moves.{Rows, kept, deleted, added, both}

abbrev pub hashes : List RefreshRow → List String
hashes = map (λ r. r.token_hash)

includes-select :
    (p : RefreshRow → Bool) (rows : List RefreshRow) (h : String)
    → includes (hashes rows) h ≡ false
    → includes (hashes (select p rows)) h ≡ false
includes-select p [] h none_in = refl
includes-select p (r ∷ rows) h none_in = ground (arith, none_in, includes-select p rows h)

Distinct-select :
    (p : RefreshRow → Bool) (rows : List RefreshRow)
    → Distinct (hashes rows)
    → Distinct (hashes (select p rows))
Distinct-select p [] d = d
Distinct-select p (r ∷ rows) d = elim (Bool-cases (p r)) [
  | inl stays ↦ rw stays (includes-select p rows r.token_hash d.0, Distinct-select p rows d.1)
  | inr gone ↦ rw gone (Distinct-select p rows d.1)
]

fresh-hash :
    (h : String) (rows : List RefreshRow)
    → any (λ r. r.token_hash == h) rows ≡ false
    → includes (hashes rows) h ≡ false
fresh-hash h [] fresh = refl
fresh-hash h (r ∷ rows) fresh = ground (arith, fresh, fresh-hash h rows)

module _ (issuer : Issuer) (now : ℕ) where
  pub Rows-Distinct :
      (a b : List RefreshRow) → Rows issuer now a b → Distinct (hashes a) → Distinct (hashes b)
  Rows-Distinct a _ kept d = d
  Rows-Distinct a _ (deleted p) d = Distinct-select p a d
  Rows-Distinct a _ (added payload id row fresh signed) d = (fresh-hash row.token_hash a fresh, d)
  Rows-Distinct _ _ (both {a} {b} {c} first second) d =
      Rows-Distinct b c second (Rows-Distinct a b first d)

  -- a hash that no token signed now has does not come back
  pub Rows-absent :
      (h : String) (a b : List RefreshRow)
      → ((payload : TokenPayload) (id : String)
          → issuer.sha256 (issuer.sign_refresh payload id now) ≢ h)
      → Rows issuer now a b
      → includes (hashes a) h ≡ false
      → includes (hashes b) h ≡ false
  Rows-absent h a _ other kept absent = absent
  Rows-absent h a _ other (deleted p) absent = includes-select p a h absent
  Rows-absent h a _ other (added payload id row fresh signed) absent =
      let ne : row.token_hash ≢ h = λ e. other payload id (sym signed ∙ e) in
      ground (arith, absent, eq_iff row.token_hash h, ne)
  Rows-absent h _ _ other (both {a} {b} {c} first second) absent =
      Rows-absent h b c other second (Rows-absent h a b other first absent)
