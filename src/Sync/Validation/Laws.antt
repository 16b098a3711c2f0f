-- ===== src/Sync/Validation/Laws.antt =====
-- When a change may be applied.
use db_backup.Prelude.{
  ◌≡◌, ◌↔◌, ◌≢◌, ◌⊎◌, inl, inr, refl, Bool, true, false, not, ◌&&◌, Option, none, some, List, [],
  ◌∷◌, ◌++◌, any, arith,
}
use db_backup.Sync.Values.{is_nullish, Row, Operation, insert, update, delete}
use db_backup.Sync.Validation.{
  Fault, no_errors, null_keys, is_unstorable, invalid_types, validate_data, validate_change,
}

abbrev pub has_null : Row → Bool
has_null = any (λ c. is_nullish c.1)

abbrev pub has_unstorable : Row → Bool
has_unstorable = any (λ c. is_unstorable c.1)

abbrev pub IsApplicable : Operation → Row → Option Row → Type 0
IsApplicable op pk row =
    (pk ≢ [])
    × (has_null pk ≡ false)
    × ((op ≡ delete) ⊎ ((r : Row) × (row ≡ some r) × (r ≢ []) × (has_unstorable r ≡ false)))

no_errors-null_keys : (row : Row) → no_errors (null_keys row) ≡ not (has_null row)
unfolding no_errors null_keys
no_errors-null_keys [] = refl
no_errors-null_keys (c ∷ row) = ground (arith, no_errors-null_keys row)

no_errors-append : (xs ys : List Fault) → no_errors (xs ++ ys) ≡ (no_errors xs && no_errors ys)
unfolding no_errors
no_errors-append [] ys = refl
no_errors-append (x ∷ xs) ys = refl

no_errors-invalid_types : (row : Row) → no_errors (invalid_types row) ≡ not (has_unstorable row)
unfolding no_errors invalid_types is_nullish is_unstorable
no_errors-invalid_types [] = refl
no_errors-invalid_types (c ∷ row) = ground (arith, no_errors-invalid_types row)

nil_of_no_errors : (es : List Fault) → (no_errors es ≡ true) ↔ (es ≡ [])
unfolding no_errors
nil_of_no_errors [] = ground arith
nil_of_no_errors (e ∷ es) = ground arith

written : {P : Type 0} (op : Operation) → ¬ (op ≡ delete) → (op ≡ delete) ⊎ P → P
written op other (inl e) = absurd (other e)
written op other (inr p) = p

validate_data-errors :
    (es : List Fault) (row : Option Row)
    → ((validate_data es row).valid ≡ true) ↔ ((validate_data es row).errors ≡ [])
unfolding validate_data
validate_data-errors [] none = ground arith
validate_data-errors (e ∷ es) none = ground arith
validate_data-errors [] (some []) = ground arith
validate_data-errors (e ∷ es) (some []) = ground arith
validate_data-errors es (some (c ∷ cs)) = nil_of_no_errors (es ++ invalid_types (c ∷ cs))

validate_data-valid :
    (es : List Fault) (row : Option Row)
    → ((validate_data es row).valid ≡ true) ↔ (
        (no_errors es ≡ true)
        × ((r : Row) × (row ≡ some r) × (r ≢ []) × (has_unstorable r ≡ false)))
unfolding validate_data
validate_data-valid es none = ground arith
validate_data-valid es (some []) = ground arith
validate_data-valid es (some (c ∷ cs)) =
    let parts = no_errors-append es (invalid_types (c ∷ cs)) in
    let types = no_errors-invalid_types (c ∷ cs) in
    (
      λ v. (ground arith, (c ∷ cs, refl, ground arith, ground arith)),
      λ (clean, (r, same, full, fine)). ground (arith, same),
    )

-- A change is valid exactly when its primary key has a column, none of them null, and it is a
-- deletion or carries a row with a column and no function or symbol in it; and a change is valid
-- exactly when no fault is reported.
pub validate_change-valid_iff :
    (op : Operation) (pk : Row) (row : Option Row)
    → (((validate_change op pk row).valid ≡ true) ↔ IsApplicable op pk row)
      × (((validate_change op pk row).valid ≡ true) ↔ ((validate_change op pk row).errors ≡ []))
unfolding validate_change no_errors
validate_change-valid_iff op [] row = ground arith
validate_change-valid_iff delete (k ∷ ks) row =
    ground (arith, no_errors-null_keys (k ∷ ks), nil_of_no_errors (null_keys (k ∷ ks)))
validate_change-valid_iff insert (k ∷ ks) row =
    let checked = validate_data-valid (null_keys (k ∷ ks)) row in
    let clean = no_errors-null_keys (k ∷ ks) in
    (
      (
        λ v. (ground arith, ground (arith, checked.0 v), inr (checked.0 v).1),
        λ a. checked.1 (ground arith, written insert (λ e. cc) a.2),
      ),
      validate_data-errors (null_keys (k ∷ ks)) row,
    )
validate_change-valid_iff update (k ∷ ks) row =
    let checked = validate_data-valid (null_keys (k ∷ ks)) row in
    let clean = no_errors-null_keys (k ∷ ks) in
    (
      (
        λ v. (ground arith, ground (arith, checked.0 v), inr (checked.0 v).1),
        λ a. checked.1 (ground arith, written update (λ e. cc) a.2),
      ),
      validate_data-errors (null_keys (k ∷ ks)) row,
    )
