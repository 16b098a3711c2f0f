-- ===== src/Sync/Schema/Laws.antt =====
-- When two schemas are compatible, and when the verdict on them is valid.
use db_backup.Prelude.{
  String, ◌≡◌, refl, ◌∙◌, Bool, true, false, not, ◌&&◌, ◌||◌, none, some, List, [], ◌∷◌, ◌++◌,
  arith, map, Option-cases, inl, inr,
}
use db_backup.Sync.Schema.Types.{check_type_compatibility}
use db_backup.Sync.Schema.{
  ColumnInfo, TableInfo, ColumnMismatch, TypeMismatch, SchemaComparison, type_message, find_column,
  find_table, same_bool, nullable_issues, type_issues, compare_columns, extra_columns,
  compare_table_columns, add_comparison, compare_tables, tables_to_check, compare_schemas, is_nil,
  is_compatible, missing_errors, column_errors, validate_schema_compatibility,
}

abbrev pub all {ℓ} : {A : Type ℓ} → (A → Bool) → List A → Bool
all p [] = true
all p (x ∷ xs) = p x && all p xs

-- a column of the source that the target has alike
abbrev pub agrees : (String → String) → Bool → List ColumnInfo → ColumnInfo → Bool
agrees normalize_type strict targets s = elim (find_column targets s.name) [
  | none ↦ false
  | some t ↦
      (same_bool s.nullable t.nullable || not strict)
      && check_type_compatibility normalize_type s.type_name t.type_name
]

abbrev pub is_known : List ColumnInfo → ColumnInfo → Bool
is_known sources t = elim (find_column sources t.name) [ none ↦ false | some s ↦ true ]

-- A table that the source lacks agrees. If strict, columns agree on null too and none is extra.
abbrev pub table_agrees : (String → String) → Bool → List TableInfo → List TableInfo → String → Bool
table_agrees normalize_type strict sources targets name = elim (find_table sources name) [
  | none ↦ true
  | some s ↦ elim (find_table targets name) [
    | none ↦ false
    | some t ↦
        all (agrees normalize_type strict t.columns) s.columns
        && (all (is_known s.columns) t.columns || not strict)
  ]
]

is_nil-append {ℓ} : {A : Type ℓ} (xs ys : List A) → is_nil (xs ++ ys) ≡ (is_nil xs && is_nil ys)
is_nil-append [] ys = refl
is_nil-append (x ∷ xs) ys = refl

column_errors-append :
    (xs ys : List ColumnMismatch) → column_errors (xs ++ ys) ≡ column_errors xs ++ column_errors ys
unfolding column_errors
column_errors-append [] ys = refl
column_errors-append (x ∷ xs) ys = ground (arith, column_errors-append xs ys)

is_nil-map {ℓ κ} :
    {A : Type ℓ} {B : Type κ} (f : A → B) (xs : List A) → is_nil (map f xs) ≡ is_nil xs
is_nil-map f [] = refl
is_nil-map f (x ∷ xs) = refl

-- no issue at all, and no error
abbrev clean : List ColumnMismatch × List TypeMismatch → Bool
clean p = is_nil p.0 && is_nil p.1

abbrev no_error : List ColumnMismatch × List TypeMismatch → Bool
no_error p = is_nil (column_errors p.0) && is_nil p.1

module _ (normalize_type : String → String) where
  compare_columns-clean :
      (table : String) (targets ss : List ColumnInfo)
      → (clean (compare_columns normalize_type table targets ss)
          ≡ all (agrees normalize_type true targets) ss)
        × (no_error (compare_columns normalize_type table targets ss)
            ≡ all (agrees normalize_type false targets) ss)
  unfolding compare_columns nullable_issues type_issues column_errors
  compare_columns-clean table targets [] = (refl, refl)
  compare_columns-clean table targets (s ∷ ss) = elim (Option-cases (find_column targets s.name)) [
    | inl missing ↦ ground (arith, missing)
    | inr (t, known) ↦
        let rest = compare_columns-clean table targets ss in ground (arith, known, rest)
  ]

  extra_columns-clean :
      (table : String) (sources ts : List ColumnInfo)
      → (is_nil (extra_columns normalize_type table sources ts) ≡ all (is_known sources) ts)
        × (column_errors (extra_columns normalize_type table sources ts) ≡ [])
  unfolding extra_columns column_errors
  extra_columns-clean table sources [] = (refl, refl)
  extra_columns-clean table sources (t ∷ ts) = elim (Option-cases (find_column sources t.name)) [
    | inl missing ↦ ground (arith, missing, extra_columns-clean table sources ts)
    | inr (s, known) ↦ ground (arith, known, extra_columns-clean table sources ts)
  ]

  compare_table_columns-clean :
      (s t : TableInfo)
      → (clean (compare_table_columns normalize_type s t) ≡ (
          all (agrees normalize_type true t.columns) s.columns
          && (all (is_known s.columns) t.columns || false)))
        × (no_error (compare_table_columns normalize_type s t) ≡ (
            all (agrees normalize_type false t.columns) s.columns
            && (all (is_known s.columns) t.columns || true)))
  unfolding compare_table_columns
  compare_table_columns-clean s t =
      let columns = compare_columns-clean s.name t.columns s.columns in
      let extra = extra_columns-clean s.name s.columns t.columns in
      let found = (compare_columns normalize_type s.name t.columns s.columns).0 in
      let more = extra_columns normalize_type s.name s.columns t.columns in
      (
        ground (arith, columns.0, extra.0, is_nil-append found more),
        ground (
          arith,
          columns.1,
          extra.1,
          column_errors-append found more,
          is_nil-append (column_errors found) (column_errors more),
        ),
      )

is_valid : SchemaComparison → Bool
is_valid c =
    is_nil c.missing_tables
    && is_nil (column_errors c.column_mismatches)
    && is_nil c.type_mismatches

missing_errors-nil : (names : List String) → is_nil (missing_errors names) ≡ is_nil names
unfolding missing_errors
missing_errors-nil [] = refl
missing_errors-nil (n ∷ names) = refl

is_valid_lem : (c : SchemaComparison) → (validate_schema_compatibility c).valid ≡ is_valid c
unfolding validate_schema_compatibility is_valid
is_valid_lem c =
    let tables = missing_errors c.missing_tables in
    let columns = column_errors c.column_mismatches in
    ground (
      arith,
      is_nil-append (tables ++ columns) (map type_message c.type_mismatches),
      is_nil-append tables columns,
      missing_errors-nil c.missing_tables,
      is_nil-map type_message c.type_mismatches,
    )

add_comparison-clean :
    (p : List ColumnMismatch × List TypeMismatch) (c : SchemaComparison)
    → (is_compatible (add_comparison p c) ≡ (clean p && is_compatible c))
      × (is_valid (add_comparison p c) ≡ (no_error p && is_valid c))
unfolding add_comparison is_compatible is_valid
add_comparison-clean (columns, types) c = (
  ground (arith, is_nil-append columns c.column_mismatches, is_nil-append types c.type_mismatches),
  ground (
    arith,
    column_errors-append columns c.column_mismatches,
    is_nil-append (column_errors columns) (column_errors c.column_mismatches),
    is_nil-append types c.type_mismatches,
  ),
)

nothing_compared :
    let c : SchemaComparison = record {
      missing_tables = [];
      column_mismatches = [];
      type_mismatches = [];
    } in
    (is_compatible c ≡ true) × (is_valid c ≡ true)
unfolding is_compatible is_valid column_errors
nothing_compared = (refl, refl)

missing_table-clean :
    (name : String) (c : SchemaComparison)
    → let c' : SchemaComparison = record c { missing_tables = name ∷ c.missing_tables } in
      (is_compatible c' ≡ false) × (is_valid c' ≡ false)
unfolding is_compatible is_valid
missing_table-clean name c = (refl, refl)

module _ (normalize_type : String → String) (sources targets : List TableInfo) where
  compare_tables-clean :
      (names : List String)
      → (is_compatible (compare_tables normalize_type sources targets names)
          ≡ all (table_agrees normalize_type true sources targets) names)
        × (is_valid (compare_tables normalize_type sources targets names)
            ≡ all (table_agrees normalize_type false sources targets) names)
  unfolding compare_tables
  compare_tables-clean [] = nothing_compared
  compare_tables-clean (name ∷ names) =
      let rest = compare_tables-clean names in
      elim (Option-cases (find_table sources name)) [
        | inl absent ↦ ground (arith, absent, rest)
        | inr (s, known) ↦ elim (Option-cases (find_table targets name)) [
          | inl missing ↦
              let without =
                missing_table-clean name (compare_tables normalize_type sources targets names) in
              ground (arith, known, missing, without)
          | inr (t, both) ↦
              let table = compare_table_columns-clean normalize_type s t in
              let sum =
                add_comparison-clean (compare_table_columns normalize_type s t)
                  (compare_tables normalize_type sources targets names) in
              ground (arith, known, both, rest, table, sum)
        ]
      ]

  -- Schemas are compatible exactly when every table to check that the source has stands in the target
  -- with the same columns, alike in null and compatible in type; their verdict is valid exactly when
  -- the target has every such table with every column of the source in a compatible type. Tables that
  -- the source lacks count as neither.
  pub compare_schemas-agrees :
      (tables : List String)
      → (is_compatible (compare_schemas normalize_type sources targets tables)
          ≡ all (table_agrees normalize_type true sources targets) (tables_to_check sources tables))
        × ((validate_schema_compatibility
              (compare_schemas normalize_type sources targets tables)).valid
            ≡ all
                (table_agrees normalize_type false sources targets)
                (tables_to_check sources tables))
  unfolding compare_schemas
  compare_schemas-agrees tables =
      let names = tables_to_check sources tables in
      let both = compare_tables-clean names in
      (both.0, is_valid_lem (compare_tables normalize_type sources targets names) ∙ both.1)
