-- ===== src/Sync/Schema.antt =====
-- SchemaValidatorService of server/src/services/sync/schema-validator.service.ts: the comparison of
-- two schemas and its verdict. The catalogs that the engines answer are arguments, and what
-- normalizeType makes of the text of a type is a parameter.
pub mod Types
pub mod Laws
use db_backup.Prelude.{
  ℕ, String, Bool, true, false, not, ◌&&◌, Option, none, some, List, [], ◌∷◌, ◌++◌, if◌then◌else◌,
  ◌==◌, map, includes,
}
use db_backup.Sync.Schema.Types.{check_type_compatibility}

pub record ColumnInfo : Type 0 where
  pub name : String
  pub type_name : String
  pub nullable : Bool
  pub is_primary_key : Bool
  pub default_value : Option String
  pub auto_increment : Bool

pub record TableInfo : Type 0 where
  pub name : String
  pub columns : List ColumnInfo

pub data Issue : Type 0 where
  column_missing nullable_mismatch extra_column : Issue

pub record ColumnMismatch : Type 0 where
  pub table_name : String
  pub column_name : String
  pub source_type : String
  pub target_type : String
  pub source_nullable : Bool
  pub target_nullable : Bool
  pub issue : Issue

pub record TypeMismatch : Type 0 where
  pub table_name : String
  pub column_name : String
  pub source_type : String
  pub target_type : String

pub record SchemaComparison : Type 0 where
  pub missing_tables : List String
  pub column_mismatches : List ColumnMismatch
  pub type_mismatches : List TypeMismatch

-- `columns.find((c) => c.name === name)`
unfoldable pub find_column : List ColumnInfo → String → Option ColumnInfo
find_column [] name = none
find_column (c ∷ cs) name = if c.name == name then some c else find_column cs name

unfoldable pub find_table : List TableInfo → String → Option TableInfo
find_table [] name = none
find_table (t ∷ ts) name = if t.name == name then some t else find_table ts name

abbrev pub same_bool : Bool → Bool → Bool
same_bool true b = b
same_bool false b = not b

abbrev pub missing_column : String → ColumnInfo → ColumnMismatch
missing_column table s = record {
  table_name = table;
  column_name = s.name;
  source_type = s.type_name;
  target_type = "MISSING";
  source_nullable = s.nullable;
  target_nullable = false;
  issue = column_missing;
}

abbrev pub nullable_differs : String → ColumnInfo → ColumnInfo → ColumnMismatch
nullable_differs table s t = record {
  table_name = table;
  column_name = s.name;
  source_type = s.type_name;
  target_type = t.type_name;
  source_nullable = s.nullable;
  target_nullable = t.nullable;
  issue = nullable_mismatch;
}

abbrev pub extra : String → ColumnInfo → ColumnMismatch
extra table t = record {
  table_name = table;
  column_name = t.name;
  source_type = "MISSING";
  target_type = t.type_name;
  source_nullable = false;
  target_nullable = t.nullable;
  issue = extra_column;
}

unfoldable pub add_comparison :
    List ColumnMismatch × List TypeMismatch → SchemaComparison → SchemaComparison
add_comparison (columns, types) c = record c {
  column_mismatches = columns ++ c.column_mismatches;
  type_mismatches = types ++ c.type_mismatches;
}

unfoldable pub tables_to_check : List TableInfo → List String → List String
tables_to_check sources [] = map (λ t. t.name) sources
tables_to_check sources (name ∷ names) = name ∷ names

module _ (normalize_type : String → String) where
  -- one column that both tables have
  unfoldable pub nullable_issues : String → ColumnInfo → ColumnInfo → List ColumnMismatch
  nullable_issues table s t =
      if same_bool s.nullable t.nullable then [] else nullable_differs table s t ∷ []

  unfoldable pub type_issues : String → ColumnInfo → ColumnInfo → List TypeMismatch
  unfolding check_type_compatibility
  type_issues table s t =
      if check_type_compatibility normalize_type s.type_name t.type_name
      then []
      else record {
        table_name = table;
        column_name = s.name;
        source_type = s.type_name;
        target_type = t.type_name;
      }
        ∷ []

  -- the loop over the source's columns
  unfoldable pub compare_columns :
      String → List ColumnInfo → List ColumnInfo → List ColumnMismatch × List TypeMismatch
  unfolding find_column nullable_issues type_issues
  compare_columns table targets [] = ([], [])
  compare_columns table targets (s ∷ ss) =
      let (columns, types) = compare_columns table targets ss in
      elim (find_column targets s.name) [
        | none ↦ (missing_column table s ∷ columns, types)
        | some t ↦ (nullable_issues table s t ++ columns, type_issues table s t ++ types)
      ]

  -- the loop over the target's columns
  unfoldable pub extra_columns : String → List ColumnInfo → List ColumnInfo → List ColumnMismatch
  unfolding find_column
  extra_columns table sources [] = []
  extra_columns table sources (t ∷ ts) = elim (find_column sources t.name) [
    | none ↦ extra table t ∷ extra_columns table sources ts
    | some s ↦ extra_columns table sources ts
  ]

  unfoldable pub compare_table_columns :
      TableInfo → TableInfo → List ColumnMismatch × List TypeMismatch
  unfolding compare_columns extra_columns
  compare_table_columns s t =
      let (columns, types) = compare_columns s.name t.columns s.columns in
      (columns ++ extra_columns s.name s.columns t.columns, types)

  -- the loop over the tables to check
  unfoldable pub compare_tables : List TableInfo → List TableInfo → List String → SchemaComparison
  unfolding find_table compare_table_columns add_comparison
  compare_tables sources targets [] = record {
    missing_tables = [];
    column_mismatches = [];
    type_mismatches = [];
  }
  compare_tables sources targets (name ∷ names) =
      let rest = compare_tables sources targets names in
      elim (find_table sources name) [
        | none ↦ rest
        | some s ↦ elim (find_table targets name) [
          | none ↦ record rest { missing_tables = name ∷ rest.missing_tables }
          | some t ↦ add_comparison (compare_table_columns s t) rest
        ]
      ]

  unfoldable pub compare_schemas : List TableInfo → List TableInfo → List String → SchemaComparison
  unfolding compare_tables tables_to_check
  compare_schemas sources targets tables =
      compare_tables sources targets (tables_to_check sources tables)

abbrev pub is_nil {ℓ} : {A : Type ℓ} → List A → Bool
is_nil [] = true
is_nil (x ∷ xs) = false

unfoldable pub is_compatible : SchemaComparison → Bool
is_compatible c = is_nil c.missing_tables && is_nil c.column_mismatches && is_nil c.type_mismatches

-- the texts of the messages are left out
pub data Message : Type 0 where
  tables_missing : List String → Message
  column_message : ColumnMismatch → Message
  type_message : TypeMismatch → Message

pub record ValidationResult : Type 0 where
  pub valid : Bool
  pub errors : List Message
  pub warnings : List Message

unfoldable pub missing_errors : List String → List Message
missing_errors [] = []
missing_errors (name ∷ names) = tables_missing (name ∷ names) ∷ []

abbrev pub is_missing_column : Issue → Bool
is_missing_column column_missing = true
is_missing_column nullable_mismatch = false
is_missing_column extra_column = false

unfoldable pub column_errors : List ColumnMismatch → List Message
column_errors [] = []
column_errors (m ∷ ms) =
    if is_missing_column m.issue then column_message m ∷ column_errors ms else column_errors ms

unfoldable pub column_warnings : List ColumnMismatch → List Message
column_warnings [] = []
column_warnings (m ∷ ms) =
    if is_missing_column m.issue then column_warnings ms else column_message m ∷ column_warnings ms

unfoldable pub validate_schema_compatibility : SchemaComparison → ValidationResult
unfolding missing_errors column_errors column_warnings
validate_schema_compatibility c =
    let errors =
      missing_errors c.missing_tables
      ++ column_errors c.column_mismatches
      ++ map type_message c.type_mismatches in
    record {
      valid = is_nil errors;
      errors = errors;
      warnings = column_warnings c.column_mismatches;
    }
