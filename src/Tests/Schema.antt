-- ===== src/Tests/Schema.antt =====
-- Two tables of MySQL beside those of PostgreSQL that hold them.
use db_backup.Prelude.{get, String, ◌≡◌, refl, true, false, none, List, [], ◌∷◌}
use db_backup.Sync.Schema.Types.{
  check_type_compatibility, is_mapped, compatible_mappings, convert_type_for_target, mysql_to_pg,
  pg_to_mysql, mysql, mariadb, postgresql,
}
use db_backup.Sync.Schema.{
  ColumnInfo, TableInfo, compare_schemas, compare_tables, compare_table_columns, compare_columns,
  extra_columns, find_table, find_column, nullable_issues, type_issues, add_comparison,
  tables_to_check, is_compatible, validate_schema_compatibility,
}
use db_backup.Sync.Schema.Laws.{all, table_agrees, compare_schemas-agrees}

abbrev column : String → String → ColumnInfo
column name type_name = record {
  name = name;
  type_name = type_name;
  nullable = false;
  is_primary_key = false;
  default_value = none;
  auto_increment = false;
}

abbrev source_tables : List TableInfo
source_tables =
    (record { name = "orders"; columns = column "id" "int" ∷ column "at" "datetime" ∷ [] })
    ∷ (record { name = "items"; columns = column "id" "int" ∷ [] })
    ∷ []

abbrev target_tables : List TableInfo
target_tables =
    (record { name = "orders"; columns = column "id" "integer" ∷ column "at" "timestamp" ∷ [] })
    ∷ []

abbrev as_written : String → String
as_written t = t

compare_schemas-agrees_example :
    (is_compatible (compare_schemas as_written source_tables target_tables [])
      ≡ all
          (table_agrees as_written true source_tables target_tables)
          (tables_to_check source_tables []))
    × ((validate_schema_compatibility
          (compare_schemas as_written source_tables target_tables [])).valid
        ≡ all
            (table_agrees as_written false source_tables target_tables)
            (tables_to_check source_tables []))
compare_schemas-agrees_example = compare_schemas-agrees as_written source_tables target_tables []

compared : (compare_schemas as_written source_tables target_tables []).missing_tables ≡ "items" ∷ []
unfolding compare_schemas compare_tables compare_table_columns compare_columns extra_columns
    find_table find_column nullable_issues type_issues add_comparison tables_to_check
    check_type_compatibility is_mapped compatible_mappings
compared = refl

one_table :
    is_compatible (compare_schemas as_written source_tables target_tables ("orders" ∷ [])) ≡ true
unfolding compare_schemas compare_tables compare_table_columns compare_columns extra_columns
    find_table find_column nullable_issues type_issues add_comparison tables_to_check
    check_type_compatibility is_mapped compatible_mappings is_compatible get
one_table = refl

converted : convert_type_for_target as_written "mediumint" mariadb postgresql ≡ "INTEGER"
unfolding convert_type_for_target mysql_to_pg get
converted = refl

kept : convert_type_for_target as_written "serial" postgresql mysql ≡ "serial"
unfolding convert_type_for_target pg_to_mysql get
kept = refl

not_accepted : check_type_compatibility as_written "mediumint" "integer" ≡ false
unfolding check_type_compatibility is_mapped compatible_mappings get
not_accepted = refl
