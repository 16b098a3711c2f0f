-- ===== src/Sync/Schema/Types.antt =====
-- The compatibility of types and their conversion, by the tables of the service.
use db_backup.Prelude.{
  String, Bool, true, List, [], ◌∷◌, if◌then◌else◌, ◌==◌, Map, get, includes, or_else,
}

unfoldable pub compatible_mappings : Map (List String)
compatible_mappings =
    ("int", "integer" ∷ "int4" ∷ "bigint" ∷ "int8" ∷ "smallint" ∷ "int2" ∷ "tinyint" ∷ [])
    ∷ ("integer", "int" ∷ "int4" ∷ "bigint" ∷ "int8" ∷ "smallint" ∷ "int2" ∷ [])
    ∷ ("bigint", "int8" ∷ "int" ∷ "integer" ∷ "int4" ∷ [])
    ∷ ("smallint", "int2" ∷ "int" ∷ "integer" ∷ "tinyint" ∷ [])
    ∷ ("tinyint", "smallint" ∷ "int2" ∷ "int" ∷ [])
    ∷ ("varchar", "character varying" ∷ "text" ∷ "char" ∷ "character" ∷ [])
    ∷ ("text", "varchar" ∷ "character varying" ∷ "longtext" ∷ "mediumtext" ∷ [])
    ∷ ("char", "character" ∷ "varchar" ∷ "character varying" ∷ [])
    ∷ ("decimal", "numeric" ∷ "double" ∷ "float" ∷ "real" ∷ [])
    ∷ ("numeric", "decimal" ∷ "double" ∷ "float" ∷ [])
    ∷ ("float", "real" ∷ "double" ∷ "numeric" ∷ "decimal" ∷ [])
    ∷ ("double", "double precision" ∷ "float" ∷ "real" ∷ [])
    ∷ ("datetime", "timestamp" ∷ "timestamp without time zone" ∷ [])
    ∷ ("timestamp", "datetime" ∷ "timestamp without time zone" ∷ "timestamp with time zone" ∷ [])
    ∷ ("date", "date" ∷ [])
    ∷ ("time", "time" ∷ "time without time zone" ∷ [])
    ∷ ("boolean", "bool" ∷ "tinyint(1)" ∷ "bit(1)" ∷ [])
    ∷ ("bool", "boolean" ∷ "tinyint(1)" ∷ "bit(1)" ∷ [])
    ∷ ("blob", "bytea" ∷ "binary" ∷ "varbinary" ∷ [])
    ∷ ("bytea", "blob" ∷ "binary" ∷ "varbinary" ∷ [])
    ∷ []

unfoldable pub is_mapped : String → String → Bool
is_mapped s t = includes (or_else (get compatible_mappings s) []) t

unfoldable pub check_type_compatibility : (String → String) → String → String → Bool
unfolding is_mapped
check_type_compatibility normalize_type source target =
    let s = normalize_type source in
    let t = normalize_type target in
    if s == t then true else if is_mapped s t then true else is_mapped t s

unfoldable pub mysql_to_pg : Map String
mysql_to_pg =
    ("int", "INTEGER")
    ∷ ("tinyint", "SMALLINT")
    ∷ ("smallint", "SMALLINT")
    ∷ ("mediumint", "INTEGER")
    ∷ ("bigint", "BIGINT")
    ∷ ("float", "REAL")
    ∷ ("double", "DOUBLE PRECISION")
    ∷ ("decimal", "NUMERIC")
    ∷ ("varchar", "VARCHAR")
    ∷ ("char", "CHAR")
    ∷ ("text", "TEXT")
    ∷ ("mediumtext", "TEXT")
    ∷ ("longtext", "TEXT")
    ∷ ("blob", "BYTEA")
    ∷ ("mediumblob", "BYTEA")
    ∷ ("longblob", "BYTEA")
    ∷ ("datetime", "TIMESTAMP")
    ∷ ("timestamp", "TIMESTAMP")
    ∷ ("date", "DATE")
    ∷ ("time", "TIME")
    ∷ ("boolean", "BOOLEAN")
    ∷ ("bool", "BOOLEAN")
    ∷ []

unfoldable pub pg_to_mysql : Map String
pg_to_mysql =
    ("integer", "INT")
    ∷ ("int4", "INT")
    ∷ ("int2", "SMALLINT")
    ∷ ("int8", "BIGINT")
    ∷ ("smallint", "SMALLINT")
    ∷ ("bigint", "BIGINT")
    ∷ ("real", "FLOAT")
    ∷ ("double precision", "DOUBLE")
    ∷ ("numeric", "DECIMAL")
    ∷ ("character varying", "VARCHAR")
    ∷ ("character", "CHAR")
    ∷ ("text", "TEXT")
    ∷ ("bytea", "BLOB")
    ∷ ("timestamp", "DATETIME")
    ∷ ("timestamp without time zone", "DATETIME")
    ∷ ("timestamp with time zone", "DATETIME")
    ∷ ("date", "DATE")
    ∷ ("time", "TIME")
    ∷ ("time without time zone", "TIME")
    ∷ ("boolean", "BOOLEAN")
    ∷ ("bool", "BOOLEAN")
    ∷ []

pub data Engine : Type 0 where
  mysql mariadb postgresql : Engine

-- MySQL and MariaDB keep each other's types
unfoldable pub convert_type_for_target : (String → String) → String → Engine → Engine → String
unfolding mysql_to_pg pg_to_mysql
convert_type_for_target normalize_type source postgresql postgresql = source
convert_type_for_target normalize_type source mysql postgresql =
    or_else (get mysql_to_pg (normalize_type source)) source
convert_type_for_target normalize_type source mariadb postgresql =
    or_else (get mysql_to_pg (normalize_type source)) source
convert_type_for_target normalize_type source postgresql mysql =
    or_else (get pg_to_mysql (normalize_type source)) source
convert_type_for_target normalize_type source postgresql mariadb =
    or_else (get pg_to_mysql (normalize_type source)) source
convert_type_for_target normalize_type source _ _ = source
