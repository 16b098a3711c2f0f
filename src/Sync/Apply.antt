-- ===== src/Sync/Apply.antt =====
-- applyChangeBatch of server/src/queue/sync/execution/change-applicator.ts. A statement keeps its
-- placeholders, and the names in it are those that the escaped identifiers stand for; the database
-- that runs it is a parameter.
pub mod Statements
pub mod Binding
pub mod Written
pub mod Laws
use db_backup.Prelude.{
  ℕ, ◌+◌, String, Bool, true, false, not, ◌&&◌, Option, none, some, List, [], ◌∷◌, ◌++◌, map,
  if◌then◌else◌, ltb, eqb, length, select, includes,
}
use db_backup.Sync.Values.{Value, Row, field, keys, Operation, insert, update, delete}
use db_backup.Sync.Sanitation.{Json, sanitize_data}
use db_backup.Sync.Apply.Statements.{
  Mark, Query, Bound, bind, marks, numbered, update_where, insert_into, delete_where,
}

-- the data is null for a deletion that a trigger has logged
pub record ChangeToApply : Type 0 where
  pub operation : Operation
  pub primary_key_values : Row
  pub change_data : Option Row

-- `Object.values(row)`
unfoldable pub values : Row → List Value
values [] = []
values ((key, value) ∷ row) = value ∷ values row

abbrev pub fields : Row → List String → List Value
fields row = map (field row)

-- the columns that are not of the key
abbrev pub others : Row → List String → List String
others key = select (λ c. not (includes (keys key) c))

-- `pkColumns.every((col) => columns.includes(col))`
unfoldable pub every_in : List String → List String → Bool
every_in columns [] = true
every_in columns (c ∷ cs) = includes columns c && every_in columns cs

-- the statements of MySQL and MariaDB, with `?`
abbrev pub mysql_insert : String → Row → Query
mysql_insert table row = record {
  statement = insert_into table (marks (keys row));
  args = values row;
}

abbrev pub mysql_update : String → Row → Row → Query
mysql_update table key row = record {
  statement = update_where table (marks (keys row)) (marks (keys key));
  args = values row ++ values key;
}

abbrev pub mysql_update_others : String → Row → Row → Query
mysql_update_others table key row =
    let rest = others key (keys row) in
    record {
      statement = update_where table (marks rest) (marks (keys key));
      args = fields row rest ++ fields key (keys key);
    }

abbrev pub mysql_delete : String → Row → Query
mysql_delete table key = record {
  statement = delete_where table (marks (keys key));
  args = values key;
}

-- those of PostgreSQL, with `$1`, `$2`, …
abbrev pub pg_insert : String → Row → Query
pg_insert table row = record {
  statement = insert_into table (numbered 0 (keys row));
  args = values row;
}

abbrev pub pg_update : String → Row → Row → Query
pg_update table key row = record {
  statement = update_where table (numbered 0 (keys row)) (numbered (length (keys row)) (keys key));
  args = values row ++ values key;
}

abbrev pub pg_update_others : String → Row → Row → Query
pg_update_others table key row =
    let rest = others key (keys row) in
    record {
      statement = update_where table (numbered 0 rest) (numbered (length rest) (keys key));
      args = fields row rest ++ fields key (keys key);
    }

abbrev pub pg_delete : String → Row → Query
pg_delete table key = record {
  statement = delete_where table (numbered 0 (keys key));
  args = values key;
}

module _ {Db : Type 0} (run : Db → Bound → Option (Db × ℕ)) where
  unfoldable pub execute : Db → Query → Option (Db × ℕ)
  unfolding bind marks numbered values keys
  execute db q = run db (bind q)

  unfoldable pub execute_only : Db → Query → Option Db
  unfolding execute
  execute_only db q = elim (execute db q) [ none ↦ none | some (db', count) ↦ some db' ]

  -- an update, and an insert if it found no row
  unfoldable pub update_or_insert : Db → Query → Query → Option Db
  unfolding execute execute_only
  update_or_insert db q r = elim (execute db q) [
    | none ↦ none
    | some (db', count) ↦ if eqb count 0 then execute_only db' r else some db'
  ]

  -- MySQL and MariaDB
  unfoldable pub insert_mysql : String → Row → Row → Db → Option Db
  unfolding update_or_insert execute_only
  insert_mysql table key row db =
      if ltb 0 (length (keys key)) && ltb 0 (length (others key (keys row)))
      then update_or_insert db (mysql_update_others table key row) (mysql_insert table row)
      else execute_only db (mysql_insert table row)

  unfoldable pub write_mysql : String → Operation → Row → Row → Db → Option Db
  unfolding insert_mysql execute_only
  write_mysql table insert key row db = insert_mysql table key row db
  write_mysql table update key row db = execute_only db (mysql_update table key row)
  write_mysql table delete key row db = execute_only db (mysql_delete table key)

  unfoldable pub apply_mysql : Json → List String → String → ChangeToApply → Db → Option Db
  unfolding write_mysql sanitize_data
  apply_mysql json json_columns table c db = elim (sanitize_data json json_columns c.change_data) [
    | none ↦ none
    | some row ↦ write_mysql table c.operation c.primary_key_values row db
  ]

  -- PostgreSQL
  unfoldable pub insert_pg : String → Row → Row → Db → Option Db
  unfolding update_or_insert execute_only every_in
  insert_pg table key row db =
      if ltb 0 (length (keys key))
        && every_in (keys row) (keys key)
        && ltb 0 (length (others key (keys row)))
      then update_or_insert db (pg_update_others table key row) (pg_insert table row)
      else execute_only db (pg_insert table row)

  unfoldable pub write_pg : String → Operation → Row → Row → Db → Option Db
  unfolding insert_pg execute_only
  write_pg table insert key row db = insert_pg table key row db
  write_pg table update key row db = execute_only db (pg_update table key row)
  write_pg table delete key row db = execute_only db (pg_delete table key)

  unfoldable pub apply_pg : Json → String → ChangeToApply → Db → Option Db
  unfolding write_pg sanitize_data
  apply_pg json table c db = elim (sanitize_data json [] c.change_data) [
    | none ↦ none
    | some row ↦ write_pg table c.operation c.primary_key_values row db
  ]

-- the loop over the changes; `none` is an exception
unfoldable pub apply_all :
    {Db : Type 0} → (ChangeToApply → Db → Option Db) → List ChangeToApply → Db → Option Db
apply_all apply [] db = some db
apply_all apply (c ∷ cs) db = elim (apply c db) [ none ↦ none | some db' ↦ apply_all apply cs db' ]

pub data Applied (Db : Type 0) : Type 0 where
  committed rolled_back : Db → Applied Db

-- the transaction: committed after the last change, rolled back on an exception
unfoldable pub in_transaction :
    {Db : Type 0} → (ChangeToApply → Db → Option Db) → List ChangeToApply → Db → Applied Db
unfolding apply_all
in_transaction apply cs db = elim (apply_all apply cs db) [
  | none ↦ rolled_back db
  | some db' ↦ committed db'
]

pub data Dialect : Type 0 where
  mysql : List String → Dialect
  postgresql : Dialect

-- the JSON columns are those that MySQL reports for the table
unfoldable pub apply_change_batch :
    {Db : Type 0}
    → (Db → Bound → Option (Db × ℕ))
    → Json
    → Dialect
    → String
    → List ChangeToApply
    → Db
    → Applied Db
unfolding in_transaction apply_mysql apply_pg
apply_change_batch run json (mysql json_columns) table cs db =
    in_transaction (apply_mysql run json json_columns table) cs db
apply_change_batch run json postgresql table cs db = in_transaction (apply_pg run json table) cs db
