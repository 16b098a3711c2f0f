-- ===== src/Sync/Apply/Written.antt =====
-- One change written without placeholders: the reference for a batch, and that the statements of either
-- dialect do the same.
use mathlib.Core.Path.{ap₂}
use db_backup.Prelude.{
  ℕ, String, ◌≡◌, refl, ap, ◌∙◌, Bool, not, ◌&&◌, Option, none, some, List, [], ◌∷◌, if◌then◌else◌,
  ltb, eqb, length, select, includes, Distinct,
}
use db_backup.Sync.Values.{Row, keys, Operation, insert, update, delete}
use db_backup.Sync.Sanitation.{Json, sanitize_entries}
use db_backup.Sync.Apply.Statements.{Query, Bound, bind, update_row, insert_row, delete_row}
use db_backup.Sync.Apply.{
  mysql_insert, mysql_update, mysql_update_others, mysql_delete, pg_insert, pg_update,
  pg_update_others, pg_delete, ChangeToApply, values, fields, others, every_in, execute,
  execute_only, update_or_insert, insert_mysql, insert_pg, write_mysql, write_pg, Dialect, mysql,
  postgresql,
}
use db_backup.Sync.Apply.Binding.{
  pair-keys, length-values, pair-fields, length-fields, picked-select, one_list, two_lists,
  picked_all, length-keys, length-select_keys,
}

-- the entries of the row that are not of the key
abbrev pub rest_of : Row → Row → Row
rest_of key = select (λ e. not (includes (keys key) e.0))

-- MySQL updates by any key; PostgreSQL only by a key whose columns the row has too.
abbrev pub may_update : Dialect → Row → Row → Bool
may_update (mysql cols) key row = ltb 0 (length key) && ltb 0 (length (rest_of key row))
may_update postgresql key row =
    ltb 0 (length key) && every_in (keys row) (keys key) && ltb 0 (length (rest_of key row))

-- what is written of the data: PostgreSQL takes it as it is; without data there is nothing
abbrev pub row_for : Json → Dialect → Option Row → Option Row
row_for json dialect none = none
row_for json (mysql cols) (some row) = sanitize_entries json cols row
row_for json postgresql (some row) = some row

-- no column twice, as in an object
abbrev pub IsObject : ChangeToApply → Type 0
IsObject c =
    Distinct (keys c.primary_key_values)
    × ((row : Row) → c.change_data ≡ some row → Distinct (keys row))

module _ {Db : Type 0} (run : Db → Bound → Option (Db × ℕ)) (table : String) where
  abbrev pub run_only : Db → Bound → Option Db
  run_only db b = elim (run db b) [ none ↦ none | some (db', count) ↦ some db' ]

  abbrev pub upsert_row : Row → Row → Db → Option Db
  upsert_row key row db = elim (run db (update_row table (rest_of key row) key)) [
    | none ↦ none
    | some (db', count) ↦ if eqb count 0 then run_only db' (insert_row table row) else some db'
  ]

  abbrev pub write_row : Bool → Operation → Row → Row → Db → Option Db
  write_row may insert key row db =
      if may then upsert_row key row db else run_only db (insert_row table row)
  write_row may update key row db = run_only db (update_row table row key)
  write_row may delete key row db = run_only db (delete_row table key)

  abbrev pub write_change : Json → Dialect → ChangeToApply → Db → Option Db
  write_change json dialect c db = elim (row_for json dialect c.change_data) [
    | none ↦ none
    | some row ↦
        write_row (may_update dialect c.primary_key_values row) c.operation c.primary_key_values row
          db
  ]

  -- one change after the other
  abbrev pub write_changes : Json → Dialect → List ChangeToApply → Db → Option Db
  write_changes json dialect [] db = some db
  write_changes json dialect (c ∷ cs) db = elim (write_change json dialect c db) [
    | none ↦ none
    | some db' ↦ write_changes json dialect cs db'
  ]

  added :
      (row : Row)
      → (bind (mysql_insert table row) ≡ insert_row table row)
        × (bind (pg_insert table row) ≡ insert_row table row)
  added row =
      let (plain, _, indexed, _) = one_list table (keys row) (values row) (length-values row) in
      (
        plain ∙ ap (insert_row table) (pair-keys row),
        indexed ∙ ap (insert_row table) (pair-keys row),
      )

  removed :
      (key : Row)
      → (bind (mysql_delete table key) ≡ delete_row table key)
        × (bind (pg_delete table key) ≡ delete_row table key)
  removed key =
      let (_, plain, _, indexed) = one_list table (keys key) (values key) (length-values key) in
      (
        plain ∙ ap (delete_row table) (pair-keys key),
        indexed ∙ ap (delete_row table) (pair-keys key),
      )

  set_all :
      (key row : Row)
      → (bind (mysql_update table key row) ≡ update_row table row key)
        × (bind (pg_update table key row) ≡ update_row table row key)
  set_all key row =
      let both =
        two_lists table (keys row) (keys key) (values row) (values key) (length-values row)
          (length-values key) in
      rw (pair-keys row, pair-keys key) at both

  set_rest :
      (key row : Row)
      → Distinct (keys key)
      → Distinct (keys row)
      → (bind (mysql_update_others table key row) ≡ update_row table (rest_of key row) key)
        × (bind (pg_update_others table key row) ≡ update_row table (rest_of key row) key)
  set_rest key row key_d row_d =
      let both =
        two_lists table (others key (keys row)) (keys key) (fields row (others key (keys row)))
          (fields key (keys key)) (length-fields row (others key (keys row)))
          (length-fields key (keys key)) in
      let rest =
        pair-fields row (others key (keys row))
        ∙ picked-select (λ c. not (includes (keys key) c)) row row_d in
      let own = pair-fields key (keys key) ∙ picked_all key key_d in
      let same = ap₂ (update_row table) rest own in (both.0 ∙ same, both.1 ∙ same)

  execute_only-bound :
      (db : Db) (q : Query) (b : Bound) → bind q ≡ b → execute_only run db q ≡ run_only db b
  unfolding execute_only execute bind
  execute_only-bound db q b same = ap (run_only db) same

  abbrev after_update : Db → Bound → Bound → Option Db
  after_update db b b' = elim (run db b) [
    | none ↦ none
    | some (db', count) ↦ if eqb count 0 then run_only db' b' else some db'
  ]

  update_or_insert-bound :
      (db : Db) (q r : Query) (b b' : Bound)
      → bind q ≡ b
      → bind r ≡ b'
      → update_or_insert run db q r ≡ after_update db b b'
  unfolding update_or_insert execute_only execute bind
  update_or_insert-bound db q r b b' same same' = ap₂ (after_update db) same same'

  insert_mysql_lem :
      (cols : List String) (key row : Row) (db : Db)
      → Distinct (keys key)
      → Distinct (keys row)
      → insert_mysql run table key row db
        ≡ write_row (may_update (mysql cols) key row) insert key row db
  unfolding insert_mysql
  insert_mysql_lem cols key row db key_d row_d =
      rw (length-keys key, length-select_keys (λ c. not (includes (keys key) c)) row)
        (ap₂ (λ (x y : Option Db). if may_update (mysql cols) key row then x else y)
          (update_or_insert-bound db (mysql_update_others table key row) (mysql_insert table row) _
            _ (set_rest key row key_d row_d).0 (added row).0)
          (execute_only-bound db (mysql_insert table row) _ (added row).0))

  insert_pg_lem :
      (key row : Row) (db : Db)
      → Distinct (keys key)
      → Distinct (keys row)
      → insert_pg run table key row db ≡ write_row (may_update postgresql key row) insert key row db
  unfolding insert_pg
  insert_pg_lem key row db key_d row_d =
      let test : (ltb 0 (length (keys key))
            && every_in (keys row) (keys key)
            && ltb 0 (length (others key (keys row))))
          ≡ may_update postgresql key row =
        rw (length-keys key, length-select_keys (λ c. not (includes (keys key) c)) row) refl in
      rw test (
        ap₂ (λ (x y : Option Db). if may_update postgresql key row then x else y)
          (update_or_insert-bound db (pg_update_others table key row) (pg_insert table row) _ _
            (set_rest key row key_d row_d).1 (added row).1)
          (execute_only-bound db (pg_insert table row) _ (added row).1))

  pub write_mysql_lem :
      (cols : List String) (op : Operation) (key row : Row) (db : Db)
      → Distinct (keys key)
      → Distinct (keys row)
      → write_mysql run table op key row db
        ≡ write_row (may_update (mysql cols) key row) op key row db
  unfolding write_mysql
  write_mysql_lem cols insert key row db key_d row_d = insert_mysql_lem cols key row db key_d row_d
  write_mysql_lem cols update key row db key_d row_d =
      execute_only-bound db (mysql_update table key row) _ (set_all key row).0
  write_mysql_lem cols delete key row db key_d row_d =
      execute_only-bound db (mysql_delete table key) _ (removed key).0

  pub write_pg_lem :
      (op : Operation) (key row : Row) (db : Db)
      → Distinct (keys key)
      → Distinct (keys row)
      → write_pg run table op key row db ≡ write_row (may_update postgresql key row) op key row db
  unfolding write_pg
  write_pg_lem insert key row db key_d row_d = insert_pg_lem key row db key_d row_d
  write_pg_lem update key row db key_d row_d =
      execute_only-bound db (pg_update table key row) _ (set_all key row).1
  write_pg_lem delete key row db key_d row_d =
      execute_only-bound db (pg_delete table key) _ (removed key).1
