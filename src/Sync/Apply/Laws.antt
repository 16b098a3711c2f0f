-- ===== src/Sync/Apply/Laws.antt =====
-- What a batch does, without placeholders: a reference that writes whole rows.
use db_backup.Prelude.{
  ℕ, String, ◌≡◌, refl, ap, ◌∙◌, Option, none, some, List, [], ◌∷◌, Distinct, All,
}
use db_backup.Sync.Values.{Row, keys}
use db_backup.Sync.Sanitation.{Json, sanitize_data, sanitize_entries}
use db_backup.Sync.Apply.Statements.{Bound}
use db_backup.Sync.Apply.{
  ChangeToApply, apply_mysql, apply_pg, apply_all, in_transaction, write_mysql, write_pg, Applied,
  committed, rolled_back, Dialect, mysql, postgresql, apply_change_batch,
}
use db_backup.Sync.Apply.Binding.{keys-sanitize_entries, sanitize_entries-none}
use db_backup.Sync.Apply.Written.{
  may_update, row_for, IsObject, write_row, write_change, write_changes, write_mysql_lem,
  write_pg_lem,
}

module _ {Db : Type 0} (run : Db → Bound → Option (Db × ℕ)) (table : String) where
  apply_mysql_lem :
      (json : Json) (cols : List String) (c : ChangeToApply) (db : Db)
      → IsObject c
      → apply_mysql run json cols table c db ≡ write_change run table json (mysql cols) c db
  unfolding apply_mysql sanitize_data
  apply_mysql_lem json cols c db (key_d, row_d) = from_data c.change_data refl
    where
      from_clean :
          (row : Row)
          → Distinct (keys row)
          → (clean : Option Row) → sanitize_entries json cols row ≡ clean
          → (elim clean [
            | none ↦ none
            | some r ↦ write_mysql run table c.operation c.primary_key_values r db
          ])
            ≡ (elim clean [
              | none ↦ none
              | some r ↦
                  write_row run table
                    (may_update (mysql cols) c.primary_key_values r)
                    c.operation
                    c.primary_key_values
                    r
                    db
            ])
      from_clean row distinct none e = refl
      from_clean row distinct (some r) e =
          write_mysql_lem run table cols c.operation c.primary_key_values r db key_d
            (rw (keys-sanitize_entries json cols row r e) distinct)

      from_data :
          (data_given : Option Row)
          → c.change_data ≡ data_given
          → (elim (sanitize_data json cols data_given) [
            | none ↦ none
            | some r ↦ write_mysql run table c.operation c.primary_key_values r db
          ])
            ≡ (elim (row_for json (mysql cols) data_given) [
              | none ↦ none
              | some r ↦
                  write_row run table
                    (may_update (mysql cols) c.primary_key_values r)
                    c.operation
                    c.primary_key_values
                    r
                    db
            ])
      from_data none e = refl
      from_data (some row) e = from_clean row (row_d row e) (sanitize_entries json cols row) refl

  apply_pg_lem :
      (json : Json) (c : ChangeToApply) (db : Db)
      → IsObject c
      → apply_pg run json table c db ≡ write_change run table json postgresql c db
  unfolding apply_pg sanitize_data
  apply_pg_lem json c db (key_d, row_d) = from_data c.change_data refl
    where
      from_data :
          (data_given : Option Row)
          → c.change_data ≡ data_given
          → (elim (sanitize_data json [] data_given) [
            | none ↦ none
            | some r ↦ write_pg run table c.operation c.primary_key_values r db
          ])
            ≡ (elim (row_for json postgresql data_given) [
              | none ↦ none
              | some r ↦
                  write_row run table
                    (may_update postgresql c.primary_key_values r)
                    c.operation
                    c.primary_key_values
                    r
                    db
            ])
      from_data none e = refl
      from_data (some row) e =
          ap
            (λ (clean : Option Row). elim clean [
              | none ↦ none
              | some r ↦ write_pg run table c.operation c.primary_key_values r db
            ])
            (sanitize_entries-none json row)
          ∙ write_pg_lem run table c.operation c.primary_key_values row db key_d (row_d row e)

  apply_all_lem :
      (json : Json) (dialect : Dialect) (apply : ChangeToApply → Db → Option Db)
      (same : (c : ChangeToApply) (d : Db)
        → IsObject c
        → apply c d ≡ write_change run table json dialect c d)
      (cs : List ChangeToApply) (db : Db)
      → All IsObject cs
      → apply_all apply cs db ≡ write_changes run table json dialect cs db
  unfolding apply_all
  apply_all_lem json dialect apply same [] db h = refl
  apply_all_lem json dialect apply same (c ∷ cs) db h =
      ap (λ (o : Option Db). elim o [ none ↦ none | some db' ↦ apply_all apply cs db' ])
        (same c db h.0)
      ∙ further (λ d. apply_all_lem json dialect apply same cs d h.1)
          (write_change run table json dialect c db)
    where
      further :
          ((d : Db) → apply_all apply cs d ≡ write_changes run table json dialect cs d)
          → (o : Option Db)
          → (elim o [ none ↦ none | some db' ↦ apply_all apply cs db' ])
            ≡ (elim o [ none ↦ none | some db' ↦ write_changes run table json dialect cs db' ])
      further rest none = refl
      further rest (some db') = rest db'

-- `db` if there is no result
abbrev pub all_or_none : {Db : Type 0} → Db → Option Db → Applied Db
all_or_none db none = rolled_back db
all_or_none db (some after) = committed after

-- A batch of changes does to a database what whole rows do, one change after the other: with the
-- last one all are committed, and if one fails all are rolled back. In both dialects every
-- placeholder gets the value of its column. A change without data fails, also a deletion.
pub apply_change_batch_lem :
    {Db : Type 0} (run : Db → Bound → Option (Db × ℕ)) (json : Json) (dialect : Dialect)
    (table : String) (cs : List ChangeToApply) (db : Db)
    → All IsObject cs
    → apply_change_batch run json dialect table cs db
      ≡ all_or_none db (write_changes run table json dialect cs db)
unfolding apply_change_batch in_transaction
apply_change_batch_lem run json (mysql cols) table cs db objects =
    let same =
      apply_all_lem run table json (mysql cols) (apply_mysql run json cols table)
        (λ c d. apply_mysql_lem run table json cols c d) cs db objects in
    rw (same, in_transaction) refl
apply_change_batch_lem run json postgresql table cs db objects =
    let same =
      apply_all_lem run table json postgresql (apply_pg run json table)
        (λ c d. apply_pg_lem run table json c d) cs db objects in
    rw (same, in_transaction) refl
