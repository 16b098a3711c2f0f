-- ===== src/Sync/Full/Tables.antt =====
-- A full run over all its tables.
use db_backup.Prelude.{
  ℕ, ◌+◌, ◌<◌, String, ◌≡◌, refl, sym, subst, inl, inr, not, Option, none, some, List, [], ◌∷◌,
  ◌++◌, map, append-nil, arith, length, select, includes, Distinct, or_else,
}
use db_backup.Sync.Values.{Row}
use db_backup.Sync.TableOrder.Laws.{get_tables_in_dependency_order_total}
use db_backup.Sync.TableOrder.Completing.{SameTables}
use db_backup.Sync.Full.{
  full_sync_page_size, FullConfig, Inserted, Source, Copied, ◌and_next◌, insert_of, is_insertable,
  copy_pages, copy_table, copy_tables, copy_ordered, execute_full_sync, finished, failed,
}
use db_backup.Sync.Full.Laws.{Copies, shown, Copies-and_next, Copies-nothing, copy_pages-Copies}

-- the valid inserts of a table with the key columns, if it has any
abbrev pub rows_to_copy :
    (String → ℕ → List Row) → ℕ → Option (List String) → String → List Inserted
rows_to_copy rows pages none table = []
rows_to_copy rows pages (some []) table = []
rows_to_copy rows pages (some (c ∷ cs)) table =
    select is_insertable
      (map (insert_of table (c ∷ cs)) (shown (rows table) full_sync_page_size pages 0))

abbrev pub all_to_copy : (String → ℕ → List Row) → ℕ → Source → List String → List Inserted
all_to_copy rows fuel db [] = []
all_to_copy rows fuel db (table ∷ tables) =
    rows_to_copy rows fuel (db.key_columns table) table ++ all_to_copy rows fuel db tables

-- the tables asked for, without the excluded ones
abbrev pub wanted_tables : Source → FullConfig → List String
wanted_tables db config =
    select (λ t. not (includes config.exclude_tables t))
      (elim config.include_tables [ t ∷ ts ↦ t ∷ ts | [] ↦ or_else db.tables [] ])

module _ (db : Source) (rows : String → ℕ → List Row) (n_rows : String → ℕ) (fuel size : ℕ)
    (size_pos : 0 < size)
    (scanned : (table : String) (offset : ℕ) → db.scan table offset ≡ some (rows table offset))
    (sized : (table : String) (offset : ℕ) → length (rows table offset) ≡ n_rows table)
    (enough : (table : String) → n_rows table < fuel) where
  copy_table-Copies :
      (table : String) (p : Copied)
      → Copies p
          (rows_to_copy rows fuel (db.key_columns table) table)
          (copy_table db fuel size full_sync_page_size table p)
  unfolding copy_table
  copy_table-Copies table p = go (db.key_columns table) refl
    where
      go :
          (columns : Option (List String))
          → db.key_columns table ≡ columns
          → Copies p
              (rows_to_copy rows fuel columns table)
              (copy_table db fuel size full_sync_page_size table p)
      go none e = rw (e, copy_table) ([], [], sym (append-nil p.rows), refl)
      go (some []) e = rw (e, copy_table) (Copies-nothing p)
      go (some (c ∷ cs)) e =
          let entered : Copied = record p { current_table = some table } in
          let all =
            copy_pages-Copies db size full_sync_page_size size_pos (omega arith) table (c ∷ cs)
              (rows table) (n_rows table) (scanned table) (sized table) fuel 0 entered
              (omega (arith, enough table)) (omega arith) in
          rw (e, copy_table)
            (subst
              (λ xs. Copies p xs (
                copy_pages db fuel size full_sync_page_size table (c ∷ cs) 0 entered and_next λ q.
                finished (record q { tables_processed = q.tables_processed + 1 })))
              (append-nil (
                select is_insertable
                  (map (insert_of table (c ∷ cs)) (shown (rows table) full_sync_page_size fuel 0))))
              (Copies-and_next entered
                (select is_insertable
                  (map (insert_of table (c ∷ cs)) (shown (rows table) full_sync_page_size fuel 0)))
                [] (copy_pages db fuel size full_sync_page_size table (c ∷ cs) 0 entered)
                (λ q. finished (record q { tables_processed = q.tables_processed + 1 })) all
                Copies-nothing))

  copy_tables-Copies :
      (tables : List String) (p : Copied)
      → Copies p
          (all_to_copy rows fuel db tables)
          (copy_tables db fuel size full_sync_page_size tables p)
  unfolding copy_tables
  copy_tables-Copies [] p = Copies-nothing p
  copy_tables-Copies (table ∷ tables) p =
      Copies-and_next p (rows_to_copy rows fuel (db.key_columns table) table)
        (all_to_copy rows fuel db tables) (copy_table db fuel size full_sync_page_size table p)
        (copy_tables db fuel size full_sync_page_size tables) (copy_table-Copies table p)
        (copy_tables-Copies tables)

-- a beginning of the run: nothing is committed yet
stopped : (p : Copied) (xs : List Inserted) → Copies p xs (failed p)
stopped p xs = ([], xs, sym (append-nil p.rows), refl)

-- While the numbers of rows of the tables stay the same and are less than the fuel, the batch size is
-- positive and the tables asked for are different: a full run ends, and in some order of these
-- tables, each once, it commits the valid inserts of what all pages of every table with a key show,
-- row by row, or fails after a beginning of them. Each page shows the rows at its place of the order
-- in which the database goes through the table for this page.
pub execute_full_sync-Copies :
    (db : Source) (rows : String → ℕ → List Row) (n_rows : String → ℕ) (fuel : ℕ)
    (config : FullConfig) (p : Copied)
    → 0 < config.batch_size
    → ((table : String) (offset : ℕ) → db.scan table offset ≡ some (rows table offset))
    → ((table : String) (offset : ℕ) → length (rows table offset) ≡ n_rows table)
    → ((table : String) → n_rows table < fuel)
    → Distinct (wanted_tables db config)
    → (out : List String) × SameTables (wanted_tables db config) out
      × Copies p (all_to_copy rows fuel db out) (execute_full_sync db fuel config p)
unfolding execute_full_sync copy_ordered
execute_full_sync-Copies db rows n_rows fuel config p size_pos scanned sized enough distinct =
    go config.include_tables db.tables distinct
  where
    in_order :
        (tables : List String)
        → Distinct (select (λ t. not (includes config.exclude_tables t)) tables)
        → (out : List String) × SameTables
            (select (λ t. not (includes config.exclude_tables t)) tables)
            out
          × Copies p (all_to_copy rows fuel db out) (copy_ordered db fuel config tables p)
    in_order tables apart =
        let kept = select (λ t. not (includes config.exclude_tables t)) tables in
        elim (get_tables_in_dependency_order_total db.foreign_keys config.strict_table_ordering kept
          apart) [
            | inl (refused, on, many, unread) ↦ (
              kept,
              (apart, λ x. refl),
              rw (refused, copy_ordered) (stopped p (all_to_copy rows fuel db kept)),
            )
            | inr (out, found, same) ↦ (
              out,
              same,
              rw (found, copy_ordered)
                  (copy_tables-Copies db rows n_rows fuel config.batch_size size_pos scanned sized
                    enough out p),
            )
          ]

    go :
        (include : List String) (all : Option (List String))
        → Distinct (
            select
              (λ t. not (includes config.exclude_tables t))
              (elim include [ t ∷ ts ↦ t ∷ ts | [] ↦ or_else all [] ]))
        → (out : List String) × SameTables
            (select
              (λ t. not (includes config.exclude_tables t))
              (elim include [ t ∷ ts ↦ t ∷ ts | [] ↦ or_else all [] ]))
            out
          × Copies p (all_to_copy rows fuel db out) (elim include [
            | t ∷ ts ↦ copy_ordered db fuel config (t ∷ ts) p
            | [] ↦ elim all [ none ↦ failed p | some tables ↦ copy_ordered db fuel config tables p ]
          ])
    go (t ∷ ts) all apart = in_order (t ∷ ts) apart
    go [] (some tables) apart = in_order tables apart
    go [] none apart = ([], (tt, λ x. refl), stopped p [])
