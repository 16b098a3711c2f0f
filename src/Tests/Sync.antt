-- ===== src/Tests/Sync.antt =====
-- Changes of a record that only the source changed and of one that both did.
use db_backup.Prelude.{
  ℕ, String, ◌≡◌, refl, ◌↔◌, ◌⊎◌, true, false, Option, none, some, List, [], ◌∷◌, arith, ◌==◌,
  eq_iff, eqb, if◌then◌else◌, length, Distinct, get, put,
}
use db_backup.Sync.Values.{
  Row, Origin, ChangeLog, null, string, insert, delete, update, source, target,
}
use db_backup.Sync.Conflicts.{
  source_wins, manual_resolution, Conflict, detect_conflicts, resolve_conflict,
  resolve_conflict_manually, find_conflict, ok, error, already_resolved, conflict_of, Resolved,
}
use db_backup.Sync.Conflicts.Laws.{expected, detect_conflicts-last, resolve_conflict_manually-once}
use db_backup.Sync.Validation.{validate_change}
use db_backup.Sync.Validation.Laws.{IsApplicable, validate_change-valid_iff}
use db_backup.Sync.TableOrder.{
  Dependency, insert_by, sort_by, index_from, isolated, add_dependency, add_dependencies, build,
  relax, drain, append_missing, complete, kahn, topological_sort_tables,
}
use db_backup.Sync.TableOrder.Laws.{
  topological_sort_tables_total, KeysFirst, topological_sort_tables-KeysFirst,
}
use db_backup.Sync.TableOrder.Completing.{SameTables}
use db_backup.Sync.Incremental.{Config, SyncDb, Environment}

abbrev tables : List String
tables = "orders" ∷ "users" ∷ []

abbrev deps : List Dependency
deps = record { child = "orders"; parent = "users" } ∷ []

sorted : topological_sort_tables tables deps ≡ some ("users" ∷ "orders" ∷ [])
unfolding topological_sort_tables kahn build add_dependencies add_dependency isolated drain relax
    complete sort_by insert_by index_from get put
sorted = refl

abbrev circular : List Dependency
circular =
    record { child = "orders"; parent = "users" }
    ∷ record { child = "users"; parent = "orders" }
    ∷ []

in_a_cycle : topological_sort_tables tables circular ≡ some tables
unfolding topological_sort_tables kahn build add_dependencies add_dependency isolated drain relax
    complete append_missing sort_by insert_by index_from get put
in_a_cycle = refl

abbrev rank : String → ℕ
rank table = if table == "orders" then 1 else 0

tables-Distinct : Distinct tables
tables-Distinct = (refl, (refl, tt))

topological_sort_tables_total_example :
    (out : List String) × (topological_sort_tables tables circular ≡ some out)
    × SameTables tables out
topological_sort_tables_total_example =
    topological_sort_tables_total tables circular tables-Distinct

topological_sort_tables-KeysFirst_example :
    (out : List String) × (topological_sort_tables tables deps ≡ some out)
    × SameTables tables out
    × KeysFirst tables deps [] out
topological_sort_tables-KeysFirst_example =
    topological_sort_tables-KeysFirst tables deps tables-Distinct rank (λ p c h.
      ground (arith, h, eq_iff c "orders", eq_iff "orders" c, eq_iff p "orders", eq_iff "users" p))

abbrev pair : Row
pair = ("id", null) ∷ []

validate_change-valid_iff_example :
    (((validate_change insert pair none).valid ≡ true) ↔ IsApplicable insert pair none)
    × (((validate_change insert pair none).valid ≡ true)
        ↔ ((validate_change insert pair none).errors ≡ []))
validate_change-valid_iff_example = validate_change-valid_iff insert pair none

abbrev change : String → String → Origin → ℕ → ChangeLog
change id key side at = record {
  id = id;
  sync_config_id = "config";
  table_name = "users";
  operation = delete;
  primary_key_values = ("id", string key) ∷ [];
  change_data = none;
  timestamp = at;
  checkpoint = id;
  origin = side;
  synchronized = false;
}

abbrev alone : ChangeLog
alone = change "1" "k1" source 10

abbrev ours : ChangeLog
ours = change "2" "k2" source 30

abbrev theirs : ChangeLog
theirs = change "3" "k2" target 20

abbrev with_time : ChangeLog → Option ℕ
with_time log = some log.timestamp

detect_conflicts-last_example :
    detect_conflicts 50 with_time (alone ∷ ours ∷ []) (theirs ∷ [])
    ≡ expected 50 with_time (theirs ∷ []) (alone ∷ ours ∷ [])
detect_conflicts-last_example = detect_conflicts-last 50 with_time (alone ∷ ours ∷ []) (theirs ∷ [])

abbrev next_id : List Conflict → String
next_id rows = if eqb (length rows) 0 then "c1" else "c2"

abbrev dispute : Conflict
unfolding conflict_of
dispute =
    conflict_of 50 with_time (record ours { operation = update; change_data = some pair })
      (record theirs { operation = update; change_data = some [] })

resolve_conflict_manually-once_example :
    (rows' rows'' : List Conflict) × (r : Resolved) × (resolve_conflict next_id [] 50 dispute
        manual_resolution
      ≡ ok (rows', r))
    × (resolve_conflict_manually rows' r.conflict_id pair "ann" 60 ≡ ok rows'')
    × (resolve_conflict_manually rows'' r.conflict_id [] "bob" 70
        ≡ error (already_resolved r.conflict_id))
    × ((row : Conflict) × (find_conflict rows'' r.conflict_id ≡ some row)
        × (row.resolved_data ≡ some pair)
        × (row.resolved_by ≡ some "ann"))
    × ((j : String) → (r.conflict_id ≡ j) ⊎ (find_conflict rows'' j ≡ find_conflict rows' j))
unfolding find_conflict dispute
resolve_conflict_manually-once_example =
    resolve_conflict_manually-once next_id [] 50 60 70 dispute pair [] "ann" "bob" refl refl

abbrev environment : Environment
environment = record {
  gt = λ a b. true;
  by_timestamp = λ logs. logs;
  new_id = next_id;
  foreign_keys = λ side. none;
  commits = λ side before table valid. true;
  enters = λ table. true;
  marks = λ side before table valid. true;
  notes = λ side before table valid. true;
  reports = λ before table valid. true;
  now = 50;
}

abbrev settings : Config
settings = record {
  id = "config";
  bidirectional = true;
  conflict_strategy = source_wins;
  batch_size = 2;
  strict_table_ordering = false;
}

abbrev start : SyncDb
start = record {
  logs = alone ∷ ours ∷ theirs ∷ [];
  conflicts = [];
  source_checkpoint = none;
  target_checkpoint = none;
  current_table = none;
  source_rows = [];
  target_rows = [];
}
