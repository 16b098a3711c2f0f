-- ===== src/Sync/Conflicts.antt =====
-- ConflictResolverService of server/src/services/sync/conflict-resolver.service.ts. The rows of the
-- Conflict model are a list; the database's generator of ids is a parameter. A row that lacks a
-- column which server/prisma/schema.prisma requires is refused.
pub mod Laws
use db_backup.Prelude.{
  ℕ, String, Bool, true, false, not, ◌&&◌, Option, none, some, List, [], ◌∷◌, ◌++◌, map, take, leb,
  select, if◌then◌else◌, ◌==◌, Map, get, put,
}
use db_backup.Sync.Values.{◌<>◌, Row, ChangeLog, keys}
use db_backup.Sync.Keys.{sort_texts, join, key_part}

pub data Strategy : Type 0 where
  last_write_wins source_wins target_wins manual_resolution : Strategy
  unknown : String → Strategy

pub data Resolution : Type 0 where
  source target manual : Resolution

pub record Conflict : Type 0 where
  pub id : String
  pub sync_config_id : String
  pub table_name : String
  pub primary_key_values : Row
  pub source_data : Option Row
  pub target_data : Option Row
  pub source_timestamp : ℕ
  pub target_timestamp : Option ℕ
  pub strategy : Strategy
  pub resolution : Option Resolution
  pub resolved_data : Option Row
  pub resolved : Bool
  pub resolved_at : Option ℕ
  pub resolved_by : Option String
  pub created_at : ℕ

-- the target change of a pair, with its timestamp where the caller passes one
abbrev pub TimeOf : Type 0
TimeOf = ChangeLog → Option ℕ

-- the service's own copy of the key
unfoldable pub create_change_key : String → Row → String
unfolding sort_texts join key_part
create_change_key table values =
    table <> ":" <> join (map (key_part values) (sort_texts (keys values)))

abbrev pub is_some {ℓ} : {A : Type ℓ} → Option A → Bool
is_some none = false
is_some (some a) = true

abbrev pub log_key : ChangeLog → String
log_key log = create_change_key log.table_name log.primary_key_values

-- the last target change of each key
unfoldable pub target_change_map : Map ChangeLog → List ChangeLog → Map ChangeLog
target_change_map m [] = m
target_change_map m (log ∷ logs) = target_change_map (put m (log_key log) log) logs

unfoldable pub conflict_of : ℕ → TimeOf → ChangeLog → ChangeLog → Conflict
conflict_of now time_of s t = record {
  id = "";
  sync_config_id = s.sync_config_id;
  table_name = s.table_name;
  primary_key_values = s.primary_key_values;
  source_data = s.change_data;
  target_data = t.change_data;
  source_timestamp = s.timestamp;
  target_timestamp = time_of t;
  strategy = last_write_wins;
  resolution = none;
  resolved_data = none;
  resolved = false;
  resolved_at = none;
  resolved_by = none;
  created_at = now;
}

unfoldable pub match_sources : ℕ → TimeOf → Map ChangeLog → List ChangeLog → List Conflict
match_sources now time_of m [] = []
match_sources now time_of m (s ∷ sources) = elim (get m (log_key s)) [
  | none ↦ match_sources now time_of m sources
  | some t ↦ conflict_of now time_of s t ∷ match_sources now time_of m sources
]

unfoldable pub detect_conflicts : ℕ → TimeOf → List ChangeLog → List ChangeLog → List Conflict
detect_conflicts now time_of sources targets =
    match_sources now time_of (target_change_map [] targets) sources

pub record Resolved : Type 0 where
  pub conflict_id : String
  pub resolution : Resolution
  pub resolved_data : Option Row

pub data Failure : Type 0 where
  unknown_strategy : String → Failure
  not_found : String → Failure
  already_resolved : String → Failure
  not_stored : Failure

pub data Result {ℓ} (A : Type ℓ) : Type ℓ where
  ok : A → Result A
  error : Failure → Result A

-- `source >= target`, which does not hold without a time of the target
abbrev pub is_not_later : Option ℕ → ℕ → Bool
is_not_later none now = false
is_not_later (some t) now = leb t now

-- the columns that the table requires: both versions and both times
abbrev pub is_storable : Conflict → Bool
is_storable c = is_some c.source_data && is_some c.target_data && is_some c.target_timestamp

-- the branches of the `switch` that resolve by themselves
unfoldable pub winner : Strategy → Conflict → Result (Resolution × Option Row)
winner last_write_wins c =
    if is_not_later c.target_timestamp c.source_timestamp
    then ok (source, c.source_data)
    else ok (target, c.target_data)
winner source_wins c = ok (source, c.source_data)
winner target_wins c = ok (target, c.target_data)
winner manual_resolution c = ok (manual, none)
winner (unknown name) c = error (unknown_strategy name)

module _ (new_id : List Conflict → String) where
  -- `prisma.conflict.create`: the row that is stored
  unfoldable pub stored :
      List Conflict → ℕ → Conflict → Strategy → Resolution → Option Row → Conflict
  stored rows now c strategy manual resolved_data = record c {
    id = new_id rows;
    strategy = manual_resolution;
    resolution = none;
    resolved_data = none;
    resolved = false;
    resolved_at = none;
    resolved_by = none;
    created_at = now;
  }
  stored rows now c strategy side resolved_data = record c {
    id = new_id rows;
    strategy = strategy;
    resolution = some side;
    resolved_data = resolved_data;
    resolved = true;
    resolved_at = some now;
    resolved_by = none;
    created_at = now;
  }

  unfoldable pub resolve_conflict :
      List Conflict → ℕ → Conflict → Strategy → Result (List Conflict × Resolved)
  unfolding winner stored
  resolve_conflict rows now c strategy = elim (winner strategy c) [
    | error e ↦ error e
    | ok (side, kept) ↦
        if is_storable c
        then ok (
          rows ++ stored rows now c strategy side kept ∷ [],
          record { conflict_id = new_id rows; resolution = side; resolved_data = kept },
        )
        else error not_stored
  ]

-- `findUnique`
unfoldable pub find_conflict : List Conflict → String → Option Conflict
find_conflict [] id = none
find_conflict (c ∷ rows) id = if c.id == id then some c else find_conflict rows id

-- `update` of the row with the id
unfoldable pub settle : List Conflict → String → Row → String → ℕ → List Conflict
settle [] id data_given user now = []
settle (c ∷ rows) id data_given user now =
    (if c.id == id
      then record c {
        resolution = some manual;
        resolved_data = some data_given;
        resolved = true;
        resolved_at = some now;
        resolved_by = some user;
      }
      else c)
    ∷ settle rows id data_given user now

unfoldable pub resolve_conflict_manually :
    List Conflict → String → Row → String → ℕ → Result (List Conflict)
unfolding find_conflict settle
resolve_conflict_manually rows id data_given user now = elim (find_conflict rows id) [
  | none ↦ error (not_found id)
  | some c ↦
      if c.resolved then error (already_resolved id) else ok (settle rows id data_given user now)
]

-- the rows of the configuration that are not resolved (the database orders them)
unfoldable pub get_unresolved_conflicts : List Conflict → String → List Conflict
get_unresolved_conflicts rows config =
    select (λ c. c.sync_config_id == config && not c.resolved) rows
