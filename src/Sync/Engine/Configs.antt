-- ===== src/Sync/Engine/Configs.antt =====
-- createSyncConfiguration, updateSyncConfiguration and deleteSyncConfiguration.
use db_backup.Prelude.{
  ℕ, String, ◌==◌, false, not, Option, none, some, List, [], if◌then◌else◌, select, get, put,
  remove, or_else,
}
use db_backup.Sync.Conflicts.{Strategy, last_write_wins}
use db_backup.Sync.Engine.{
  Connection, Direction, unidirectional, Mode, manual, SyncConfig, World, Services, not_found,
  source_not_found, target_not_found, not_owner_of_source, not_owner_of_target, same_connection,
  source_inaccessible, target_inaccessible, is_active, Outcome, done, refused,
}

pub record CreateSyncConfigDto : Type 0 where
  pub user_id : String
  pub name : String
  pub source_connection_id : String
  pub target_connection_id : String
  pub direction : Option Direction
  pub mode : Option Mode
  pub conflict_strategy : Option Strategy
  pub include_tables : Option (List String)
  pub exclude_tables : Option (List String)
  pub cron_expression : Option String
  pub batch_size : Option ℕ
  pub parallel_tables : Option ℕ

-- the row of a new configuration, with the defaults
unfoldable pub new_row : CreateSyncConfigDto → Connection → Connection → SyncConfig
new_row dto s t = record {
  user_id = dto.user_id;
  name = dto.name;
  source_connection = s;
  target_connection = t;
  direction = or_else dto.direction unidirectional;
  mode = or_else dto.mode manual;
  conflict_strategy = or_else dto.conflict_strategy last_write_wins;
  include_tables = or_else dto.include_tables [];
  exclude_tables = or_else dto.exclude_tables [];
  cron_expression = dto.cron_expression;
  batch_size = or_else dto.batch_size 500;
  parallel_tables = or_else dto.parallel_tables 1;
  is_active = false;
}

-- the checks on the target connection and on both, and the new row
unfoldable pub create_between :
    Services → CreateSyncConfigDto → World → Connection → Connection → Outcome String
unfolding new_row
create_between services dto w s t =
    let id = services.new_config w.configs in
    if not (t.user_id == dto.user_id)
    then refused w not_owner_of_target
    else if dto.source_connection_id == dto.target_connection_id
    then refused w same_connection
    else if not (services.accessible s)
    then refused w source_inaccessible
    else if not (services.accessible t)
    then refused w target_inaccessible
    else done (record w { configs = put w.configs id (new_row dto s t) }) id

unfoldable pub create_sync_configuration : Services → CreateSyncConfigDto → World → Outcome String
unfolding create_between
create_sync_configuration services dto w = elim (get w.connections dto.source_connection_id) [
  | none ↦ refused w source_not_found
  | some s ↦
      if not (s.user_id == dto.user_id)
      then refused w not_owner_of_source
      else elim (get w.connections dto.target_connection_id) [
        | none ↦ refused w target_not_found
        | some t ↦ create_between services dto w s t
      ]
]

-- A field that is not given stays as it is; the cron expression may also be given as null.
pub record UpdateSyncConfigDto : Type 0 where
  pub name : Option String
  pub direction : Option Direction
  pub mode : Option Mode
  pub conflict_strategy : Option Strategy
  pub include_tables : Option (List String)
  pub exclude_tables : Option (List String)
  pub cron_expression : Option (Option String)
  pub batch_size : Option ℕ
  pub parallel_tables : Option ℕ

unfoldable pub updated_row : UpdateSyncConfigDto → SyncConfig → SyncConfig
updated_row dto c = record c {
  name = or_else dto.name c.name;
  direction = or_else dto.direction c.direction;
  mode = or_else dto.mode c.mode;
  conflict_strategy = or_else dto.conflict_strategy c.conflict_strategy;
  include_tables = or_else dto.include_tables c.include_tables;
  exclude_tables = or_else dto.exclude_tables c.exclude_tables;
  cron_expression = or_else dto.cron_expression c.cron_expression;
  batch_size = or_else dto.batch_size c.batch_size;
  parallel_tables = or_else dto.parallel_tables c.parallel_tables;
}

unfoldable pub update_sync_configuration : String → UpdateSyncConfigDto → World → Outcome Unit
unfolding updated_row
update_sync_configuration id dto w = elim (get w.configs id) [
  | none ↦ refused w not_found
  | some c ↦
      if c.is_active
      then refused w is_active
      else done (record w { configs = put w.configs id (updated_row dto c) }) tt
]

-- with the rows that the database deletes along
unfoldable pub delete_sync_configuration : String → World → Outcome Unit
delete_sync_configuration id w = elim (get w.configs id) [
  | none ↦ refused w not_found
  | some c ↦
      if c.is_active
      then refused w is_active
      else done
          (record w {
            configs = remove w.configs id;
            states = remove w.states id;
            logs = select (λ log. not (log.sync_config_id == id)) w.logs;
          })
          tt
]
