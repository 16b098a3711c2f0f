-- ===== src/Sync/Cdc.antt =====
-- The change capture by triggers: server/src/services/sync/mysql-cdc-tracker.service.ts and
-- postgresql-cdc-tracker.service.ts. The catalog of the source database is a state; in MySQL the name
-- of a trigger is one in its database, in PostgreSQL one on its table. The random tag around the
-- function of a PostgreSQL trigger is taken to be fresh.
pub mod Triggers
pub mod Tracked
pub mod Captured
pub mod Checkpoints
use Prim.Native.Char.{Char, code}
use Prim.Native.String
use db_backup.Prelude.{
  ℕ, zero, suc, String, Bool, true, false, not, ◌&&◌, ◌||◌, Option, none, some, List, [], ◌∷◌, ◌++◌,
  if◌then◌else◌, leb, eqb, ◌==◌, select, includes, any,
}
use db_backup.Sync.Values.{◌<>◌, Operation, insert, update, delete}

pub record Trigger : Type 0 where
  pub name : String
  pub table : String
  pub operation : Operation

-- the triggers, and whether the table of the captured changes exists
pub record Catalog : Type 0 where
  pub triggers : List Trigger
  pub has_changelog : Bool

unfoldable pub is_word : ℕ → Bool
is_word c =
    (leb b'a' c && leb c b'z')
    || (leb b'A' c && leb c b'Z')
    || (leb b'0' c && leb c b'9')
    || eqb c b'_'

-- `syncConfigId.replace(/[^a-zA-Z0-9_]/g, '_').substring(0, n)`
unfoldable pub sanitized : ℕ → String → String
unfolding is_word
sanitized zero text = ""
sanitized (suc n) String.[] = ""
sanitized (suc n) (String.◌∷◌ c text) =
    String.◌∷◌ (if is_word (code c) then c else "_") (sanitized n text)

unfoldable pub trigger_prefix : String → String
unfolding sanitized
trigger_prefix config = "cdc_" <> sanitized 20 config

abbrev pub suffix : Operation → String
suffix insert = "_insert"
suffix update = "_update"
suffix delete = "_delete"

-- the name in MySQL is made of the id of the configuration, the one in PostgreSQL of the table too
unfoldable pub mysql_trigger_name : String → String → Operation → String
unfolding trigger_prefix sanitized
mysql_trigger_name config table op =
    trigger_prefix config <> "_" <> sanitized 20 config <> suffix op

unfoldable pub pg_trigger_name : String → String → Operation → String
unfolding trigger_prefix
pg_trigger_name config table op = trigger_prefix config <> "_" <> table <> suffix op

-- `DROP TRIGGER IF EXISTS`, in MySQL by the name alone
unfoldable pub drop_by_name : String → String → List Trigger → List Trigger
drop_by_name name table = select (λ t. not (t.name == name))

unfoldable pub drop_on_table : String → String → List Trigger → List Trigger
drop_on_table name table = select (λ t. not (t.name == name && t.table == table))

-- the tables that are tracked: both filters, where they are not empty
unfoldable pub tables_to_track : List String → List String → List String → List String
tables_to_track [] [] tables = tables
tables_to_track [] (e ∷ es) tables = select (λ t. not (includes (e ∷ es) t)) tables
tables_to_track (i ∷ is) [] tables = select (λ t. includes (i ∷ is) t) tables
tables_to_track (i ∷ is) (e ∷ es) tables =
    select (λ t. not (includes (e ∷ es) t)) (select (λ t. includes (i ∷ is) t) tables)

-- what the two trackers share: how a name is made, and what a drop removes
module _ (name : String → String → Operation → String)
    (drop : String → String → List Trigger → List Trigger) where
  unfoldable pub create_trigger : String → String → Operation → List Trigger → List Trigger
  create_trigger config table op triggers =
      drop (name config table op) table triggers
      ++ (record { name = name config table op; table = table; operation = op }) ∷ []

  unfoldable pub create_all : String → String → List Trigger → List Trigger
  unfolding create_trigger
  create_all config table triggers =
      create_trigger config table delete
        (create_trigger config table update (create_trigger config table insert triggers))

  -- for a table with a primary key; `none` is the exception for one without
  unfoldable pub create_triggers_for_table :
      (String → List String) → String → String → Catalog → Option Catalog
  unfolding create_all
  create_triggers_for_table primary_key config table c = elim (primary_key table) [
    | [] ↦ none
    | ◌∷◌ column columns ↦
        some (record { has_changelog = true; triggers = create_all config table c.triggers })
  ]

  -- the loop of initializeTracking
  unfoldable pub initialize_tracking :
      (String → List String) → String → List String → Catalog → Option Catalog
  unfolding create_triggers_for_table
  initialize_tracking primary_key config [] c = some c
  initialize_tracking primary_key config (table ∷ tables) c =
      elim (create_triggers_for_table primary_key config table c) [
        | none ↦ none
        | some c' ↦ initialize_tracking primary_key config tables c'
      ]

  unfoldable pub drop_triggers_for_table : String → String → List Trigger → List Trigger
  drop_triggers_for_table config table triggers =
      drop (name config table delete) table
        (drop (name config table update) table (drop (name config table insert) table triggers))

  unfoldable pub drop_all : String → List String → List Trigger → List Trigger
  unfolding drop_triggers_for_table
  drop_all config [] triggers = triggers
  drop_all config (table ∷ tables) triggers =
      drop_all config tables (drop_triggers_for_table config table triggers)

  -- the triggers of the tables, and the table of the captured changes, for whomever
  unfoldable pub teardown_tracking : String → List String → Catalog → Catalog
  unfolding drop_all
  teardown_tracking config tables c = record {
    triggers = drop_all config tables c.triggers;
    has_changelog = false;
  }

abbrev pub same_operation : Operation → Operation → Bool
same_operation insert insert = true
same_operation update update = true
same_operation delete delete = true
same_operation _ _ = false

-- whether a change of the table is captured: some trigger stands on it
unfoldable pub is_captured : Catalog → String → Operation → Bool
is_captured c table op = any (λ t. t.table == table && same_operation t.operation op) c.triggers
