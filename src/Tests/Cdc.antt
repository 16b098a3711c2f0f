-- ===== src/Tests/Cdc.antt =====
-- Two tables of one configuration under both trackers, and a checkpoint.
use db_backup.Prelude.{
  ℕ, ◌+◌, leb, String, ◌≡◌, refl, true, false, some, List, [], ◌∷◌, ◌++◌, ◌==◌, or_else,
}
use db_backup.Sync.Values.{Operation, insert, update, delete}
use db_backup.Sync.Cdc.{
  Catalog, mysql_trigger_name, pg_trigger_name, drop_by_name, drop_on_table, initialize_tracking,
  create_triggers_for_table, create_all, create_trigger, teardown_tracking, is_captured,
  tables_to_track, trigger_prefix, sanitized, is_word,
}
use db_backup.Sync.Cdc.Tracked.{initialize_tracking-mysql}
use db_backup.Sync.Cdc.Captured.{initialize_tracking-pg}
use db_backup.Sync.Cdc.Checkpoints.{
  checkpoint_text, parse_checkpoint, since_time, since_id, parse_checkpoint-hour, split_at,
  parse_int, parse_digits, is_digit,
}

abbrev key_of : String → List String
key_of table = "id" ∷ []

abbrev untracked : Catalog
untracked = record { triggers = []; has_changelog = false }

abbrev shop : List String
shop = "orders" ∷ "items" ∷ []

mysql_name : mysql_trigger_name "7-a" "orders" insert ≡ "cdc_7_a_7_a_insert"
unfolding mysql_trigger_name trigger_prefix sanitized is_word
mysql_name = refl

abbrev tracked : Catalog
tracked =
    or_else (initialize_tracking mysql_trigger_name drop_by_name key_of "7-a" shop untracked)
      untracked

initialized :
    initialize_tracking mysql_trigger_name drop_by_name key_of "7-a" shop untracked ≡ some tracked
unfolding initialize_tracking create_triggers_for_table create_all create_trigger
initialized = refl

initialize_tracking-mysql_example : is_captured tracked "orders" update ≡ ("items" == "orders")
initialize_tracking-mysql_example =
    initialize_tracking-mysql key_of "7-a" ("orders" ∷ []) "items" untracked tracked "orders" update
      refl initialized

abbrev pg_tracked : Catalog
pg_tracked =
    or_else (initialize_tracking pg_trigger_name drop_on_table key_of "7-a" shop untracked)
      untracked

pg_initialized :
    initialize_tracking pg_trigger_name drop_on_table key_of "7-a" shop untracked ≡ some pg_tracked
unfolding initialize_tracking create_triggers_for_table create_all create_trigger
pg_initialized = refl

abbrev bytes : String → ℕ
bytes String.[] = 0
bytes (String.◌∷◌ c text) = bytes text + 1

pg_fits : (op : Operation) → leb (bytes (pg_trigger_name "7-a" "orders" op)) 63 ≡ true
unfolding pg_trigger_name trigger_prefix sanitized is_word
pg_fits insert = refl
pg_fits update = refl
pg_fits delete = refl

initialize_tracking-pg_example : is_captured pg_tracked "orders" update ≡ true
initialize_tracking-pg_example =
    initialize_tracking-pg (λ n. n) bytes (λ n short. refl) key_of "7-a" "orders" update shop
      untracked pg_tracked pg_fits refl pg_initialized

torn_down : (teardown_tracking pg_trigger_name drop_on_table "7-a" shop pg_tracked).triggers ≡ []
unfolding initialize_tracking create_triggers_for_table create_all create_trigger teardown_tracking
    pg_trigger_name drop_on_table trigger_prefix sanitized is_word
torn_down = refl

filtered : tables_to_track ("a" ∷ "b" ∷ []) ("b" ∷ []) ("a" ∷ "b" ∷ "c" ∷ []) ≡ "a" ∷ []
unfolding tables_to_track
filtered = refl

-- 12:34:56 with the id 7
parse_checkpoint-hour_example :
    parse_checkpoint (
      checkpoint_text
        ((b'1' ∷ b'2' ∷ []) ++ b':' ∷ ((b'3' ∷ b'4' ∷ []) ++ b':' ∷ b'5' ∷ b'6' ∷ []))
        (b'7' ∷ []))
    ≡ (since_time (b'1' ∷ b'2' ∷ []), since_id ((b'3' ∷ b'4' ∷ []) ∷ []))
parse_checkpoint-hour_example =
    parse_checkpoint-hour (b'1' ∷ b'2' ∷ []) (b'3' ∷ b'4' ∷ []) (b'5' ∷ b'6' ∷ []) (b'7' ∷ []) refl
      refl

read_back :
    parse_checkpoint (b'1' ∷ b'2' ∷ b':' ∷ b'3' ∷ b'4' ∷ b':' ∷ b'5' ∷ b'6' ∷ b':' ∷ b'7' ∷ [])
    ≡ (b'1' ∷ b'2' ∷ [], some 34)
unfolding parse_checkpoint split_at since_time since_id parse_int parse_digits is_digit
read_back = refl
