-- ===== src/Sync/Cdc/Tracked.antt =====
-- Which tables are captured after the tracking of a configuration was set up or taken down.
use db_backup.Prelude.{
  String, ◌≡◌, refl, ap, ◌∙◌, ◌⊎◌, inl, inr, true, some, List, [], ◌∷◌, ◌++◌, ◌==◌, eq_iff, arith,
  Option-cases, List-cases,
}
use db_backup.Sync.Values.{Operation, insert, update, delete}
use db_backup.Sync.Cdc.{
  Trigger, Catalog, mysql_trigger_name, drop_by_name, create_all, create_triggers_for_table,
  initialize_tracking, is_captured,
}
use db_backup.Sync.Cdc.Triggers.{mysql_trigger_name-ne}

abbrev trigger : String → String → String → Operation → Trigger
trigger name config table op = record { name = name; table = table; operation = op }

-- the three triggers of one table
abbrev three : String → String → List Trigger
three config table =
    record { name = mysql_trigger_name config table insert; table = table; operation = insert }
    ∷ record { name = mysql_trigger_name config table update; table = table; operation = update }
    ∷ record { name = mysql_trigger_name config table delete; table = table; operation = delete }
    ∷ []

module _ (primary_key : String → List String) (config : String) where
  mysql_names :
      (table table' : String) (op : Operation)
      → (mysql_trigger_name config table op == mysql_trigger_name config table' op) ≡ true
  unfolding mysql_trigger_name
  mysql_names table table' op =
      (eq_iff (mysql_trigger_name config table op) (mysql_trigger_name config table' op)).1 refl

  create_all-nil :
      (table : String)
      → create_all mysql_trigger_name drop_by_name config table [] ≡ three config table
  unfolding create_all drop_by_name
  create_all-nil table = ground (
    arith,
    mysql_trigger_name-ne config table table insert update refl,
    mysql_trigger_name-ne config table table insert delete refl,
    mysql_trigger_name-ne config table table update delete refl,
  )

  create_all-three :
      (table table' : String)
      → create_all mysql_trigger_name drop_by_name config table (three config table')
        ≡ three config table
  unfolding create_all drop_by_name
  create_all-three table table' = ground (
    arith,
    mysql_names table' table insert,
    mysql_names table' table update,
    mysql_names table' table delete,
    mysql_trigger_name-ne config table' table insert update refl,
    mysql_trigger_name-ne config table' table insert delete refl,
    mysql_trigger_name-ne config table' table update insert refl,
    mysql_trigger_name-ne config table' table update delete refl,
    mysql_trigger_name-ne config table' table delete insert refl,
    mysql_trigger_name-ne config table' table delete update refl,
    mysql_trigger_name-ne config table table insert update refl,
    mysql_trigger_name-ne config table table insert delete refl,
    mysql_trigger_name-ne config table table update delete refl,
  )

  pub create-triggers :
      (name : String → String → Operation → String)
      (drop : String → String → List Trigger → List Trigger) (table : String) (c c' : Catalog)
      → create_triggers_for_table name drop primary_key config table c ≡ some c'
      → c'.triggers ≡ create_all name drop config table c.triggers
  unfolding create_triggers_for_table
  create-triggers name drop table c c' h = elim (List-cases (primary_key table)) [
    | inl keyless ↦ ground (arith, keyless, h)
    | inr (k, ks, e) ↦ ground (arith, e, h)
  ]

  -- no trigger, or those of one table
  abbrev OneTable : Catalog → Type 0
  OneTable c = (c.triggers ≡ []) ⊎ ((table : String) × (c.triggers ≡ three config table))

  create-OneTable :
      (table : String) (c c' : Catalog)
      → OneTable c
      → create_triggers_for_table mysql_trigger_name drop_by_name primary_key config table c
        ≡ some c'
      → c'.triggers ≡ three config table
  create-OneTable table c c' (inl none_yet) h =
      create-triggers mysql_trigger_name drop_by_name table c c' h
      ∙ (ap (create_all mysql_trigger_name drop_by_name config table) none_yet
          ∙ create_all-nil table)
  create-OneTable table c c' (inr (before, those)) h =
      create-triggers mysql_trigger_name drop_by_name table c c' h
      ∙ (ap (create_all mysql_trigger_name drop_by_name config table) those
          ∙ create_all-three table before)

  initialize-OneTable :
      (tables : List String) (last : String) (c c' : Catalog)
      → OneTable c
      → initialize_tracking mysql_trigger_name drop_by_name primary_key config
          (tables ++ last ∷ [])
          c
        ≡ some c'
      → c'.triggers ≡ three config last
  unfolding initialize_tracking
  initialize-OneTable [] last c c' one h =
      elim (Option-cases
        (create_triggers_for_table mysql_trigger_name drop_by_name primary_key config last c)) [
          | inl thrown ↦ ground (arith, thrown, h)
          | inr (d, done) ↦
              let made = create-OneTable last c d one done in ground (arith, done, h, made)
        ]
  initialize-OneTable (table ∷ tables) last c c' one h =
      elim (Option-cases
        (create_triggers_for_table mysql_trigger_name drop_by_name primary_key config table c)) [
          | inl thrown ↦ ground (arith, thrown, h)
          | inr (d, done) ↦
              initialize-OneTable tables last d c' (inr (table, create-OneTable table c d one done))
                (ground (arith, done, h))
        ]

three-captured :
    (config last table : String) (op : Operation) (c : Catalog)
    → c.triggers ≡ three config last
    → is_captured c table op ≡ (last == table)
unfolding is_captured
three-captured config last table insert c e = ground (arith, e)
three-captured config last table update c e = ground (arith, e)
three-captured config last table delete c e = ground (arith, e)

-- In MySQL, where no trigger was before: after the tracking of a list of tables was set up, the
-- changes of its last table are captured, and those of no other table.
pub initialize_tracking-mysql :
    (primary_key : String → List String) (config : String) (tables : List String) (last : String)
    (c c' : Catalog) (table : String) (op : Operation)
    → c.triggers ≡ []
    → initialize_tracking mysql_trigger_name drop_by_name primary_key config (tables ++ last ∷ []) c
      ≡ some c'
    → is_captured c' table op ≡ (last == table)
initialize_tracking-mysql primary_key config tables last c c' table op empty h =
    three-captured config last table op c'
      (initialize-OneTable primary_key config tables last c c' (inl empty) h)
