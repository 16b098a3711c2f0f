-- ===== src/Sync/Cdc/Captured.antt =====
-- In PostgreSQL every table of a configuration is captured once its tracking was set up.
use db_backup.Prelude.{
  any-append, any-select, any_mono, ℕ, String, ◌≡◌, refl, ap, Bool, true, false, not, leb, ◌&&◌,
  ◌||◌, some, List, [], ◌∷◌, ◌==◌, eq_iff, arith, any, includes, Option-cases, Bool-cases, inl, inr,
}
use db_backup.Sync.Values.{Operation, insert, update, delete}
use db_backup.Sync.Cdc.{
  Trigger, Catalog, pg_trigger_name, drop_on_table, create_trigger, create_all,
  create_triggers_for_table, initialize_tracking, same_operation, is_captured,
}
use db_backup.Sync.Cdc.Triggers.{
  pg_trigger_name-ne, same_operation-sym, same_operation-eq, same_operation_refl,
}
use db_backup.Sync.Cdc.Tracked.{create-triggers}

module _ (name : String → String → Operation → String) (config table : String)
    (names_differ : (a b : Operation)
      → same_operation a b ≡ false
      → (name config table a == name config table b) ≡ false)
    (op : Operation) where
  abbrev is_own : Trigger → Bool
  is_own t = t.table == table && same_operation t.operation op && t.name == name config table op

  abbrev same_place : String → Operation → Bool
  same_place table' op' = table' == table && same_operation op' op

  apart :
      (table' : String) (op' : Operation)
      → same_place table' op' ≡ false
      → (table' == table) ≡ true
      → (name config table op == name config table' op') ≡ false
  apart table' op' other same =
      let place : table' ≡ table = (eq_iff table' table).0 same in
      rw place (names_differ op op' (ground (arith, other, same, same_operation-sym op op')))

  kept :
      (table' : String) (op' : Operation)
      → same_place table' op' ≡ false
      → (t : Trigger) → is_own t ≡ true
      → not (t.name == name config table' op' && t.table == table') ≡ true
  kept table' op' other t own =
      let here : t.table ≡ table = ground (arith, own, eq_iff t.table table) in
      let named : t.name ≡ name config table op =
        ground (arith, own, eq_iff t.name (name config table op)) in
      elim (Bool-cases (table' == table)) [
        | inl same ↦ rw (named, apart table' op' other same) refl
        | inr away ↦ rw here (ground (arith, away, eq_iff table table', eq_iff table' table))
      ]

  drop-own :
      (table' : String) (op' : Operation) (ts : List Trigger)
      → same_place table' op' ≡ false
      → any is_own ts ≡ true
      → any is_own (drop_on_table (name config table' op') table' ts) ≡ true
  unfolding drop_on_table
  drop-own table' op' ts other h = any-select is_own _ ts (kept table' op' other) h

  create-own :
      (table' : String) (op' : Operation) (ts : List Trigger)
      → (same_place table' op' || any is_own ts) ≡ true
      → any is_own (create_trigger name drop_on_table config table' op' ts) ≡ true
  unfolding create_trigger
  create-own table' op' ts h =
      let new : Trigger = record {
        name = name config table' op';
        table = table';
        operation = op';
      } in
      let split = any-append is_own (drop_on_table (name config table' op') table' ts) (new ∷ []) in
      elim (Bool-cases (same_place table' op')) [
        | inr other ↦ ground (arith, other, h, drop-own table' op' ts other, split)
        | inl here ↦
            let place : table' ≡ table = ground (arith, here, eq_iff table' table) in
            let doing : op' ≡ op = same_operation-eq op' op (ground (arith, here)) in
            let own : is_own new ≡ true =
              rw (place, doing)
                (ground (
                  arith,
                  eq_iff table table,
                  same_operation_refl op,
                  eq_iff (name config table op) (name config table op),
                )) in
            ground (arith, own, split)
      ]

create_all-own :
    (name : String → String → Operation → String) (config table : String)
    (names_differ : (a b : Operation)
      → same_operation a b ≡ false
      → (name config table a == name config table b) ≡ false)
    (op : Operation) (table' : String) (ts : List Trigger)
    → (table' == table || any (is_own name config table names_differ op) ts) ≡ true
    → any
        (is_own name config table names_differ op)
        (create_all name drop_on_table config table' ts)
      ≡ true
unfolding create_all
create_all-own name config table names_differ insert table' ts h =
    let one = create_trigger name drop_on_table config table' insert ts in
    let two = create_trigger name drop_on_table config table' update one in
    ground (
      arith,
      h,
      create-own name config table names_differ insert table' insert ts,
      create-own name config table names_differ insert table' update one,
      create-own name config table names_differ insert table' delete two,
    )
create_all-own name config table names_differ update table' ts h =
    let one = create_trigger name drop_on_table config table' insert ts in
    let two = create_trigger name drop_on_table config table' update one in
    ground (
      arith,
      h,
      create-own name config table names_differ update table' insert ts,
      create-own name config table names_differ update table' update one,
      create-own name config table names_differ update table' delete two,
    )
create_all-own name config table names_differ delete table' ts h =
    let one = create_trigger name drop_on_table config table' insert ts in
    let two = create_trigger name drop_on_table config table' update one in
    ground (
      arith,
      h,
      create-own name config table names_differ delete table' insert ts,
      create-own name config table names_differ delete table' update one,
      create-own name config table names_differ delete table' delete two,
    )

module _ (primary_key : String → List String) (name : String → String → Operation → String)
    (config table : String)
    (names_differ : (a b : Operation)
      → same_operation a b ≡ false
      → (name config table a == name config table b) ≡ false)
    (op : Operation) where
  initialize-own :
      (tables : List String) (c c' : Catalog)
      → (includes tables table || any (is_own name config table names_differ op) c.triggers) ≡ true
      → initialize_tracking name drop_on_table primary_key config tables c ≡ some c'
      → any (is_own name config table names_differ op) c'.triggers ≡ true
  unfolding initialize_tracking
  initialize-own [] c c' h ok =
      let same : c ≡ c' = ground (arith, ok) in
      ground (arith, h, ap (λ (d : Catalog). d.triggers) same)
  initialize-own (t ∷ tables) c c' h ok =
      elim (Option-cases (create_triggers_for_table name drop_on_table primary_key config t c)) [
        | inl thrown ↦ ground (arith, thrown, ok)
        | inr (d, done) ↦
            let made = create-triggers primary_key config name drop_on_table t c d done in
            initialize-own tables d c'
              (rw made
                (ground (arith, h, create_all-own name config table names_differ op t c.triggers)))
              (ground (arith, done, ok))
      ]

  initialize-captured :
      (tables : List String) (c c' : Catalog)
      → includes tables table ≡ true
      → initialize_tracking name drop_on_table primary_key config tables c ≡ some c'
      → is_captured c' table op ≡ true
  unfolding is_captured
  initialize-captured tables c c' listed ok =
      any_mono (is_own name config table names_differ op) _ c'.triggers
        (λ t own. ground (arith, own)) (initialize-own tables c c' (ground (arith, listed)) ok)

-- PostgreSQL keeps of a name what `stored` makes of it: the name itself if it has at most 63 bytes.
module _ (stored : String → String) (size : String → ℕ)
    (stored-short : (n : String) → leb (size n) 63 ≡ true → stored n ≡ n) where
  stored-differ :
      (config table : String)
      → ((op : Operation) → leb (size (pg_trigger_name config table op)) 63 ≡ true)
      → (a b : Operation) → same_operation a b ≡ false
      → (stored (pg_trigger_name config table a) == stored (pg_trigger_name config table b)) ≡ false
  stored-differ config table short a b other =
      rw
        (
          stored-short (pg_trigger_name config table a) (short a),
          stored-short (pg_trigger_name config table b) (short b),
        )
        (pg_trigger_name-ne config table a b other)

  -- In PostgreSQL, whatever triggers were before: once the tracking of a configuration was set up,
  -- every change of a table of it is captured, if the names of the table's triggers have at most the
  -- 63 bytes that the database keeps of a name.
  pub initialize_tracking-pg :
      (primary_key : String → List String) (config table : String) (op : Operation)
      (tables : List String) (c c' : Catalog)
      → ((op : Operation) → leb (size (pg_trigger_name config table op)) 63 ≡ true)
      → includes tables table ≡ true
      → initialize_tracking
          (λ config table op. stored (pg_trigger_name config table op))
          drop_on_table
          primary_key
          config
          tables
          c
        ≡ some c'
      → is_captured c' table op ≡ true
  initialize_tracking-pg primary_key config table op tables c c' short listed ok =
      initialize-captured primary_key (λ config table op. stored (pg_trigger_name config table op))
        config table (stored-differ config table short) op tables c c' listed ok
