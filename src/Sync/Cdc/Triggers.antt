-- ===== src/Sync/Cdc/Triggers.antt =====
-- The names of the triggers of one table differ by the operation, and when operations are the same.
use text.Mathlib.TextLemmas.{append_cancel_left}
use db_backup.Prelude.{String, ◌≡◌, refl, true, false, ◌==◌, eq_iff, arith}
use db_backup.Sync.Values.{◌<>◌, Operation, insert, update, delete}
use db_backup.Sync.Cdc.{
  suffix, trigger_prefix, sanitized, mysql_trigger_name, pg_trigger_name, same_operation,
}

suffix-ne : (op op' : Operation) → same_operation op op' ≡ false → (suffix op == suffix op') ≡ false
suffix-ne insert insert h = cc
suffix-ne insert update h = refl
suffix-ne insert delete h = refl
suffix-ne update insert h = refl
suffix-ne update update h = cc
suffix-ne update delete h = refl
suffix-ne delete insert h = refl
suffix-ne delete update h = refl
suffix-ne delete delete h = cc

after_prefix : (base x y : String) → (x == y) ≡ false → ((base <> x) == (base <> y)) ≡ false
after_prefix base x y h =
    ground (arith, h, eq_iff x y, eq_iff (base <> x) (base <> y), append_cancel_left base x y)

-- behind one more name
after_name :
    (base name : String) (op op' : Operation)
    → same_operation op op' ≡ false
    → ((base <> "_" <> name <> suffix op) == (base <> "_" <> name <> suffix op')) ≡ false
after_name base name op op' h =
    after_prefix base _ _ (after_prefix "_" _ _ (after_prefix name _ _ (suffix-ne op op' h)))

pub mysql_trigger_name-ne :
    (config table table' : String) (op op' : Operation)
    → same_operation op op' ≡ false
    → (mysql_trigger_name config table op == mysql_trigger_name config table' op') ≡ false
unfolding mysql_trigger_name
mysql_trigger_name-ne config table table' op op' h =
    after_name (trigger_prefix config) (sanitized 20 config) op op' h

pub pg_trigger_name-ne :
    (config table : String) (op op' : Operation)
    → same_operation op op' ≡ false
    → (pg_trigger_name config table op == pg_trigger_name config table op') ≡ false
unfolding pg_trigger_name
pg_trigger_name-ne config table op op' h = after_name (trigger_prefix config) table op op' h

pub same_operation-sym : (a b : Operation) → same_operation a b ≡ same_operation b a
same_operation-sym insert insert = refl
same_operation-sym insert update = refl
same_operation-sym insert delete = refl
same_operation-sym update insert = refl
same_operation-sym update update = refl
same_operation-sym update delete = refl
same_operation-sym delete insert = refl
same_operation-sym delete update = refl
same_operation-sym delete delete = refl

pub same_operation-eq : (a b : Operation) → same_operation a b ≡ true → a ≡ b
same_operation-eq insert insert h = refl
same_operation-eq insert update h = cc
same_operation-eq insert delete h = cc
same_operation-eq update insert h = cc
same_operation-eq update update h = refl
same_operation-eq update delete h = cc
same_operation-eq delete insert h = cc
same_operation-eq delete update h = cc
same_operation-eq delete delete h = refl

pub same_operation_refl : (a : Operation) → same_operation a a ≡ true
same_operation_refl insert = refl
same_operation_refl update = refl
same_operation_refl delete = refl
