-- ===== src/Tests/Apply.antt =====
-- A table of two columns in a database that keeps rows as they were written.
use db_backup.Prelude.{ℕ, ◌≡◌, refl, Option, none, some, List, [], ◌∷◌, ◌++◌, ◌==◌, arith}
use db_backup.Sync.Values.{string, number, null, insert, delete, keys, field, is_nullish}
use db_backup.Sync.Sanitation.{Json, sanitize_data}
use db_backup.Sync.Apply.Statements.{Bound, update_row, insert_row, delete_row}
use db_backup.Sync.Apply.{
  ChangeToApply, committed, rolled_back, mysql, postgresql, apply_change_batch, in_transaction,
}
use db_backup.Sync.Apply.Written.{write_changes}
use db_backup.Sync.Apply.Laws.{all_or_none, apply_change_batch_lem}

-- every statement that ran; an update finds no row, and a deletion fails
abbrev journal : List Bound → Bound → Option (List Bound × ℕ)
journal db (update_row table row key) = some (db ++ update_row table row key ∷ [], 0)
journal db (insert_row table row) = some (db ++ insert_row table row ∷ [], 1)
journal db (delete_row table key) = none

abbrev plain : Json
plain = record { trim = λ t. t; parses = λ t. t == "{}"; quote = λ t. t }

abbrev change : ChangeToApply
change = record {
  operation = insert;
  primary_key_values = ("id", number "1") ∷ [];
  change_data = some (("id", number "1") ∷ ("name", string "x") ∷ []);
}

apply_change_batch_lem_example :
    apply_change_batch journal plain postgresql "t" (change ∷ []) []
    ≡ all_or_none [] (write_changes journal "t" plain postgresql (change ∷ []) [])
unfolding keys
apply_change_batch_lem_example =
    apply_change_batch_lem journal plain postgresql "t" (change ∷ []) []
      (((refl, tt), λ row e. ground (arith, e)), tt)

written :
    apply_change_batch journal plain postgresql "t" (change ∷ []) []
    ≡ committed (
        update_row "t" (("name", string "x") ∷ []) (("id", number "1") ∷ [])
        ∷ insert_row "t" (("id", number "1") ∷ ("name", string "x") ∷ [])
        ∷ [])
unfolding apply_change_batch in_transaction field is_nullish
written = refl

abbrev failing : ChangeToApply
failing = record change { operation = delete }

undone : apply_change_batch journal plain (mysql []) "t" (change ∷ failing ∷ []) [] ≡ rolled_back []
unfolding apply_change_batch in_transaction field is_nullish
undone = refl

json_text :
    sanitize_data plain
      ("doc" ∷ [])
      (some (("doc", number "1") ∷ ("n", number "2") ∷ ("doc2", null) ∷ []))
    ≡ some (("doc", string "1") ∷ ("n", number "2") ∷ ("doc2", null) ∷ [])
unfolding sanitize_data is_nullish
json_text = refl
