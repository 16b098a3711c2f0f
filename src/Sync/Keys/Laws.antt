-- ===== src/Sync/Keys/Laws.antt =====
-- When two records have one key: for a key of one column exactly when its texts are the same, for
-- more columns also where a value holds the separators.
use Prim.Native.String
use text.Mathlib.Text.{is_le, ◌==◌}
use text.Mathlib.TextLemmas.{append_assoc, append_cancel_left}
use db_backup.Prelude.{
  String, ◌≡◌, ◌≢◌, ◌↔◌, sym, ◌∙◌, true, false, [], ◌∷◌, arith, eq_iff, eq_refl,
}
use db_backup.Sync.Values.{◌<>◌, Value, string, field, keys, to_text}
use db_backup.Sync.Keys.{create_conflict_key}

create_conflict_key-single :
    (table column : String) (v : Value)
    → create_conflict_key table ((column, v) ∷ []) ≡ table <> ":" <> column <> ":" <> to_text v
unfolding create_conflict_key field keys
create_conflict_key-single table column v = simp eq_refl

text-ne : (a b : String) → a ≢ b → (a == b) ≡ false
text-ne a b h = ground (arith, eq_iff a b)

-- For a primary key of one column, two records of one table have the same key exactly when the
-- texts of their values are the same.
pub create_conflict_key-single_iff :
    (table column : String) (v w : Value)
    → (create_conflict_key table ((column, v) ∷ []) ≡ create_conflict_key table ((column, w) ∷ []))
      ↔ (to_text v ≡ to_text w)
create_conflict_key-single_iff table column v w = (
  λ h.
      let shown =
        sym (create_conflict_key-single table column v)
        ∙ (h ∙ create_conflict_key-single table column w) in
      append_cancel_left ":" _ _ (
        append_cancel_left column _ _
          (append_cancel_left ":" _ _ (append_cancel_left table _ _ shown))),
  λ e. simp (create_conflict_key-single, e),
)

-- For a primary key of two text columns, the records (x,b:y | z) and (x | y,b:z) have the same key.
pub create_conflict_key-collision :
    (table a b x y z : String)
    → is_le (String.compare a b) ≡ true
    → a ≢ b
    → create_conflict_key table ((a, string (x <> "," <> b <> ":" <> y)) ∷ (b, string z) ∷ [])
      ≡ create_conflict_key table ((a, string x) ∷ (b, string (y <> "," <> b <> ":" <> z)) ∷ [])
unfolding create_conflict_key field keys to_text
create_conflict_key-collision table a b x y z before differ =
    simp (before, eq_refl, text-ne a b differ, append_assoc)
