-- ===== src/Sync/Keys.antt =====
-- The key of a changed record: server/src/queue/sync/utils/conflict-key.ts.
pub mod Laws
use Prim.Native.String
use text.Mathlib.Text.{is_le}
use db_backup.Prelude.{String, Bool, List, [], ◌∷◌, if◌then◌else◌, map}
use db_backup.Sync.Values.{◌<>◌, Row, field, keys, to_text}

-- `keys.sort()`, by code points
unfoldable pub insert_text : String → List String → List String
insert_text k [] = k ∷ []
insert_text k (j ∷ ks) = if is_le (String.compare k j) then k ∷ j ∷ ks else j ∷ insert_text k ks

unfoldable pub sort_texts : List String → List String
unfolding insert_text
sort_texts [] = []
sort_texts (k ∷ ks) = insert_text k (sort_texts ks)

-- `parts.join(',')`
unfoldable pub join : List String → String
join [] = ""
join (part ∷ []) = part
join (part ∷ next ∷ parts) = part <> "," <> join (next ∷ parts)

unfoldable pub key_part : Row → String → String
key_part values k = k <> ":" <> to_text (field values k)

unfoldable pub create_conflict_key : String → Row → String
unfolding sort_texts join key_part
create_conflict_key table values =
    table <> ":" <> join (map (key_part values) (sort_texts (keys values)))
