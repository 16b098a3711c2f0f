-- ===== src/Sync/Sanitation.antt =====
-- normalizeJsonValue and sanitizeData of server/src/queue/sync/sanitation/data-sanitizer.ts. The text
-- functions of JavaScript that they call are parameters; `none` is an exception.
use db_backup.Prelude.{
  String, Bool, true, false, ◌||◌, Option, none, some, List, [], ◌∷◌, if◌then◌else◌, ◌==◌, includes,
}
use db_backup.Sync.Values.{
  Value, undefined, null, function, symbol, boolean, number, bigint, string, date, object,
  is_nullish, Row,
}

-- `trim`, whether `JSON.parse` accepts a text, and `JSON.stringify` of a text
pub record Json : Type 0 where
  pub trim : String → String
  pub parses : String → Bool
  pub quote : String → String

pub record Normalized : Type 0 where
  pub value : Value
  pub coerced : Bool

unfoldable pub normalize_text : Json → String → Normalized
normalize_text json text =
    let trimmed = json.trim text in
    if trimmed == ""
    then record { value = string (json.quote text); coerced = true }
    else if json.parses trimmed
    then record { value = string trimmed; coerced = false }
    else record { value = string (json.quote text); coerced = true }

-- `JSON.stringify` of a number, by its text
abbrev pub number_json : String → String
number_json text =
    if text == "NaN" || text == "Infinity" || text == "-Infinity" then "null" else text

-- `JSON.stringify` of a function or a symbol is undefined; `toISOString` of an invalid date throws.
unfoldable pub normalize_json_value : Json → Value → Option Normalized
unfolding normalize_text
normalize_json_value json undefined = some (record { value = null; coerced = false })
normalize_json_value json null = some (record { value = null; coerced = false })
normalize_json_value json (string text) = some (normalize_text json text)
normalize_json_value json (number text) =
    some (record { value = string (number_json text); coerced = true })
normalize_json_value json (boolean true) = some (record { value = string "true"; coerced = true })
normalize_json_value json (boolean false) = some (record { value = string "false"; coerced = true })
normalize_json_value json (bigint text) =
    some (record { value = string (json.quote text); coerced = true })
normalize_json_value json (date (some iso) shown) =
    some (record { value = string (json.quote iso); coerced = true })
normalize_json_value json (date none shown) = none
normalize_json_value json (object text shown) =
    some (record { value = string text; coerced = true })
normalize_json_value json function = some (record { value = undefined; coerced = true })
normalize_json_value json symbol = some (record { value = undefined; coerced = true })

unfoldable pub sanitize_value : Json → List String → String → Value → Option Value
unfolding normalize_json_value
sanitize_value json json_columns key value =
    if is_nullish value
    then some value
    else if includes json_columns key
    then elim (normalize_json_value json value) [ none ↦ none | some n ↦ some n.value ]
    else some value

-- the loop over the entries
unfoldable pub sanitize_entries : Json → List String → Row → Option Row
unfolding sanitize_value
sanitize_entries json json_columns [] = some []
sanitize_entries json json_columns ((key, value) ∷ row) =
    let rest = sanitize_entries json json_columns row in
    elim (sanitize_value json json_columns key value) [
      | none ↦ none
      | some v ↦ elim rest [ none ↦ none | some r ↦ some ((key, v) ∷ r) ]
    ]

-- `Object.entries(null)` throws.
unfoldable pub sanitize_data : Json → List String → Option Row → Option Row
unfolding sanitize_entries
sanitize_data json json_columns none = none
sanitize_data json json_columns (some row) = sanitize_entries json json_columns row
