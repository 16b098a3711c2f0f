-- ===== src/Sync/Values.antt =====
-- The dynamic values of rows and keys, and the rows of the change log (server/src/services/sync/types.ts
-- and the ChangeLog model of server/prisma/schema.prisma).
use text.Mathlib.Text.{◌==◌}
use Prim.Native.String
use db_backup.Prelude.{ℕ, String, Bool, true, false, Option, List, [], ◌∷◌, if◌then◌else◌}

infixr 65 ◌<>◌
abbrev pub ◌<>◌ : String → String → String
s <> t = String.◌++◌ s t

-- A JavaScript value. A number, a date or an object carries the text that JavaScript prints for it.
pub data Value : Type 0 where
  undefined null function symbol : Value
  boolean : Bool → Value
  number : String → Value
  bigint : String → Value
  string : String → Value
  -- no ISO text for an invalid date
  date : (iso : Option String) → (shown : String) → Value
  object : (json shown : String) → Value

-- `${value}`
unfoldable pub to_text : Value → String
to_text undefined = "undefined"
to_text null = "null"
to_text function = "function"
to_text symbol = "symbol"
to_text (boolean true) = "true"
to_text (boolean false) = "false"
to_text (number t) = t
to_text (bigint t) = t
to_text (string t) = t
to_text (date iso shown) = shown
to_text (object json shown) = shown

-- `value === null || value === undefined`
unfoldable pub is_nullish : Value → Bool
is_nullish undefined = true
is_nullish null = true
is_nullish _ = false

-- an object's entries, in their order
abbrev pub Row : Type 0
Row = List (String × Value)

-- `record[column]`
unfoldable pub field : Row → String → Value
field [] column = undefined
field ((name, value) ∷ row) column = if name == column then value else field row column

-- `Object.keys(record)`
unfoldable pub keys : Row → List String
keys [] = []
keys ((name, value) ∷ row) = name ∷ keys row

pub data Operation : Type 0 where
  insert update delete : Operation

pub data Origin : Type 0 where
  source target : Origin

pub record ChangeLog : Type 0 where
  pub id : String
  pub sync_config_id : String
  pub table_name : String
  pub operation : Operation
  pub primary_key_values : Row
  pub change_data : Option Row
  pub timestamp : ℕ
  pub checkpoint : String
  pub origin : Origin
  pub synchronized : Bool
