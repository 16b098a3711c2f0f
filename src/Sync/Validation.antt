-- ===== src/Sync/Validation.antt =====
-- validateChange of server/src/queue/sync/validation/change-validator.ts. The engine and the
-- connection that it takes are not used by it.
pub mod Laws
use db_backup.Prelude.{
  String, Bool, true, false, Option, none, some, List, [], ◌∷◌, ◌++◌, if◌then◌else◌,
}
use db_backup.Sync.Values.{
  Value, function, symbol, is_nullish, Row, Operation, insert, update, delete,
}

pub data Fault : Type 0 where
  missing_primary_key missing_data : Fault
  null_primary_key : String → Fault
  invalid_type : String → Fault

pub record Validation : Type 0 where
  pub valid : Bool
  pub errors : List Fault

-- `errors.length === 0`
unfoldable pub no_errors : List Fault → Bool
no_errors [] = true
no_errors (e ∷ es) = false

unfoldable pub null_keys : Row → List Fault
null_keys [] = []
null_keys ((k, v) ∷ row) =
    if is_nullish v then null_primary_key k ∷ null_keys row else null_keys row

-- `typeof value === 'function' || typeof value === 'symbol'`
unfoldable pub is_unstorable : Value → Bool
is_unstorable function = true
is_unstorable symbol = true
is_unstorable _ = false

-- of the values that are neither null nor undefined
unfoldable pub invalid_types : Row → List Fault
invalid_types [] = []
invalid_types ((k, v) ∷ row) =
    if is_nullish v
    then invalid_types row
    else if is_unstorable v
    then invalid_type k ∷ invalid_types row
    else invalid_types row

unfoldable pub validate_data : List Fault → Option Row → Validation
unfolding invalid_types no_errors
validate_data errors none = record { valid = false; errors = errors ++ missing_data ∷ [] }
validate_data errors (some []) = record { valid = false; errors = errors ++ missing_data ∷ [] }
validate_data errors (some (c ∷ cs)) =
    let all = errors ++ invalid_types (c ∷ cs) in record { valid = no_errors all; errors = all }

unfoldable pub validate_operation : Operation → List Fault → Option Row → Validation
unfolding validate_data no_errors
validate_operation delete errors row = record { valid = no_errors errors; errors = errors }
validate_operation insert errors row = validate_data errors row
validate_operation update errors row = validate_data errors row

unfoldable pub validate_change : Operation → Row → Option Row → Validation
unfolding validate_operation null_keys
validate_change op [] row = record { valid = false; errors = missing_primary_key ∷ [] }
validate_change op (k ∷ ks) row = validate_operation op (null_keys (k ∷ ks)) row
