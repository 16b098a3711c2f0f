-- ===== src/Mcp.antt =====
-- The interface for agents: server/src/services/mcp.service.ts, over the McpApiKey and McpApproval
-- tables of server/prisma/schema.prisma. What a tool's handler does to the rest of the program is
-- outside: it may depend on all handler calls so far.
pub mod Tools
pub mod Dispatch
pub mod Approval
pub mod Routes
use db_backup.Prelude.{
  ℕ, ◌+◌, ◌*◌, ◌/◌, String, Bool, true, false, Option, none, some, List, [], ◌∷◌, ◌++◌,
  if◌then◌else◌, ltb, ◌==◌, or_else,
}
use db_backup.Sync.Values.{Row}
use db_backup.Mcp.Tools.{Scope}

pub record McpKey : Type 0 where
  pub id : String
  pub user_id : String
  pub name : String
  pub key_hash : String
  pub scopes : List Scope
  pub approval_required : Bool
  pub daily_call_limit : Option ℕ
  pub calls_today : ℕ
  pub calls_reset_at : Option ℕ
  pub expires_at : Option ℕ
  pub revoked_at : Option ℕ
  pub last_used_at : Option ℕ

pub data Status : Type 0 where
  pending approved denied : Status

pub record McpApproval : Type 0 where
  pub id : String
  pub user_id : String
  pub mcp_key_id : String
  pub key_name : String
  pub tool : String
  pub args : Row
  pub status : Status
  pub result : Option String
  pub resolved_at : Option ℕ

-- one call of a tool's handler
pub record Call : Type 0 where
  pub tool : String
  pub args : Row
  pub user_id : String
  pub key_id : String

-- the two tables, and the handler calls that were made, the last one first
pub record World : Type 0 where
  pub keys : List McpKey
  pub approvals : List McpApproval
  pub calls : List Call

-- what a handler returns, or the message of what it throws
pub data Handled : Type 0 where
  returned thrown : String → Handled

-- what is outside: the handlers, which see the calls before theirs, and the generator of ids
pub record Outside : Type 0 where
  pub handle : List Call → Call → Handled
  pub new_id : List McpApproval → String

-- `findUnique({ where: { id } })`
unfoldable pub find_key : List McpKey → String → Option McpKey
find_key [] id = none
find_key (k ∷ keys) id = if k.id == id then some k else find_key keys id

-- an update of the rows with the id
unfoldable pub update_key : (McpKey → McpKey) → String → List McpKey → List McpKey
update_key f id [] = []
update_key f id (k ∷ keys) = (if k.id == id then f k else k) ∷ update_key f id keys

abbrev pub day_ms : ℕ
day_ms = 86400000

-- `nextReset.setUTCHours(24, 0, 0, 0)`
unfoldable pub next_reset : ℕ → ℕ
next_reset now = (now / day_ms + 1) * day_ms

unfoldable pub is_reset_due : ℕ → Option ℕ → Bool
is_reset_due now none = true
is_reset_due now (some reset) = ltb reset now

-- the first `updateMany`: a new window
unfoldable pub roll_key : ℕ → McpKey → McpKey
unfolding is_reset_due next_reset
roll_key now k =
    if is_reset_due now k.calls_reset_at
    then record k { calls_today = 0; calls_reset_at = some (next_reset now) }
    else k

unfoldable pub roll : ℕ → String → World → World
unfolding roll_key update_key
roll now id w = record w { keys = update_key (roll_key now) id w.keys }

-- the second `updateMany`, and whether it changed a row
unfoldable pub reserve_key : ℕ → McpKey → McpKey
reserve_key limit k =
    if ltb k.calls_today limit then record k { calls_today = k.calls_today + 1 } else k

unfoldable pub can_reserve : ℕ → Option McpKey → Bool
can_reserve limit none = false
can_reserve limit (some k) = ltb k.calls_today limit

unfoldable pub reserve : ℕ → String → World → World × Bool
unfolding reserve_key update_key can_reserve find_key
reserve limit id w = (
  record w { keys = update_key (reserve_key limit) id w.keys },
  can_reserve limit (find_key w.keys id),
)
