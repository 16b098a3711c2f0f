-- ===== src/Mcp/Routes/Reach.antt =====
-- What the requests of agents and of key owners lead to, one request at a time.
use db_backup.Prelude.{ℕ, String, ◌≡◌, Bool, none, some, []}
use db_backup.Sync.Values.{Row}
use db_backup.Mcp.{McpKey, World, Outside, find_key}
use db_backup.Mcp.Dispatch.{dispatch_tool}
use db_backup.Mcp.Approval.{approve_mcp_action, deny_mcp_action}
use db_backup.Mcp.Routes.{
  authenticate_key, context_of, KeyRequest, create_key, rotate_key, revoke_key,
}

-- A new key has an id that no key has had.
pub data Step (out : Outside) (is_active fits : String → Bool) : World → World → Type 0 where
  tools_call :
      (now : ℕ) (hash : String) (k : McpKey) (name : String) (args : Row) (w : World)
      → authenticate_key is_active now hash w.keys ≡ some k
      → Step out is_active fits w (dispatch_tool out now name args (context_of k) w).0
  approve :
      (now : ℕ) (user id : String) (w : World)
      → Step out is_active fits w (approve_mcp_action out now user id w).0
  deny :
      (now : ℕ) (user id : String) (w : World)
      → Step out is_active fits w (deny_mcp_action now user id w).0
  create :
      (now : ℕ) (id user hash : String) (r : KeyRequest) (w : World)
      → find_key w.keys id ≡ none
      → Step out is_active fits w (create_key fits now id user hash r w).0
  rotate :
      (user id hash : String) (w : World) → Step out is_active fits w (rotate_key user id hash w).0
  revoke :
      (now : ℕ) (user id : String) (w : World)
      → Step out is_active fits w (revoke_key now user id w).0

unfoldable pub empty : World
empty = record { keys = []; approvals = []; calls = [] }

pub data Reachable (out : Outside) (is_active fits : String → Bool) : World → Type 0 where
  start : Reachable out is_active fits empty
  next :
      {w w' : World}
      → Reachable out is_active fits w
      → Step out is_active fits w w'
      → Reachable out is_active fits w'
