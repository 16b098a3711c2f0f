-- ===== src/Mcp/Approval.antt =====
-- approveMcpAction and denyMcpAction of server/src/services/mcp.service.ts. An approval looks the row
-- up first and closes it after the call: both steps are apart, as other requests may run between them.
pub mod Laws
use db_backup.Prelude.{
  ℕ, String, Bool, true, false, ◌&&◌, Option, none, some, List, [], ◌∷◌, if◌then◌else◌, ◌==◌,
}
use db_backup.Mcp.{McpKey, McpApproval, Status, World, Outside, find_key, pending, approved, denied}
use db_backup.Mcp.Dispatch.{
  Context, Answer, dispatch_tool, unknown_tool, missing_scope, waiting, limit_reached, answered,
  failed,
}

abbrev pub is_pending : Status → Bool
is_pending pending = true
is_pending approved = false
is_pending denied = false

-- `where: { id, userId, status: 'PENDING' }`
abbrev pub is_open : String → String → McpApproval → Bool
is_open user id a = a.id == id && a.user_id == user && is_pending a.status

-- `findFirst`
unfoldable pub find_open : String → String → List McpApproval → Option McpApproval
find_open user id [] = none
find_open user id (a ∷ rows) = if is_open user id a then some a else find_open user id rows

-- `update` of the row with the id
unfoldable pub close : ℕ → String → String → List McpApproval → List McpApproval
close now id text [] = []
close now id text (a ∷ rows) =
    (if a.id == id
      then record a { status = approved; result = some text; resolved_at = some now }
      else a)
    ∷ close now id text rows

unfoldable pub text_of : Answer → String
text_of (unknown_tool name) = "Unknown tool"
text_of (missing_scope scope) = "requires the scope"
text_of (waiting id) = "Approval required"
text_of (limit_reached limit) = "Daily call limit reached"
text_of (answered text) = text
text_of (failed text) = text

pub data Approved : Type 0 where
  executed : Answer → Approved
  not_found key_missing : Approved

-- what the request has read before the call
pub record Action : Type 0 where
  pub approval : McpApproval
  pub key : McpKey

pub data Looked : Type 0 where
  found : Action → Looked
  refused : Approved → Looked

unfoldable pub look_up : String → String → World → Looked
unfolding find_open find_key
look_up user id w = elim (find_open user id w.approvals) [
  | none ↦ refused not_found
  | some a ↦ elim (find_key w.keys a.mcp_key_id) [
    | none ↦ refused key_missing
    | some k ↦ found (record { approval = a; key = k })
  ]
]

-- `approvalRequired: false`, as the action is approved
abbrev pub acting_for : String → McpKey → Context
acting_for user k = record {
  user_id = user;
  key_id = k.id;
  key_name = k.name;
  scopes = k.scopes;
  approval_required = false;
}

module _ (out : Outside) (now : ℕ) where
  unfoldable pub run_action : String → Action → World → World × Answer
  run_action user act w =
      dispatch_tool out now act.approval.tool act.approval.args (acting_for user act.key) w

  -- the call, and the row closed with whatever text came back
  unfoldable pub perform : String → String → Action → World → World × Approved
  unfolding run_action close text_of
  perform user id act w =
      let (w', answer) = run_action user act w in
      (record w' { approvals = close now id (text_of answer) w'.approvals }, executed answer)

  unfoldable pub act_on : String → String → Looked → World → World × Approved
  unfolding perform
  act_on user id (refused r) w = (w, r)
  act_on user id (found act) w = perform user id act w

  unfoldable pub approve_mcp_action : String → String → World → World × Approved
  unfolding act_on look_up
  approve_mcp_action user id w = act_on user id (look_up user id w) w

-- `updateMany` of the open rows
unfoldable pub deny_rows : ℕ → String → String → List McpApproval → List McpApproval
deny_rows now user id [] = []
deny_rows now user id (a ∷ rows) =
    (if is_open user id a then record a { status = denied; resolved_at = some now } else a)
    ∷ deny_rows now user id rows

-- `false` stands for the exception that no pending approval was found
unfoldable pub deny_mcp_action : ℕ → String → String → World → World × Bool
unfolding deny_rows find_open
deny_mcp_action now user id w = (
  record w { approvals = deny_rows now user id w.approvals },
  elim (find_open user id w.approvals) [ none ↦ false | some a ↦ true ],
)
