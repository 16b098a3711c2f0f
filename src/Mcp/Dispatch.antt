-- ===== src/Mcp/Dispatch.antt =====
-- dispatchTool of server/src/services/mcp.service.ts: the checks, the quota and the call.
pub mod Meter
pub mod Quota
pub mod Laws
use db_backup.Prelude.{
  ℕ, ◌+◌, String, Bool, true, false, ◌&&◌, Option, none, some, List, [], ◌∷◌, ◌++◌, if◌then◌else◌,
  or_else, ltb,
}
use db_backup.Sync.Values.{Row}
use db_backup.Mcp.Tools.{
  Scope, ToolDef, mcp_tools, find_tool, has_scope, pick_declared_args, is_destructive,
}
use db_backup.Mcp.{
  McpKey, McpApproval, Call, World, Handled, Outside, find_key, update_key, roll, reserve, pending,
  returned, thrown,
}

pub record Context : Type 0 where
  pub user_id : String
  pub key_id : String
  pub key_name : String
  pub scopes : List Scope
  pub approval_required : Bool

-- The answers, with the text of a handler or of its error. Only the last two follow a call.
pub data Answer : Type 0 where
  unknown_tool : String → Answer
  missing_scope : Scope → Answer
  waiting : String → Answer
  limit_reached : ℕ → Answer
  answered failed : String → Answer

unfoldable pub note_use : ℕ → String → String → World → World × Answer
unfolding find_key update_key
note_use now id text w = elim (find_key w.keys id) [
  | none ↦ (w, failed "Record to update not found.")
  | some k ↦ (
    record w { keys = update_key (λ k. record k { last_used_at = some now }) id w.keys },
    answered text,
  )
]

unfoldable pub handled : ℕ → String → Handled → World → World × Answer
unfolding note_use
handled now id (returned text) w = note_use now id text w
handled now id (thrown message) w = (w, failed message)

-- the calls are limited if the limit is a positive number
unfoldable pub limit_of : Option McpKey → ℕ
limit_of none = 0
limit_of (some k) = or_else k.daily_call_limit 0

module _ (out : Outside) (now : ℕ) where
  -- the handler, and the time of the last use
  unfoldable pub run_handler : Call → World → World × Answer
  unfolding handled
  run_handler c w = handled now c.key_id (out.handle w.calls c) (record w { calls = c ∷ w.calls })

  -- one call reserved in the database, and made if it was granted
  unfoldable pub take_call : ℕ → Call → World → World × Answer
  unfolding run_handler
  take_call limit c w =
      let (w', granted) = reserve limit c.key_id w in
      if granted then run_handler c w' else (w', limit_reached limit)

  unfoldable pub run_limited : Call → World → World × Answer
  unfolding take_call run_handler limit_of
  run_limited c w =
      let limit = limit_of (find_key w.keys c.key_id) in
      if ltb 0 limit then take_call limit c (roll now c.key_id w) else run_handler c w

  unfoldable pub ask_approval : Context → String → Row → World → World × Answer
  ask_approval ctx name args w = (
    record w {
      approvals =
          w.approvals
          ++ (record {
            id = out.new_id w.approvals;
            user_id = ctx.user_id;
            mcp_key_id = ctx.key_id;
            key_name = ctx.key_name;
            tool = name;
            args = args;
            status = pending;
            result = none;
            resolved_at = none;
          })
            ∷ [];
    },
    waiting (out.new_id w.approvals),
  )

  unfoldable pub dispatch_to : ToolDef → Row → Context → World → World × Answer
  unfolding run_limited ask_approval
  dispatch_to t raw_args ctx w =
      let args = pick_declared_args t raw_args in
      if has_scope ctx.scopes t.scope
      then (if ctx.approval_required && is_destructive t.scope
          then ask_approval ctx t.name args w
          else run_limited
              (record { tool = t.name; args = args; user_id = ctx.user_id; key_id = ctx.key_id }) w)
      else (w, missing_scope t.scope)

  unfoldable pub dispatch_tool : String → Row → Context → World → World × Answer
  unfolding dispatch_to
  dispatch_tool name raw_args ctx w = elim (find_tool mcp_tools name) [
    | none ↦ (w, unknown_tool name)
    | some t ↦ dispatch_to t raw_args ctx w
  ]
