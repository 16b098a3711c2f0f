-- ===== src/Tests/Mcp.antt =====
-- A key that must ask, an agent's call of delete_backup with it, and its owner's answers.
use db_backup.Prelude.{
  ◌+◌, ◌≤◌, String, ◌≡◌, refl, Bool, true, false, none, some, List, [], ◌∷◌, arith,
}
use db_backup.Sync.Values.{Row, string, field}
use db_backup.Mcp.{
  McpKey, McpApproval, Call, World, Outside, find_key, update_key, roll, reserve, returned, pending,
  next_reset, is_reset_due, roll_key, reserve_key, can_reserve,
}
use db_backup.Mcp.Tools.{
  read, write, admin, tool, mcp_tools, find_tool, has_scope, pick_declared_args,
}
use db_backup.Mcp.Dispatch.{
  Answer, answered, dispatch_tool, dispatch_to, run_limited, run_handler, take_call, handled,
  note_use, ask_approval, limit_of,
}
use db_backup.Mcp.Dispatch.Quota.{Event, rolling, taking, rotating, play, calls_of, play-le}
use db_backup.Mcp.Approval.{
  Action, look_up, found, find_open, act_on, perform, executed, approve_mcp_action, deny_mcp_action,
  run_action, close, text_of,
}
use db_backup.Mcp.Approval.Laws.{
  IsClosed, approved_call, approve_mcp_action-once, approve_mcp_action-overlap,
}
use db_backup.Mcp.Routes.{
  rotate_key, create_key, KeyRequest, context_of, authenticate_key, admit, find_hash, key_row,
  valid_scopes, scope_of, requested_scopes, final_scopes, distinct_scopes, positive,
  handle_messages, answer_with, tools_call, notification, ping, accepted, is_revoked, has_expired,
}
use db_backup.Mcp.Routes.Reach.{
  Reachable, start, next, tools_call as call_step, approve, create, empty,
}
use db_backup.Mcp.Routes.Approvals.{approvals_given}
use db_backup.Mcp.Routes.Covers.{destructive_calls}
use db_backup.Mcp.Routes.Supervised.{Reachable-Supervised}

abbrev echo : Outside
echo = record { handle = λ calls c. returned c.tool; new_id = λ rows. "a1" }

abbrev anyone : String → Bool
anyone name = true

abbrev request : KeyRequest
request = record {
  name = "agent";
  scopes = "admin" ∷ [];
  expires_in_days = 0;
  approval_required = true;
  daily_call_limit = 0;
}

abbrev agent : McpKey
agent = record {
  id = "k1";
  user_id = "ann";
  name = "agent";
  key_hash = "hash";
  scopes = admin ∷ write ∷ read ∷ [];
  approval_required = true;
  daily_call_limit = none;
  calls_today = 0;
  calls_reset_at = none;
  expires_at = none;
  revoked_at = none;
  last_used_at = none;
}

abbrev target : Row
target = ("backupId", string "b7") ∷ ("note", string "…") ∷ []

created : (create_key anyone 5 "k1" "ann" "hash" request empty).0.keys ≡ agent ∷ []
unfolding create_key key_row valid_scopes scope_of requested_scopes final_scopes distinct_scopes
    positive empty has_scope
created = refl

abbrev one_key : World
one_key = record { keys = agent ∷ []; approvals = []; calls = [] }

abbrev asked : World
asked = (dispatch_tool echo 6 "delete_backup" target (context_of agent) one_key).0

-- The call waits, with the declared argument alone, and the approval makes it.
asked_row : asked.calls ≡ []
unfolding dispatch_tool dispatch_to ask_approval find_tool mcp_tools has_scope pick_declared_args
asked_row = refl

abbrev approved_world : World
approved_world = (approve_mcp_action echo 7 "ann" "a1" asked).0

approved_calls :
    approved_world.calls
    ≡ record {
      tool = "delete_backup";
      args = ("backupId", string "b7") ∷ [];
      user_id = "ann";
      key_id = "k1";
    }
      ∷ []
unfolding approve_mcp_action act_on look_up find_open find_key perform run_action dispatch_tool
    dispatch_to ask_approval find_tool mcp_tools has_scope pick_declared_args run_limited limit_of
    run_handler handled note_use update_key close text_of field
approved_calls = refl

admitted : authenticate_key anyone 6 "hash" one_key.keys ≡ some agent
unfolding authenticate_key admit find_hash is_revoked has_expired
admitted = refl

reached : Reachable echo anyone anyone approved_world
unfolding create_key key_row valid_scopes scope_of requested_scopes final_scopes distinct_scopes
    positive empty has_scope find_key
reached =
    next
      (next (next start (create 5 "k1" "ann" "hash" request empty refl))
        (call_step 6 "hash" agent "delete_backup" target one_key admitted))
      (approve 7 "ann" "a1" asked)

abbrev used : McpKey
used = record agent { last_used_at = some 7 }

used_lem : find_key approved_world.keys "k1" ≡ some used
unfolding approve_mcp_action act_on look_up find_open find_key perform run_action dispatch_tool
    dispatch_to ask_approval find_tool mcp_tools has_scope pick_declared_args run_limited limit_of
    run_handler handled note_use update_key close text_of field
used_lem = refl

Reachable-Supervised_example :
    destructive_calls "k1" approved_world.calls ≤ approvals_given "k1" approved_world.approvals
Reachable-Supervised_example =
    Reachable-Supervised echo anyone anyone approved_world "k1" used reached used_lem refl

executed_lem : (approve_mcp_action echo 7 "ann" "a1" asked).1 ≡ executed (answered "delete_backup")
unfolding approve_mcp_action act_on look_up find_open find_key perform run_action dispatch_tool
    dispatch_to ask_approval find_tool mcp_tools has_scope pick_declared_args run_limited limit_of
    run_handler handled note_use update_key close text_of field
executed_lem = refl

approve_mcp_action-once_example :
    ((answer : Answer)
      → (approve_mcp_action echo 7 "ann" "a1" asked).1 ≡ executed answer
      → IsClosed echo "ann" "a1" approved_world)
    × IsClosed echo "ann" "a1" (deny_mcp_action 7 "ann" "a1" asked).0
approve_mcp_action-once_example = approve_mcp_action-once echo 7 "ann" "a1" asked

-- The two requests that find the approval open.
abbrev waiting_row : McpApproval
waiting_row = record {
  id = "a1";
  user_id = "ann";
  mcp_key_id = "k1";
  key_name = "agent";
  tool = "delete_backup";
  args = ("backupId", string "b7") ∷ [];
  status = pending;
  result = none;
  resolved_at = none;
}

abbrev action : Action
action = record { approval = waiting_row; key = agent }

looked_up : look_up "ann" "a1" asked ≡ found action
unfolding look_up find_open find_key dispatch_tool dispatch_to ask_approval find_tool mcp_tools
    has_scope pick_declared_args field
looked_up = refl

known_tool :
    find_tool mcp_tools "delete_backup" ≡ some (tool "delete_backup" admin ("backupId" ∷ []))
unfolding find_tool mcp_tools
known_tool = refl

held : has_scope agent.scopes admin ≡ true
unfolding has_scope
held = refl

unlimited : limit_of (find_key asked.keys "k1") ≡ 0
unfolding limit_of find_key dispatch_tool dispatch_to ask_approval find_tool mcp_tools has_scope
unlimited = refl

approve_mcp_action-overlap_example :
    (act_on echo 8 "ann" "a1"
      (look_up "ann" "a1" asked)
      (act_on echo 7 "ann" "a1" (look_up "ann" "a1" asked) asked).0).0.calls
    ≡ approved_call echo "ann" "a1" action (tool "delete_backup" admin ("backupId" ∷ []))
      ∷ approved_call echo "ann" "a1" action (tool "delete_backup" admin ("backupId" ∷ []))
      ∷ asked.calls
approve_mcp_action-overlap_example =
    approve_mcp_action-overlap echo "ann" "a1" action (tool "delete_backup" admin ("backupId" ∷ []))
      7 8 asked looked_up known_tool held unlimited

-- A key with one call a day: two requests that roll before either takes its call.
abbrev limited : World
limited = record {
  keys = record agent { daily_call_limit = some 1; approval_required = false } ∷ [];
  approvals = [];
  calls = [];
}

abbrev read_call : Call
read_call = record { tool = "list_backups"; args = []; user_id = "ann"; key_id = "k1" }

abbrev schedule : List Event
schedule =
    rolling 9 "k1"
    ∷ taking 9 1 read_call
    ∷ taking 9 1 read_call
    ∷ rotating "ann" "k1" "h2"
    ∷ taking 9 1 read_call
    ∷ rolling 86400000 "k1"
    ∷ []

play-le_example : calls_of "k1" (play echo (rolling 8 "k1" ∷ schedule) limited) ≤ 0 + 1 + 1
unfolding find_key
play-le_example =
    play-le echo 1 0 "k1" 8 schedule limited (omega arith)
      (λ e. omega arith, (λ e. refl, (λ e. refl, (tt, (λ e. refl, (λ e. omega arith, tt)))))) tt

played : (play echo (rolling 8 "k1" ∷ schedule) limited).calls ≡ read_call ∷ read_call ∷ []
unfolding play roll roll_key is_reset_due next_reset update_key take_call reserve reserve_key
    can_reserve run_handler handled note_use find_key rotate_key
played = refl

abbrev free_agent : McpKey
free_agent = record agent { approval_required = false }

-- The reply to a batch of a call and a notification is empty, and the call is made.
batched :
    handle_messages echo 6 free_agent
      (tools_call "list_connections" [] ∷ notification ∷ ping ∷ [])
      (record one_key { keys = free_agent ∷ [] })
    ≡ (
      record {
        keys = record free_agent { last_used_at = some 6 } ∷ [];
        approvals = [];
        calls =
            record { tool = "list_connections"; args = []; user_id = "ann"; key_id = "k1" } ∷ [];
      },
      accepted,
    )
unfolding handle_messages answer_with dispatch_tool dispatch_to run_limited limit_of run_handler
    handled note_use find_key update_key find_tool mcp_tools has_scope pick_declared_args
batched = refl
