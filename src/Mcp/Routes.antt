-- ===== src/Mcp/Routes.antt =====
-- server/src/routes/mcp.routes.ts: the authentication by a key, the messages of POST /mcp, and the
-- management of keys. The hash, the random part of a key and the ids are parameters; the header is
-- given as the text after the word Bearer.
pub mod Reach
pub mod Approvals
pub mod Covers
pub mod Supervised
pub mod Batch
use db_backup.Prelude.{
  ℕ, zero, suc, ◌+◌, ◌*◌, String, Bool, true, false, not, ◌&&◌, Option, none, some, List, [], ◌∷◌,
  ◌++◌, if◌then◌else◌, ◌==◌, ltb,
}
use db_backup.Sync.Values.{Row}
use db_backup.Mcp.Tools.{Scope, read, write, admin, ToolDef, tool_summaries, has_scope}
use db_backup.Mcp.{McpKey, World, Outside, update_key, day_ms}
use db_backup.Mcp.Dispatch.{Context, Answer, dispatch_tool}

-- `findUnique({ where: { keyHash } })`
unfoldable pub find_hash : List McpKey → String → Option McpKey
find_hash [] hash = none
find_hash (k ∷ keys) hash = if k.key_hash == hash then some k else find_hash keys hash

unfoldable pub has_expired : ℕ → Option ℕ → Bool
has_expired now none = false
has_expired now (some at) = ltb at now

unfoldable pub is_revoked : Option ℕ → Bool
is_revoked none = false
is_revoked (some at) = true

unfoldable pub admit : (String → Bool) → ℕ → McpKey → Option McpKey
unfolding has_expired is_revoked
admit is_active now k =
    if is_revoked k.revoked_at
    then none
    else if not (is_active k.user_id)
    then none
    else if has_expired now k.expires_at
    then none
    else some k

-- the key of a bearer with the hash
unfoldable pub authenticate_key : (String → Bool) → ℕ → String → List McpKey → Option McpKey
unfolding admit find_hash
authenticate_key is_active now hash keys = elim (find_hash keys hash) [
  | none ↦ none
  | some k ↦ admit is_active now k
]

abbrev pub context_of : McpKey → Context
context_of k = record {
  user_id = k.user_id;
  key_id = k.id;
  key_name = k.name;
  scopes = k.scopes;
  approval_required = k.approval_required;
}

-- `skipped` has no method, `notification` no id
pub data Message : Type 0 where
  skipped notification initialize ping tools_list : Message
  tools_call : String → Row → Message
  other : String → Message

pub data Response : Type 0 where
  initialized pong : Response
  tools : List ToolDef → Response
  called : Answer → Response
  method_not_found : String → Response

pub data Reply : Type 0 where
  unauthorized accepted : Reply
  responses : List Response → Reply

module _ (out : Outside) (now : ℕ) (k : McpKey) where
  unfoldable pub answer_with : Response → World × Reply → World × Reply
  answer_with r (w, responses rs) = (w, responses (r ∷ rs))
  answer_with r (w, unauthorized) = (w, unauthorized)
  answer_with r (w, accepted) = (w, accepted)

  -- the loop over the messages; a notification ends it, with an empty reply
  unfoldable pub handle_messages : List Message → World → World × Reply
  unfolding answer_with
  handle_messages [] w = (w, responses [])
  handle_messages (skipped ∷ ms) w = handle_messages ms w
  handle_messages (notification ∷ ms) w = (w, accepted)
  handle_messages (initialize ∷ ms) w = answer_with initialized (handle_messages ms w)
  handle_messages (ping ∷ ms) w = answer_with pong (handle_messages ms w)
  handle_messages (tools_list ∷ ms) w =
      answer_with (tools (tool_summaries k.scopes)) (handle_messages ms w)
  handle_messages (tools_call name args ∷ ms) w =
      let (w', answer) = dispatch_tool out now name args (context_of k) w in
      answer_with (called answer) (handle_messages ms w')
  handle_messages (other method ∷ ms) w =
      answer_with (method_not_found method) (handle_messages ms w)

unfoldable pub post : Outside → (String → Bool) → ℕ → String → List Message → World → World × Reply
unfolding authenticate_key handle_messages
post out is_active now hash ms w = elim (authenticate_key is_active now hash w.keys) [
  | none ↦ (w, unauthorized)
  | some k ↦ handle_messages out now k ms w
]

-- `finalScopes`: admin implies write implies read
abbrev pub add_scope : Scope → List Scope → List Scope
add_scope s scopes = if has_scope scopes s then scopes else scopes ++ s ∷ []

unfoldable pub distinct_scopes : List Scope → List Scope → List Scope
unfolding has_scope
distinct_scopes seen [] = seen
distinct_scopes seen (s ∷ scopes) = distinct_scopes (add_scope s seen) scopes

unfoldable pub final_scopes : List Scope → List Scope
unfolding distinct_scopes has_scope
final_scopes requested =
    let given = distinct_scopes [] requested in
    let all = if has_scope given admin then add_scope read (add_scope write given) else given in
    if has_scope all write then add_scope read all else all

unfoldable pub scope_of : String → Option Scope
scope_of name =
    if name == "read"
    then some read
    else if name == "write"
    then some write
    else if name == "admin"
    then some admin
    else none

-- the check of the requested scopes; `none` is the error for a scope that is not one
unfoldable pub valid_scopes : List String → Option (List Scope)
unfolding scope_of
valid_scopes [] = some []
valid_scopes (name ∷ names) = elim (scope_of name) [
  | none ↦ none
  | some s ↦ elim (valid_scopes names) [ none ↦ none | some rest ↦ some (s ∷ rest) ]
]

unfoldable pub requested_scopes : List String → List String
requested_scopes [] = "read" ∷ []
requested_scopes (name ∷ names) = name ∷ names

pub record KeyRequest : Type 0 where
  pub name : String
  pub scopes : List String
  pub expires_in_days : ℕ
  pub approval_required : Bool
  pub daily_call_limit : ℕ

unfoldable pub positive : ℕ → ℕ → Option ℕ
positive zero n = none
positive (suc d) n = some n

unfoldable pub key_row : ℕ → String → String → String → KeyRequest → List Scope → McpKey
unfolding final_scopes positive
key_row now id user hash r scopes = record {
  id = id;
  user_id = user;
  name = r.name;
  key_hash = hash;
  scopes = final_scopes scopes;
  approval_required = r.approval_required;
  daily_call_limit = positive r.daily_call_limit r.daily_call_limit;
  calls_today = 0;
  calls_reset_at = none;
  expires_at = positive r.expires_in_days (now + r.expires_in_days * day_ms);
  revoked_at = none;
  last_used_at = none;
}

-- `name` is not empty and has 60 characters at most: the check of its length is a parameter
unfoldable pub create_key :
    (String → Bool) → ℕ → String → String → String → KeyRequest → World → World × Bool
unfolding valid_scopes requested_scopes key_row
create_key fits now id user hash r w =
    if fits r.name
    then elim (valid_scopes (requested_scopes r.scopes)) [
      | none ↦ (w, false)
      | some scopes ↦ (record w { keys = w.keys ++ key_row now id user hash r scopes ∷ [] }, true)
    ]
    else (w, false)

unfoldable pub find_owned : String → String → List McpKey → Option McpKey
find_owned user id [] = none
find_owned user id (k ∷ keys) =
    if k.id == id && k.user_id == user then some k else find_owned user id keys

unfoldable pub rotate_to : String → McpKey → McpKey
rotate_to hash k = record k { key_hash = hash; calls_today = 0; last_used_at = none }

-- of a key that is not revoked
unfoldable pub rotate_key : String → String → String → World → World × Bool
unfolding find_owned rotate_to update_key is_revoked
rotate_key user id hash w = elim (find_owned user id w.keys) [
  | none ↦ (w, false)
  | some k ↦
      if is_revoked k.revoked_at
      then (w, false)
      else (record w { keys = update_key (rotate_to hash) id w.keys }, true)
]

unfoldable pub revoke_at : ℕ → McpKey → McpKey
revoke_at now k = record k { revoked_at = some now }

unfoldable pub revoke_key : ℕ → String → String → World → World × Bool
unfolding find_owned revoke_at update_key
revoke_key now user id w = elim (find_owned user id w.keys) [
  | none ↦ (w, false)
  | some k ↦ (record w { keys = update_key (revoke_at now) id w.keys }, true)
]
