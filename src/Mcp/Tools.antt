-- ===== src/Mcp/Tools.antt =====
-- The tools of server/src/services/mcp.service.ts: their names, scopes and declared arguments, and the
-- part of a call that looks at these alone.
use db_backup.Prelude.{
  String, Bool, true, false, Option, none, some, List, [], ◌∷◌, ◌||◌, if◌then◌else◌, ◌==◌, select,
}
use db_backup.Sync.Values.{Row, field}

pub data Scope : Type 0 where
  read write admin : Scope

pub record ToolDef : Type 0 where
  pub name : String
  pub scope : Scope
  pub properties : List String

abbrev pub tool : String → Scope → List String → ToolDef
tool name scope properties = record { name = name; scope = scope; properties = properties }

abbrev list_connections : ToolDef
list_connections = tool "list_connections" read []

abbrev connection_test : ToolDef
connection_test = tool "connection_test" read ("connectionId" ∷ [])

abbrev list_backups : ToolDef
list_backups = tool "list_backups" read ("limit" ∷ [])

abbrev get_backup : ToolDef
get_backup = tool "get_backup" read ("backupId" ∷ [])

abbrev trigger_backup : ToolDef
trigger_backup = tool "trigger_backup" write ("connectionId" ∷ "format" ∷ [])

abbrev heartbeat_status : ToolDef
heartbeat_status = tool "heartbeat_status" read ("connectionId" ∷ [])

abbrev storage_usage : ToolDef
storage_usage = tool "storage_usage" read []

abbrev activity_log : ToolDef
activity_log = tool "activity_log" read ("limit" ∷ [])

abbrev verify_backup : ToolDef
verify_backup = tool "verify_backup" write ("backupId" ∷ [])

abbrev delete_backup : ToolDef
delete_backup = tool "delete_backup" admin ("backupId" ∷ [])

unfoldable pub mcp_tools : List ToolDef
mcp_tools =
    list_connections ∷ connection_test ∷ list_backups ∷ get_backup ∷ trigger_backup
    ∷ heartbeat_status ∷ storage_usage ∷ activity_log ∷ verify_backup ∷ delete_backup ∷ []

unfoldable pub find_tool : List ToolDef → String → Option ToolDef
find_tool [] name = none
find_tool (t ∷ tools) name = if t.name == name then some t else find_tool tools name

abbrev pub same_scope : Scope → Scope → Bool
same_scope read read = true
same_scope write write = true
same_scope admin admin = true
same_scope _ _ = false

-- `scopes.includes(scope)`
unfoldable pub has_scope : List Scope → Scope → Bool
has_scope [] scope = false
has_scope (s ∷ scopes) scope = same_scope s scope || has_scope scopes scope

-- `hasOwnProperty`
unfoldable pub has_own : Row → String → Bool
has_own [] key = false
has_own ((name, value) ∷ row) key = name == key || has_own row key

unfoldable pub pick_args : List String → Row → Row
pick_args [] args = []
pick_args (key ∷ keys) args =
    if has_own args key then (key, field args key) ∷ pick_args keys args else pick_args keys args

unfoldable pub pick_declared_args : ToolDef → Row → Row
unfolding pick_args has_own
pick_declared_args t args = pick_args t.properties args

unfoldable pub tool_summaries : List Scope → List ToolDef
unfolding has_scope mcp_tools
tool_summaries scopes = select (λ t. has_scope scopes t.scope) mcp_tools

-- `tool.scope === 'write' || tool.scope === 'admin'`
abbrev pub is_destructive : Scope → Bool
is_destructive read = false
is_destructive write = true
is_destructive admin = true
