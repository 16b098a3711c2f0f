-- ===== src/Mcp/Dispatch/Laws.antt =====
-- What a call of dispatchTool leaves behind: the ids and the approval flags of the keys, at most one
-- handler call or one pending approval.
use db_backup.Prelude.{
  ℕ, String, ◌≡◌, refl, ◌∙◌, Bool, true, false, ◌&&◌, ◌⊎◌, inl, inr, some, List, [], ◌∷◌, ◌++◌,
  ◌==◌, eq_iff, arith, ltb, Map, get, Bool-cases, Option-cases,
}
use db_backup.Sync.Values.{Row}
use db_backup.Mcp.Tools.{
  ToolDef, mcp_tools, find_tool, has_scope, pick_declared_args, is_destructive,
}
use db_backup.Mcp.{
  McpKey, McpApproval, Call, World, Outside, Handled, find_key, update_key, roll_key, roll,
  reserve_key, reserve, pending, returned, thrown,
}
use db_backup.Mcp.Dispatch.{
  Context, note_use, handled, run_handler, limit_of, take_call, run_limited, dispatch_to,
  dispatch_tool,
}

-- of each key its id and whether it requires approval
abbrev pub faces : List McpKey → Map Bool
faces [] = []
faces (k ∷ keys) = (k.id, k.approval_required) ∷ faces keys

pub faces-update_key :
    (f : McpKey → McpKey)
    → ((k : McpKey) → ((f k).id ≡ k.id) × ((f k).approval_required ≡ k.approval_required))
    → (id : String) (keys : List McpKey) → faces (update_key f id keys) ≡ faces keys
unfolding update_key
faces-update_key f keeps id [] = refl
faces-update_key f keeps id (k ∷ keys) =
    ground (arith, (keeps k).0, (keeps k).1, faces-update_key f keeps id keys)

pub get-faces :
    (keys : List McpKey) (id : String) (k : McpKey)
    → find_key keys id ≡ some k
    → (get (faces keys) id ≡ some k.approval_required) × (k.id ≡ id)
unfolding find_key get
get-faces [] id k h = cc
get-faces (j ∷ keys) id k h = elim (Bool-cases (j.id == id)) [
  | inl same ↦ ground (arith, same, h, eq_iff j.id id)
  | inr other ↦ ground (arith, other, h, get-faces keys id k (ground (arith, other, h)))
]

roll_key-face :
    (now : ℕ) (k : McpKey)
    → ((roll_key now k).id ≡ k.id) × ((roll_key now k).approval_required ≡ k.approval_required)
unfolding roll_key
roll_key-face now k = (ground arith, ground arith)

reserve_key-face :
    (limit : ℕ) (k : McpKey)
    → ((reserve_key limit k).id ≡ k.id)
      × ((reserve_key limit k).approval_required ≡ k.approval_required)
unfolding reserve_key
reserve_key-face limit k = (ground arith, ground arith)

-- the keys, the approvals and the calls
abbrev pub Stays : World → World → Type 0
Stays w w' = (faces w'.keys ≡ faces w.keys) × (w'.approvals ≡ w.approvals)

note_use-Stays :
    (now : ℕ) (id text : String) (w : World)
    → Stays w (note_use now id text w).0 × ((note_use now id text w).0.calls ≡ w.calls)
unfolding note_use
note_use-Stays now id text w = ground (
  arith,
  faces-update_key (λ k. record k { last_used_at = some now }) (λ k. (refl, refl)) id w.keys,
)

pub handled-Stays :
    (now : ℕ) (id : String) (h : Handled) (w : World)
    → Stays w (handled now id h w).0 × ((handled now id h w).0.calls ≡ w.calls)
unfolding handled
handled-Stays now id (returned text) w = note_use-Stays now id text w
handled-Stays now id (thrown message) w = ((refl, refl), refl)

roll-Stays :
    (now : ℕ) (id : String) (w : World)
    → Stays w (roll now id w) × ((roll now id w).calls ≡ w.calls)
unfolding roll
roll-Stays now id w = ((faces-update_key (roll_key now) (roll_key-face now) id w.keys, refl), refl)

reserve-Stays :
    (limit : ℕ) (id : String) (w : World)
    → Stays w (reserve limit id w).0 × ((reserve limit id w).0.calls ≡ w.calls)
unfolding reserve
reserve-Stays limit id w =
    ((faces-update_key (reserve_key limit) (reserve_key-face limit) id w.keys, refl), refl)

module _ (out : Outside) (now : ℕ) where
  abbrev Calls : Call → World → World → Type 0
  Calls c w w' = Stays w w' × ((w'.calls ≡ w.calls) ⊎ (w'.calls ≡ c ∷ w.calls))

  Calls-after :
      (c : Call) (u v w : World) → Stays u v × (v.calls ≡ u.calls) → Calls c v w → Calls c u w
  Calls-after c u v w same rest =
      ((rest.0.0 ∙ same.0.0, rest.0.1 ∙ same.0.1), ground (arith, rest.1, same.1))

  run_handler-Calls : (c : Call) (w : World) → Calls c w (run_handler out now c w).0
  unfolding run_handler
  run_handler-Calls c w =
      let kept =
        handled-Stays now c.key_id (out.handle w.calls c) (record w { calls = c ∷ w.calls }) in
      (kept.0, inr kept.1)

  take_call-Calls : (limit : ℕ) (c : Call) (w : World) → Calls c w (take_call out now limit c w).0
  unfolding take_call
  take_call-Calls limit c w =
      let kept = reserve-Stays limit c.key_id w in
      let w' : World = (reserve limit c.key_id w).0 in
      elim (Bool-cases (reserve limit c.key_id w).1) [
        | inl granted ↦ rw granted (Calls-after c w w' _ kept (run_handler-Calls c w'))
        | inr full ↦ rw full (Calls-after c w w' w' kept ((refl, refl), inl refl))
      ]

  run_limited-Calls : (c : Call) (w : World) → Calls c w (run_limited out now c w).0
  unfolding run_limited
  run_limited-Calls c w =
      let kept = roll-Stays now c.key_id w in
      let limit = limit_of (find_key w.keys c.key_id) in
      elim (Bool-cases (ltb 0 limit)) [
        | inl limited ↦ rw limited (
            Calls-after c w (roll now c.key_id w) _ kept
              (take_call-Calls limit c (roll now c.key_id w)))
        | inr free ↦ rw free (run_handler-Calls c w)
      ]

-- What a request may do: nothing but the bookkeeping of the quota; ask for an approval; or one call
-- of the tool that it names, within its scopes, and of a destructive one only if no approval is
-- needed.
pub data Effect (ctx : Context) (name : String) (args : Row) (w w' : World) : Type 0 where
  nothing : w'.approvals ≡ w.approvals → w'.calls ≡ w.calls → Effect ctx name args w w'
  asked :
      (a : McpApproval)
      → a.status ≡ pending
      → w'.approvals ≡ w.approvals ++ a ∷ []
      → w'.calls ≡ w.calls
      → Effect ctx name args w w'
  called :
      (t : ToolDef)
      → find_tool mcp_tools name ≡ some t
      → has_scope ctx.scopes t.scope ≡ true
      → (ctx.approval_required && is_destructive t.scope) ≡ false
      → w'.approvals ≡ w.approvals
      → w'.calls
        ≡ record {
          tool = t.name;
          args = pick_declared_args t args;
          user_id = ctx.user_id;
          key_id = ctx.key_id;
        }
          ∷ w.calls
      → Effect ctx name args w w'

module _ (out : Outside) (now : ℕ) (ctx : Context) (name : String) (args : Row) (w : World) where
  dispatch_to-Effect :
      (t : ToolDef)
      → find_tool mcp_tools name ≡ some t
      → (faces (dispatch_to out now t args ctx w).0.keys ≡ faces w.keys)
        × Effect ctx name args w (dispatch_to out now t args ctx w).0
  unfolding dispatch_to
  dispatch_to-Effect t known = elim (Bool-cases (has_scope ctx.scopes t.scope)) [
    | inr lacking ↦ rw lacking (refl, Effect.nothing refl refl)
    | inl held ↦ elim (Bool-cases (ctx.approval_required && is_destructive t.scope)) [
      | inl guarded ↦ rw (held, guarded) (refl, Effect.asked _ refl refl refl)
      | inr free ↦
          let c : Call = record {
            tool = t.name;
            args = pick_declared_args t args;
            user_id = ctx.user_id;
            key_id = ctx.key_id;
          } in
          let ran = run_limited-Calls out now c w in
          rw (held, free)
            (
              ran.0.0,
              elim ran.1 [
                | inl same ↦ Effect.nothing ran.0.1 same
                | inr more ↦ Effect.called t known held free ran.0.1 more
              ],
            )
    ]
  ]

  pub dispatch_tool-Effect :
      (faces (dispatch_tool out now name args ctx w).0.keys ≡ faces w.keys)
      × Effect ctx name args w (dispatch_tool out now name args ctx w).0
  unfolding dispatch_tool
  dispatch_tool-Effect = elim (Option-cases (find_tool mcp_tools name)) [
    | inl missing ↦ rw (missing, dispatch_tool) (refl, Effect.nothing refl refl)
    | inr (t, known) ↦ rw (known, dispatch_tool) (dispatch_to-Effect t known)
  ]
