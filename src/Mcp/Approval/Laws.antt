-- ===== src/Mcp/Approval/Laws.antt =====
-- An approval is used once if its requests come one after the other, and twice if they overlap.
use db_backup.Prelude.{
  ℕ, String, ◌≡◌, refl, ap, ◌∙◌, true, false, inl, inr, none, some, List, [], ◌∷◌, eq_iff, arith,
  Option-cases,
}
use db_backup.Mcp.{Handled, returned, thrown, McpApproval, Call, World, Outside, find_key}
use db_backup.Mcp.Tools.{ToolDef, mcp_tools, find_tool, has_scope, pick_declared_args}
use db_backup.Mcp.Dispatch.{
  Answer, note_use, handled, dispatch_tool, dispatch_to, run_limited, run_handler, limit_of,
}
use db_backup.Mcp.Dispatch.Laws.{handled-Stays}
use db_backup.Mcp.Dispatch.Meter.{find_key-update_key}
use db_backup.Mcp.Approval.{
  find_open, close, text_of, executed, not_found, Action, found, look_up, run_action, perform,
  act_on, approve_mcp_action, deny_rows, deny_mcp_action,
}

find_open-close :
    (now : ℕ) (user user' id text : String) (rows : List McpApproval)
    → find_open user' id (close now id text rows) ≡ none
unfolding find_open close
find_open-close now user user' id text [] = refl
find_open-close now user user' id text (a ∷ rows) =
    ground (arith, eq_iff a.id id, find_open-close now user user' id text rows)

find_open-deny_rows :
    (now : ℕ) (user id : String) (rows : List McpApproval)
    → find_open user id (deny_rows now user id rows) ≡ none
unfolding find_open deny_rows
find_open-deny_rows now user id [] = refl
find_open-deny_rows now user id (a ∷ rows) =
    ground (arith, eq_iff a.id id, eq_iff a.user_id user, find_open-deny_rows now user id rows)

deny_rows-none :
    (now : ℕ) (user id : String) (rows : List McpApproval)
    → find_open user id rows ≡ none
    → deny_rows now user id rows ≡ rows
unfolding find_open deny_rows
deny_rows-none now user id [] h = refl
deny_rows-none now user id (a ∷ rows) h = ground (arith, h, deny_rows-none now user id rows)

-- Nothing more happens for the approval.
abbrev pub IsClosed : Outside → String → String → World → Type 0
IsClosed out user id w =
    (later : ℕ)
    → (approve_mcp_action out later user id w ≡ (w, not_found))
      × (deny_mcp_action later user id w ≡ (w, false))

closed :
    (out : Outside) (user id : String) (w : World)
    → find_open user id w.approvals ≡ none
    → IsClosed out user id w
unfolding approve_mcp_action look_up act_on deny_mcp_action
closed out user id w shut later =
    (rw (shut, look_up) refl, rw (deny_rows-none later user id w.approvals shut, shut) refl)

module _ (out : Outside) (now : ℕ) (user id : String) (w : World) where
  executed-closed :
      (answer : Answer)
      → (approve_mcp_action out now user id w).1 ≡ executed answer
      → find_open user id (approve_mcp_action out now user id w).0.approvals ≡ none
  unfolding approve_mcp_action act_on look_up perform
  executed-closed answer h = elim (Option-cases (find_open user id w.approvals)) [
    | inl missing ↦ ground (arith, missing, h)
    | inr (a, opened) ↦ elim (Option-cases (find_key w.keys a.mcp_key_id)) [
      | inl gone ↦ ground (arith, opened, gone, h)
      | inr (k, known) ↦
          let act : Action = record { approval = a; key = k } in
          rw (opened, known, look_up, perform)
            (find_open-close now user user id (text_of (run_action out now user act w).1)
              (run_action out now user act w).0.approvals)
    ]
  ]

  denied-closed : find_open user id (deny_mcp_action now user id w).0.approvals ≡ none
  unfolding deny_mcp_action
  denied-closed = find_open-deny_rows now user id w.approvals

  -- Once an approval was executed, whatever came of the call, or denied, every later attempt to
  -- approve or to deny it is refused and changes nothing.
  pub approve_mcp_action-once :
      ((answer : Answer)
        → (approve_mcp_action out now user id w).1 ≡ executed answer
        → IsClosed out user id (approve_mcp_action out now user id w).0)
      × IsClosed out user id (deny_mcp_action now user id w).0
  approve_mcp_action-once = (
    λ answer h.
        closed out user id (approve_mcp_action out now user id w).0 (executed-closed answer h),
    closed out user id (deny_mcp_action now user id w).0 denied-closed,
  )

module _ (out : Outside) (user id : String) (act : Action) (t : ToolDef) where
  abbrev pub approved_call : Call
  approved_call = record {
    tool = t.name;
    args = pick_declared_args t act.approval.args;
    user_id = user;
    key_id = act.key.id;
  }

  note_use-limit :
      (now : ℕ) (i text : String) (w : World)
      → limit_of (find_key (note_use now i text w).0.keys i) ≡ limit_of (find_key w.keys i)
  unfolding note_use limit_of
  note_use-limit now i text w = elim (Option-cases (find_key w.keys i)) [
    | inl gone ↦ ground (arith, gone)
    | inr (k, known) ↦ ground (
      arith,
      known,
      eq_iff i i,
      find_key-update_key (λ k. record k { last_used_at = some now }) (λ k. refl) w.keys i i,
    )
  ]

  handled-limit :
      (now : ℕ) (i : String) (h : Handled) (w : World)
      → limit_of (find_key (handled now i h w).0.keys i) ≡ limit_of (find_key w.keys i)
  unfolding handled
  handled-limit now i (returned text) w = note_use-limit now i text w
  handled-limit now i (thrown message) w = refl

  performed :
      (now : ℕ) (w : World)
      → find_tool mcp_tools act.approval.tool ≡ some t
      → has_scope act.key.scopes t.scope ≡ true
      → limit_of (find_key w.keys act.key.id) ≡ 0
      → ((perform out now user id act w).0.calls ≡ approved_call ∷ w.calls)
        × (limit_of (find_key (perform out now user id act w).0.keys act.key.id) ≡ 0)
  unfolding perform run_action dispatch_tool dispatch_to run_limited run_handler
  performed now w known held unlimited =
      let did =
        handled-Stays now act.key.id (out.handle w.calls approved_call)
          (record w { calls = approved_call ∷ w.calls }) in
      let same =
        handled-limit now act.key.id (out.handle w.calls approved_call)
          (record w { calls = approved_call ∷ w.calls }) in
      rw (known, held, unlimited, dispatch_tool) (did.1, same ∙ unlimited)

  -- Two requests approve one action, the key has no limit and the scope of the tool, and both look the
  -- approval up before either has closed it: the tool is called twice.
  pub approve_mcp_action-overlap :
      (now later : ℕ) (w : World)
      → look_up user id w ≡ found act
      → find_tool mcp_tools act.approval.tool ≡ some t
      → has_scope act.key.scopes t.scope ≡ true
      → limit_of (find_key w.keys act.key.id) ≡ 0
      → (act_on out later user id
          (look_up user id w)
          (act_on out now user id (look_up user id w) w).0).0.calls
        ≡ approved_call ∷ approved_call ∷ w.calls
  unfolding act_on
  approve_mcp_action-overlap now later w both known held unlimited =
      let first = performed now w known held unlimited in
      let second = performed later (perform out now user id act w).0 known held first.1 in
      rw both (second.0 ∙ ap (λ calls. approved_call ∷ calls) first.0)
