-- ===== src/Mcp/Routes/Supervised.antt =====
-- Calls of destructive tools by keys that require approval are covered by approvals.
use db_backup.Prelude.{
  ℕ, ◌≤◌, String, ◌≡◌, refl, ap, Bool, true, false, inl, inr, Option, none, some, List, [], ◌∷◌,
  ◌++◌, if◌then◌else◌, ◌==◌, eq_iff, arith, Map, get, includes, Distinct, Bool-cases, Option-cases,
  includes-append,
}
use db_backup.Mcp.{McpKey, McpApproval, World, Outside, find_key, update_key}
use db_backup.Mcp.Dispatch.Laws.{faces, faces-update_key, get-faces, dispatch_tool-Effect}
use db_backup.Mcp.Approval.{
  find_open, acting_for, text_of, look_up, perform, run_action, act_on, approve_mcp_action,
  deny_mcp_action,
}
use db_backup.Mcp.Routes.{
  KeyRequest, key_row, create_key, find_owned, valid_scopes, requested_scopes, rotate_to,
  rotate_key, revoke_at, revoke_key, is_revoked,
}
use db_backup.Mcp.Routes.Approvals.{approvals_given, approvals_given-deny_rows}
use db_backup.Mcp.Routes.Covers.{
  destructive_calls, Covers, ids, Inv, authenticate_key-face, Inv-tools_call, Covers-close,
}
use db_backup.Mcp.Routes.Reach.{
  Step, empty, Reachable, start, next, tools_call, approve, deny, create, rotate, revoke,
}

-- steps that change neither the calls nor the given approvals
Inv-same :
    (w w' : World)
    → faces w'.keys ≡ faces w.keys
    → w'.calls ≡ w.calls
    → ((id : String) → approvals_given id w'.approvals ≡ approvals_given id w.approvals)
    → Inv w
    → Inv w'
Inv-same w w' face calls given inv = record {
  distinct = rw face inv.distinct;
  covered = λ id. rw (face, calls, given id) (inv.covered id);
}

Inv-perform :
    (out : Outside) (now : ℕ) (user row : String) (w : World) (a : McpApproval) (k : McpKey)
    → find_open user row w.approvals ≡ some a
    → find_key w.keys a.mcp_key_id ≡ some k
    → Inv w
    → Inv (perform out now user row (record { approval = a; key = k }) w).0
unfolding perform run_action
Inv-perform out now user row w a k opened of_key inv =
    let did = dispatch_tool-Effect out now (acting_for user k) a.tool a.args w in
    record {
      distinct = rw did.0 inv.distinct;
      covered = λ id. rw did.0 (
          Covers-close now user row
            (text_of (run_action out now user (record { approval = a; key = k }) w).1) w
            (run_action out now user (record { approval = a; key = k }) w).0 a k (acting_for user k)
            a.tool a.args id opened of_key refl did.1 (inv.covered id));
    }

Inv-approve :
    (out : Outside) (now : ℕ) (user row : String) (w : World)
    → Inv w
    → Inv (approve_mcp_action out now user row w).0
unfolding approve_mcp_action look_up act_on
Inv-approve out now user row w inv = elim (Option-cases (find_open user row w.approvals)) [
  | inl missing ↦ rw (missing, look_up) inv
  | inr (a, opened) ↦ elim (Option-cases (find_key w.keys a.mcp_key_id)) [
    | inl gone ↦ rw (opened, gone, look_up) inv
    | inr (k, of_key) ↦
        rw (opened, of_key, look_up) (Inv-perform out now user row w a k opened of_key inv)
  ]
]

Inv-deny :
    (now : ℕ) (user row : String) (w : World) → Inv w → Inv (deny_mcp_action now user row w).0
unfolding deny_mcp_action
Inv-deny now user row w inv =
    Inv-same w (deny_mcp_action now user row w).0 refl refl
      (λ id. approvals_given-deny_rows now id user row w.approvals) inv

get-append :
    (m : Map Bool) (i id : String) (b : Bool)
    → get (m ++ (i, b) ∷ []) id
      ≡ (elim (get m id) [ none ↦ if i == id then some b else none | some r ↦ some r ])
unfolding get
get-append [] i id b = refl
get-append ((j, r) ∷ m) i id b = ground (arith, get-append m i id b)

faces-append : (keys rows : List McpKey) → faces (keys ++ rows) ≡ faces keys ++ faces rows
faces-append [] rows = refl
faces-append (k ∷ keys) rows = ap (λ m. (k.id, k.approval_required) ∷ m) (faces-append keys rows)

get-find_key :
    (keys : List McpKey) (id : String) → find_key keys id ≡ none → get (faces keys) id ≡ none
unfolding find_key get
get-find_key [] id h = refl
get-find_key (k ∷ keys) id h = ground (arith, h, get-find_key keys id)

ids-fresh : (m : Map Bool) (id : String) → get m id ≡ none → includes (ids m) id ≡ false
unfolding get
ids-fresh [] id h = refl
ids-fresh ((i, r) ∷ m) id h = ground (arith, h, ids-fresh m id)

ids-append : (m : Map Bool) (id : String) (b : Bool) → ids (m ++ (id, b) ∷ []) ≡ ids m ++ id ∷ []
ids-append [] id b = refl
ids-append ((i, r) ∷ m) id b = ap (λ l. i ∷ l) (ids-append m id b)

Distinct-append :
    (m : Map Bool) (id : String) (b : Bool)
    → includes (ids m) id ≡ false
    → Distinct (ids m)
    → Distinct (ids (m ++ (id, b) ∷ []))
Distinct-append [] id b fresh d = (refl, tt)
Distinct-append ((i, r) ∷ m) id b fresh d = (
  ground (
    arith,
    ids-append m id b,
    includes-append (ids m) (id ∷ []) i,
    fresh,
    d.0,
    eq_iff i id,
    eq_iff id i,
  ),
  Distinct-append m id b (ground (arith, fresh)) d.1,
)

Covers-new :
    (f : Option Bool) (new b : Bool) (calls given : ℕ)
    → Covers f calls given
    → Covers (elim f [ none ↦ if new then some b else none | some r ↦ some r ]) calls given
Covers-new none false b calls given h = h
Covers-new none true true calls given h = omega (arith, h)
Covers-new none true false calls given h = tt
Covers-new (some r) new b calls given h = h

Inv-add :
    (w : World) (k : McpKey)
    → find_key w.keys k.id ≡ none
    → Inv w
    → Inv (record w { keys = w.keys ++ k ∷ [] })
Inv-add w k fresh inv =
    let unknown = get-find_key w.keys k.id fresh in
    record {
      distinct = rw (faces-append w.keys (k ∷ [])) (
          Distinct-append (faces w.keys) k.id k.approval_required
            (ids-fresh (faces w.keys) k.id unknown) inv.distinct);
      covered = λ id.
          rw (faces-append w.keys (k ∷ []), get-append (faces w.keys) k.id id k.approval_required)
            (Covers-new (get (faces w.keys) id) (k.id == id) k.approval_required _ _
              (inv.covered id));
    }

Inv-create :
    (fits : String → Bool) (now : ℕ) (id user hash : String) (r : KeyRequest) (w : World)
    → find_key w.keys id ≡ none
    → Inv w
    → Inv (create_key fits now id user hash r w).0
unfolding create_key key_row
Inv-create fits now id user hash r w fresh inv = elim (Bool-cases (fits r.name)) [
  | inr long ↦ rw long inv
  | inl short ↦ elim (Option-cases (valid_scopes (requested_scopes r.scopes))) [
    | inl unknown ↦ rw (short, unknown) inv
    | inr (scopes, known) ↦
        rw (short, known) (Inv-add w (key_row now id user hash r scopes) fresh inv)
  ]
]

-- an update of one key that leaves its id and its flag
Inv-update :
    (f : McpKey → McpKey)
    → ((k : McpKey) → ((f k).id ≡ k.id) × ((f k).approval_required ≡ k.approval_required))
    → (id : String) (w : World) → Inv w
    → Inv (record w { keys = update_key f id w.keys })
Inv-update f keeps id w inv =
    Inv-same w (record w { keys = update_key f id w.keys }) (faces-update_key f keeps id w.keys)
      refl (λ i. refl) inv

Inv-rotate : (user id hash : String) (w : World) → Inv w → Inv (rotate_key user id hash w).0
unfolding rotate_key rotate_to
Inv-rotate user id hash w inv = elim (Option-cases (find_owned user id w.keys)) [
  | inl missing ↦ rw (missing, rotate_key) inv
  | inr (k, known) ↦ elim (Bool-cases (is_revoked k.revoked_at)) [
    | inl gone ↦ rw (known, gone, rotate_key) inv
    | inr live ↦
        rw (known, live, rotate_key) (Inv-update (rotate_to hash) (λ k. (refl, refl)) id w inv)
  ]
]

Inv-revoke : (now : ℕ) (user id : String) (w : World) → Inv w → Inv (revoke_key now user id w).0
unfolding revoke_key revoke_at
Inv-revoke now user id w inv = elim (Option-cases (find_owned user id w.keys)) [
  | inl missing ↦ rw (missing, revoke_key) inv
  | inr (k, known) ↦
      rw (known, revoke_key) (Inv-update (revoke_at now) (λ k. (refl, refl)) id w inv)
]

module _ (out : Outside) (is_active fits : String → Bool) where
  Step-Inv : {w w' : World} → Step out is_active fits w w' → Inv w → Inv w'
  Step-Inv (tools_call now hash k name args w admitted) inv =
      Inv-tools_call out now k name args w
        (authenticate_key-face is_active now hash w.keys k inv.distinct admitted) inv
  Step-Inv (approve now user id w) inv = Inv-approve out now user id w inv
  Step-Inv (deny now user id w) inv = Inv-deny now user id w inv
  Step-Inv (create now id user hash r w fresh) inv = Inv-create fits now id user hash r w fresh inv
  Step-Inv (rotate user id hash w) inv = Inv-rotate user id hash w inv
  Step-Inv (revoke now user id w) inv = Inv-revoke now user id w inv

  Reachable-Inv : {w : World} → Reachable out is_active fits w → Inv w
  unfolding empty get
  Reachable-Inv start = record { distinct = tt; covered = λ id. omega arith }
  Reachable-Inv (next r step) = Step-Inv step (Reachable-Inv r)

  -- One request at a time, from no keys: a key that requires approval has called destructive tools as
  -- often as approvals were given to it at most.
  pub Reachable-Supervised :
      (w : World) (id : String) (k : McpKey)
      → Reachable out is_active fits w
      → find_key w.keys id ≡ some k
      → k.approval_required ≡ true
      → destructive_calls id w.calls ≤ approvals_given id w.approvals
  Reachable-Supervised w id k reached known required =
      rw ((get-faces w.keys id k known).0, required) at ((Reachable-Inv reached).covered id)
