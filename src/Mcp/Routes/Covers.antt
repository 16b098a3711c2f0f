-- ===== src/Mcp/Routes/Covers.antt =====
-- How a dispatch and the closing of an approval change the destructive calls of a key and the
-- approvals given to it.
use db_backup.Prelude.{
  ℕ, ◌+◌, ◌≤◌, String, ◌≡◌, refl, sym, ap, Bool, true, false, not, ◌&&◌, inl, inr, Option, none,
  some, List, [], ◌∷◌, if◌then◌else◌, ◌==◌, eq_iff, arith, Map, get, count, includes, Distinct,
  Bool-cases, Option-cases, count-append,
}
use db_backup.Sync.Values.{Row}
use db_backup.Mcp.Tools.{ToolDef, mcp_tools, find_tool, pick_declared_args, is_destructive}
use db_backup.Mcp.{McpKey, McpApproval, Call, World, Outside, find_key}
use db_backup.Mcp.Dispatch.{Context, dispatch_tool}
use db_backup.Mcp.Dispatch.Laws.{faces, get-faces, Effect, dispatch_tool-Effect}
use db_backup.Mcp.Approval.{find_open, close}
use db_backup.Mcp.Routes.Approvals.{
  is_approved, approvals_given, approvals_given-close, approvals_given-found,
}
use db_backup.Mcp.Routes.{find_hash, admit, authenticate_key, context_of}

unfoldable pub is_destructive_call : Call → Bool
is_destructive_call c = elim (find_tool mcp_tools c.tool) [
  | none ↦ false
  | some t ↦ is_destructive t.scope
]

-- of one key
abbrev pub destructive_calls : String → List Call → ℕ
destructive_calls id = count (λ c. c.key_id == id && is_destructive_call c)

abbrev pub Covers : Option Bool → ℕ → ℕ → Type 0
Covers none calls given = calls ≡ 0
Covers (some true) calls given = calls ≤ given
Covers (some false) calls given = Unit {0}

abbrev pub ids : Map Bool → List String
ids [] = []
ids ((id, required) ∷ m) = id ∷ ids m

pub record Inv (w : World) : Type 0 where
  pub distinct : Distinct (ids (faces w.keys))
  pub covered :
      (id : String)
      → Covers
          (get (faces w.keys) id)
          (destructive_calls id w.calls)
          (approvals_given id w.approvals)

pub Covers-mono :
    (f : Option Bool) (d d' a a' : ℕ) → d' ≤ d → a ≤ a' → Covers f d a → Covers f d' a'
Covers-mono none d d' a a' le le' h = omega arith
Covers-mono (some true) d d' a a' le le' h = omega arith
Covers-mono (some false) d d' a a' le le' h = tt

find_tool-name :
    (tools : List ToolDef) (name : String) (t : ToolDef)
    → find_tool tools name ≡ some t
    → t.name ≡ name
unfolding find_tool
find_tool-name [] name t h = cc
find_tool-name (u ∷ tools) name t h =
    ground (arith, eq_iff u.name name, find_tool-name tools name t)

pub get-includes :
    (m : Map Bool) (id : String) (b : Bool) → get m id ≡ some b → includes (ids m) id ≡ true
unfolding get
get-includes [] id b h = cc
get-includes ((i, r) ∷ m) id b h = ground (arith, get-includes m id b)

-- A key is the first with its id.
find_hash-face :
    (keys : List McpKey) (hash : String) (k : McpKey)
    → Distinct (ids (faces keys))
    → find_hash keys hash ≡ some k
    → get (faces keys) k.id ≡ some k.approval_required
unfolding find_hash get
find_hash-face [] hash k d h = cc
find_hash-face (j ∷ keys) hash k d h = elim (Bool-cases (j.key_hash == hash)) [
  | inl same ↦ ground (arith, same, h, eq_iff j.id k.id)
  | inr other ↦
      let rest = find_hash-face keys hash k d.1 (ground (arith, other, h)) in
      ground (
        arith,
        d.0,
        rest,
        eq_iff j.id k.id,
        get-includes (faces keys) k.id k.approval_required rest,
      )
]

pub authenticate_key-face :
    (is_active : String → Bool) (now : ℕ) (hash : String) (keys : List McpKey) (k : McpKey)
    → Distinct (ids (faces keys))
    → authenticate_key is_active now hash keys ≡ some k
    → get (faces keys) k.id ≡ some k.approval_required
unfolding authenticate_key admit
authenticate_key-face is_active now hash keys k d h = elim (Option-cases (find_hash keys hash)) [
  | inl missing ↦ ground (arith, missing, h)
  | inr (j, first) ↦
      let face = find_hash-face keys hash j d first in
      let same : j ≡ k = ground (arith, first, h) in rw (← same) face
]

-- One more call of a destructive tool, by one key.
destructive_calls-called :
    (id name : String) (t : ToolDef) (c : Call) (calls : List Call)
    → find_tool mcp_tools name ≡ some t
    → c.tool ≡ t.name
    → destructive_calls id (c ∷ calls)
      ≡ destructive_calls id calls + (if c.key_id == id && is_destructive t.scope then 1 else 0)
unfolding is_destructive_call
destructive_calls-called id name t c calls known same =
    ground (arith, known, same, find_tool-name mcp_tools name t known)

-- A step makes at most one more destructive call, of one key, and takes no approval back.
abbrev pub Costs : Context → String → World → World → Type 0
Costs ctx id w w' =
    (destructive_calls id w'.calls
      ≤ destructive_calls id w.calls
        + (if ctx.key_id == id && not ctx.approval_required then 1 else 0))
    × (approvals_given id w.approvals ≤ approvals_given id w'.approvals)

Effect-Costs :
    (ctx : Context) (name : String) (args : Row) (id : String) (w w' : World)
    → Effect ctx name args w w'
    → Costs ctx id w w'
Effect-Costs ctx name args id w w' (Effect.nothing approvals calls) = (
  omega (arith, ap (destructive_calls id) calls),
  omega (arith, ap (approvals_given id) approvals),
)
Effect-Costs ctx name args id w w' (Effect.asked a waiting approvals calls) = (
  omega (arith, ap (destructive_calls id) calls),
  omega (
    arith,
    ap (approvals_given id) approvals,
    count-append (λ (a : McpApproval). a.mcp_key_id == id && is_approved a.status) w.approvals
        (a ∷ []),
  ),
)
Effect-Costs ctx name args id w w' (Effect.called t known held free approvals calls) = (
  ground (
    arith,
    ap (destructive_calls id) calls,
    free,
    destructive_calls-called id name t
        (record {
          tool = t.name;
          args = pick_declared_args t args;
          user_id = ctx.user_id;
          key_id = ctx.key_id;
        })
        w.calls known refl,
  ),
  omega (arith, ap (approvals_given id) approvals),
)

paid :
    (f : Option Bool) (mine b : Bool) (d d' a a' : ℕ)
    → (mine ≡ true → f ≡ some b)
    → d' ≤ d + (if mine && not b then 1 else 0)
    → a ≤ a'
    → Covers f d a
    → Covers f d' a'
paid f false b d d' a a' own le le' h = Covers-mono f d d' a a' (omega (arith, le)) le' h
paid f true true d d' a a' own le le' h = Covers-mono f d d' a a' (omega (arith, le)) le' h
paid f true false d d' a a' own le le' h = rw (own refl) tt

pub Inv-tools_call :
    (out : Outside) (now : ℕ) (k : McpKey) (name : String) (args : Row) (w : World)
    → get (faces w.keys) k.id ≡ some k.approval_required
    → Inv w
    → Inv (dispatch_tool out now name args (context_of k) w).0
Inv-tools_call out now k name args w face inv =
    let did = dispatch_tool-Effect out now (context_of k) name args w in
    let w' : World = (dispatch_tool out now name args (context_of k) w).0 in
    record {
      distinct = rw did.0 inv.distinct;
      covered = λ id.
          let costs = Effect-Costs (context_of k) name args id w w' did.1 in
          rw did.0 (
            paid (get (faces w.keys) id) (k.id == id) k.approval_required
              (destructive_calls id w.calls) (destructive_calls id w'.calls)
              (approvals_given id w.approvals) (approvals_given id w'.approvals)
              (λ same. rw (sym ((eq_iff k.id id).0 same)) face) costs.0 costs.1 (inv.covered id));
    }

redeemed :
    (f : Option Bool) (b : Bool) (d d' a a' : ℕ)
    → f ≡ some b
    → d' ≤ d + 1
    → a + 1 ≤ a'
    → Covers f d a
    → Covers f d' a'
redeemed none b d d' a a' is le le' h = cc
redeemed (some true) b d d' a a' is le le' h = omega (arith, h)
redeemed (some false) b d d' a a' is le le' h = tt

module _ (now : ℕ) (user row text : String) (w w' : World) (a : McpApproval) (k : McpKey) where
  approvals_given-le :
      (id : String)
      → approvals_given id w.approvals ≤ approvals_given id w'.approvals
      → approvals_given id w.approvals ≤ approvals_given id (close now row text w'.approvals)
  approvals_given-le id le = omega (arith, approvals_given-close now id row text w'.approvals)

  -- The approval that a request closes covers the call that it makes.
  pub Covers-close :
      (ctx : Context) (name : String) (args : Row) (id : String)
      → find_open user row w.approvals ≡ some a
      → find_key w.keys a.mcp_key_id ≡ some k
      → ctx.key_id ≡ k.id
      → Effect ctx name args w w'
      → Covers
          (get (faces w.keys) id)
          (destructive_calls id w.calls)
          (approvals_given id w.approvals)
      → Covers
          (get (faces w.keys) id)
          (destructive_calls id w'.calls)
          (approvals_given id (close now row text w'.approvals))
  Covers-close ctx name args id opened of_key own (Effect.nothing approvals calls) covered =
      let costs = Effect-Costs ctx name args id w w' (Effect.nothing approvals calls) in
      Covers-mono (get (faces w.keys) id) _ _ _ _ (omega (arith, ap (destructive_calls id) calls))
        (approvals_given-le id costs.1) covered
  Covers-close ctx name args id opened of_key own (Effect.asked b waiting approvals calls) covered =
      let costs = Effect-Costs ctx name args id w w' (Effect.asked b waiting approvals calls) in
      Covers-mono (get (faces w.keys) id) _ _ _ _ (omega (arith, ap (destructive_calls id) calls))
        (approvals_given-le id costs.1) covered
  Covers-close ctx name args id opened of_key own (Effect.called t known held free rows calls)
        covered =
      let eff : Effect ctx name args w w' = Effect.called t known held free rows calls in
      let costs = Effect-Costs ctx name args id w w' eff in
      let face = get-faces w.keys a.mcp_key_id k of_key in
      elim (Bool-cases (ctx.key_id == id)) [
        | inr other ↦
            Covers-mono (get (faces w.keys) id) _ _ _ _ (ground (arith, costs.0, other))
              (approvals_given-le id costs.1) covered
        | inl mine ↦
            let same : a.mcp_key_id ≡ id =
              ground (arith, eq_iff ctx.key_id id, mine, face.1, own) in
            redeemed (get (faces w.keys) id) k.approval_required _ _ _ _ (rw (sym same) face.0)
              (ground (arith, costs.0))
              (rw rows (approvals_given-found now row user id text w.approvals a opened same))
              covered
      ]
