-- ===== src/Mcp/Routes/Approvals.antt =====
-- The approvals that were given to a key, when an approval is closed or denied.
use db_backup.Prelude.{
  ℕ, ◌+◌, ◌≤◌, String, ◌≡◌, refl, ap, Bool, true, false, ◌&&◌, inl, inr, some, List, [], ◌∷◌, ◌==◌,
  eq_iff, arith, count, Bool-cases,
}
use db_backup.Mcp.{McpApproval, Status, pending, approved, denied}
use db_backup.Mcp.Approval.{is_open, find_open, close, deny_rows}

abbrev pub is_approved : Status → Bool
is_approved approved = true
is_approved pending = false
is_approved denied = false

abbrev pub approvals_given : String → List McpApproval → ℕ
approvals_given id = count (λ a. a.mcp_key_id == id && is_approved a.status)

pub approvals_given-close :
    (now : ℕ) (id row text : String) (rows : List McpApproval)
    → approvals_given id rows ≤ approvals_given id (close now row text rows)
unfolding close
approvals_given-close now id row text [] = omega arith
approvals_given-close now id row text (a ∷ rows) =
    ground (arith, approvals_given-close now id row text rows)

pub approvals_given-found :
    (now : ℕ) (id user key text : String) (rows : List McpApproval) (a : McpApproval)
    → find_open user id rows ≡ some a
    → a.mcp_key_id ≡ key
    → approvals_given key rows + 1 ≤ approvals_given key (close now id text rows)
unfolding close find_open
approvals_given-found now id user key text [] a h e = cc
approvals_given-found now id user key text (b ∷ rows) a h e =
    elim (Bool-cases (is_open user id b)) [
      | inl open_row ↦
          let same : b ≡ a = ground (arith, open_row, h) in
          ground (
            arith,
            open_row,
            ap (λ (c : McpApproval). c.mcp_key_id) same,
            e,
            eq_iff b.mcp_key_id key,
            approvals_given-close now key id text rows,
          )
      | inr shut ↦ ground (arith, shut, h, e, approvals_given-found now id user key text rows a)
    ]

pub approvals_given-deny_rows :
    (now : ℕ) (id user row : String) (rows : List McpApproval)
    → approvals_given id (deny_rows now user row rows) ≡ approvals_given id rows
unfolding deny_rows
approvals_given-deny_rows now id user row [] = refl
approvals_given-deny_rows now id user row (a ∷ rows) =
    ground (arith, approvals_given-deny_rows now id user row rows)
