-- ===== src/Sync/Apply/Statements.antt =====
-- Statements with placeholders, and what their arguments make of them: `?` takes the next argument,
-- `$n` the n-th.
use db_backup.Prelude.{ℕ, zero, suc, ◌+◌, String, List, [], ◌∷◌}
use db_backup.Sync.Values.{Value, undefined, Row}

pub data Mark : Type 0 where
  question : Mark
  dollar : ℕ → Mark

abbrev pub Marked : Type 0
Marked = List (String × Mark)

pub data Statement : Type 0 where
  update_where : String → Marked → Marked → Statement
  insert_into : String → Marked → Statement
  delete_where : String → Marked → Statement

pub record Query : Type 0 where
  pub statement : Statement
  pub args : List Value

-- a statement with its values in place
pub data Bound : Type 0 where
  update_row : (table : String) → (set where_key : Row) → Bound
  insert_row : (table : String) → Row → Bound
  delete_row : (table : String) → Row → Bound

-- `columns.map(() => '?')`
unfoldable pub marks : List String → Marked
marks [] = []
marks (c ∷ cs) = (c, question) ∷ marks cs

-- `columns.map((c, i) => $${start + i + 1})`
unfoldable pub numbered : ℕ → List String → Marked
numbered start [] = []
numbered start (c ∷ cs) = (c, dollar (start + 1)) ∷ numbered (start + 1) cs

-- the n-th argument, from 1
unfoldable pub nth : List Value → ℕ → Value
nth [] n = undefined
nth (v ∷ vs) zero = undefined
nth (v ∷ vs) (suc zero) = v
nth (v ∷ vs) (suc (suc n)) = nth vs (suc n)

unfoldable pub next : List Value → Value
next [] = undefined
next (v ∷ vs) = v

unfoldable pub after : List Value → List Value
after [] = []
after (v ∷ vs) = vs

-- the values of the marks, and the arguments that are left for further `?`
unfoldable pub bind_marks : List Value → List Value → Marked → Row × List Value
unfolding nth next after
bind_marks all left [] = ([], left)
bind_marks all left ((c, question) ∷ ms) =
    let (row, rest) = bind_marks all (after left) ms in ((c, next left) ∷ row, rest)
bind_marks all left ((c, dollar n) ∷ ms) =
    let (row, rest) = bind_marks all left ms in ((c, nth all n) ∷ row, rest)

unfoldable pub bind : Query → Bound
unfolding bind_marks
bind q = elim q.statement [
  | update_where table set key ↦
      let (row, left) = bind_marks q.args q.args set in
      update_row table row (bind_marks q.args left key).0
  | insert_into table set ↦ insert_row table (bind_marks q.args q.args set).0
  | delete_where table key ↦ delete_row table (bind_marks q.args q.args key).0
]
