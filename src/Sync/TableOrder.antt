-- ===== src/Sync/TableOrder.antt =====
-- server/src/queue/sync/execution/table-ordered-executor.ts: tables in the order of their foreign
-- keys, parents first, by Kahn's algorithm. The query for the foreign keys is a parameter.
mod Sorting
mod Counting
mod Degrees
mod Loop
pub mod Completing
pub mod Laws
use db_backup.Prelude.{
  ℕ, zero, suc, ◌+◌, ◌-◌, String, Bool, true, false, ◌&&◌, not, Option, none, some, List, [], ◌∷◌,
  ◌++◌, map, ltb, leb, eqb, if◌then◌else◌, ◌==◌, length, select, includes, add, Map, get, put,
  or_else,
}

pub record Dependency : Type 0 where
  pub child : String
  pub parent : String

abbrev pub degree : Map ℕ → String → ℕ
degree in_degree table = or_else (get in_degree table) 0

abbrev pub children : Map (List String) → String → List String
children adjacency table = or_else (get adjacency table) []

-- a stable sort by a numeric key, as `Array.prototype.sort` is
unfoldable pub insert_by : (String → ℕ) → String → List String → List String
insert_by key x [] = x ∷ []
insert_by key x (y ∷ ys) = if leb (key x) (key y) then x ∷ y ∷ ys else y ∷ insert_by key x ys

unfoldable pub sort_by : (String → ℕ) → List String → List String
sort_by key [] = []
sort_by key (x ∷ xs) = insert_by key x (sort_by key xs)

-- `new Map(tables.map((table, index) => [table, index]))`, from the index of the first table on
unfoldable pub index_from : ℕ → List String → Map ℕ → Map ℕ
index_from i [] m = m
index_from i (table ∷ tables) m = index_from (i + 1) tables (put m table i)

pub record Graph : Type 0 where
  pub in_degree : Map ℕ
  pub adjacency : Map (List String)

unfoldable pub isolated : List String → Graph → Graph
isolated [] g = g
isolated (table ∷ tables) g =
    isolated tables
      (record { in_degree = put g.in_degree table 0; adjacency = put g.adjacency table [] })

-- the edge of a foreign key between two different tables of the list, once
unfoldable pub add_dependency : List String → Graph → Dependency → Graph
add_dependency tables g dep =
    if not (includes tables dep.parent && includes tables dep.child)
    then g
    else if dep.parent == dep.child
    then g
    else if includes (children g.adjacency dep.parent) dep.child
    then g
    else record {
      in_degree = put g.in_degree dep.child (degree g.in_degree dep.child + 1);
      adjacency = put g.adjacency dep.parent (add (children g.adjacency dep.parent) dep.child);
    }

unfoldable pub add_dependencies : List String → Graph → List Dependency → Graph
add_dependencies tables g [] = g
add_dependencies tables g (dep ∷ deps) = add_dependencies tables (add_dependency tables g dep) deps

unfoldable pub build : List String → List Dependency → Graph
build tables deps =
    add_dependencies tables (isolated tables (record { in_degree = []; adjacency = [] })) deps

-- The loop over the children of a finished table. A degree is lowered and the child is queued
-- when it becomes 0, that is when it was 1; one that is 0 already would go below 0 and is never
-- queued again, so it stays at 0 here.
unfoldable pub relax : List String → List String → Map ℕ → List String × Map ℕ
relax [] queue in_degree = (queue, in_degree)
relax (child ∷ rest) queue in_degree =
    let d = degree in_degree child in
    relax rest (if eqb d 1 then queue ++ child ∷ [] else queue) (put in_degree child (d - 1))

-- The `while` loop, on fuel; `none` means that the fuel ran out.
unfoldable pub drain :
    ℕ → Map (List String) → (String → ℕ) → List String → Map ℕ → List String → Option (List String)
drain zero adjacency index queue in_degree ordered = none
drain (suc fuel) adjacency index [] in_degree ordered = some ordered
drain (suc fuel) adjacency index (current ∷ rest) in_degree ordered =
    let next = relax (sort_by index (children adjacency current)) rest in_degree in
    drain fuel adjacency index next.0 next.1 (ordered ++ current ∷ [])

-- tables that a cycle kept out, in their original order
unfoldable pub append_missing : List String → List String → List String
append_missing ordered [] = ordered
append_missing ordered (table ∷ tables) =
    append_missing (if includes ordered table then ordered else ordered ++ table ∷ []) tables

unfoldable pub complete : List String → List String → List String
complete tables ordered =
    if eqb (length ordered) (length tables) then ordered else append_missing ordered tables

unfoldable pub kahn : List String → List Dependency → Option (List String)
kahn tables deps =
    let g = build tables deps in
    let index = degree (index_from 0 tables []) in
    let queue = sort_by index (select (λ t. eqb (degree g.in_degree t) 0) tables) in
    drain (suc (length tables)) g.adjacency index queue g.in_degree []

unfoldable pub topological_sort_tables : List String → List Dependency → Option (List String)
topological_sort_tables tables deps = elim (kahn tables deps) [
  | none ↦ none
  | some ordered ↦ some (complete tables ordered)
]

-- an error, under strict ordering, where the foreign keys cannot be read
pub data Ordering : Type 0 where
  ordered : Option (List String) → Ordering
  strict_error : Ordering

-- `foreign_keys` is what the query returns, or `none` where it throws.
unfoldable pub get_tables_in_dependency_order :
    Option (List Dependency) → Bool → List String → Ordering
get_tables_in_dependency_order foreign_keys strict tables =
    if leb (length tables) 1 then ordered (some tables) else elim foreign_keys [
      | some deps ↦ ordered (topological_sort_tables tables deps)
      | none ↦ if strict then strict_error else ordered (some tables)
    ]
