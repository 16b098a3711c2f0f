-- ===== src/Sync/TableOrder/Laws.antt =====
-- What the order of the tables guarantees: the same tables, and parents first if that is possible.
use db_backup.Prelude.{
  Distinct, ℕ, zero, suc, ◌≤◌, ◌<◌, String, ◌≡◌, refl, ◌⊎◌, Bool, true, false, not, Option, none,
  some, List, [], ◌∷◌, ◌++◌, arith, eqb, leb, eq_iff, includes, length, any, ◌&&◌, select, Map,
  Bool-cases, inl, inr, ◌∙◌, sym,
}
use db_backup.Sync.TableOrder.{
  Dependency, degree, Graph, build, kahn, sort_by, index_from, complete, topological_sort_tables,
  ordered, strict_error, get_tables_in_dependency_order,
}
use db_backup.Sync.TableOrder.Sorting.{
  sort_by-Distinct, includes-sort_by, select-Distinct, includes-select,
}
use db_backup.Sync.TableOrder.Counting.{count_congr, count-eq-zero, count-le-length}
use db_backup.Sync.TableOrder.Degrees.{
  edge, WellBuilt, wants, build-WellBuilt, edge-build, count-false,
}
use db_backup.Sync.TableOrder.Loop.{Invariant, ParentsFirst, drain-Invariant}
use db_backup.Sync.TableOrder.Completing.{
  SameTables, complete-SameTables, count-true, length-subset,
}

ParentsFirst-roots :
    (adjacency : Map (List String)) (before xs : List String)
    → ((p x : String) → includes xs x ≡ true → edge adjacency p x ≡ false)
    → ParentsFirst adjacency before xs
ParentsFirst-roots adjacency before [] h = tt
ParentsFirst-roots adjacency before (x ∷ xs) h = (
  (λ p e. ground (arith, h p x (ground (arith, eq_iff x x)))),
  ParentsFirst-roots adjacency (before ++ x ∷ []) xs (λ p y m. h p y (ground arith)),
)

module _ (tables : List String) (deps : List Dependency) (distinct : Distinct tables) where
  abbrev graph : Graph
  graph = build tables deps

  abbrev roots : List String
  roots =
      sort_by (degree (index_from 0 tables []))
        (select (λ t. eqb (degree graph.in_degree t) 0) tables)

  abbrev well_built : WellBuilt tables graph
  well_built = build-WellBuilt tables deps distinct

  includes-roots :
      (x : String) → includes roots x ≡ (includes tables x && eqb (degree graph.in_degree x) 0)
  includes-roots x =
      includes-sort_by _ _ x ∙ includes-select (λ t. eqb (degree graph.in_degree t) 0) tables x

  roots-edge : (p x : String) → includes roots x ≡ true → edge graph.adjacency p x ≡ false
  roots-edge p x m = ground (
    arith,
    includes-roots x,
    well_built.degrees x,
    count-eq-zero (λ q. edge graph.adjacency q x) tables p,
    well_built.listed_parent p x,
  )

  start-Invariant : Invariant tables graph distinct well_built [] roots [] graph.in_degree
  start-Invariant = record {
    degrees = λ x m. ground (
      arith,
      well_built.degrees x m,
      count_congr (λ p. edge graph.adjacency p x && true) (λ p. edge graph.adjacency p x) tables
          (λ p h. ground arith),
    );
    queued = λ x m. ground (arith, includes-roots x);
    listed = λ x m. ground (arith, includes-roots x);
    no_repeat = sort_by-Distinct _ _ (select-Distinct _ tables distinct);
    parents_finished = λ p x m e. ground (arith, roots-edge p x m);
    finished_in = λ p m. cc;
    ordered = ParentsFirst-roots graph.adjacency [] roots roots-edge;
  }

  kahn_total :
      (r : List String) × (d : Map ℕ) × (kahn tables deps ≡ some r)
      × Invariant tables graph distinct well_built r r [] d
  unfolding kahn
  kahn_total =
      drain-Invariant tables graph distinct well_built (degree (index_from 0 tables []))
        (suc (length tables)) [] roots graph.in_degree
        (omega (arith, count-le-length (λ t. not (includes [] t)) tables)) start-Invariant

-- For different tables and any foreign keys, cyclic ones too, the sort returns: the same tables,
-- each once.
pub topological_sort_tables_total :
    (tables : List String) (deps : List Dependency)
    → Distinct tables
    → (out : List String) × (topological_sort_tables tables deps ≡ some out) × SameTables tables out
unfolding topological_sort_tables
topological_sort_tables_total tables deps distinct =
    let (r, d, ran, i) = kahn_total tables deps distinct in
    (
      complete tables r,
      rw (ran, topological_sort_tables) refl,
      complete-SameTables tables r distinct i.no_repeat i.listed,
    )

-- Every listed parent of a table, by the foreign keys, stands before it.
abbrev pub KeysFirst : List String → List Dependency → List String → List String → Type 0
KeysFirst tables deps before [] = Unit
KeysFirst tables deps before (x ∷ xs) =
    ((p : String) → any (wants tables p x) deps ≡ true → includes before p ≡ true)
    × KeysFirst tables deps (before ++ x ∷ []) xs

KeysFirst-of_edges :
    (tables : List String) (deps : List Dependency) (before xs : List String)
    → ParentsFirst (build tables deps).adjacency before xs
    → KeysFirst tables deps before xs
KeysFirst-of_edges tables deps before [] h = tt
KeysFirst-of_edges tables deps before (x ∷ xs) (here, h) = (
  (λ p e. here p (edge-build tables deps p x ∙ e)),
  KeysFirst-of_edges tables deps (before ++ x ∷ []) xs h,
)

module _ (tables : List String) (deps : List Dependency) (distinct : Distinct tables)
    (rank : String → ℕ)
    (acyclic : (p c : String) → any (wants tables p c) deps ≡ true → rank p < rank c) where
  module _ {r : List String} {d : Map ℕ}
      (i : Invariant tables
        (build tables deps)
        distinct
        (build-WellBuilt tables deps distinct)
        r
        r
        []
        d) where
    all_finished :
        (n : ℕ) (x : String) → rank x < n → includes tables x ≡ true → includes r x ≡ true
    all_finished zero x low m = absurd (omega arith)
    all_finished (suc n) x low m =
        let done =
          count_congr (λ p. edge (build tables deps).adjacency p x && not (includes r p))
            (λ p. false) tables
            (λ p mp. ground (arith, edge-build tables deps p x, acyclic p x, all_finished n p)) in
        ground (arith, i.queued x m, i.degrees x m, done, count-false tables)

  -- For different tables whose foreign keys have no cycle (some rank grows from every parent to its
  -- child), the sort returns the tables, each once, with every parent before its children.
  pub topological_sort_tables-KeysFirst :
      (out : List String) × (topological_sort_tables tables deps ≡ some out)
      × SameTables tables out
      × KeysFirst tables deps [] out
  unfolding topological_sort_tables complete
  topological_sort_tables-KeysFirst =
      let (r, d, ran, i) = kahn_total tables deps distinct in
      let full : length r ≡ length tables =
        sym (length-subset r tables i.no_repeat distinct i.listed)
        ∙ (count_congr (includes r) (λ x. true) tables
              (λ x m. all_finished i (suc (rank x)) x (omega arith) m)
            ∙ count-true tables) in
      (
        r,
        ground (arith, ran, full),
        (
          i.no_repeat,
          λ x. ground (arith, i.listed x, all_finished i (suc (rank x)) x (omega arith)),
        ),
        KeysFirst-of_edges tables deps [] r i.ordered,
      )

-- The order of different tables is always found: it is the strict error, and then strict ordering
-- is on, there are two tables or more and the foreign keys could not be read, or it is the same
-- tables, each once.
pub get_tables_in_dependency_order_total :
    (foreign_keys : Option (List Dependency)) (strict : Bool) (tables : List String)
    → Distinct tables
    → (((get_tables_in_dependency_order foreign_keys strict tables ≡ strict_error)
        × (strict ≡ true)
        × (2 ≤ length tables)
        × (foreign_keys ≡ none)))
      ⊎ ((out : List String) × (get_tables_in_dependency_order foreign_keys strict tables
            ≡ ordered (some out))
          × SameTables tables out)
unfolding get_tables_in_dependency_order
get_tables_in_dependency_order_total foreign_keys strict tables distinct =
    elim (Bool-cases (leb (length tables) 1)) [
      | inl few ↦ inr (tables, rw few refl, (distinct, λ x. refl))
      | inr several ↦ go foreign_keys strict several
    ]
  where
    go :
        (keys : Option (List Dependency)) (on : Bool)
        → leb (length tables) 1 ≡ false
        → ((get_tables_in_dependency_order keys on tables ≡ strict_error)
            × (on ≡ true)
            × (2 ≤ length tables)
            × (keys ≡ none))
          ⊎ ((out : List String) × (get_tables_in_dependency_order keys on tables
                ≡ ordered (some out))
              × SameTables tables out)
    go none true several = inl (rw several refl, refl, ground arith, refl)
    go none false several = inr (tables, rw several refl, (distinct, λ x. refl))
    go (some deps) on several =
        let (out, ran, same) = topological_sort_tables_total tables deps distinct in
        inr (out, rw (several, ran) refl, same)
