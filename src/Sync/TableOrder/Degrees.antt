-- ===== src/Sync/TableOrder/Degrees.antt =====
-- The graph that the foreign keys build: its edges are the foreign keys between two different
-- listed tables, and a degree counts the parents.
use db_backup.Prelude.{
  Distinct, ℕ, ◌+◌, String, ◌≡◌, refl, ◌≢◌, Bool, true, false, not, List, [], ◌∷◌, arith,
  if◌then◌else◌, ◌==◌, eq_iff, includes, includes-add, add, count, any, ◌||◌, ◌&&◌, get, put,
  get-put, Map, Bool-cases, inl, inr, ◌∙◌, sym,
}
use db_backup.Sync.TableOrder.{
  Dependency, degree, children, Graph, isolated, add_dependency, add_dependencies, build,
}
use db_backup.Sync.TableOrder.Sorting.{Distinct-snoc}
use db_backup.Sync.TableOrder.Counting.{count_congr, count_raise}

abbrev pub edge : Map (List String) → String → String → Bool
edge adjacency p c = includes (children adjacency p) c

pub record WellBuilt (tables : List String) (g : Graph) : Type 0 where
  pub degrees :
      (x : String)
      → includes tables x ≡ true
      → degree g.in_degree x ≡ count (λ p. edge g.adjacency p x) tables
  pub listed_child : (p x : String) → edge g.adjacency p x ≡ true → includes tables x ≡ true
  pub listed_parent : (p x : String) → edge g.adjacency p x ≡ true → includes tables p ≡ true
  pub no_loop : (p : String) → edge g.adjacency p p ≡ false
  pub no_repeat : (p : String) → Distinct (children g.adjacency p)

-- a foreign key between the two tables, both listed and not the same
abbrev pub wants : List String → String → String → Dependency → Bool
wants tables p c dep =
    (dep.parent == p && dep.child == c) && (includes tables p && includes tables c && not (p == c))

add-Distinct : (xs : List String) (a : String) → Distinct xs → Distinct (add xs a)
add-Distinct xs a d = ground (arith, Distinct-snoc xs a d)

degree-put :
    (m : Map ℕ) (k x : String) (v : ℕ) → degree (put m k v) x ≡ (if k == x then v else degree m x)
degree-put m k x v = ground (arith, get-put m k x v)

children-put :
    (m : Map (List String)) (k x : String) (v : List String)
    → children (put m k v) x ≡ (if k == x then v else children m x)
children-put m k x v = ground (arith, get-put m k x v)

edge-put :
    (m : Map (List String)) (p c q x : String)
    → edge (put m p (add (children m p) c)) q x ≡ (edge m q x || (p == q && c == x))
edge-put m p c q x =
    ground (
      arith,
      children-put m p q (add (children m p) c),
      includes-add (children m p) c x,
      eq_iff p q,
    )

pub edge-add_dependency :
    (tables : List String) (g : Graph) (dep : Dependency) (p c : String)
    → edge (add_dependency tables g dep).adjacency p c
      ≡ (edge g.adjacency p c || wants tables p c dep)
unfolding add_dependency
edge-add_dependency tables g dep p c = ground (
  arith,
  edge-put g.adjacency dep.parent dep.child p c,
  eq_iff dep.parent p,
  eq_iff dep.child c,
  eq_iff dep.parent dep.child,
  eq_iff p c,
)

module _ (tables : List String) (distinct : Distinct tables) (g : Graph)
    (w : WellBuilt tables g) where
  module _ (p c : String) (lp : includes tables p ≡ true) (lc : includes tables c ≡ true)
      (other : p ≢ c) (new : edge g.adjacency p c ≡ false) where
    abbrev with_edge : Graph
    with_edge = record {
      in_degree = put g.in_degree c (degree g.in_degree c + 1);
      adjacency = put g.adjacency p (add (children g.adjacency p) c);
    }

    with_edge-degrees :
        (x : String)
        → includes tables x ≡ true
        → degree with_edge.in_degree x ≡ count (λ q. edge with_edge.adjacency q x) tables
    with_edge-degrees x m = elim (Bool-cases (c == x)) [
      | inl same ↦
          let raised =
            count_raise (λ q. edge g.adjacency q c) (λ q. edge with_edge.adjacency q c) tables p
              distinct lp new (ground (arith, edge-put g.adjacency p c p c, eq_iff p p, eq_iff c c))
              (λ q ne. ground (arith, edge-put g.adjacency p c q c, eq_iff p q)) in
          ground (
            arith,
            raised,
            w.degrees c lc,
            (eq_iff c x).0 same,
            degree-put g.in_degree c x (degree g.in_degree c + 1),
          )
      | inr differ ↦
          let kept =
            count_congr (λ q. edge g.adjacency q x) (λ q. edge with_edge.adjacency q x) tables
              (λ q h. ground (arith, edge-put g.adjacency p c q x)) in
          ground (arith, kept, w.degrees x m, degree-put g.in_degree c x (degree g.in_degree c + 1))
    ]

    with_edge-WellBuilt : WellBuilt tables with_edge
    with_edge-WellBuilt = record {
      degrees = with_edge-degrees;
      listed_child =
          λ q x e. ground (arith, edge-put g.adjacency p c q x, w.listed_child q x, eq_iff c x);
      listed_parent =
          λ q x e. ground (arith, edge-put g.adjacency p c q x, w.listed_parent q x, eq_iff p q);
      no_loop =
          λ q. ground (arith, edge-put g.adjacency p c q q, w.no_loop q, eq_iff p q, eq_iff c q);
      no_repeat = λ q. ground (
        arith,
        children-put g.adjacency p q (add (children g.adjacency p) c),
        w.no_repeat q,
        add-Distinct (children g.adjacency p) c (w.no_repeat p),
      );
    }

  add_dependency-WellBuilt : (dep : Dependency) → WellBuilt tables (add_dependency tables g dep)
  unfolding add_dependency
  add_dependency-WellBuilt dep =
      elim (Bool-cases (includes tables dep.parent && includes tables dep.child)) [
        | inr out ↦ rw out w
        | inl listed ↦ elim (Bool-cases (dep.parent == dep.child)) [
          | inl same ↦ rw (listed, same) w
          | inr other ↦ elim (Bool-cases (includes (children g.adjacency dep.parent) dep.child)) [
            | inl old ↦ rw (listed, other, old) w
            | inr new ↦
                rw (listed, other, new)
                  (rw new at (
                    with_edge-WellBuilt dep.parent dep.child (ground arith) (ground arith)
                      (ground (arith, eq_iff dep.parent dep.child)) new))
          ]
        ]
      ]

module _ (tables : List String) (distinct : Distinct tables) where
  add_dependencies-WellBuilt :
      (g : Graph) (deps : List Dependency)
      → WellBuilt tables g
      → WellBuilt tables (add_dependencies tables g deps)
  unfolding add_dependencies
  add_dependencies-WellBuilt g [] w = w
  add_dependencies-WellBuilt g (dep ∷ deps) w =
      add_dependencies-WellBuilt (add_dependency tables g dep) deps
        (add_dependency-WellBuilt tables distinct g w dep)

edge-add_dependencies :
    (tables : List String) (g : Graph) (deps : List Dependency) (p c : String)
    → edge (add_dependencies tables g deps).adjacency p c
      ≡ (edge g.adjacency p c || any (wants tables p c) deps)
unfolding add_dependencies
edge-add_dependencies tables g [] p c = ground arith
edge-add_dependencies tables g (dep ∷ deps) p c = ground (
  arith,
  edge-add_dependencies tables (add_dependency tables g dep) deps p c,
  edge-add_dependency tables g dep p c,
)

isolated-empty :
    (tables : List String) (g : Graph) (x : String)
    → degree g.in_degree x ≡ 0
    → children g.adjacency x ≡ []
    → (degree (isolated tables g).in_degree x ≡ 0) × (children (isolated tables g).adjacency x ≡ [])
unfolding isolated
isolated-empty [] g x d k = (d, k)
isolated-empty (table ∷ tables) g x d k =
    isolated-empty tables _ x (ground (arith, degree-put g.in_degree table x 0))
      (ground (arith, children-put g.adjacency table x []))

abbrev start : List String → Graph
start tables = isolated tables (record { in_degree = []; adjacency = [] })

pub count-false : (xs : List String) → count (λ p. false) xs ≡ 0
count-false [] = refl
count-false (x ∷ xs) = count-false xs

start-WellBuilt : (tables : List String) → WellBuilt tables (start tables)
unfolding get
start-WellBuilt tables =
    let bare : (x : String)
        → (degree (start tables).in_degree x ≡ 0) × (children (start tables).adjacency x ≡ []) =
      λ x. isolated-empty tables _ x refl refl in
    record {
      degrees = λ x m.
          (bare x).0
          ∙ sym (
              count_congr _ (λ p. false) tables (λ p h. rw ((bare p).1) refl) ∙ count-false tables);
      listed_child = λ p x e. ground (arith, bare p);
      listed_parent = λ p x e. ground (arith, bare p);
      no_loop = λ p. rw ((bare p).1) refl;
      no_repeat = λ p. rw ((bare p).1) tt;
    }

pub build-WellBuilt :
    (tables : List String) (deps : List Dependency)
    → Distinct tables
    → WellBuilt tables (build tables deps)
unfolding build
build-WellBuilt tables deps distinct =
    add_dependencies-WellBuilt tables distinct (start tables) deps (start-WellBuilt tables)

-- The edges are the foreign keys between two different listed tables.
pub edge-build :
    (tables : List String) (deps : List Dependency) (p c : String)
    → edge (build tables deps).adjacency p c ≡ any (wants tables p c) deps
unfolding build get
edge-build tables deps p c = ground (
  arith,
  edge-add_dependencies tables (start tables) deps p c,
  isolated-empty tables (record { in_degree = []; adjacency = [] }) p refl refl,
)
