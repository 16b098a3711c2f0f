-- ===== src/Sync/TableOrder/Loop.antt =====
-- The invariant of the loop, and what the loop returns.
use db_backup.Prelude.{
  Distinct, ℕ, zero, suc, ◌+◌, ◌-◌, ◌<◌, String, ◌≡◌, refl, ◌≢◌, true, false, not, some, List, [],
  ◌∷◌, ◌++◌, arith, eqb, if◌then◌else◌, ◌==◌, eq_iff, includes, includes-append, count, ◌&&◌, put,
  get-put, Map, Bool-cases, inl, inr, ◌∙◌, sym, append-nil, append_assoc,
}
use db_backup.Sync.TableOrder.{degree, children, Graph, relax, drain, sort_by}
use db_backup.Sync.TableOrder.Sorting.{Distinct-snoc, sort_by-Distinct, includes-sort_by}
use db_backup.Sync.TableOrder.Counting.{count_congr, count_raise, count-eq-zero}
use db_backup.Sync.TableOrder.Degrees.{edge, WellBuilt}

-- Each member of `xs` has all its parents in `before` or earlier in `xs`.
abbrev pub ParentsFirst : Map (List String) → List String → List String → Type 0
ParentsFirst adjacency before [] = Unit
ParentsFirst adjacency before (x ∷ xs) =
    ((p : String) → edge adjacency p x ≡ true → includes before p ≡ true)
    × ParentsFirst adjacency (before ++ x ∷ []) xs

-- the parents of a table that are not finished
abbrev pub waiting : List String → Map (List String) → List String → String → ℕ
waiting tables adjacency finished x =
    count (λ p. edge adjacency p x && not (includes finished p)) tables

ParentsFirst-snoc :
    (adjacency : Map (List String)) (before xs : List String) (a : String)
    → ParentsFirst adjacency before xs
    → ((p : String) → edge adjacency p a ≡ true → includes (before ++ xs) p ≡ true)
    → ParentsFirst adjacency before (xs ++ a ∷ [])
ParentsFirst-snoc adjacency before [] a h parents = ((λ p e. rw append-nil at (parents p e)), tt)
ParentsFirst-snoc adjacency before (x ∷ xs) a (here, h) parents = (
  here,
  ParentsFirst-snoc adjacency (before ++ x ∷ []) xs a h
      (λ p e. rw (append_assoc before (x ∷ []) xs) (parents p e)),
)

Distinct-middle :
    (xs ys : List String) (a : String) → Distinct (xs ++ a ∷ ys) → includes xs a ≡ false
Distinct-middle [] ys a d = refl
Distinct-middle (x ∷ xs) ys a d =
    ground
      (arith, Distinct-middle xs ys a d.1, includes-append xs (a ∷ ys) x, eq_iff x a, eq_iff a a)

module _ (tables : List String) (g : Graph) (distinct : Distinct tables)
    (w : WellBuilt tables g) where
  -- `all` is the finished tables followed by the queue; `pending` are the children that the inner
  -- loop has still to lower.
  pub record Invariant (finished all pending : List String) (in_degree : Map ℕ) : Type 0 where
    pub degrees :
        (x : String)
        → includes tables x ≡ true
        → degree in_degree x
          ≡ waiting tables g.adjacency finished x + (if includes pending x then 1 else 0)
    pub queued :
        (x : String) → includes tables x ≡ true → includes all x ≡ eqb (degree in_degree x) 0
    pub listed : (x : String) → includes all x ≡ true → includes tables x ≡ true
    pub no_repeat : Distinct all
    pub parents_finished :
        (p x : String)
        → includes all x ≡ true
        → edge g.adjacency p x ≡ true
        → includes finished p ≡ true
    pub finished_in : (p : String) → includes finished p ≡ true → includes all p ≡ true
    pub ordered : ParentsFirst g.adjacency [] all

  module _ (finished all rest : List String) (child : String) (in_degree : Map ℕ)
      (lc : includes tables child ≡ true) (fresh : includes rest child ≡ false)
      (i : Invariant finished all (child ∷ rest) in_degree) where
    abbrev lowered : Map ℕ
    lowered = put in_degree child (degree in_degree child - 1)

    degree-lowered :
        (x : String)
        → degree lowered x ≡ (if child == x then degree in_degree child - 1 else degree in_degree x)
    degree-lowered x = ground (arith, get-put in_degree child x (degree in_degree child - 1))

    lowered-degrees :
        (x : String)
        → includes tables x ≡ true
        → degree lowered x
          ≡ waiting tables g.adjacency finished x + (if includes rest x then 1 else 0)
    lowered-degrees x m =
        ground (arith, degree-lowered x, i.degrees x m, eq_iff child x, i.degrees child lc)

    -- the last parent of the child is finished
    child_parents :
        degree in_degree child ≡ 1
        → (p : String) → edge g.adjacency p child ≡ true
        → includes finished p ≡ true
    child_parents last p e = ground (
      arith,
      i.degrees child lc,
      eq_iff child child,
      count-eq-zero (λ q. edge g.adjacency q child && not (includes finished q)) tables p,
      w.listed_parent p child e,
    )

    not_queued : degree in_degree child ≡ 1 → includes all child ≡ false
    not_queued last = ground (arith, i.queued child lc)

    relax_queued : degree in_degree child ≡ 1 → Invariant finished (all ++ child ∷ []) rest lowered
    relax_queued last = record {
      degrees = lowered-degrees;
      queued = λ x m. ground (
        arith,
        degree-lowered x,
        i.queued x m,
        eq_iff child x,
        includes-append all (child ∷ []) x,
      );
      listed =
          λ x m. ground (arith, eq_iff child x, includes-append all (child ∷ []) x, i.listed x);
      no_repeat = Distinct-snoc all child i.no_repeat (not_queued last);
      parents_finished = λ p x m e. ground (
        arith,
        eq_iff child x,
        includes-append all (child ∷ []) x,
        i.parents_finished p x,
        child_parents last p,
      );
      finished_in = λ p m. ground (arith, includes-append all (child ∷ []) p, i.finished_in p m);
      ordered =
          ParentsFirst-snoc g.adjacency [] all child i.ordered
            (λ p e. i.finished_in p (child_parents last p e));
    }

    relax_waiting : degree in_degree child ≢ 1 → Invariant finished all rest lowered
    relax_waiting more = record {
      degrees = lowered-degrees;
      queued =
          λ x m. ground (arith, degree-lowered x, i.queued x m, i.degrees child lc, eq_iff child x);
      listed = i.listed;
      no_repeat = i.no_repeat;
      parents_finished = i.parents_finished;
      finished_in = i.finished_in;
      ordered = i.ordered;
    }

  relax-Invariant :
      (finished pending queue : List String) (in_degree : Map ℕ)
      → Distinct pending
      → ((x : String) → includes pending x ≡ true → includes tables x ≡ true)
      → Invariant finished (finished ++ queue) pending in_degree
      → Invariant finished
          (finished ++ (relax pending queue in_degree).0)
          []
          (relax pending queue in_degree).1
  unfolding relax
  relax-Invariant finished [] queue in_degree d l i = i
  relax-Invariant finished (child ∷ rest) queue in_degree d l i =
      let lc = l child (ground (arith, eq_iff child child)) in
      let l' : (x : String) → includes rest x ≡ true → includes tables x ≡ true =
        λ x m. l x (ground arith) in
      elim (Bool-cases (eqb (degree in_degree child) 1)) [
        | inl last ↦
            rw (last, relax)
              (relax-Invariant finished rest (queue ++ child ∷ []) _ d.1 l' (
                rw (← append_assoc finished queue (child ∷ [])) (
                  relax_queued finished (finished ++ queue) rest child in_degree lc d.0 i
                    (ground arith))))
        | inr more ↦
            rw (more, relax)
              (relax-Invariant finished rest queue _ d.1 l' (
                relax_waiting finished (finished ++ queue) rest child in_degree lc d.0 i
                  (ground arith)))
      ]

  waiting-snoc :
      (finished : List String) (current x : String)
      → includes tables current ≡ true
      → includes finished current ≡ false
      → waiting tables g.adjacency finished x
        ≡ waiting tables g.adjacency (finished ++ current ∷ []) x
          + (if edge g.adjacency current x then 1 else 0)
  waiting-snoc finished current x m out = elim (Bool-cases (edge g.adjacency current x)) [
    | inl linked ↦
        let raised =
          count_raise (λ p. edge g.adjacency p x && not (includes (finished ++ current ∷ []) p))
            (λ p. edge g.adjacency p x && not (includes finished p)) tables current distinct m
            (ground
              (arith, includes-append finished (current ∷ []) current, eq_iff current current))
            (ground arith)
            (λ p ne. ground (arith, includes-append finished (current ∷ []) p, eq_iff current p)) in
        rw linked (omega (arith, raised))
    | inr none_here ↦
        let same =
          count_congr (λ p. edge g.adjacency p x && not (includes (finished ++ current ∷ []) p))
            (λ p. edge g.adjacency p x && not (includes finished p)) tables
            (λ p h. ground (arith, includes-append finished (current ∷ []) p, eq_iff current p)) in
        rw none_here (omega (arith, same))
  ]

  -- moving a queued table to the finished ones lowers the count of each of its children by one
  pop-Invariant :
      (finished rest : List String) (current : String) (in_degree : Map ℕ) (pending : List String)
      → ((x : String) → includes pending x ≡ edge g.adjacency current x)
      → Invariant finished (finished ++ current ∷ rest) [] in_degree
      → Invariant (finished ++ current ∷ []) (finished ++ current ∷ rest) pending in_degree
  pop-Invariant finished rest current in_degree pending same i =
      let queued : includes (finished ++ current ∷ rest) current ≡ true =
        ground (arith, includes-append finished (current ∷ rest) current, eq_iff current current) in
      record {
        degrees = λ x m. ground (
          arith,
          i.degrees x m,
          same x,
          waiting-snoc finished current x (i.listed current queued)
              (Distinct-middle finished rest current i.no_repeat),
        );
        queued = i.queued;
        listed = i.listed;
        no_repeat = i.no_repeat;
        parents_finished = λ p x m e.
            ground (arith, i.parents_finished p x m e, includes-append finished (current ∷ []) p);
        finished_in = λ p m. ground (
          arith,
          i.finished_in p,
          includes-append finished (current ∷ []) p,
          eq_iff current p,
          includes-append finished (current ∷ rest) p,
        );
        ordered = i.ordered;
      }

  abbrev unfinished : List String → ℕ
  unfinished finished = count (λ t. not (includes finished t)) tables

  unfinished-snoc :
      (finished : List String) (current : String)
      → includes tables current ≡ true
      → includes finished current ≡ false
      → unfinished finished ≡ suc (unfinished (finished ++ current ∷ []))
  unfinished-snoc finished current m out =
      count_raise (λ t. not (includes (finished ++ current ∷ []) t))
        (λ t. not (includes finished t)) tables current distinct m
        (ground (arith, includes-append finished (current ∷ []) current, eq_iff current current))
        (ground arith)
        (λ p ne. ground (arith, includes-append finished (current ∷ []) p, eq_iff current p))

  pub drain-Invariant :
      (index : String → ℕ) (fuel : ℕ) (finished queue : List String) (in_degree : Map ℕ)
      → unfinished finished < fuel
      → Invariant finished (finished ++ queue) [] in_degree
      → (r : List String) × (d : Map ℕ) × (drain fuel g.adjacency index queue in_degree finished
          ≡ some r)
        × Invariant r r [] d
  unfolding drain
  drain-Invariant index zero finished queue in_degree few i = absurd (omega arith)
  drain-Invariant index (suc fuel) finished [] in_degree few i =
      (finished, in_degree, refl, rw append-nil at i)
  drain-Invariant index (suc fuel) finished (current ∷ rest) in_degree few i =
      let pending = sort_by index (children g.adjacency current) in
      let listed = i.listed current (
        ground
          (arith, includes-append finished (current ∷ rest) current, eq_iff current current)) in
      let popped =
        pop-Invariant finished rest current in_degree pending
          (includes-sort_by index (children g.adjacency current)) i in
      let relaxed =
        relax-Invariant (finished ++ current ∷ []) pending rest in_degree
          (sort_by-Distinct index (children g.adjacency current) (w.no_repeat current))
          (λ x m.
            w.listed_child current x
              (sym (includes-sort_by index (children g.adjacency current) x) ∙ m))
          (rw append_assoc popped) in
      drain-Invariant index fuel (finished ++ current ∷ []) _ _
        (omega (
          arith,
          unfinished-snoc finished current listed
              (Distinct-middle finished rest current i.no_repeat),
        ))
        relaxed
