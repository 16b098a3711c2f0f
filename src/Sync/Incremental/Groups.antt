-- ===== src/Sync/Incremental/Groups.antt =====
-- The changes grouped by table: each table's group is its changes in their order, without the
-- skipped keys, and the groups of all tables are all changes that are not skipped.
use db_backup.Prelude.{
  Distinct, ℕ, ◌+◌, String, ◌≡◌, refl, sym, ◌∙◌, ap, Bool, true, false, not, ◌&&◌, ◌||◌, List, [],
  ◌∷◌, ◌++◌, arith, if◌then◌else◌, ◌==◌, eq_iff, count, select, includes, Map, get, put, get-put,
  or_else, append-nil, append_assoc, Bool-cases, inl, inr, any, sum_by, fun_ext,
}
use db_backup.Sync.Values.{ChangeLog}
use db_backup.Sync.Keys.{create_conflict_key}
use db_backup.Sync.Incremental.Runs.{group_changes, group_tables}

abbrev pub key_of : ChangeLog → String
key_of c = create_conflict_key c.table_name c.primary_key_values

abbrev pub is_kept : List String → ChangeLog → Bool
is_kept skipped c = not (includes skipped (key_of c))

abbrev pub group_of : Map (List ChangeLog) → String → List ChangeLog
group_of groups t = or_else (get groups t) []

pub group_of-group_changes :
    (skipped : List String) (groups : Map (List ChangeLog)) (cs : List ChangeLog) (t : String)
    → group_of (group_changes skipped groups cs) t
      ≡ group_of groups t ++ select (λ c. c.table_name == t && is_kept skipped c) cs
unfolding group_changes
group_of-group_changes skipped groups [] t = sym (append-nil (group_of groups t))
group_of-group_changes skipped groups (c ∷ cs) t = elim (Bool-cases (includes skipped (key_of c))) [
  | inl out ↦ ground (arith, group_of-group_changes skipped groups cs t)
  | inr kept ↦
      let next = put groups c.table_name (group_of groups c.table_name ++ c ∷ []) in
      ground (
        arith,
        group_of-group_changes skipped next cs t,
        eq_iff c.table_name t,
        get-put groups c.table_name t (group_of groups c.table_name ++ c ∷ []),
        append_assoc (group_of groups t) (c ∷ [])
            (select (λ d. d.table_name == t && is_kept skipped d) cs),
      )
]

includes-group_tables-put :
    (groups : Map (List ChangeLog)) (k t : String) (v : List ChangeLog)
    → includes (group_tables (put groups k v)) t ≡ (includes (group_tables groups) t || k == t)
unfolding group_tables put
includes-group_tables-put [] k t v = ground arith
includes-group_tables-put ((j, w) ∷ groups) k t v =
    ground (arith, includes-group_tables-put groups k t v, eq_iff j k, eq_iff j t, eq_iff k t)

group_tables-put-Distinct :
    (groups : Map (List ChangeLog)) (k : String) (v : List ChangeLog)
    → Distinct (group_tables groups)
    → Distinct (group_tables (put groups k v))
unfolding group_tables put
group_tables-put-Distinct [] k v d = (refl, tt)
group_tables-put-Distinct ((j, w) ∷ groups) k v d = ground (
  arith,
  group_tables-put-Distinct groups k v d.1,
  includes-group_tables-put groups k j v,
  eq_iff j k,
  eq_iff k j,
)

abbrev next_groups : List String → Map (List ChangeLog) → ChangeLog → Map (List ChangeLog)
next_groups skipped groups c =
    if includes skipped (key_of c)
    then groups
    else put groups c.table_name (group_of groups c.table_name ++ c ∷ [])

next_groups-Distinct :
    (skipped : List String) (groups : Map (List ChangeLog)) (c : ChangeLog)
    → Distinct (group_tables groups)
    → Distinct (group_tables (next_groups skipped groups c))
next_groups-Distinct skipped groups c d = elim (Bool-cases (includes skipped (key_of c))) [
  | inl out ↦ rw out d
  | inr kept ↦
      rw kept
        (group_tables-put-Distinct groups c.table_name (group_of groups c.table_name ++ c ∷ []) d)
]

pub group_changes-Distinct :
    (skipped : List String) (groups : Map (List ChangeLog)) (cs : List ChangeLog)
    → Distinct (group_tables groups)
    → Distinct (group_tables (group_changes skipped groups cs))
unfolding group_changes
group_changes-Distinct skipped groups [] d = d
group_changes-Distinct skipped groups (c ∷ cs) d =
    group_changes-Distinct skipped (next_groups skipped groups c) cs
      (next_groups-Distinct skipped groups c d)

-- The tables are those of the changes that are not skipped.
pub includes-group_changes :
    (skipped : List String) (groups : Map (List ChangeLog)) (cs : List ChangeLog) (t : String)
    → includes (group_tables (group_changes skipped groups cs)) t
      ≡ (includes (group_tables groups) t || any (λ c. c.table_name == t && is_kept skipped c) cs)
unfolding group_changes
includes-group_changes skipped groups [] t = ground arith
includes-group_changes skipped groups (c ∷ cs) t = ground (
  arith,
  includes-group_changes skipped (next_groups skipped groups c) cs t,
  includes-group_tables-put groups c.table_name t (group_of groups c.table_name ++ c ∷ []),
)

pub count-select {ℓ} :
    {A : Type ℓ} (p q : A → Bool) (xs : List A) → count p (select q xs) ≡ count (λ x. q x && p x) xs
count-select p q [] = refl
count-select p q (x ∷ xs) = ground (arith, count-select p q xs)

sum_by-add :
    (f g : String → ℕ) (ts : List String) → sum_by (λ t. f t + g t) ts ≡ sum_by f ts + sum_by g ts
sum_by-add f g [] = omega arith
sum_by-add f g (t ∷ ts) = omega (arith, sum_by-add f g ts)

sum_by-zero : (ts : List String) → sum_by (λ t. 0) ts ≡ 0
sum_by-zero [] = refl
sum_by-zero (t ∷ ts) = omega (arith, sum_by-zero ts)

-- one of different tables is a given one of them
sum_by-absent :
    (ts : List String) (x : String)
    → includes ts x ≡ false
    → sum_by (λ t. if x == t then 1 else 0) ts ≡ 0
sum_by-absent [] x out = refl
sum_by-absent (t ∷ ts) x out = ground (arith, sum_by-absent ts x, eq_iff x t, eq_iff t x)

sum_by-single :
    (ts : List String) (x : String)
    → Distinct ts
    → includes ts x ≡ true
    → sum_by (λ t. if x == t then 1 else 0) ts ≡ 1
sum_by-single [] x d m = cc
sum_by-single (t ∷ ts) x d m =
    ground (arith, sum_by-single ts x d.1, sum_by-absent ts x, eq_iff x t, eq_iff t x)

-- Counted table by table or all together, the changes are the same.
pub sum_by-tables :
    (q : ChangeLog → Bool) (ts : List String) (cs : List ChangeLog)
    → Distinct ts
    → ((t : String) → any (λ c. c.table_name == t && q c) cs ≡ true → includes ts t ≡ true)
    → sum_by (λ t. count (λ c. c.table_name == t && q c) cs) ts ≡ count q cs
sum_by-tables q ts [] d covered = sum_by-zero ts
sum_by-tables q ts (c ∷ cs) d covered =
    let here = λ (t : String). count (λ e. e.table_name == t && q e) (c ∷ cs) in
    let later = λ (t : String). count (λ e. e.table_name == t && q e) cs in
    let one : String → ℕ = λ t. if c.table_name == t then 1 else 0 in
    let rest = sum_by-tables q ts cs d (λ t h. covered t (ground arith)) in
    elim (Bool-cases (q c)) [
      | inl counted ↦
          let split : here ≡ (λ t. one t + later t) = fun_ext (λ t. ground arith) in
          let member = covered c.table_name (ground (arith, eq_iff c.table_name c.table_name)) in
          ap (λ f. sum_by f ts) split
          ∙ (sum_by-add one later ts ∙ ground (arith, rest, sum_by-single ts c.table_name d member))
      | inr skipped ↦
          let same : here ≡ later = fun_ext (λ t. ground arith) in
          ap (λ f. sum_by f ts) same ∙ ground (arith, rest)
    ]
