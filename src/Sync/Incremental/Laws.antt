-- ===== src/Sync/Incremental/Laws.antt =====
-- What an incremental synchronisation delivers, and what becomes of conflicting changes.
use db_backup.Prelude.{
  ◌<◌, String, ◌≡◌, refl, sym, ◌∙◌, ap, Bool, true, ◌&&◌, List, [], ◌∷◌, ◌++◌, arith, ◌==◌, select,
  count, count-append, any, sum_by, get, inl, inr, fun_ext,
}
use db_backup.Sync.Values.{ChangeLog, Origin}
use db_backup.Sync.TableOrder.Laws.{get_tables_in_dependency_order_total}
use db_backup.Sync.TableOrder.Completing.{SameTables}
use db_backup.Sync.Incremental.{
  Environment, Config, Progress, Run, finished, failed, stuck, is_valid,
}
use db_backup.Sync.Incremental.Runs.{group_changes, group_tables, sync_side, sync_tables}
use db_backup.Sync.Incremental.Groups.{
  is_kept, group_of, group_of-group_changes, group_changes-Distinct, includes-group_changes,
  count-select, sum_by-tables,
}
use db_backup.Sync.Incremental.Applied.{table_changes, sync_tables-Outcome}
use db_backup.Sync.Incremental.Synced.{
  Synced, Synced-refl, Partly, Lags, Lags-refl, Synced-Partly, Outcome,
}

-- a change that is valid and whose key is not skipped
abbrev pub is_due : List String → ChangeLog → Bool
is_due skipped c = is_kept skipped c && is_valid c

-- Two lists hold the same changes, as often.
abbrev pub SameChanges : List ChangeLog → List ChangeLog → Type 0
SameChanges xs ys = (p : ChangeLog → Bool) → count p xs ≡ count p ys

any-weaken {ℓ} :
    {A : Type ℓ} (p q : A → Bool) (xs : List A)
    → ((x : A) → p x ≡ true → q x ≡ true)
    → any p xs ≡ true
    → any q xs ≡ true
any-weaken p q [] h e = cc
any-weaken p q (x ∷ xs) h e = ground (arith, h x, any-weaken p q xs h)

count-table_changes :
    (env : Environment) (p : ChangeLog → Bool) (skipped : List String) (cs : List ChangeLog)
    (ts : List String)
    → count p (table_changes env (group_changes skipped [] cs) ts)
      ≡ sum_by (λ t. count (λ c. c.table_name == t && (is_due skipped c && p c)) cs) ts
unfolding get
count-table_changes env p skipped cs [] = refl
count-table_changes env p skipped cs (t ∷ ts) =
    let q = λ (c : ChangeLog). c.table_name == t && is_kept skipped c in
    let group = group_of-group_changes skipped [] cs t in
    let here : count p (select is_valid (select q cs))
        ≡ count (λ c. c.table_name == t && (is_due skipped c && p c)) cs =
      count-select p is_valid (select q cs)
      ∙ (count-select (λ c. is_valid c && p c) q cs
          ∙ ap (λ f. count f cs) (fun_ext (λ c. ground arith))) in
    count-append p (select is_valid (group_of (group_changes skipped [] cs) t))
      (table_changes env (group_changes skipped [] cs) ts)
    ∙ ground (arith, group, here, count-table_changes env p skipped cs ts)

-- The tables cover the changes, so their groups hold all that is due.
table_changes-SameChanges :
    (env : Environment) (skipped : List String) (cs : List ChangeLog) (ts : List String)
    → SameTables (group_tables (group_changes skipped [] cs)) ts
    → SameChanges (table_changes env (group_changes skipped [] cs) ts) (select (is_due skipped) cs)
unfolding group_tables
table_changes-SameChanges env skipped cs ts (distinct, same) p =
    count-table_changes env p skipped cs ts
    ∙ (sum_by-tables (λ c. is_due skipped c && p c) ts cs distinct
          (λ t h. ground (
            arith,
            same t,
            includes-group_changes skipped [] cs t,
            any-weaken (λ c. c.table_name == t && (is_due skipped c && p c))
                (λ c. c.table_name == t && is_kept skipped c) cs (λ c k. ground arith),
          ))
        ∙ sym (count-select p (is_due skipped) cs))

-- What one direction commits: if it finishes, the due changes; if an exception ends it, some of
-- them. It always ends.
abbrev pub SideOutcome : Origin → List String → List ChangeLog → Progress → Run → Type 0
SideOutcome side skipped cs p (finished q) =
    (applied : List ChangeLog) × SameChanges applied (select (is_due skipped) cs)
    × Synced side p q applied
SideOutcome side skipped cs p (failed q) =
    (applied marked noted rest : List ChangeLog) × SameChanges (applied ++ rest)
      (select (is_due skipped) cs)
    × Lags applied marked noted
    × Partly side p q applied marked noted
SideOutcome side skipped cs p stuck = ⊥

module _ (env : Environment) (config : Config) (positive : 0 < config.batch_size) where
  tables-SideOutcome :
      (side : Origin) (skipped : List String) (cs : List ChangeLog) (p : Progress)
      (ts : List String)
      → SameTables (group_tables (group_changes skipped [] cs)) ts
      → SideOutcome side skipped cs p
          (sync_tables env side config.batch_size (group_changes skipped [] cs) ts p)
  tables-SideOutcome side skipped cs p ts same =
      let groups = group_changes skipped [] cs in
      let all = table_changes-SameChanges env skipped cs ts same in
      go all (sync_tables env side config.batch_size groups ts p)
        (sync_tables-Outcome env side config.batch_size groups ts p positive)
    where
      go :
          SameChanges
            (table_changes env (group_changes skipped [] cs) ts)
            (select (is_due skipped) cs)
          → (m : Run) → Outcome side p (table_changes env (group_changes skipped [] cs) ts) m
          → SideOutcome side skipped cs p m
      go all (finished q) synced = (_, all, synced)
      go all (failed q) (applied, marked, noted, rest, split, lags, partly) =
          (applied, marked, noted, rest, (λ f. ap (count f) (sym split) ∙ all f), lags, partly)
      go all stuck h = h

  pub sync_side-SideOutcome :
      (side : Origin) (skipped : List String) (cs : List ChangeLog) (p : Progress)
      → SideOutcome side skipped cs p (sync_side env config side skipped cs p)
  unfolding sync_side group_tables
  sync_side-SideOutcome side skipped cs p =
      elim (get_tables_in_dependency_order_total (env.foreign_keys side)
        config.strict_table_ordering (group_tables (group_changes skipped [] cs))
        (group_changes-Distinct skipped [] cs tt)) [
          | inl (refused, _, _, _) ↦
              rw (refused, sync_side)
                (
                  [],
                  [],
                  [],
                  select (is_due skipped) cs,
                  (λ f. refl),
                  Lags-refl [],
                  Synced-Partly side p p [] (Synced-refl side p),
                )
          | inr (ts, found, same) ↦
              rw (found, sync_side) (tables-SideOutcome side skipped cs p ts same)
        ]
