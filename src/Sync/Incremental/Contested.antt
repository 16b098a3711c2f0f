-- ===== src/Sync/Incremental/Contested.antt =====
-- Which records both sides changed, and that the keys of their conflicts are skipped.
use db_backup.Prelude.{
  ℕ, ◌+◌, String, ◌≡◌, refl, ◌⊎◌, inl, inr, Bool, true, false, ◌&&◌, ◌||◌, Option, none, some, List,
  [], ◌∷◌, arith, ◌==◌, eq_iff, if◌then◌else◌, any, includes, add, includes-add,
}
use db_backup.Sync.Values.{ChangeLog}
use db_backup.Sync.Keys.{create_conflict_key}
use db_backup.Sync.Conflicts.{
  Strategy, Conflict, is_some, TimeOf, create_change_key, log_key, conflict_of, Failure, Result,
  stored, resolve_conflict, ok, error,
}
use db_backup.Sync.Conflicts.Laws.{last_with_key, expected, detect_conflicts-last}
use db_backup.Sync.Incremental.{Config, Environment, no_time}
use db_backup.Sync.Incremental.Runs.{Resolving, is_manual, resolve_all, is_empty, conflicts_between}
use db_backup.Sync.Incremental.Groups.{key_of}

abbrev pub has_key : String → List ChangeLog → Bool
has_key key = any (λ c. key_of c == key)

-- both sides changed the record
abbrev pub is_contested : List ChangeLog → List ChangeLog → ChangeLog → Bool
is_contested sources targets c = has_key (key_of c) sources && has_key (key_of c) targets

abbrev pub conflict_key : Conflict → String
conflict_key c = create_conflict_key c.table_name c.primary_key_values

abbrev pub has_conflict : String → List Conflict → Bool
has_conflict key = any (λ c. conflict_key c == key)

-- the two copies of the key
pub same_key : (c : ChangeLog) → log_key c ≡ key_of c
unfolding create_change_key create_conflict_key
same_key c = refl

pub is_some-last_with_key :
    (key : String) (o : Option ChangeLog) (logs : List ChangeLog)
    → is_some (last_with_key key o logs) ≡ (is_some o || has_key key logs)
is_some-last_with_key key none [] = refl
is_some-last_with_key key (some t) [] = refl
is_some-last_with_key key o (log ∷ logs) = ground (
  arith,
  is_some-last_with_key key (if log_key log == key then some log else o) logs,
  same_key log,
)

pub has_conflict-expected :
    (now : ℕ) (time_of : TimeOf) (sources targets : List ChangeLog) (key : String)
    → has_conflict key (expected now time_of targets sources)
      ≡ (has_key key sources && has_key key targets)
unfolding conflict_of
has_conflict-expected now time_of [] targets key = refl
has_conflict-expected now time_of (s ∷ sources) targets key = ground (
  arith,
  has_conflict-expected now time_of sources targets key,
  is_some-last_with_key (log_key s) none targets,
  same_key s,
  eq_iff (key_of s) key,
)

pub has_key-empty :
    (key : String) (cs : List ChangeLog) → is_empty cs ≡ true → has_key key cs ≡ false
unfolding is_empty
has_key-empty key [] h = refl
has_key-empty key (c ∷ cs) h = cc

-- The conflicts are about the contested keys.
pub has_conflict-conflicts_between :
    (env : Environment) (config : Config) (sources targets : List ChangeLog) (key : String)
    → (config.bidirectional ≡ false → targets ≡ [])
    → has_conflict key (conflicts_between env config sources targets)
      ≡ (has_key key sources && has_key key targets)
unfolding conflicts_between
has_conflict-conflicts_between env config sources targets key one_way = ground (
  arith,
  has_conflict-expected env.now no_time sources targets key,
  detect_conflicts-last env.now no_time sources targets,
  has_key-empty key targets,
)

pub is_empty-nil : (cs : List ChangeLog) → is_empty cs ≡ true → cs ≡ []
unfolding is_empty
is_empty-nil [] h = refl
is_empty-nil (c ∷ cs) h = cc

pub Result-cases {ℓ} :
    {A : Type ℓ} (r : Result A) → ((e : Failure) × (r ≡ error e)) ⊎ ((a : A) × (r ≡ ok a))
Result-cases (ok a) = inr (a, refl)
Result-cases (error e) = inl (e, refl)

pub error-ne-ok {ℓ} : {A : Type ℓ} (e : Failure) (a : A) → ¬ (◌≡◌ {A = Result A} (error e) (ok a))
error-ne-ok e a h = cc

-- Whatever the strategy, the key of every conflict is skipped.
pub includes-resolve_all :
    (env : Environment) (strategy : Strategy) (cs : List Conflict) (s r : Resolving) (key : String)
    → resolve_all env strategy cs s ≡ ok r
    → includes r.keys key ≡ (includes s.keys key || has_conflict key cs)
unfolding resolve_all
includes-resolve_all env strategy [] s r key h = ground arith
includes-resolve_all env strategy (c ∷ cs) s r key h =
    elim (Result-cases (resolve_conflict env.new_id s.rows env.now c strategy)) [
      | inl (e, refused) ↦ absurd (error-ne-ok e r (rw (refused, resolve_all) at h))
      | inr ((rows, kept), stored) ↦
          let next : Resolving = record {
            rows = rows;
            keys = add s.keys (conflict_key c);
            resolved = if is_manual kept.resolution then s.resolved else s.resolved + 1;
          } in
          ground (
            arith,
            includes-resolve_all env strategy cs next r key (rw (stored, resolve_all) at h),
            includes-add s.keys (conflict_key c) key,
          )
    ]
