-- ===== src/Sync/Conflicts/Laws.antt =====
-- Which changes conflict, which version is kept, and the life of a conflict left to the user.
use db_backup.Prelude.{
  ℕ, String, ◌≡◌, ◌≢◌, refl, true, Option, none, some, List, [], ◌∷◌, ◌++◌, arith, if◌then◌else◌,
  ◌==◌, eq_iff, Map, get, put, get-put, ◌⊎◌, inl, inr, Bool-cases, false,
}
use db_backup.Sync.Values.{Row, ChangeLog}
use db_backup.Sync.Conflicts.{
  Strategy, last_write_wins, source_wins, target_wins, manual_resolution, unknown, source, target,
  manual, Conflict, log_key, target_change_map, conflict_of, match_sources, detect_conflicts,
  Resolved, ok, error, already_resolved, not_stored, unknown_strategy, TimeOf, is_not_later,
  is_storable, stored, resolve_conflict, find_conflict, settle, resolve_conflict_manually,
}

-- the last change of a key, or `found` where there is none
abbrev pub last_with_key : String → Option ChangeLog → List ChangeLog → Option ChangeLog
last_with_key key found [] = found
last_with_key key found (log ∷ logs) =
    last_with_key key (if log_key log == key then some log else found) logs

get-target_change_map :
    (m : Map ChangeLog) (logs : List ChangeLog) (key : String)
    → get (target_change_map m logs) key ≡ last_with_key key (get m key) logs
unfolding target_change_map
get-target_change_map m [] key = refl
get-target_change_map m (log ∷ logs) key = ground (
  arith,
  get-target_change_map (put m (log_key log) log) logs key,
  get-put m (log_key log) key log,
)

-- what the source changes conflict with
abbrev pub expected : ℕ → TimeOf → List ChangeLog → List ChangeLog → List Conflict
expected now time_of targets [] = []
expected now time_of targets (s ∷ sources) = elim (last_with_key (log_key s) none targets) [
  | none ↦ expected now time_of targets sources
  | some t ↦ conflict_of now time_of s t ∷ expected now time_of targets sources
]

-- The conflicts are, in the order of the source changes, each source change whose key a target
-- change has, paired with the last such target change.
pub detect_conflicts-last :
    (now : ℕ) (time_of : TimeOf) (sources targets : List ChangeLog)
    → detect_conflicts now time_of sources targets ≡ expected now time_of targets sources
unfolding detect_conflicts match_sources get
detect_conflicts-last now time_of [] targets = refl
detect_conflicts-last now time_of (s ∷ sources) targets = ground (
  arith,
  detect_conflicts-last now time_of sources targets,
  get-target_change_map [] targets (log_key s),
)

-- what an automatic or a deferred resolution leaves behind
pub record Outcome (rows rows' : List Conflict) (c : Conflict) (strategy : Strategy) (r : Resolved)
    : Type 0 where
  pub row : Conflict
  pub appended : rows' ≡ rows ++ row ∷ []
  pub same_id : row.id ≡ r.conflict_id
  pub same_data : row.resolved_data ≡ r.resolved_data
  pub settled : (row.resolved ≡ true) ⊎ ((r.resolution ≡ manual) × (row.resolution ≡ none))
  pub kept :
      ((r.resolution ≡ source)
        × (r.resolved_data ≡ c.source_data)
        × ((strategy ≡ source_wins)
            ⊎ (strategy ≡ last_write_wins)
              × (is_not_later c.target_timestamp c.source_timestamp ≡ true)))
      ⊎ ((r.resolution ≡ target)
          × (r.resolved_data ≡ c.target_data)
          × ((strategy ≡ target_wins)
              ⊎ (strategy ≡ last_write_wins)
                × (is_not_later c.target_timestamp c.source_timestamp ≡ false)))
      ⊎ ((r.resolution ≡ manual) × (r.resolved_data ≡ none) × (strategy ≡ manual_resolution))

-- what a resolution comes to, once the row can be stored
abbrev Resolves : (List Conflict → String) → List Conflict → ℕ → Conflict → Strategy → Type 0
Resolves new_id rows now c strategy =
    (rows' : List Conflict) × (r : Resolved) × (resolve_conflict new_id rows now c strategy
      ≡ ok (rows', r))
    × Outcome rows rows' c strategy r

storable-Resolves :
    (new_id : List Conflict → String) (rows : List Conflict) (now : ℕ) (c : Conflict)
    (strategy : Strategy)
    → is_storable c ≡ true
    → ((name : String) × (strategy ≡ unknown name)) ⊎ Resolves new_id rows now c strategy
unfolding resolve_conflict
storable-Resolves new_id rows now c (unknown name) fits = inl (name, refl)
storable-Resolves new_id rows now c source_wins fits = inr (
  rows ++ stored new_id rows now c source_wins source c.source_data ∷ [],
  record { conflict_id = new_id rows; resolution = source; resolved_data = c.source_data },
  ground (arith, fits),
  record {
    row = _;
    appended = refl;
    same_id = refl;
    same_data = refl;
    settled = inl refl;
    kept = ground arith;
  },
)
storable-Resolves new_id rows now c target_wins fits = inr (
  rows ++ stored new_id rows now c target_wins target c.target_data ∷ [],
  record { conflict_id = new_id rows; resolution = target; resolved_data = c.target_data },
  ground (arith, fits),
  record {
    row = _;
    appended = refl;
    same_id = refl;
    same_data = refl;
    settled = inl refl;
    kept = ground arith;
  },
)
storable-Resolves new_id rows now c manual_resolution fits = inr (
  rows ++ stored new_id rows now c manual_resolution manual none ∷ [],
  record { conflict_id = new_id rows; resolution = manual; resolved_data = none },
  ground (arith, fits),
  record {
    row = _;
    appended = refl;
    same_id = refl;
    same_data = refl;
    settled = inr (refl, refl);
    kept = ground arith;
  },
)
storable-Resolves new_id rows now c last_write_wins fits =
    elim (Bool-cases (is_not_later c.target_timestamp c.source_timestamp)) [
      | inl later ↦ inr (
        rows ++ stored new_id rows now c last_write_wins source c.source_data ∷ [],
        record { conflict_id = new_id rows; resolution = source; resolved_data = c.source_data },
        ground (arith, fits),
        record {
          row = _;
          appended = refl;
          same_id = refl;
          same_data = refl;
          settled = inl refl;
          kept = ground arith;
        },
      )
      | inr earlier ↦ inr (
        rows ++ stored new_id rows now c last_write_wins target c.target_data ∷ [],
        record { conflict_id = new_id rows; resolution = target; resolved_data = c.target_data },
        ground (arith, fits),
        record {
          row = _;
          appended = refl;
          same_id = refl;
          same_data = refl;
          settled = inl refl;
          kept = ground arith;
        },
      )
    ]

pub resolve_conflict-Outcome :
    (new_id : List Conflict → String) (rows : List Conflict) (now : ℕ) (c : Conflict)
    (strategy : Strategy)
    → ((name : String) × (strategy ≡ unknown name)
        × (resolve_conflict new_id rows now c strategy ≡ error (unknown_strategy name)))
      ⊎ ((is_storable c ≡ false) × (resolve_conflict new_id rows now c strategy ≡ error not_stored))
      ⊎ ((is_storable c ≡ true) × Resolves new_id rows now c strategy)
unfolding resolve_conflict
resolve_conflict-Outcome new_id rows now c strategy = elim (Bool-cases (is_storable c)) [
  | inl fits ↦ elim (storable-Resolves new_id rows now c strategy fits) [
    | inl (name, e) ↦ inl (name, e, rw e refl)
    | inr resolved ↦ inr (inr (fits, resolved))
  ]
  | inr lacks ↦ lacking strategy lacks
]
  where
    lacking :
        (s : Strategy)
        → is_storable c ≡ false
        → ((name : String) × (s ≡ unknown name)
            × (resolve_conflict new_id rows now c s ≡ error (unknown_strategy name)))
          ⊎ ((is_storable c ≡ false) × (resolve_conflict new_id rows now c s ≡ error not_stored))
          ⊎ ((is_storable c ≡ true) × Resolves new_id rows now c s)
    lacking (unknown name) lacks = inl (name, refl, refl)
    lacking source_wins lacks = inr (inl (lacks, ground (arith, lacks)))
    lacking target_wins lacks = inr (inl (lacks, ground (arith, lacks)))
    lacking manual_resolution lacks = inr (inl (lacks, ground (arith, lacks)))
    lacking last_write_wins lacks =
        elim (Bool-cases (is_not_later c.target_timestamp c.source_timestamp)) [
          | inl later ↦ inr (inl (lacks, ground (arith, lacks, later)))
          | inr earlier ↦ inr (inl (lacks, ground (arith, lacks, earlier)))
        ]

find_conflict-append :
    (rows : List Conflict) (row : Conflict) (id : String)
    → find_conflict rows id ≡ none
    → find_conflict (rows ++ row ∷ []) id ≡ (if row.id == id then some row else none)
unfolding find_conflict
find_conflict-append [] row id h = refl
find_conflict-append (c ∷ rows) row id h = ground (arith, find_conflict-append rows row id)

find_conflict-settle :
    (rows : List Conflict) (id : String) (given : Row) (user : String) (now : ℕ) (c : Conflict)
    → find_conflict rows id ≡ some c
    → find_conflict (settle rows id given user now) id
      ≡ some (record c {
        resolution = some manual;
        resolved_data = some given;
        resolved = true;
        resolved_at = some now;
        resolved_by = some user;
      })
unfolding find_conflict settle
find_conflict-settle [] id given user now c h = cc
find_conflict-settle (d ∷ rows) id given user now c h =
    ground (arith, find_conflict-settle rows id given user now c, eq_iff d.id id)

find_conflict-settle_ne :
    (rows : List Conflict) (id j : String) (given : Row) (user : String) (now : ℕ)
    → id ≢ j
    → find_conflict (settle rows id given user now) j ≡ find_conflict rows j
unfolding find_conflict settle
find_conflict-settle_ne [] id j given user now h = refl
find_conflict-settle_ne (d ∷ rows) id j given user now h =
    ground
      (arith, find_conflict-settle_ne rows id j given user now h, eq_iff d.id id, eq_iff d.id j)

-- A conflict with both versions and both times that is left to the user, stored under a new id, is open once: the first resolution by the
-- user stores the user's data and name and touches no other conflict, and every later attempt fails
-- as already resolved.
pub resolve_conflict_manually-once :
    (new_id : List Conflict → String) (rows : List Conflict) (now later last : ℕ) (c : Conflict)
    (given again : Row) (user other : String)
    → is_storable c ≡ true
    → find_conflict rows (new_id rows) ≡ none
    → (rows' rows'' : List Conflict) × (r : Resolved) × (resolve_conflict new_id rows now c
          manual_resolution
        ≡ ok (rows', r))
      × (resolve_conflict_manually rows' r.conflict_id given user later ≡ ok rows'')
      × (resolve_conflict_manually rows'' r.conflict_id again other last
          ≡ error (already_resolved r.conflict_id))
      × ((row : Conflict) × (find_conflict rows'' r.conflict_id ≡ some row)
          × (row.resolved_data ≡ some given)
          × (row.resolved_by ≡ some user))
      × ((j : String) → (r.conflict_id ≡ j) ⊎ (find_conflict rows'' j ≡ find_conflict rows' j))
unfolding resolve_conflict resolve_conflict_manually
resolve_conflict_manually-once new_id rows now later last c given again user other fits fresh =
    let row = stored new_id rows now c manual_resolution manual none in
    let rows' = rows ++ row ∷ [] in
    let found = find_conflict-append rows row (new_id rows) fresh in
    let settled = find_conflict-settle rows' (new_id rows) given user later row in
    (
      rows',
      settle rows' (new_id rows) given user later,
      record { conflict_id = new_id rows; resolution = manual; resolved_data = none },
      ground (arith, fits),
      ground (arith, found, eq_iff (new_id rows) (new_id rows)),
      ground (arith, found, settled, eq_iff (new_id rows) (new_id rows)),
      (_, settled (ground (arith, found, eq_iff (new_id rows) (new_id rows))), refl, refl),
      λ j. others j (Bool-cases (new_id rows == j)),
    )
  where
    rows' : List Conflict
    rows' = rows ++ stored new_id rows now c manual_resolution manual none ∷ []

    others :
        (j : String)
        → ((new_id rows == j) ≡ true) ⊎ ((new_id rows == j) ≡ false)
        → (new_id rows ≡ j)
          ⊎ (find_conflict (settle rows' (new_id rows) given user later) j ≡ find_conflict rows' j)
    others j (inl same) = inl (ground (arith, eq_iff (new_id rows) j))
    others j (inr differ) = inr (
        find_conflict-settle_ne rows' (new_id rows) j given user later
          (λ e. absurd (ground (arith, eq_iff (new_id rows) j))))
