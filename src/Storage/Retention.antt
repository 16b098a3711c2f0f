-- ===== src/Storage/Retention.antt =====
-- server/src/services/retention.service.ts: which backups are deleted. The backup table is a list of
-- rows; its order by time is a parameter. The files behind the rows, the mails and the logs are not
-- modelled. Days and counts of schedules are natural numbers.
pub mod Laws
pub mod Policies
use db_backup.Prelude.{
  ℕ, zero, suc, ◌+◌, ◌-◌, ◌*◌, String, ◌==◌, Bool, true, false, not, ◌&&◌, ◌||◌, Option, none, some,
  List, [], ◌∷◌, ◌++◌, map, if◌then◌else◌, ltb, leb, select, drop, includes, add, length, sum_by,
  min, Map, get, or_else, ParsedInt, nan, negative, natural,
}

pub data BackupStatus : Type 0 where
  pending running completed failed : BackupStatus

pub record Backup : Type 0 where
  pub id : String
  pub connection_id : Option String
  pub user_id : String
  pub status : BackupStatus
  pub created_at : ℕ
  pub file_size : ℕ

pub record Policy : Type 0 where
  pub retention_days : ℕ
  pub retention_count : Option ℕ

pub record Schedule : Type 0 where
  pub connection_id : String
  pub retention_days : ℕ
  pub retention_count : Option ℕ

pub record Retained : Type 0 where
  pub backups : List Backup
  pub deleted : ℕ
  pub freed_bytes : ℕ

abbrev pub is_completed : Backup → Bool
is_completed b = elim b.status [ completed ↦ true | _ ↦ false ]

abbrev pub same_connection : Option String → Option String → Bool
same_connection none none = true
same_connection (some a) (some b) = a == b
same_connection _ _ = false

-- `where: { connectionId, status: 'COMPLETED' }`
abbrev pub is_mine : Option String → Backup → Bool
is_mine connection b = same_connection b.connection_id connection && is_completed b

abbrev pub day_ms : ℕ
day_ms = 86400000

-- `createdAt: { lt: cutoff }`, without the subtraction of the days from the clock
abbrev pub is_old : ℕ → ℕ → Backup → Bool
is_old now days b = ltb (b.created_at + days * day_ms) now

abbrev pub backup_ids : List Backup → List String
backup_ids = map (λ b. b.id)

abbrev pub add_all : List String → List String → List String
add_all ids [] = ids
add_all ids (x ∷ xs) = add_all (add ids x) xs

unfoldable pub by_age : ℕ → Option String → ℕ → List Backup → List String
by_age now connection days backups =
    if ltb 0 days
    then backup_ids (select (λ b. is_mine connection b && is_old now days b) backups)
    else []

module _ (newest_first : List Backup → List Backup) where
  unfoldable pub by_count : Option String → Option ℕ → List Backup → List String
  by_count connection none backups = []
  by_count connection (some zero) backups = []
  by_count connection (some (suc n)) backups =
      backup_ids (drop (suc n) (newest_first (select (is_mine connection) backups)))

  -- the set of ids that both rules collect
  unfoldable pub to_delete : ℕ → Option String → Policy → List Backup → List String
  unfolding by_age by_count
  to_delete now connection policy backups =
      add_all (add_all [] (by_age now connection policy.retention_days backups))
        (by_count connection policy.retention_count backups)

  unfoldable pub enforce_retention_for_connection :
      ℕ → Option String → Policy → List Backup → Retained
  unfolding to_delete
  enforce_retention_for_connection now connection policy backups =
      let ids = to_delete now connection policy backups in
      record {
        backups = select (λ b. not (includes ids b.id)) backups;
        deleted = length ids;
        freed_bytes = sum_by (λ b. b.file_size) (select (λ b. includes ids b.id) backups);
      }

-- DEFAULT_RETENTION_DAYS and DEFAULT_RETENTION_COUNT as they are parsed
pub record Defaults : Type 0 where
  pub days : ParsedInt
  pub count : ParsedInt

unfoldable pub env_default_retention : Defaults → Policy
env_default_retention env = record {
  retention_days = elim env.days [ natural n ↦ n | _ ↦ 0 ];
  retention_count = elim env.count [ natural (suc n) ↦ some (suc n) | _ ↦ none ];
}

-- `filter((d) => d > 0)`
abbrev pub positive : List ℕ → List ℕ
positive = select (λ n. ltb 0 n)

-- `Math.min(...xs)` of a list with a first element
abbrev pub minimum : ℕ → List ℕ → ℕ
minimum x [] = x
minimum x (y ∷ ys) = minimum (min x y) ys

-- the counts that are there
abbrev pub counts_of : List Schedule → List ℕ
counts_of [] = []
counts_of (s ∷ schedules) = elim s.retention_count [
  | none ↦ counts_of schedules
  | some n ↦ n ∷ counts_of schedules
]

unfoldable pub capped : ℕ → Option ℕ → ℕ
capped zero max_days = zero
capped (suc d) none = suc d
capped (suc d) (some m) = min (suc d) m

unfoldable pub strictest : List Schedule → Option ℕ → Policy
unfolding capped
strictest schedules max_days = record {
  retention_days = elim (positive (map (λ s. s.retention_days) schedules)) [
    | [] ↦ 0
    | d ∷ days ↦ capped (minimum d days) max_days
  ];
  retention_count = elim (positive (counts_of schedules)) [
    | [] ↦ none
    | n ∷ counts ↦ some (minimum n counts)
  ];
}

-- the schedules of the connection, `none` for detached backups
unfoldable pub get_retention_policy : Defaults → List Schedule → Option String → Option ℕ → Policy
unfolding env_default_retention strictest
get_retention_policy env schedules none max_days = env_default_retention env
get_retention_policy env schedules (some id) max_days =
    if id == ""
    then env_default_retention env
    else elim (select (λ s. s.connection_id == id) schedules) [
      | [] ↦ env_default_retention env
      | s ∷ own ↦ strictest (s ∷ own) max_days
    ]

abbrev pub has_seen : List (Option String) → Option String → Bool
has_seen [] c = false
has_seen (s ∷ seen) c = same_connection s c || has_seen seen c

abbrev pub of_user : Option String → Backup → Bool
of_user none b = true
of_user (some user) b = user == "" || b.user_id == user

-- `distinct: ['connectionId']`: the first completed backup of each connection, with its owner
unfoldable pub first_of_each : Option String → List (Option String) → List Backup → List Backup
first_of_each user seen [] = []
first_of_each user seen (b ∷ backups) =
    if is_completed b && of_user user b && not (has_seen seen b.connection_id)
    then b ∷ first_of_each user (b.connection_id ∷ seen) backups
    else first_of_each user seen backups

abbrev pub has_rule : Policy → Bool
has_rule policy =
    ltb 0 policy.retention_days
    || elim policy.retention_count [ none ↦ false | some zero ↦ false | some (suc n) ↦ true ]

-- The connections are listed once, before anything is deleted. A failure of one connection is
-- logged and the sweep goes on; it is not modelled.
unfoldable pub sweep :
    (List Backup → List Backup)
    → Defaults
    → List Schedule
    → Map ℕ
    → ℕ
    → List Backup
    → List Backup
    → List Backup
unfolding enforce_retention_for_connection get_retention_policy
sweep newest_first env schedules caps now [] backups = backups
sweep newest_first env schedules caps now (b ∷ groups) backups =
    let policy = get_retention_policy env schedules b.connection_id (get caps b.user_id) in
    sweep newest_first env schedules caps now groups (
      if has_rule policy
      then (enforce_retention_for_connection newest_first now b.connection_id policy
          backups).backups
      else backups)

unfoldable pub run_global_retention_sweep :
    (List Backup → List Backup)
    → Defaults
    → List Schedule
    → Map ℕ
    → ℕ
    → Option String
    → List Backup
    → List Backup
unfolding first_of_each sweep
run_global_retention_sweep newest_first env schedules caps now user backups =
    sweep newest_first env schedules caps now (first_of_each user [] backups) backups
