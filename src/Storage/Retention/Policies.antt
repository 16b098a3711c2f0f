-- ===== src/Storage/Retention/Policies.antt =====
-- The policy of a connection with schedules, and whose detached backups a sweep deletes.
use db_backup.Prelude.{
  ℕ, zero, suc, ◌≤◌, ◌<◌, min, String, ◌≡◌, refl, ◌⊎◌, inl, inr, Bool, true, false, not, ◌&&◌,
  Option, none, some, List, [], ◌∷◌, ◌++◌, map, arith, eq_iff, ltb, if◌then◌else◌, select, any, All,
  includes, or_else,
}
use db_backup.Storage.Retention.{
  Backup, Policy, Schedule, is_mine, is_old, backup_ids, by_age, to_delete,
  enforce_retention_for_connection, positive, minimum, counts_of, capped, strictest,
}
use db_backup.Storage.Retention.Laws.{includes-to_delete}

-- no bound of the list that counts is below `n`
abbrev pub NoneBelow : ℕ → List ℕ → Type 0
NoneBelow n = All (λ x. (x ≡ 0) ⊎ (n ≤ x))

minimum-le : (x : ℕ) (xs : List ℕ) → minimum x xs ≤ x
minimum-le x [] = omega arith
minimum-le x (y ∷ ys) = omega (arith, minimum-le (min x y) ys)

minimum-NoneBelow : (x : ℕ) (xs : List ℕ) (n : ℕ) → n ≤ minimum x xs → NoneBelow n xs
minimum-NoneBelow x [] n h = tt
minimum-NoneBelow x (y ∷ ys) n h =
    (inr (omega (arith, minimum-le (min x y) ys)), minimum-NoneBelow (min x y) ys n h)

minimum-pos : (x : ℕ) (xs : List ℕ) → 0 < x → 0 < minimum x (positive xs)
minimum-pos x [] h = h
minimum-pos x (y ∷ ys) h = ground (arith, minimum-pos (min x y) ys, minimum-pos x ys, h)

positive-NoneBelow : (n : ℕ) (xs : List ℕ) → NoneBelow n (positive xs) → NoneBelow n xs
positive-NoneBelow n [] h = tt
positive-NoneBelow n (x ∷ xs) h = go (ltb 0 x) refl (positive-NoneBelow n xs) h
  where
    go :
        (b : Bool)
        → ltb 0 x ≡ b
        → (NoneBelow n (positive xs) → NoneBelow n xs)
        → NoneBelow n (if b then x ∷ positive xs else positive xs)
        → NoneBelow n (x ∷ xs)
    go true e rest k = (k.0, rest k.1)
    go false e rest k = (inl (ground arith), rest k)

-- the least positive number of the list, 0 if there is none
abbrev least : List ℕ → ℕ
least xs = elim (positive xs) [ [] ↦ 0 | d ∷ days ↦ minimum d days ]

least-NoneBelow : (xs : List ℕ) → NoneBelow (least xs) xs
least-NoneBelow xs = positive-NoneBelow (least xs) xs (go (positive xs))
  where
    go : (ys : List ℕ) → NoneBelow (elim ys [ [] ↦ 0 | d ∷ days ↦ minimum d days ]) ys
    go [] = tt
    go (d ∷ days) =
        (inr (minimum-le d days), minimum-NoneBelow d days (minimum d days) (omega arith))

least-pos : (xs : List ℕ) → ltb 0 (least xs) ≡ any (λ x. ltb 0 x) xs
least-pos [] = ground arith
least-pos (x ∷ xs) = ground (arith, minimum-pos x xs, least-pos xs)

abbrev pub days_of : List Schedule → List ℕ
days_of = map (λ s. s.retention_days)

abbrev pub Within : Option ℕ → ℕ → Type 0
Within none d = Unit
Within (some m) d = d ≤ m

abbrev pub is_positive_cap : Option ℕ → Bool
is_positive_cap none = true
is_positive_cap (some m) = ltb 0 m

capped-Within : (d : ℕ) (m : Option ℕ) → Within m (capped d m) × (capped d m ≤ d)
unfolding capped
capped-Within zero none = (tt, omega arith)
capped-Within zero (some m) = (omega arith, omega arith)
capped-Within (suc d) none = (tt, omega arith)
capped-Within (suc d) (some m) = (omega arith, omega arith)

capped-pos : (d : ℕ) (m : Option ℕ) → ltb 0 (capped d m) ≡ (ltb 0 d && is_positive_cap m)
unfolding capped
capped-pos zero none = ground arith
capped-pos zero (some m) = ground arith
capped-pos (suc d) none = ground arith
capped-pos (suc d) (some m) = ground arith

NoneBelow-le : (n m : ℕ) (xs : List ℕ) → m ≤ n → NoneBelow n xs → NoneBelow m xs
NoneBelow-le n m [] le h = tt
NoneBelow-le n m (x ∷ xs) le h = (ground (arith, h.0), NoneBelow-le n m xs le h.1)

strictest_days :
    (schedules : List Schedule) (max_days : Option ℕ)
    → (strictest schedules max_days).retention_days ≡ capped (least (days_of schedules)) max_days
unfolding strictest capped
strictest_days schedules max_days = go max_days (positive (days_of schedules))
  where
    go :
        (m : Option ℕ) (ys : List ℕ)
        → elim ys [ [] ↦ 0 | d ∷ days ↦ capped (minimum d days) m ]
          ≡ capped (elim ys [ [] ↦ 0 | d ∷ days ↦ minimum d days ]) m
    go none [] = refl
    go (some m) [] = refl
    go m (d ∷ days) = refl

strictest_count :
    (schedules : List Schedule) (max_days : Option ℕ)
    → or_else (strictest schedules max_days).retention_count 0 ≡ least (counts_of schedules)
unfolding strictest
strictest_count schedules max_days = go (positive (counts_of schedules))
  where
    go :
        (ys : List ℕ)
        → or_else (elim ys [ [] ↦ none | n ∷ counts ↦ some (minimum n counts) ]) 0
          ≡ elim ys [ [] ↦ 0 | d ∷ days ↦ minimum d days ]
    go [] = refl
    go (d ∷ days) = refl

-- The days of the policy of several schedules: no schedule that counts asks for less, they are
-- within the owner's cap, and the rule is off exactly if it is off in every schedule or the cap
-- is 0. The count: no schedule that counts asks for less, and there is none exactly if no schedule
-- has one.
pub strictest-Strictest :
    (schedules : List Schedule) (max_days : Option ℕ)
    → NoneBelow (strictest schedules max_days).retention_days (days_of schedules)
      × Within max_days (strictest schedules max_days).retention_days
      × (ltb 0 (strictest schedules max_days).retention_days
          ≡ (any (λ d. ltb 0 d) (days_of schedules) && is_positive_cap max_days))
      × NoneBelow (or_else (strictest schedules max_days).retention_count 0) (counts_of schedules)
      × (ltb 0 (or_else (strictest schedules max_days).retention_count 0)
          ≡ any (λ n. ltb 0 n) (counts_of schedules))
strictest-Strictest schedules max_days =
    let d = least (days_of schedules) in
    let days = strictest_days schedules max_days in
    let cap = capped-Within d max_days in
    rw (days, strictest_count schedules max_days)
      (
        NoneBelow-le d (capped d max_days) (days_of schedules) cap.1
            (least-NoneBelow (days_of schedules)),
        cap.0,
        ground (arith, capped-pos d max_days, least-pos (days_of schedules)),
        least-NoneBelow (counts_of schedules),
        least-pos (counts_of schedules),
      )

includes-kept :
    (ids : List String) (bs : List Backup) (a : String)
    → includes (backup_ids (select (λ b. not (includes ids b.id)) bs)) a
      ≡ (includes (backup_ids bs) a && not (includes ids a))
includes-kept ids [] a = refl
includes-kept ids (b ∷ bs) a = ground (arith, includes-kept ids bs a, eq_iff b.id a)

includes-selected :
    (p : Backup → Bool) (older newer : List Backup) (b : Backup)
    → p b ≡ true
    → includes (backup_ids (select p (older ++ b ∷ newer))) b.id ≡ true
includes-selected p [] newer b h = ground (arith, h, eq_iff b.id b.id)
includes-selected p (c ∷ older) newer b h = ground (arith, includes-selected p older newer b h)

-- The deletion of backups without a connection is not limited to one user: whoever owns it, a
-- completed backup without a connection that is older than the days of the rule is deleted.
pub enforce_retention_for_connection-any_owner :
    (newest_first : List Backup → List Backup) (now : ℕ) (policy : Policy)
    (older newer : List Backup) (b : Backup)
    → 0 < policy.retention_days
    → is_mine none b ≡ true
    → is_old now policy.retention_days b ≡ true
    → includes
        (backup_ids
          (enforce_retention_for_connection newest_first now none policy
            (older ++ b ∷ newer)).backups)
        b.id
      ≡ false
unfolding enforce_retention_for_connection by_age
enforce_retention_for_connection-any_owner newest_first now policy older newer b on mine old =
    let backups = older ++ b ∷ newer in
    let found =
      includes-selected (λ c. is_mine none c && is_old now policy.retention_days c) older newer b
        (ground arith) in
    ground (
      arith,
      includes-kept (to_delete newest_first now none policy backups) backups b.id,
      includes-to_delete newest_first now none policy backups b.id,
      found,
    )
