-- ===== src/Storage/Retention/Laws.antt =====
-- Which backups a policy deletes, and which policy a connection has.
use db_backup.Prelude.{
  ℕ, zero, suc, ◌≤◌, String, ◌≡◌, refl, ap, inl, inr, Bool, true, false, not, ◌&&◌, ◌||◌, Option,
  none, leb, ◌*◌, ◌+◌, if◌then◌else◌, some, List, [], ◌∷◌, arith, ◌==◌, eq_iff, ltb, Bool-cases,
  take, drop, select, count, All, take-append-drop, count-append, includes, add, includes-add,
  Distinct,
}
use db_backup.Storage.Retention.{
  Backup, Policy, is_mine, is_completed, same_connection, is_old, backup_ids, add_all, by_age,
  by_count, to_delete, enforce_retention_for_connection,
}

includes-add_all :
    (xs ys : List String) (a : String)
    → includes (add_all xs ys) a ≡ (includes xs a || includes ys a)
includes-add_all xs [] a = ground arith
includes-add_all xs (y ∷ ys) a =
    ground (arith, includes-add_all (add xs y) ys a, includes-add xs y a)

select_congr :
    (f g : Backup → Bool) (bs : List Backup) → All (λ b. f b ≡ g b) bs → select f bs ≡ select g bs
select_congr f g [] h = refl
select_congr f g (b ∷ bs) h = ground (arith, h.0, select_congr f g bs h.1)

All-map :
    (P Q : Backup → Type 0) (bs : List Backup) → ((b : Backup) → P b → Q b) → All P bs → All Q bs
All-map P Q [] f h = tt
All-map P Q (b ∷ bs) f h = (f b h.0, All-map P Q bs f h.1)

All-and :
    (P Q R : Backup → Type 0) (bs : List Backup)
    → ((b : Backup) → P b → Q b → R b)
    → All P bs
    → All Q bs
    → All R bs
All-and P Q R [] f h k = tt
All-and P Q R (b ∷ bs) f h k = (f b h.0 k.0, All-and P Q R bs f h.1 k.1)

-- an id that is not in a list belongs to none of its backups
not_among :
    (a : String) (bs : List Backup)
    → includes (backup_ids bs) a ≡ false
    → All (λ b. (a == b.id) ≡ false) bs
not_among a [] h = tt
not_among a (b ∷ bs) h =
    (ground (arith, eq_iff a b.id, eq_iff b.id a), not_among a bs (ground (arith, h)))

includes-backup_ids :
    (p : Backup → Bool) (bs : List Backup) (a : String)
    → includes (backup_ids bs) a ≡ false
    → includes (backup_ids (select p bs)) a ≡ false
includes-backup_ids p [] a h = refl
includes-backup_ids p (b ∷ bs) a h = ground (arith, h, includes-backup_ids p bs a)

-- With different ids, a backup is among those that satisfy a test exactly if it satisfies it.
among_selected :
    (p : Backup → Bool) (bs : List Backup)
    → Distinct (backup_ids bs)
    → All (λ b. includes (backup_ids (select p bs)) b.id ≡ p b) bs
among_selected p [] d = tt
among_selected p (b ∷ bs) d = (
  ground (arith, includes-backup_ids p bs b.id d.0, eq_iff b.id b.id),
  All-and (λ c. (b.id == c.id) ≡ false) (λ c. includes (backup_ids (select p bs)) c.id ≡ p c)
      (λ c. includes (backup_ids (select p (b ∷ bs))) c.id ≡ p c) bs
      (λ c differ rest. ground (arith, differ, rest)) (not_among b.id bs d.0)
      (among_selected p bs d.1),
)

All-units : (bs : List Backup) → All (λ (b : Backup). Unit {0}) bs
All-units [] = tt
All-units (b ∷ bs) = (tt, All-units bs)

count_select_swap :
    (p q : Backup → Bool) (bs : List Backup) → count p (select q bs) ≡ count q (select p bs)
count_select_swap p q [] = refl
count_select_swap p q (b ∷ bs) = ground (arith, count_select_swap p q bs)

count_mono :
    (p q : Backup → Bool) (bs : List Backup)
    → ((b : Backup) → p b ≡ true → q b ≡ true)
    → count p bs ≤ count q bs
count_mono p q [] h = omega arith
count_mono p q (b ∷ bs) h = ground (arith, h b, count_mono p q bs h)

count-take-le : (p : Backup → Bool) (n : ℕ) (bs : List Backup) → count p (take n bs) ≤ n
count-take-le p zero bs = omega arith
count-take-le p (suc n) [] = omega arith
count-take-le p (suc n) (b ∷ bs) = ground (arith, count-take-le p n bs)

count_outside :
    (ids : List String) (bs : List Backup)
    → ((a : String) → includes (backup_ids bs) a ≡ true → includes ids a ≡ true)
    → count (λ b. not (includes ids b.id)) bs ≡ 0
count_outside ids [] h = refl
count_outside ids (b ∷ bs) h =
    ground (arith, h b.id, eq_iff b.id b.id, count_outside ids bs (λ a m. h a (ground (arith, m))))

-- how many backups stand before the one with the id
abbrev pub before : String → List Backup → ℕ
before a [] = 0
before a (b ∷ bs) = if b.id == a then 0 else suc (before a bs)

abbrev has_id : String → Backup → Bool
has_id a b = b.id == a

includes-count :
    (a : String) (bs : List Backup) → includes (backup_ids bs) a ≡ ltb 0 (count (has_id a) bs)
includes-count a [] = refl
includes-count a (b ∷ bs) = ground (arith, includes-count a bs, eq_iff a b.id, eq_iff b.id a)

-- What is left without the first `n` are those that `n` others stand before.
includes-drop :
    (a : String) (n : ℕ) (bs : List Backup)
    → count (has_id a) bs ≤ 1
    → includes (backup_ids (drop n bs)) a ≡ (includes (backup_ids bs) a && leb n (before a bs))
includes-drop a zero bs once = ground arith
includes-drop a (suc n) [] once = refl
includes-drop a (suc n) (b ∷ bs) once =
    ground (arith, includes-drop a n bs, once, includes-count a bs, eq_iff a b.id, eq_iff b.id a)

count-select_le : (p q : Backup → Bool) (bs : List Backup) → count p (select q bs) ≤ count p bs
count-select_le p q [] = omega arith
count-select_le p q (b ∷ bs) = ground (arith, count-select_le p q bs)

count-once : (a : String) (bs : List Backup) → Distinct (backup_ids bs) → count (has_id a) bs ≤ 1
count-once a [] d = omega arith
count-once a (b ∷ bs) d =
    ground (arith, count-once a bs d.1, includes-count a bs, d.0, eq_iff a b.id, eq_iff b.id a)

-- A completed backup of the connection is deleted if it was created so many days before, or if at
-- least so many newer ones are there.
abbrev pub is_due :
    (List Backup → List Backup) → ℕ → Option String → Policy → List Backup → Backup → Bool
is_due newest_first now connection policy backups b =
    is_completed b
    && same_connection b.connection_id connection
    && (ltb 0 policy.retention_days && ltb (b.created_at + policy.retention_days * 86400000) now
        || elim policy.retention_count [
          | none ↦ false
          | some n ↦
              ltb 0 n
              && leb n (
                  before b.id (
                    newest_first (
                      select (λ c. same_connection c.connection_id connection && is_completed c)
                        backups)))
        ])

module _ (newest_first : List Backup → List Backup) (now : ℕ) (connection : Option String)
    (policy : Policy) (backups : List Backup) where
  pub includes-to_delete :
      (a : String)
      → includes (to_delete newest_first now connection policy backups) a ≡ (
          includes (by_age now connection policy.retention_days backups) a
          || includes (by_count newest_first connection policy.retention_count backups) a)
  unfolding to_delete
  includes-to_delete a = ground (
    arith,
    includes-add_all (add_all [] (by_age now connection policy.retention_days backups))
        (by_count newest_first connection policy.retention_count backups) a,
    includes-add_all [] (by_age now connection policy.retention_days backups) a,
  )

  by_age_among :
      Distinct (backup_ids backups)
      → All
          (λ b. includes (by_age now connection policy.retention_days backups) b.id ≡ (
            ltb 0 policy.retention_days
            && (is_mine connection b && is_old now policy.retention_days b)))
          backups
  unfolding by_age
  by_age_among distinct = elim (Bool-cases (ltb 0 policy.retention_days)) [
    | inl on ↦ rw on (among_selected _ backups distinct)
    | inr off ↦ rw off (All-map (λ b. Unit {0}) _ backups (λ b u. refl) (All-units backups))
  ]

module _ (newest_first : List Backup → List Backup)
    (reorders : (p : Backup → Bool) (bs : List Backup)
      → count p (newest_first bs) ≡ count p bs) where
  module _ (now : ℕ) (connection : Option String) (policy : Policy) (backups : List Backup) where
    by_count_among :
        Distinct (backup_ids backups)
        → (b : Backup)
        → includes (backup_ids (select (is_mine connection) backups)) b.id ≡ is_mine connection b
        → includes (by_count newest_first connection policy.retention_count backups) b.id ≡ (
            is_mine connection b && elim policy.retention_count [
              | none ↦ false
              | some n ↦
                  ltb 0 n
                  && leb n (before b.id (newest_first (select (is_mine connection) backups)))
            ])
    unfolding by_count
    by_count_among distinct b among = go policy.retention_count
      where
        mine : List Backup
        mine = select (is_mine connection) backups

        go :
            (kept : Option ℕ)
            → includes (by_count newest_first connection kept backups) b.id ≡ (
                is_mine connection b && elim kept [
                  | none ↦ false
                  | some n ↦ ltb 0 n && leb n (before b.id (newest_first mine))
                ])
        go none = ground arith
        go (some zero) = ground arith
        go (some (suc n)) =
            let same = reorders (has_id b.id) mine in
            let once = count-select_le (has_id b.id) (is_mine connection) backups in
            let one = count-once b.id backups distinct in
            let there = includes-count b.id mine in
            let there' = includes-count b.id (newest_first mine) in
            let left =
              includes-drop b.id (suc n) (newest_first mine) (omega (arith, same, once, one)) in
            ground (arith, left, there, there', same, among)

    -- If the query only reorders the backups, and with different ids: what is left are, in their
    -- order, the backups that are not completed, belong to another connection, or are neither too old
    -- nor beyond the number to keep of the newest.
    pub enforce_retention_for_connection-kept :
        Distinct (backup_ids backups)
        → (enforce_retention_for_connection newest_first now connection policy backups).backups
          ≡ select (λ b. not (is_due newest_first now connection policy backups b)) backups
    unfolding enforce_retention_for_connection
    enforce_retention_for_connection-kept distinct = select_congr _ _ backups (
        All-and _ _ _ backups
          (λ b aged among.
            let counted = by_count_among distinct b among in
            ground (
              arith,
              includes-to_delete newest_first now connection policy backups b.id,
              aged,
              counted,
            ))
          (by_age_among newest_first now connection policy backups distinct)
          (among_selected (is_mine connection) backups distinct))

  -- If the query only reorders the backups and a number of them is to be kept, no more completed
  -- backups of the connection than that are left.
  pub enforce_retention_for_connection-le :
      (now : ℕ) (connection : Option String) (days n : ℕ) (backups : List Backup)
      → count
          (is_mine connection)
          (enforce_retention_for_connection newest_first now connection
            (record { retention_days = days; retention_count = some (suc n) })
            backups).backups
        ≤ suc n
  unfolding enforce_retention_for_connection by_count
  enforce_retention_for_connection-le now connection days n backups =
      let policy : Policy = record { retention_days = days; retention_count = some (suc n) } in
      let ids = to_delete newest_first now connection policy backups in
      let ys = newest_first (select (is_mine connection) backups) in
      let beyond = backup_ids (drop (suc n) ys) in
      let outside : Backup → Bool = λ b. not (includes beyond b.id) in
      let swapped = count_select_swap (is_mine connection) (λ b. not (includes ids b.id)) backups in
      let fewer =
        count_mono (λ b. not (includes ids b.id)) outside (select (is_mine connection) backups)
          (λ b h.
            ground
              (arith, h, includes-to_delete newest_first now connection policy backups b.id)) in
      let moved = reorders outside (select (is_mine connection) backups) in
      let parts = count-append outside (take (suc n) ys) (drop (suc n) ys) in
      let whole = ap (count outside) (take-append-drop (suc n) ys) in
      let first = count-take-le outside (suc n) ys in
      let last = count_outside beyond (drop (suc n) ys) (λ a m. m) in
      omega (arith, swapped, fewer, moved, parts, whole, first, last)
