-- ===== src/Sync/TableOrder/Sorting.antt =====
-- The sort by a key keeps the members of a list, and a list without repetition stays one.
use db_backup.Prelude.{
  Distinct, ℕ, String, ◌≡◌, refl, Bool, false, ◌||◌, List, [], ◌∷◌, ◌++◌, arith, ◌==◌, eq_iff,
  includes, includes-append, select, ◌∙◌, ◌&&◌,
}
use db_backup.Sync.TableOrder.{insert_by, sort_by}

pub includes-insert_by :
    (key : String → ℕ) (x : String) (xs : List String) (a : String)
    → includes (insert_by key x xs) a ≡ (x == a || includes xs a)
unfolding insert_by
includes-insert_by key x [] a = refl
includes-insert_by key x (y ∷ ys) a = ground (arith, includes-insert_by key x ys a)

pub includes-sort_by :
    (key : String → ℕ) (xs : List String) (a : String) → includes (sort_by key xs) a ≡ includes xs a
unfolding sort_by
includes-sort_by key [] a = refl
includes-sort_by key (x ∷ xs) a =
    ground (arith, includes-insert_by key x (sort_by key xs) a, includes-sort_by key xs a)

insert_by-Distinct :
    (key : String → ℕ) (x : String) (xs : List String)
    → includes xs x ≡ false
    → Distinct xs
    → Distinct (insert_by key x xs)
unfolding insert_by
insert_by-Distinct key x [] out d = (refl, tt)
insert_by-Distinct key x (y ∷ ys) out d =
    ground
      (arith, insert_by-Distinct key x ys, includes-insert_by key x ys y, eq_iff x y, eq_iff y x)

pub sort_by-Distinct :
    (key : String → ℕ) (xs : List String) → Distinct xs → Distinct (sort_by key xs)
unfolding sort_by
sort_by-Distinct key [] d = tt
sort_by-Distinct key (x ∷ xs) d =
    insert_by-Distinct key x (sort_by key xs) (includes-sort_by key xs x ∙ d.0)
      (sort_by-Distinct key xs d.1)

pub includes-select :
    (p : String → Bool) (xs : List String) (a : String)
    → includes (select p xs) a ≡ (includes xs a && p a)
includes-select p [] a = refl
includes-select p (x ∷ xs) a = ground (arith, includes-select p xs a, eq_iff x a)

pub select-Distinct : (p : String → Bool) (xs : List String) → Distinct xs → Distinct (select p xs)
select-Distinct p [] d = tt
select-Distinct p (x ∷ xs) d = ground (arith, select-Distinct p xs d.1, includes-select p xs x)

pub Distinct-snoc :
    (xs : List String) (a : String) → Distinct xs → includes xs a ≡ false → Distinct (xs ++ a ∷ [])
Distinct-snoc [] a d out = (refl, tt)
Distinct-snoc (x ∷ xs) a d out =
    ground (arith, Distinct-snoc xs a d.1, includes-append xs (a ∷ []) x, eq_iff x a, eq_iff a x)
