-- ===== src/Sync/TableOrder/Completing.antt =====
-- The tables that the loop leaves out are appended.
use db_backup.Prelude.{
  Distinct, suc, String, ◌≡◌, refl, Bool, true, List, [], ◌∷◌, ◌++◌, arith, eqb, eq_iff, includes,
  includes-append, count, length, ◌||◌, Bool-cases, inl, inr, ap,
}
use db_backup.Sync.TableOrder.{append_missing, complete}
use db_backup.Sync.TableOrder.Sorting.{Distinct-snoc}
use db_backup.Sync.TableOrder.Counting.{count_raise, count-le-length}
use db_backup.Sync.TableOrder.Degrees.{count-false}

pub count-true : (xs : List String) → count (λ x. true) xs ≡ length xs
count-true [] = refl
count-true (x ∷ xs) = ap suc (count-true xs)

pub length-subset :
    (xs ys : List String)
    → Distinct xs
    → Distinct ys
    → ((x : String) → includes xs x ≡ true → includes ys x ≡ true)
    → count (includes xs) ys ≡ length xs
length-subset [] ys d e h = count-false ys
length-subset (x ∷ xs) ys d e h = ground (
  arith,
  count_raise (includes xs) (includes (x ∷ xs)) ys x e (h x (ground (arith, eq_iff x x))) d.0
      (ground (arith, eq_iff x x)) (λ z ne. ground (arith, eq_iff x z)),
  length-subset xs ys d.1 e (λ z m. h z (ground arith)),
)

pub count-full :
    (p : String → Bool) (ys : List String) (y : String)
    → count p ys ≡ length ys
    → includes ys y ≡ true
    → p y ≡ true
count-full p [] y full m = cc
count-full p (x ∷ ys) y full m = ground (arith, count-full p ys y, count-le-length p ys, eq_iff x y)

append_missing-keeps :
    (xs tables : List String)
    → Distinct xs
    → Distinct (append_missing xs tables)
      × ((x : String)
          → includes (append_missing xs tables) x ≡ (includes xs x || includes tables x))
unfolding append_missing
append_missing-keeps xs [] d = (d, λ x. ground arith)
append_missing-keeps xs (t ∷ tables) d = elim (Bool-cases (includes xs t)) [
  | inl old ↦
      let rest = append_missing-keeps xs tables d in
      rw old (rest.0, λ x. ground (arith, rest.1 x, eq_iff t x))
  | inr new ↦
      let rest = append_missing-keeps (xs ++ t ∷ []) tables (Distinct-snoc xs t d new) in
      rw new (rest.0, λ x. ground (arith, rest.1 x, includes-append xs (t ∷ []) x))
]

-- the same tables, each once
abbrev pub SameTables : List String → List String → Type 0
SameTables tables out = Distinct out × ((x : String) → includes out x ≡ includes tables x)

pub complete-SameTables :
    (tables r : List String)
    → Distinct tables
    → Distinct r
    → ((x : String) → includes r x ≡ true → includes tables x ≡ true)
    → SameTables tables (complete tables r)
unfolding complete
complete-SameTables tables r dt dr sub = elim (Bool-cases (eqb (length r) (length tables))) [
  | inl full ↦ rw full (
    dr,
    λ x. ground (arith, sub x, length-subset r tables dr dt sub, count-full (includes r) tables x),
  )
  | inr short ↦
      let kept = append_missing-keeps r tables dr in
      rw short (kept.0, λ x. ground (arith, kept.1 x, sub x))
]
