-- ===== src/Sync/TableOrder/Counting.antt =====
-- Counts over a list without repetition, under a change of the predicate at one member.
use db_backup.Prelude.{
  Distinct, suc, ◌≤◌, ◌<◌, String, ◌≡◌, refl, ◌≢◌, Bool, true, false, List, [], ◌∷◌, arith, ◌==◌,
  eq_iff, includes, count, length, Bool-cases, inl, inr, ◌∙◌,
}

pub count_congr :
    (p q : String → Bool) (xs : List String)
    → ((x : String) → includes xs x ≡ true → p x ≡ q x)
    → count p xs ≡ count q xs
count_congr p q [] h = refl
count_congr p q (x ∷ xs) h =
    ground (arith, count_congr p q xs (λ y m. h y (ground arith)), h x (ground (arith, eq_iff x x)))

pub ne_of_member :
    (xs : List String) (x y : String) → includes xs x ≡ false → includes xs y ≡ true → x ≢ y
ne_of_member xs x y out m e = ground arith

pub count_raise :
    (p q : String → Bool) (xs : List String) (a : String)
    → Distinct xs
    → includes xs a ≡ true
    → p a ≡ false
    → q a ≡ true
    → ((x : String) → a ≢ x → p x ≡ q x)
    → count q xs ≡ suc (count p xs)
count_raise p q [] a d m pa qa h = cc
count_raise p q (x ∷ xs) a d m pa qa h = elim (Bool-cases (x == a)) [
  | inl same ↦
      let e = (eq_iff x a).0 same in
      let tail =
        count_congr p q xs (λ y m. h y (λ f. absurd (ne_of_member xs x y d.0 m (e ∙ f)))) in
      ground (arith, tail, e)
  | inr other ↦
      ground (arith, count_raise p q xs a d.1, h x (λ f. ground (arith, eq_iff x a)), eq_iff x a)
]

pub count-pos :
    (p : String → Bool) (xs : List String) (a : String)
    → includes xs a ≡ true
    → p a ≡ true
    → 0 < count p xs
count-pos p [] a m pa = cc
count-pos p (x ∷ xs) a m pa = ground (arith, count-pos p xs a, eq_iff x a)

-- a member that the predicate holds of, where the count is not 0
pub count-eq-zero :
    (p : String → Bool) (xs : List String) (a : String)
    → count p xs ≡ 0
    → includes xs a ≡ true
    → p a ≡ false
count-eq-zero p [] a z m = cc
count-eq-zero p (x ∷ xs) a z m = ground (arith, count-eq-zero p xs a, eq_iff x a)

pub count-le-length : (p : String → Bool) (xs : List String) → count p xs ≤ length xs
count-le-length p [] = omega arith
count-le-length p (x ∷ xs) = ground (arith, count-le-length p xs)
