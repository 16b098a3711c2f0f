-- ===== src/Sync/Incremental/Batches.antt =====
-- The batches are the list again, in their order, whatever the positive batch size.
use db_backup.Prelude.{
  ℕ, zero, suc, ◌<◌, ◌≡◌, refl, some, List, [], ◌∷◌, ◌++◌, arith, length, take, drop, concat,
  take-append-drop, length-drop, ap, ◌∙◌,
}
use db_backup.Sync.Incremental.{batches}

pub batches_total {ℓ} :
    {A : Type ℓ} (fuel size : ℕ) (xs : List A)
    → 0 < size
    → length xs < fuel
    → (bs : List (List A)) × (batches fuel size xs ≡ some bs) × (concat bs ≡ xs)
unfolding batches
batches_total zero size xs pos enough = absurd (omega arith)
batches_total (suc fuel) size [] pos enough = ([], refl, refl)
batches_total (suc fuel) size (x ∷ xs) pos enough =
    let (bs, ran, whole) =
      batches_total fuel size (drop size (x ∷ xs)) pos (omega (arith, length-drop size (x ∷ xs))) in
    (
      take size (x ∷ xs) ∷ bs,
      ground (arith, ran),
      ap (λ l. take size (x ∷ xs) ++ l) whole ∙ take-append-drop size (x ∷ xs),
    )
