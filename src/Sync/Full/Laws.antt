-- ===== src/Sync/Full/Laws.antt =====
-- What a full run copies.
use db_backup.Prelude.{
  ℕ, zero, suc, ◌+◌, ◌≤◌, ◌<◌, min, String, ◌≡◌, refl, sym, ap, ◌∙◌, subst, ◌≢◌, inl, inr, Bool,
  not, some, List, [], ◌∷◌, ◌++◌, map, append-nil, append_assoc, arith, eqb, Bool-cases, length,
  take, drop, select, count, concat, length-append, length-drop, select-append,
}
use db_backup.Sync.Values.{Row}
use db_backup.Sync.Incremental.Batches.{batches_total}
use db_backup.Sync.Full.{
  Inserted, Source, Copied, FullRun, ◌and_next◌, insert_of, is_insertable, copy_valid, copy_batch,
  copy_batches, copy_page, copy_pages, fetch_table_records_paginated, finished, failed, stuck,
}

-- the rows on so many pages from an offset on, of which every query may have its own order
abbrev pub shown : (ℕ → List Row) → ℕ → ℕ → ℕ → List Row
shown rows limit zero offset = []
shown rows limit (suc k) offset =
    take limit (drop offset (rows offset)) ++ shown rows limit k (offset + limit)

-- A run that finishes has committed `xs` and counted them; one that fails has committed a beginning
-- of them; every run ends.
abbrev pub Copies : Copied → List Inserted → FullRun → Type 0
Copies p xs (finished q) =
    (q.rows ≡ p.rows ++ xs) × (q.total_rows_synced ≡ p.total_rows_synced + length xs)
Copies p xs (failed q) = (ys zs : List Inserted) × (q.rows ≡ p.rows ++ ys) × (ys ++ zs ≡ xs)
Copies p xs stuck = ⊥

pub Copies-and_next :
    (p : Copied) (xs ys : List Inserted) (o : FullRun) (k : Copied → FullRun)
    → Copies p xs o
    → ((q : Copied) → Copies q ys (k q))
    → Copies p (xs ++ ys) (o and_next k)
Copies-and_next p xs ys (finished q) k (rows, total) step = go (k q) (step q)
  where
    go : (r : FullRun) → Copies q ys r → Copies p (xs ++ ys) r
    go (finished r) h = (
      h.0 ∙ (ap (λ l. l ++ ys) rows ∙ append_assoc p.rows xs ys),
      omega (arith, h.1, total, length-append xs ys),
    )
    go stuck h = h
    go (failed r) (begun, bs, h, whole) = (
      xs ++ begun,
      bs,
      h ∙ (ap (λ l. l ++ begun) rows ∙ append_assoc p.rows xs begun),
      append_assoc xs begun bs ∙ ap (λ l. xs ++ l) whole,
    )
Copies-and_next p xs ys (failed q) k (begun, bs, rows, whole) step =
    (begun, bs ++ ys, rows, sym (append_assoc begun bs ys) ∙ ap (λ l. l ++ ys) whole)
Copies-and_next p xs ys stuck k h step = h

select-concat :
    (p : Inserted → Bool) (x : List Inserted) (xs : List (List Inserted))
    → select p (concat (x ∷ xs)) ≡ select p x ++ select p (concat xs)
select-concat p x xs = select-append p x (concat xs)

length-take : {A : Type 0} (n : ℕ) (xs : List A) → length (take n xs) ≡ min n (length xs)
length-take zero xs = omega arith
length-take (suc n) [] = omega arith
length-take (suc n) (x ∷ xs) = omega (arith, length-take n xs)

drop-nil : {A : Type 0} (n : ℕ) → drop {A = A} n [] ≡ []
drop-nil zero = refl
drop-nil (suc n) = refl

drop-drop : {A : Type 0} (m n k : ℕ) (xs : List A) → m + n ≡ k → drop n (drop m xs) ≡ drop k xs
drop-drop zero n k xs e = ap (λ i. drop i xs) (omega (arith, e))
drop-drop (suc m) n zero xs e = absurd (omega (arith, e))
drop-drop (suc m) n (suc k) [] e = drop-nil n
drop-drop (suc m) n (suc k) (x ∷ xs) e = drop-drop m n k xs (omega (arith, e))

drop_all : {A : Type 0} (n : ℕ) (xs : List A) → length xs ≤ n → drop n xs ≡ []
drop_all zero [] h = refl
drop_all zero (x ∷ xs) h = absurd (omega arith)
drop_all (suc n) [] h = refl
drop_all (suc n) (x ∷ xs) h = drop_all n xs (omega arith)

map-append : {A B : Type 0} (f : A → B) (xs ys : List A) → map f (xs ++ ys) ≡ map f xs ++ map f ys
map-append f [] ys = refl
map-append f (x ∷ xs) ys = ap (λ l. f x ∷ l) (map-append f xs ys)

take_empty : {A : Type 0} (n : ℕ) (xs : List A) → 0 < n → take n xs ≡ [] → xs ≡ []
take_empty zero xs pos e = absurd (omega arith)
take_empty (suc n) [] pos e = refl
take_empty (suc n) (x ∷ xs) pos e = cc

pub Copies-nothing : (p : Copied) → Copies p [] (finished p)
Copies-nothing p = (sym (append-nil p.rows), omega arith)

module _ (db : Source) where
  copy_valid-Copies : (cs : List Inserted) (p : Copied) → Copies p cs (copy_valid db cs p)
  unfolding copy_valid
  copy_valid-Copies [] p = (sym (append-nil p.rows), omega arith)
  copy_valid-Copies (c ∷ cs) p = elim (Bool-cases (db.commits p.rows (c ∷ cs))) [
    | inl on ↦ rw (on, Copies, copy_valid) (refl, refl)
    | inr off ↦ rw (off, Copies, copy_valid) ([], c ∷ cs, sym (append-nil p.rows), refl)
  ]

  copy_batch-Copies :
      (batch : List Inserted) (p : Copied)
      → Copies p (select is_insertable batch) (copy_batch db batch p)
  unfolding copy_batch
  copy_batch-Copies batch p = copy_valid-Copies (select is_insertable batch) (record p {
    validation_errors = p.validation_errors + count (λ c. not (is_insertable c)) batch;
  })

  copy_batches-Copies :
      (bs : List (List Inserted)) (p : Copied)
      → Copies p (select is_insertable (concat bs)) (copy_batches db bs p)
  unfolding copy_batches
  copy_batches-Copies [] p = (sym (append-nil p.rows), omega arith)
  copy_batches-Copies (b ∷ bs) p = rw (select-concat is_insertable b bs) (
      Copies-and_next p (select is_insertable b) (select is_insertable (concat bs))
        (copy_batch db b p) (copy_batches db bs) (copy_batch-Copies b p) (copy_batches-Copies bs))

  copy_page-Copies :
      (size : ℕ) (changes : List Inserted) (p : Copied)
      → 0 < size
      → Copies p (select is_insertable changes) (copy_page db size changes p)
  unfolding copy_page
  copy_page-Copies size changes p pos =
      let (bs, ran, whole) = batches_total (suc (length changes)) size changes pos (omega arith) in
      rw (ran, copy_page)
        (subst (λ cs. Copies p (select is_insertable cs) (copy_batches db bs p)) whole
          (copy_batches-Copies bs p))

  module _ (size limit : ℕ) (size_pos : 0 < size) (limit_pos : 0 < limit) (table : String)
      (columns : List String) (rows : ℕ → List Row) (n_rows : ℕ)
      (scanned : (offset : ℕ) → db.scan table offset ≡ some (rows offset))
      (sized : (offset : ℕ) → length (rows offset) ≡ n_rows) where
    -- what is copied of rows
    abbrev pub inserts : List Row → List Inserted
    inserts rs = select is_insertable (map (insert_of table columns) rs)

    inserts-append : (xs ys : List Row) → inserts (xs ++ ys) ≡ inserts xs ++ inserts ys
    inserts-append xs ys =
        ap (select is_insertable) (map-append (insert_of table columns) xs ys)
        ∙ select-append is_insertable (map (insert_of table columns) xs)
            (map (insert_of table columns) ys)

    fetched :
        (offset : ℕ)
        → fetch_table_records_paginated db table limit offset
          ≡ some (take limit (drop offset (rows offset)))
    unfolding fetch_table_records_paginated
    fetched offset = rw (scanned offset, fetch_table_records_paginated) refl

    page-nil : (offset : ℕ) → n_rows ≤ offset → take limit (drop offset (rows offset)) ≡ []
    page-nil offset past =
        rw (drop_all offset (rows offset) (omega (arith, sized offset, past))) (drop-nil_take limit)
      where
        drop-nil_take : (n : ℕ) → take {A = Row} n [] ≡ []
        drop-nil_take zero = refl
        drop-nil_take (suc n) = refl

    shown-past : (k offset : ℕ) → n_rows ≤ offset → shown rows limit k offset ≡ []
    shown-past zero offset past = refl
    shown-past (suc k) offset past =
        rw (page-nil offset past) (shown-past k (offset + limit) (omega (arith, past)))

    pub copy_pages-Copies :
        (fuel offset : ℕ) (p : Copied)
        → n_rows < fuel + offset
        → offset ≤ n_rows
        → Copies p
            (inserts (shown rows limit fuel offset))
            (copy_pages db fuel size limit table columns offset p)
    unfolding copy_pages
    copy_pages-Copies zero offset p enough inside = absurd (omega arith)
    copy_pages-Copies (suc fuel) offset p enough inside =
        go (take limit (drop offset (rows offset))) refl
          (λ n q more within. copy_pages-Copies fuel n q more within)
      where
        go :
            (page : List Row)
            → take limit (drop offset (rows offset)) ≡ page
            → ((n : ℕ) (q : Copied)
                → n_rows < fuel + n
                → n ≤ n_rows
                → Copies q
                    (inserts (shown rows limit fuel n))
                    (copy_pages db fuel size limit table columns n q))
            → Copies p
                (inserts (shown rows limit (suc fuel) offset))
                (copy_pages db (suc fuel) size limit table columns offset p)
        go [] e rec =
            let none_left = take_empty limit (drop offset (rows offset)) limit_pos e in
            let left = length-drop offset (rows offset) in
            let gone : length (drop offset (rows offset)) ≡ 0 = ap length none_left in
            let past : n_rows ≤ offset + limit = omega (arith, left, gone, sized offset, inside) in
            rw (fetched offset, e, shown-past fuel (offset + limit) past, copy_pages)
              (Copies-nothing p)
        go (row ∷ rest) e rec =
            let page = row ∷ rest in
            let n = offset + length page in
            let sizes : length page ≡ min limit (length (drop offset (rows offset))) =
              ap length (sym e) ∙ length-take limit (drop offset (rows offset)) in
            let left = length-drop offset (rows offset) in
            elim (Bool-cases (eqb (length page) limit)) [
              | inl full ↦
                  let same : length page ≡ limit = ground (arith, full) in
                  let sum : offset + limit ≡ n = omega (arith, same) in
                  rw
                    (
                      fetched offset,
                      e,
                      copy_pages,
                      full,
                      sum,
                      inserts-append page (shown rows limit fuel n),
                    )
                    (Copies-and_next p (inserts page) (inserts (shown rows limit fuel n))
                      (copy_page db size (map (insert_of table columns) page) p)
                      (copy_pages db fuel size limit table columns n)
                      (copy_page-Copies size (map (insert_of table columns) page) p size_pos)
                      (λ q.
                        rec n q (omega (arith, same, limit_pos, enough))
                          (omega (arith, same, sizes, left, sized offset))))
              | inr short ↦
                  let differ : length page ≢ limit = ground (arith, short) in
                  let past : n_rows ≤ offset + limit =
                    omega (arith, differ, sizes, left, sized offset) in
                  rw
                    (
                      fetched offset,
                      e,
                      copy_pages,
                      short,
                      shown-past fuel (offset + limit) past,
                      inserts-append page [],
                    )
                    (Copies-and_next p (inserts page) []
                      (copy_page db size (map (insert_of table columns) page) p) finished
                      (copy_page-Copies size (map (insert_of table columns) page) p size_pos)
                      Copies-nothing)
            ]
