-- ===== src/Sync/Apply/Binding.antt =====
-- What a statement binds: placeholders and arguments line up, in both dialects.
use mathlib.Core.Path.{ap₂}
use db_backup.Prelude.{
  suc, ◌+◌, String, ◌≡◌, refl, ap, ◌∙◌, sym, Bool, false, List, [], ◌∷◌, ◌++◌, map, length, select,
  includes, Distinct, arith, eq_iff, append-nil, append_assoc, length-append, Bool-cases,
  Option-cases, Option, none, some, inl, inr,
}
use db_backup.Sync.Values.{Value, Row, field, keys}
use db_backup.Sync.Sanitation.{Json, sanitize_value, sanitize_entries}
use db_backup.Sync.Apply.Statements.{
  bind, bind_marks, marks, numbered, nth, update_where, insert_into, delete_where, update_row,
  insert_row, delete_row,
}
use db_backup.Sync.Apply.{values, fields}

abbrev pub pair : List String → List Value → Row
pair [] vs = []
pair (c ∷ cs) [] = []
pair (c ∷ cs) (v ∷ vs) = (c, v) ∷ pair cs vs

bind_marks-marks :
    (all : List Value) (cs : List String) (vs more : List Value)
    → length cs ≡ length vs
    → bind_marks all (vs ++ more) (marks cs) ≡ (pair cs vs, more)
unfolding bind_marks marks
bind_marks-marks all [] [] more h = refl
bind_marks-marks all [] (v ∷ vs) more h = absurd (omega arith)
bind_marks-marks all (c ∷ cs) [] more h = absurd (omega arith)
bind_marks-marks all (c ∷ cs) (v ∷ vs) more h = ground (arith, h, bind_marks-marks all cs vs more)

nth-append :
    (pre : List Value) (v : Value) (vs : List Value) → nth (pre ++ v ∷ vs) (length pre + 1) ≡ v
unfolding nth
nth-append [] v vs = refl
nth-append (u ∷ []) v vs = refl
nth-append (u ∷ w ∷ pre) v vs =
    let two : suc (suc (length pre)) + 1 ≡ suc (suc (length pre + 1)) = omega arith in
    let one : suc (length pre) + 1 ≡ suc (length pre + 1) = omega arith in
    let tail : nth (w ∷ (pre ++ v ∷ vs)) (suc (length pre) + 1) ≡ v = nth-append (w ∷ pre) v vs in
    rw two (rw one at tail)

bind_marks-numbered :
    (pre : List Value) (cs : List String) (vs more left : List Value)
    → length cs ≡ length vs
    → bind_marks (pre ++ (vs ++ more)) left (numbered (length pre) cs) ≡ (pair cs vs, left)
unfolding bind_marks numbered
bind_marks-numbered pre [] [] more left h = refl
bind_marks-numbered pre [] (v ∷ vs) more left h = absurd (omega arith)
bind_marks-numbered pre (c ∷ cs) [] more left h = absurd (omega arith)
bind_marks-numbered pre (c ∷ cs) (v ∷ vs) more left h =
    let rest = bind_marks-numbered (pre ++ v ∷ []) cs vs more left (omega (arith, h)) in
    let shift : (pre ++ v ∷ []) ++ (vs ++ more) ≡ pre ++ v ∷ (vs ++ more) =
      append_assoc pre (v ∷ []) (vs ++ more) in
    let one_more : length (pre ++ v ∷ []) ≡ length pre + 1 =
      omega (arith, length-append pre (v ∷ [])) in
    let tail = rw (shift, one_more) at rest in ground (arith, tail, nth-append pre v (vs ++ more))

pub pair-keys : (row : Row) → pair (keys row) (values row) ≡ row
unfolding keys values
pair-keys [] = refl
pair-keys ((k, v) ∷ row) = ap (λ r. (k, v) ∷ r) (pair-keys row)

pub length-values : (row : Row) → length (keys row) ≡ length (values row)
unfolding keys values
length-values [] = refl
length-values ((k, v) ∷ row) = ap suc (length-values row)

abbrev pub picked : Row → List String → Row
picked row = map (λ c. (c, field row c))

pub pair-fields : (row : Row) (cs : List String) → pair cs (fields row cs) ≡ picked row cs
pair-fields row [] = refl
pair-fields row (c ∷ cs) = ap (λ r. (c, field row c) ∷ r) (pair-fields row cs)

pub length-fields : (row : Row) (cs : List String) → length cs ≡ length (fields row cs)
length-fields row [] = refl
length-fields row (c ∷ cs) = ap suc (length-fields row cs)

picked-cons :
    (k : String) (v : Value) (row : Row) (cs : List String)
    → includes cs k ≡ false
    → picked ((k, v) ∷ row) cs ≡ picked row cs
unfolding field
picked-cons k v row [] h = refl
picked-cons k v row (c ∷ cs) h = ground (arith, eq_iff k c, eq_iff c k, h, picked-cons k v row cs)

includes-select :
    (p : String → Bool) (cs : List String) (k : String)
    → includes cs k ≡ false
    → includes (select p cs) k ≡ false
includes-select p [] k h = refl
includes-select p (c ∷ cs) k h = ground (arith, h, includes-select p cs k)

-- the entries that a test on the column picks
pub picked-select :
    (p : String → Bool) (row : Row)
    → Distinct (keys row)
    → picked row (select p (keys row)) ≡ select (λ e. p e.0) row
unfolding keys field
picked-select p [] d = refl
picked-select p ((k, v) ∷ row) d =
    let tail =
      picked-cons k v row (select p (keys row)) (includes-select p (keys row) k d.0)
      ∙ picked-select p row d.1 in
    let same : field ((k, v) ∷ row) k ≡ v = ground (arith, eq_iff k k) in
    elim (Bool-cases (p k)) [
      | inl yes_it ↦ rw yes_it (ground (arith, same, tail))
      | inr no_it ↦ rw no_it tail
    ]

pub keys-sanitize_entries :
    (json : Json) (cols : List String) (row row' : Row)
    → sanitize_entries json cols row ≡ some row'
    → keys row' ≡ keys row
unfolding keys sanitize_entries
keys-sanitize_entries json cols [] row' e = ground (arith, e)
keys-sanitize_entries json cols ((k, v) ∷ row) row' e =
    elim (Option-cases (sanitize_value json cols k v)) [
      | inl thrown ↦ absurd (ground (arith, thrown, e))
      | inr (v', found) ↦ elim (Option-cases (sanitize_entries json cols row)) [
        | inl thrown ↦ absurd (ground (arith, found, thrown, e))
        | inr (rest, rest_found) ↦
            let same : some ((k, v') ∷ rest) ≡ some row' =
              sym (
                ap₂
                  (λ (x : Option Value) (y : Option Row). elim x [
                    | none ↦ none
                    | some u ↦ elim y [ none ↦ none | some r ↦ some ((k, u) ∷ r) ]
                  ])
                  found rest_found)
              ∙ e in
            ground (arith, same, keys-sanitize_entries json cols row rest rest_found)
      ]
    ]

pub sanitize_entries-none : (json : Json) (row : Row) → sanitize_entries json [] row ≡ some row
unfolding sanitize_entries sanitize_value
sanitize_entries-none json [] = refl
sanitize_entries-none json ((k, v) ∷ row) = ground (arith, sanitize_entries-none json row)

pub one_list :
    (table : String) (cs : List String) (vs : List Value)
    → length cs ≡ length vs
    → (bind (record { statement = insert_into table (marks cs); args = vs })
        ≡ insert_row table (pair cs vs))
      × (bind (record { statement = delete_where table (marks cs); args = vs })
          ≡ delete_row table (pair cs vs))
      × (bind (record { statement = insert_into table (numbered 0 cs); args = vs })
          ≡ insert_row table (pair cs vs))
      × (bind (record { statement = delete_where table (numbered 0 cs); args = vs })
          ≡ delete_row table (pair cs vs))
unfolding bind
one_list table cs vs same =
    let positional = rw (append-nil vs) at (bind_marks-marks vs cs vs [] same) in
    let indexed = rw (append-nil vs) at (bind_marks-numbered [] cs vs [] vs same) in
    (
      ap (λ (r : Row × List Value). insert_row table r.0) positional,
      ap (λ (r : Row × List Value). delete_row table r.0) positional,
      ap (λ (r : Row × List Value). insert_row table r.0) indexed,
      ap (λ (r : Row × List Value). delete_row table r.0) indexed,
    )

pub two_lists :
    (table : String) (cs ks : List String) (vs ws : List Value)
    → length cs ≡ length vs
    → length ks ≡ length ws
    → (bind (record { statement = update_where table (marks cs) (marks ks); args = vs ++ ws })
        ≡ update_row table (pair cs vs) (pair ks ws))
      × (bind (record {
        statement = update_where table (numbered 0 cs) (numbered (length cs) ks);
        args = vs ++ ws;
      })
          ≡ update_row table (pair cs vs) (pair ks ws))
unfolding bind
two_lists table cs ks vs ws set key =
    let set_marks = bind_marks-marks (vs ++ ws) cs vs ws set in
    let key_marks = rw (append-nil ws) at (bind_marks-marks (vs ++ ws) ks ws [] key) in
    let set_numbers = bind_marks-numbered [] cs vs ws (vs ++ ws) set in
    let key_numbers =
      rw (append-nil ws, sym set) at (bind_marks-numbered vs ks ws [] (vs ++ ws) key) in
    (rw (set_marks, key_marks) refl, rw (set_numbers, key_numbers) refl)

pub picked_all : (row : Row) → Distinct (keys row) → picked row (keys row) ≡ row
unfolding keys field
picked_all [] d = refl
picked_all ((k, v) ∷ row) d =
    let tail = picked-cons k v row (keys row) d.0 ∙ picked_all row d.1 in
    ground (arith, eq_iff k k, tail)

pub length-keys : (row : Row) → length (keys row) ≡ length row
unfolding keys
length-keys [] = refl
length-keys (e ∷ row) = ap suc (length-keys row)

pub length-select_keys :
    (p : String → Bool) (row : Row)
    → length (select p (keys row)) ≡ length (select (λ e. p e.0) row)
unfolding keys
length-select_keys p [] = refl
length-select_keys p ((k, v) ∷ row) = ground (arith, length-select_keys p row)
