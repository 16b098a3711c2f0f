-- ===== src/Sync/Cdc/Checkpoints.antt =====
-- The checkpoint of the change capture: captureChangesFromTriggers in both trackers writes it as a
-- time, a colon and an id, and reads it by splitting at the colons. Texts are lists of code points.
use db_backup.Prelude.{
  ℕ, ◌+◌, ◌-◌, ◌*◌, ◌≡◌, refl, ap, ◌∙◌, Bool, false, ◌&&◌, ◌||◌, Option, none, some, List, [], ◌∷◌,
  ◌++◌, if◌then◌else◌, leb, eqb, arith, append_assoc,
}

-- `${timestamp}:${id}`
unfoldable pub checkpoint_text : List ℕ → List ℕ → List ℕ
checkpoint_text time id = time ++ b':' ∷ id

-- `text.split(':')`: the part before the first colon, and those after it
unfoldable pub split_at : ℕ → List ℕ → List ℕ × List (List ℕ)
split_at sep [] = ([], [])
split_at sep (c ∷ cs) =
    let (part, parts) = split_at sep cs in
    if eqb c sep then ([], part ∷ parts) else (c ∷ part, parts)

unfoldable pub is_digit : ℕ → Bool
is_digit c = leb b'0' c && leb c b'9'

-- `parseInt(text, 10)` of a text without spaces or a sign: its leading digits, or NaN
unfoldable pub parse_digits : ℕ → List ℕ → ℕ
unfolding is_digit
parse_digits acc [] = acc
parse_digits acc (c ∷ cs) =
    let rest = parse_digits (acc * 10 + (c - b'0')) cs in if is_digit c then rest else acc

unfoldable pub parse_int : List ℕ → Option ℕ
unfolding is_digit parse_digits
parse_int [] = none
parse_int (c ∷ cs) = if is_digit c then some (parse_digits 0 (c ∷ cs)) else none

-- `timestampStr || new Date(0).toISOString()`
abbrev pub epoch : List ℕ
epoch =
    b'1' ∷ b'9' ∷ b'7' ∷ b'0' ∷ b'-' ∷ b'0' ∷ b'1' ∷ b'-' ∷ b'0' ∷ b'1' ∷ b'T' ∷ b'0' ∷ b'0' ∷ b':'
    ∷ b'0' ∷ b'0' ∷ b':' ∷ b'0' ∷ b'0' ∷ b'.' ∷ b'0' ∷ b'0' ∷ b'0' ∷ b'Z' ∷ []

unfoldable pub since_time : List ℕ → List ℕ
since_time [] = epoch
since_time (c ∷ cs) = c ∷ cs

-- `lastIdStr ? parseInt(lastIdStr, 10) : 0`
unfoldable pub since_id : List (List ℕ) → Option ℕ
unfolding parse_int
since_id [] = some 0
since_id ([] ∷ parts) = some 0
since_id ((c ∷ cs) ∷ parts) = parse_int (c ∷ cs)

unfoldable pub parse_checkpoint : List ℕ → List ℕ × Option ℕ
unfolding split_at since_time since_id
parse_checkpoint since =
    let (part, parts) = split_at b':' since in (since_time part, since_id parts)

abbrev pub has_colon : List ℕ → Bool
has_colon [] = false
has_colon (c ∷ cs) = eqb c b':' || has_colon cs

split_at-colon :
    (part rest : List ℕ)
    → has_colon part ≡ false
    → split_at b':' (part ++ b':' ∷ rest) ≡ (part, (split_at b':' rest).0 ∷ (split_at b':' rest).1)
unfolding split_at
split_at-colon [] rest h = refl
split_at-colon (c ∷ part) rest h = ground (arith, h, split_at-colon part rest)

since_id-first :
    (part : List ℕ) (parts : List (List ℕ)) → since_id (part ∷ parts) ≡ since_id (part ∷ [])
unfolding since_id
since_id-first [] parts = refl
since_id-first (c ∷ cs) parts = refl

-- The checkpoint of a time with its hour, minutes and seconds between colons is read back as the
-- text up to the hour, with the minutes for the id: whatever the rest of the time and the id are.
pub parse_checkpoint-hour :
    (hour minutes rest id : List ℕ)
    → has_colon hour ≡ false
    → has_colon minutes ≡ false
    → parse_checkpoint (checkpoint_text (hour ++ b':' ∷ (minutes ++ b':' ∷ rest)) id)
      ≡ (since_time hour, since_id (minutes ∷ []))
unfolding parse_checkpoint checkpoint_text
parse_checkpoint-hour hour minutes rest id h m =
    let tail = rest ++ b':' ∷ id in
    let inner : (minutes ++ b':' ∷ rest) ++ b':' ∷ id ≡ minutes ++ b':' ∷ tail =
      append_assoc minutes (b':' ∷ rest) (b':' ∷ id) in
    let outer : (hour ++ b':' ∷ (minutes ++ b':' ∷ rest)) ++ b':' ∷ id
        ≡ hour ++ b':' ∷ (minutes ++ b':' ∷ tail) =
      append_assoc hour (b':' ∷ (minutes ++ b':' ∷ rest)) (b':' ∷ id)
      ∙ ap (λ l. hour ++ b':' ∷ l) inner in
    rw (outer, split_at-colon hour (minutes ++ b':' ∷ tail) h, split_at-colon minutes tail m)
      (ap (λ i. (since_time hour, i)) (since_id-first minutes _))
