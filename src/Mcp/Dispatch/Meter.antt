-- ===== src/Mcp/Dispatch/Meter.antt =====
-- What the daily limit reads of a key, and how the statements of a request change it.
use db_backup.Prelude.{
  ℕ, ◌+◌, ◌-◌, ◌*◌, ◌≤◌, String, ◌≡◌, refl, Option, none, some, List, [], ◌∷◌, if◌then◌else◌, ◌==◌,
  eq_iff, arith, ltb, Option-cases, inl, inr,
}
use db_backup.Mcp.{
  McpKey, World, Handled, find_key, update_key, day_ms, next_reset, is_reset_due, roll_key, roll,
  reserve_key, reserve, returned, thrown,
}
use db_backup.Mcp.Dispatch.{note_use, handled}

abbrev pub map_key : (McpKey → McpKey) → Option McpKey → Option McpKey
map_key f none = none
map_key f (some k) = some (f k)

pub find_key-update_key :
    (f : McpKey → McpKey) (keeps : (k : McpKey) → (f k).id ≡ k.id) (keys : List McpKey)
    (i j : String)
    → find_key (update_key f i keys) j
      ≡ (if i == j then map_key f (find_key keys j) else find_key keys j)
unfolding find_key update_key
find_key-update_key f keeps [] i j = ground arith
find_key-update_key f keeps (k ∷ keys) i j =
    ground (
      arith,
      keeps k,
      eq_iff k.id i,
      eq_iff k.id j,
      eq_iff i j,
      find_key-update_key f keeps keys i j,
    )

-- what the quota reads of a key
abbrev pub Meter : Type 0
Meter = Option (Option ℕ × ℕ)

abbrev pub meter_of : Option McpKey → Meter
meter_of none = none
meter_of (some k) = some (k.calls_reset_at, k.calls_today)

abbrev pub meter : String → World → Meter
meter id w = meter_of (find_key w.keys id)

abbrev pub remaining : ℕ → Meter → ℕ
remaining limit none = 0
remaining limit (some (reset, calls)) = limit - calls

abbrev pub IsClosed : ℕ → Meter → Type 0
IsClosed day none = Unit {0}
IsClosed day (some (none, calls)) = ⊥
IsClosed day (some (some reset, calls)) = (day + 1) * day_ms ≤ reset

abbrev pub rolled : ℕ → Meter → Meter
rolled now none = none
rolled now (some (reset, calls)) =
    if is_reset_due now reset then some (some (next_reset now), 0) else some (reset, calls)

abbrev pub taken : ℕ → Meter → Meter
taken limit none = none
taken limit (some (reset, calls)) =
    if ltb calls limit then some (reset, calls + 1) else some (reset, calls)

pub meter_of-map_key :
    (f : McpKey → McpKey) (g : Meter → Meter)
    → (g none ≡ none)
    → ((k : McpKey) → meter_of (some (f k)) ≡ g (meter_of (some k)))
    → (k : Option McpKey) → meter_of (map_key f k) ≡ g (meter_of k)
meter_of-map_key f g nothing same none = ground (arith, nothing)
meter_of-map_key f g nothing same (some k) = same k

pub roll_key-meter :
    (now : ℕ) (k : McpKey) → meter_of (some (roll_key now k)) ≡ rolled now (meter_of (some k))
unfolding roll_key
roll_key-meter now k = ground arith

pub roll_key-id : (now : ℕ) (k : McpKey) → (roll_key now k).id ≡ k.id
unfolding roll_key
roll_key-id now k = ground arith

pub roll-meter :
    (now : ℕ) (i id : String) (w : World)
    → meter id (roll now i w) ≡ (if i == id then rolled now (meter id w) else meter id w)
unfolding roll
roll-meter now i id w = ground (
  arith,
  find_key-update_key (roll_key now) (roll_key-id now) w.keys i id,
  meter_of-map_key (roll_key now) (rolled now) refl (roll_key-meter now) (find_key w.keys id),
)

pub reserve_key-meter :
    (limit : ℕ) (k : McpKey)
    → meter_of (some (reserve_key limit k)) ≡ taken limit (meter_of (some k))
unfolding reserve_key
reserve_key-meter limit k = ground arith

pub reserve_key-id : (limit : ℕ) (k : McpKey) → (reserve_key limit k).id ≡ k.id
unfolding reserve_key
reserve_key-id limit k = ground arith

pub reserve-meter :
    (limit : ℕ) (i id : String) (w : World)
    → meter id (reserve limit i w).0 ≡ (if i == id then taken limit (meter id w) else meter id w)
unfolding reserve
reserve-meter limit i id w = ground (
  arith,
  find_key-update_key (reserve_key limit) (reserve_key-id limit) w.keys i id,
  meter_of-map_key (reserve_key limit) (taken limit) refl (reserve_key-meter limit)
      (find_key w.keys id),
)

pub note_use-meter :
    (now : ℕ) (i text id : String) (w : World) → meter id (note_use now i text w).0 ≡ meter id w
unfolding note_use
note_use-meter now i text id w = elim (Option-cases (find_key w.keys i)) [
  | inl e ↦ ground (arith, e)
  | inr (k, e) ↦ ground (
    arith,
    e,
    find_key-update_key (λ k. record k { last_used_at = some now }) (λ k. refl) w.keys i id,
    meter_of-map_key (λ k. record k { last_used_at = some now }) (λ m. m) refl (λ k. refl)
        (find_key w.keys id),
  )
]

pub note_use-calls :
    (now : ℕ) (i text id : String) (w : World) → (note_use now i text w).0.calls ≡ w.calls
unfolding note_use
note_use-calls now i text id w = ground arith

pub handled-meter :
    (now : ℕ) (i id : String) (h : Handled) (w : World)
    → (meter id (handled now i h w).0 ≡ meter id w) × ((handled now i h w).0.calls ≡ w.calls)
unfolding handled
handled-meter now i id (returned text) w =
    (note_use-meter now i text id w, note_use-calls now i text id w)
handled-meter now i id (thrown message) w = (refl, refl)
