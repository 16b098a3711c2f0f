-- ===== src/Mcp/Dispatch/Quota.antt =====
-- The daily limit when the steps of many requests interleave. A request rolls the window of its key
-- and later reserves a call: each is one statement in the database, and others may come between. A
-- rotation of a key (server/src/routes/mcp.routes.ts) starts its count again.
use db_backup.Prelude.{
  ℕ, suc, ◌+◌, ◌*◌, ◌%◌, ◌≤◌, ◌<◌, String, ◌≡◌, refl, ap, true, Option, none, some, List, [], ◌∷◌,
  if◌then◌else◌, ◌==◌, eq_iff, arith, ltb, count, All, Bool-cases, Option-cases, ◌⊎◌, ◌∙◌, inl, inr,
}
use db_backup.Mcp.{
  McpKey, Call, World, Outside, find_key, day_ms, next_reset, is_reset_due, roll, can_reserve,
  reserve, update_key,
}
use db_backup.Mcp.Dispatch.{run_handler, take_call, run_limited, limit_of}
use db_backup.Mcp.Dispatch.Meter.{
  Meter, meter_of, meter, remaining, IsClosed, rolled, taken, roll-meter, reserve-meter,
  handled-meter, find_key-update_key, map_key,
}
use db_backup.Mcp.Routes.{rotate_key, rotate_to, find_owned, is_revoked}

pub data Event : Type 0 where
  rolling : ℕ → String → Event
  taking : ℕ → ℕ → Call → Event
  rotating : (user id hash : String) → Event

module _ (out : Outside) where
  unfoldable pub play : List Event → World → World
  play [] w = w
  play (rolling now id ∷ events) w = play events (roll now id w)
  play (taking now limit c ∷ events) w = play events (take_call out now limit c w).0
  play (rotating user id hash ∷ events) w = play events (rotate_key user id hash w).0

  -- A request that runs alone rolls the window and takes its call.
  pub run_limited-play :
      (now : ℕ) (c : Call) (w : World)
      → 0 < limit_of (find_key w.keys c.key_id)
      → (run_limited out now c w).0
        ≡ play (rolling now c.key_id ∷ taking now (limit_of (find_key w.keys c.key_id)) c ∷ []) w
  unfolding run_limited play
  run_limited-play now c w positive = ground arith

abbrev pub calls_of : String → World → ℕ
calls_of id w = count (λ c. c.key_id == id) w.calls

-- after midnight of the day, until the next one
abbrev pub Today : ℕ → ℕ → Type 0
Today day t = (day * day_ms < t) × (t ≤ (day + 1) * day_ms)

abbrev pub IsMidnight : Option ℕ → Type 0
IsMidnight none = Unit {0}
IsMidnight (some reset) = reset % day_ms ≡ 0

abbrev pub ResetAtMidnight : Option McpKey → Type 0
ResetAtMidnight none = Unit {0}
ResetAtMidnight (some k) = IsMidnight k.calls_reset_at

-- an event that concerns the key has a time of the day, or the limit
abbrev pub IsOf : ℕ → ℕ → String → Event → Type 0
IsOf day limit id (rolling now i) = i ≡ id → Today day now
IsOf day limit id (taking now l c) = c.key_id ≡ id → l ≡ limit
IsOf day limit id (rotating user i hash) = Unit {0}

-- the limit again for each rotation of the key
abbrev pub renewed : ℕ → String → List Event → ℕ
renewed limit id [] = 0
renewed limit id (rotating user i hash ∷ events) =
    if i == id then limit + renewed limit id events else renewed limit id events
renewed limit id (rolling now i ∷ events) = renewed limit id events
renewed limit id (taking now l c ∷ events) = renewed limit id events

abbrev restarted : Meter → Meter
restarted none = none
restarted (some (reset, calls)) = some (reset, 0)

module _ (out : Outside) (limit day : ℕ) (id : String) where
  run_handler-meter :
      (now : ℕ) (c : Call) (w : World)
      → (meter id (run_handler out now c w).0 ≡ meter id w)
        × ((run_handler out now c w).0.calls ≡ c ∷ w.calls)
  unfolding run_handler
  run_handler-meter now c w =
      handled-meter now c.key_id id (out.handle w.calls c) (record w { calls = c ∷ w.calls })

  can_reserve-meter :
      (k : Option McpKey)
      → can_reserve limit k ≡ true
      → remaining limit (meter_of k) ≡ suc (remaining limit (taken limit (meter_of k)))
  unfolding can_reserve
  can_reserve-meter none h = ground arith
  can_reserve-meter (some k) h = ground arith

  taken-le : (m : Meter) → remaining limit (taken limit m) ≤ remaining limit m
  taken-le none = omega arith
  taken-le (some (reset, calls)) = ground arith

  taken-IsClosed : (m : Meter) → IsClosed day m → IsClosed day (taken limit m)
  taken-IsClosed none h = tt
  taken-IsClosed (some (none, calls)) h = absurd h
  taken-IsClosed (some (some reset, calls)) h = ground arith

  rolled-closed :
      (now : ℕ) (m : Meter) → now ≤ (day + 1) * day_ms → IsClosed day m → rolled now m ≡ m
  unfolding is_reset_due
  rolled-closed now none le h = refl
  rolled-closed now (some (none, calls)) le h = absurd h
  rolled-closed now (some (some reset, calls)) le h = ground arith

  -- The first roll of the day closes the window until midnight.
  rolled-IsClosed :
      (now : ℕ) (k : Option McpKey)
      → Today day now
      → ResetAtMidnight k
      → IsClosed day (rolled now (meter_of k)) × (remaining limit (rolled now (meter_of k)) ≤ limit)
  unfolding is_reset_due next_reset
  rolled-IsClosed now none today midnight = (tt, omega arith)
  rolled-IsClosed now (some k) today midnight = closed k.calls_reset_at midnight
    where
      closed :
          (reset : Option ℕ)
          → IsMidnight reset
          → IsClosed day (rolled now (some (reset, k.calls_today)))
            × (remaining limit (rolled now (some (reset, k.calls_today))) ≤ limit)
      closed none m = (omega arith, omega arith)
      closed (some reset) m = elim (Bool-cases (ltb reset now)) [
        | inl due ↦ rw due (omega arith, omega arith)
        | inr early ↦ rw early (ground arith, omega arith)
      ]

  reserve-calls :
      (l : ℕ) (i : String) (w : World)
      → ((reserve l i w).0.calls ≡ w.calls)
        × ((reserve l i w).1 ≡ can_reserve l (find_key w.keys i))
  unfolding reserve
  reserve-calls l i w = (refl, refl)

  take_call-calls :
      (now l : ℕ) (c : Call) (w : World)
      → (take_call out now l c w).0.calls
        ≡ (if can_reserve l (find_key w.keys c.key_id) then c ∷ w.calls else w.calls)
  unfolding take_call
  take_call-calls now l c w = ground (
    arith,
    (reserve-calls l c.key_id w).0,
    (reserve-calls l c.key_id w).1,
    (run_handler-meter now c (reserve l c.key_id w).0).1,
  )

  take_call-meter :
      (now l : ℕ) (c : Call) (w : World)
      → meter id (take_call out now l c w).0
        ≡ (if c.key_id == id then taken l (meter id w) else meter id w)
  unfolding take_call
  take_call-meter now l c w =
      ground
        (arith, reserve-meter l c.key_id id w, (run_handler-meter now c (reserve l c.key_id w).0).0)

  -- A call that is taken is paid by the meter of its key.
  take_call-paid :
      (now l : ℕ) (c : Call) (w : World)
      → (c.key_id ≡ id → l ≡ limit)
      → (calls_of id (take_call out now l c w).0
            + remaining limit (meter id (take_call out now l c w).0)
          ≤ calls_of id w + remaining limit (meter id w))
        × (IsClosed day (meter id w) → IsClosed day (meter id (take_call out now l c w).0))
  take_call-paid now l c w own = elim (Bool-cases (c.key_id == id)) [
    | inr other ↦
        rw (take_call-calls now l c w, take_call-meter now l c w, other)
          (ground (arith, other), λ h. h)
    | inl mine ↦
        let same : c.key_id ≡ id = (eq_iff c.key_id id).0 mine in
        rw (take_call-calls now l c w, take_call-meter now l c w, mine, own same, same)
          (
            ground (arith, mine, can_reserve-meter (find_key w.keys id), taken-le (meter id w)),
            taken-IsClosed (meter id w),
          )
  ]

  roll-closed :
      (now : ℕ) (i : String) (w : World)
      → (i ≡ id → Today day now)
      → IsClosed day (meter id w)
      → meter id (roll now i w) ≡ meter id w
  roll-closed now i w own closed =
      ground (arith, roll-meter now i id w, eq_iff i id, own, rolled-closed now (meter id w))

  rotate_key-meter :
      (user i hash : String) (w : World)
      → ((rotate_key user i hash w).0.calls ≡ w.calls)
        × ((meter id (rotate_key user i hash w).0 ≡ meter id w)
            ⊎ (((i == id) ≡ true)
                × (meter id (rotate_key user i hash w).0 ≡ restarted (meter id w))))
  unfolding rotate_key rotate_to
  rotate_key-meter user i hash w = elim (Option-cases (find_owned user i w.keys)) [
    | inl gone ↦ rw (gone, rotate_key) (refl, inl refl)
    | inr (k, found) ↦ elim (Bool-cases (is_revoked k.revoked_at)) [
      | inl over ↦ rw (found, over, rotate_key) (refl, inl refl)
      | inr valid ↦
          let at = find_key-update_key (rotate_to hash) (λ k. refl) w.keys i id in
          rw (found, valid, rotate_key) (refl, restarts at)
    ]
  ]
    where
      f : McpKey → McpKey
      f = rotate_to hash

      met : (o : Option McpKey) → meter_of (map_key f o) ≡ restarted (meter_of o)
      met none = refl
      met (some k) = refl

      restarts :
          find_key (update_key f i w.keys) id
            ≡ (if i == id then map_key f (find_key w.keys id) else find_key w.keys id)
          → (meter_of (find_key (update_key f i w.keys) id) ≡ meter_of (find_key w.keys id))
            ⊎ (((i == id) ≡ true)
                × (meter_of (find_key (update_key f i w.keys) id)
                    ≡ restarted (meter_of (find_key w.keys id))))
      restarts at = elim (Bool-cases (i == id)) [
        | inl same ↦ inr (same, ap meter_of (rw same at at) ∙ met (find_key w.keys id))
        | inr other ↦ inl (ap meter_of (rw other at at))
      ]

  restarted-IsClosed :
      (m : Meter)
      → IsClosed day m
      → IsClosed day (restarted m) × (remaining limit (restarted m) ≤ limit)
  restarted-IsClosed none h = (tt, omega arith)
  restarted-IsClosed (some (none, calls)) h = absurd h
  restarted-IsClosed (some (some reset, calls)) h = (h, omega arith)

  play-closed :
      (events : List Event) (w : World)
      → All (IsOf day limit id) events
      → IsClosed day (meter id w)
      → calls_of id (play out events w)
        ≤ calls_of id w + remaining limit (meter id w) + renewed limit id events
  unfolding play roll
  play-closed [] w all closed = omega arith
  play-closed (rolling now i ∷ events) w all closed =
      let same = roll-closed now i w all.0 closed in
      let rest = play-closed events (roll now i w) all.1 (rw same closed) in
      omega (arith, rest, ap (remaining limit) same)
  play-closed (taking now l c ∷ events) w all closed =
      let paid = take_call-paid now l c w all.0 in
      let rest = play-closed events (take_call out now l c w).0 all.1 (paid.1 closed) in
      omega (arith, paid.0, rest)
  play-closed (rotating user i hash ∷ events) w all closed =
      let w' = (rotate_key user i hash w).0 in
      let (same_calls, metered) = rotate_key-meter user i hash w in
      let same : calls_of id w' ≡ calls_of id w = ap (count (λ c. c.key_id == id)) same_calls in
      elim metered [
        | inl kept ↦
            let rest = play-closed events w' all.1 (rw kept closed) in
            elim (Bool-cases (i == id)) [
              | inl own ↦ rw own (omega (arith, rest, same, ap (remaining limit) kept))
              | inr other ↦ rw other (omega (arith, rest, same, ap (remaining limit) kept))
            ]
        | inr (own, anew) ↦
            let (still, fresh) = restarted-IsClosed (meter id w) closed in
            let rest = play-closed events w' all.1 (rw anew still) in
            rw own (omega (arith, rest, same, fresh, ap (remaining limit) anew))
      ]

-- However the steps of requests and the rotations of keys interleave within one day, from the first
-- roll of a key with a limit on: the tools are called for the key as often as the limit at most, and
-- as often again for each rotation of the key.
pub play-le :
    (out : Outside) (limit day : ℕ) (id : String) (now : ℕ) (events : List Event) (w : World)
    → Today day now
    → All (IsOf day limit id) events
    → ResetAtMidnight (find_key w.keys id)
    → calls_of id (play out (rolling now id ∷ events) w)
      ≤ calls_of id w + limit + renewed limit id events
unfolding play roll
play-le out limit day id now events w today all midnight =
    let (closed, within) =
      rolled-IsClosed out limit day id now (find_key w.keys id) today midnight in
    let first : meter id (roll now id w) ≡ rolled now (meter id w) =
      ground (arith, roll-meter now id id w, eq_iff id id) in
    omega (
      arith,
      play-closed out limit day id events (roll now id w) all (rw first closed),
      ap (remaining limit) first,
      within,
    )
