-- ===== src/Theater/Budget.antt =====
-- btcsoq/theater.ts: the waits that the gate announces are long enough.
use soqtec.Base.{
  ℕ, ◌+◌, ◌-◌, ◌*◌, ◌≤◌, ◌<◌, ◌≡◌, refl, Bool, true, false, Option, none, some, List, [], ◌∷◌, ◌++◌,
  Text, Dict, lookup, lookup-insert_self, arith, ltb, leb, ◌==◌, length, filter, Bool-cases, inl,
  inr,
}
use soqtec.Limiter.{hits_of, recent, admit}
use soqtec.Limiter.Window.{hits_of-insert_self, length-recent_le}
use soqtec.Theater.{
  Route, route_name, cap, per_min, ceil_sec, wait_sec, retry_after_sec, take_budget, take_count,
  day_of, day_ms, seconds_to_utc_midnight, Count,
}

ceil_sec-enough : (ms : ℕ) → ms ≤ 1000 * ceil_sec ms
ceil_sec-enough ms = omega arith

-- After the seconds to midnight it is another day.
later_day : (now : ℕ) → day_of now < day_of (now + 1000 * seconds_to_utc_midnight now)
unfolding seconds_to_utc_midnight
later_day now =
    let left = (day_of now + 1) * day_ms - now in
    let enough = ceil_sec-enough left in
    let s = ceil_sec left in
    let reached : (day_of now + 1) * day_ms ≤ now + 1000 * s = omega arith in omega arith

length-filter_le : (p : ℕ → Bool) (xs : List ℕ) → length (filter p xs) ≤ length xs
length-filter_le p [] = omega arith
length-filter_le p (x ∷ xs) = let rest = length-filter_le p xs in grind arith

-- Where the window is full, it is not full any more once the oldest time has left it.
room_later :
    (now limit : ℕ) (kept : List ℕ)
    → 0 < limit
    → length kept ≤ limit
    → length (recent 60000 (now + 1000 * wait_sec now kept) kept) < limit
unfolding recent
room_later now limit [] h full = omega arith
room_later now limit (oldest ∷ rest) h full =
    let later = now + 1000 * wait_sec now (oldest ∷ rest) in
    let enough = ceil_sec-enough (oldest + 60000 - now) in
    let gone : ltb (later - oldest) 60000 ≡ false = grind arith in
    let shorter = length-filter_le (λ t. ltb (later - t) 60000) rest in rw gone (omega arith)

positive_limit : (route : Route) → 0 < per_min route
positive_limit Route.ask = omega arith
positive_limit Route.duel = omega arith
positive_limit Route.race = omega arith
positive_limit Route.beat = omega arith

admit-full :
    (window max now : ℕ) (hits : List ℕ)
    → leb max (length (recent window now hits)) ≡ true
    → admit window max now hits ≡ (false, recent window now hits)
unfolding admit
admit-full window max now hits full = rw full refl

admit-room :
    (window max now : ℕ) (hits : List ℕ)
    → leb max (length (recent window now hits)) ≡ false
    → admit window max now hits ≡ (true, recent window now hits ++ (now ∷ []))
unfolding admit
admit-room window max now hits room = rw room refl

-- A request that is told to wait gets through the rate limit after the wait that is announced, if
-- nobody asks for its key in between. The limit of the key was kept before.
pub retry_after_sec-enough :
    (ip : Text) (route : Route) (now : ℕ) (hits : Dict (List ℕ))
    → length (hits_of (route_name route ++ (b':' ∷ ip)) hits) ≤ per_min route
    → let (wait, hits') = retry_after_sec ip route now hits in
      0 < wait → (retry_after_sec ip route (now + 1000 * wait) hits').0 ≡ 0
unfolding retry_after_sec
retry_after_sec-enough ip route now hits bounded told =
    let key = route_name route ++ (b':' ∷ ip) in
    let old = hits_of key hits in
    let kept = recent 60000 now old in
    let limit = per_min route in
    let shorter = length-recent_le 60000 now old in
    elim (Bool-cases (leb limit (length kept))) [
      | inr room ↦ absurd (grind (arith, admit-room 60000 limit now old room))
      | inl full ↦
          let later = now + 1000 * wait_sec now kept in
          let same = hits_of-insert_self 60000 key kept hits in
          let now_room = room_later now limit kept (positive_limit route) (omega arith) in
          let open_again : leb limit (length (recent 60000 later kept)) ≡ false = grind arith in
          rw
            (
              admit-full 60000 limit now old full,
              same,
              admit-room 60000 limit later kept open_again,
            )
            refl
    ]

take_count-later :
    (limit day later : ℕ) (count : Option Count)
    → day < later
    → (take_count limit day count).0 ≡ false
    → (take_count limit later (some (take_count limit day count).1)).0 ≡ true
take_count-later limit day later none h refused = absurd (ground arith)
take_count-later limit day later (some (counted, n)) h refused =
    elim (Bool-cases (counted == day)) [
      | inr other ↦ absurd (grind arith)
      | inl same ↦ elim (Bool-cases (leb limit n)) [
        | inr room ↦ absurd (grind arith)
        | inl full ↦
            let now_other : (counted == later) ≡ false = grind arith in
            let kept : take_count limit day (some (counted, n)) ≡ (false, (counted, n)) =
              rw (same, full) refl in
            rw (kept, now_other) refl
      ]
    ]

-- A request that the spent budget refuses finds a budget after the seconds to midnight.
take_budget-midnight :
    (beat_cap : ℕ) (route : Route) (now : ℕ) (daily : Dict Count)
    → let (taken, daily') = take_budget beat_cap route now daily in
      taken ≡ false
      → (take_budget beat_cap route (now + 1000 * seconds_to_utc_midnight now) daily').0 ≡ true
unfolding take_budget
take_budget-midnight beat_cap route now daily refused =
    let limit = cap beat_cap route in
    let name = route_name route in
    let later = now + 1000 * seconds_to_utc_midnight now in
    let count = (take_count limit (day_of now) (lookup name daily)).1 in
    rw (lookup-insert_self name count daily) (
      take_count-later limit (day_of now) (day_of later) (lookup name daily) (later_day now)
        refused)
