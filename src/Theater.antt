-- ===== src/Theater.antt =====
-- relayer/src/btcsoq/theater.ts: the gate in front of the public programs, the daily budgets, the
-- session counters and the tape. A day is the number of whole days since 1970, which the date in
-- `toISOString` stands for. The HTTP answers, the broadcast and the acts themselves are left out.
pub mod Budget
pub mod Cap
mod Tests
use soqtec.Base.{
  ℕ, zero, suc, ◌+◌, ◌-◌, ◌*◌, ◌/◌, Bool, true, false, ◌&&◌, not, Option, none, some, List, [], ◌∷◌,
  ◌++◌, Text, text, Dict, lookup, insert, ltb, leb, ◌==◌, if◌then◌else◌, length, take,
}
use soqtec.Limiter.{hits_of, admit}

pub data Route : Type 0 where
  ask duel race beat : Route

abbrev pub route_name : Route → Text
route_name ask = text "ask"
route_name duel = text "duel"
route_name race = text "race"
route_name beat = text "beat"

-- `BUDGETS`; the cap of the miner beat is configured.
abbrev pub cap : ℕ → Route → ℕ
cap beat_cap ask = 500
cap beat_cap duel = 60
cap beat_cap race = 100
cap beat_cap beat = beat_cap

abbrev pub per_min : Route → ℕ
per_min ask = 3
per_min duel = 1
per_min race = 1
per_min beat = 1

-- `Math.ceil(ms / 1000)`
abbrev pub ceil_sec : ℕ → ℕ
ceil_sec ms = (ms + 999) / 1000

-- Until the oldest kept time leaves the window, a second at least.
abbrev pub wait_sec : ℕ → List ℕ → ℕ
wait_sec now [] = 1
wait_sec now (oldest ∷ rest) = let s = ceil_sec (oldest + 60000 - now) in if leb s 1 then 1 else s

unfoldable pub retry_after_sec : Text → Route → ℕ → Dict (List ℕ) → ℕ × Dict (List ℕ)
retry_after_sec ip route now hits =
    let key = route_name route ++ (b':' ∷ ip) in
    let (passed, kept) = admit 60000 (per_min route) now (hits_of key hits) in
    (if passed then 0 else wait_sec now kept, insert key kept hits)

abbrev pub day_ms : ℕ
day_ms = 86400000

abbrev pub day_of : ℕ → ℕ
day_of now = now / day_ms

-- The day of the count, and the count.
abbrev pub Count : Type 0
Count = ℕ × ℕ

abbrev pub take_count : ℕ → ℕ → Option Count → Bool × Count
take_count limit day none = (true, (day, 1))
take_count limit day (some (counted, n)) =
    if not (counted == day)
    then (true, (day, 1))
    else if leb limit n
    then (false, (counted, n))
    else (true, (counted, n + 1))

unfoldable pub take_budget : ℕ → Route → ℕ → Dict Count → Bool × Dict Count
take_budget beat_cap route now daily =
    let name = route_name route in
    let (taken, count) = take_count (cap beat_cap route) (day_of now) (lookup name daily) in
    (taken, insert name count daily)

unfoldable pub seconds_to_utc_midnight : ℕ → ℕ
seconds_to_utc_midnight now = ceil_sec ((day_of now + 1) * day_ms - now)

-- The answer of the gate: pass, or status 429 with a reason and `retryAfterSec`.
pub data Gate : Type 0 where
  pass : Gate
  cooldown : ℕ → Gate
  over_budget : ℕ → Gate

pub record GateState : Type 0 where
  pub hits : Dict (List ℕ)
  pub daily : Dict Count

abbrev gate_budget : ℕ → Route → ℕ → GateState → Gate × GateState
gate_budget beat_cap route now st =
    let (taken, daily) = take_budget beat_cap route now st.daily in
    (if taken then pass else over_budget (seconds_to_utc_midnight now), record st { daily = daily })

unfoldable pub gate : ℕ → Text → Route → ℕ → GateState → Gate × GateState
unfolding retry_after_sec take_budget
gate beat_cap ip route now st =
    let (wait, hits) = retry_after_sec ip route now st.hits in
    let st' = record st { hits = hits } in
    if ltb 0 wait then (cooldown wait, st') else gate_budget beat_cap route now st'

pub record Session : Type 0 where
  pub acts : ℕ
  pub messages_billed : ℕ
  pub shors_settled : ℕ
  pub receipts_verified : ℕ
  pub settle_ms_total : ℕ
  pub settle_ms_count : ℕ
  pub agent_earned : Dict ℕ

abbrev earned : Text → Dict ℕ → ℕ
earned agent d = elim (lookup agent d) [ none ↦ 0 | some n ↦ n ]

abbrev earn : Option Text → ℕ → Dict ℕ → Dict ℕ
earn none amount d = d
earn (some []) amount d = d
earn (some (c ∷ agent)) amount d = insert (c ∷ agent) (earned (c ∷ agent) d + amount) d

unfoldable pub record_settle : ℕ → ℕ → Option Text → Bool → Session → Session
record_settle amount pay_ms agent verified s = record s {
  messages_billed = s.messages_billed + 1;
  shors_settled = s.shors_settled + amount;
  settle_ms_total = s.settle_ms_total + pay_ms;
  settle_ms_count = s.settle_ms_count + 1;
  receipts_verified = s.receipts_verified + (if verified then 1 else 0);
  agent_earned = earn agent amount s.agent_earned;
}

pub record TapeEntry : Type 0 where
  pub ts : ℕ
  pub line : Text
  pub cls : Text

-- `unshift`, then `pop` above 80 entries.
unfoldable pub tape_push : TapeEntry → List TapeEntry → List TapeEntry
tape_push e tape = if ltb 80 (length (e ∷ tape)) then take (length tape) (e ∷ tape) else e ∷ tape
