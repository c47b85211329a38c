-- ===== src/Theater/Cap.antt =====
-- btcsoq/theater.ts: no day gives out more of a program than its cap.
use soqtec.Base.{
  ℕ, suc, ◌+◌, ◌≤◌, ◌<◌, ◌≡◌, refl, sym, subst, Bool, true, false, Option, none, some, List, [],
  ◌∷◌, Dict, lookup, insert, lookup-insert_self, arith, leb, ◌==◌, ==_iff, if◌then◌else◌,
  Bool-cases, inl, inr,
}
use soqtec.Theater.{Route, route_name, cap, take_budget, take_count, day_of, Count}

-- The days of the requests of a program that its budget lets through, oldest first.
abbrev pub taken_days : ℕ → Route → List ℕ → Dict Count → List ℕ
taken_days beat_cap route [] daily = []
taken_days beat_cap route (now ∷ times) daily =
    let (taken, daily') = take_budget beat_cap route now daily in
    let rest = taken_days beat_cap route times daily' in if taken then day_of now ∷ rest else rest

abbrev pub IsOrdered : ℕ → List ℕ → Type 0
IsOrdered last [] = Unit {0}
IsOrdered last (now ∷ times) = (last ≤ now) × IsOrdered now times

abbrev pub count_day : ℕ → List ℕ → ℕ
count_day day [] = 0
count_day day (d ∷ days) = let rest = count_day day days in if d == day then suc rest else rest

-- The number that the count holds for a day.
abbrev count_on : ℕ → Option Count → ℕ
count_on day none = 0
count_on day (some (counted, n)) = if counted == day then n else 0

-- What the count of the program says of the requests that were let through until a day.
record IsCounted (limit last : ℕ) (count : Option Count) (days : List ℕ) : Type 0 where
  limited : (day : ℕ) → count_day day days ≤ limit
  counted : (day : ℕ) → last ≤ day → count_day day days ≤ count_on day count
  past : (day : ℕ) → last < day → count_on day count ≡ 0

-- The first request of a day.
first_of_day :
    (limit last day : ℕ) (count : Option Count) (days : List ℕ)
    → 0 < limit
    → last ≤ day
    → count_on day count ≡ 0
    → IsCounted limit last count days
    → IsCounted limit day (some (day, 1)) (day ∷ days)
first_of_day limit last day count days h later new inv = record {
  limited = λ d. let a = inv.limited d in let b = inv.counted day later in grind arith;
  counted = λ d after. let a = inv.counted d (omega arith) in let b = inv.past d in grind arith;
  past = λ d after. grind arith;
}

-- A request that is not the first of its day.
next_of_day :
    (limit last day n : ℕ) (days : List ℕ)
    → last ≤ day
    → n < limit
    → IsCounted limit last (some (day, n)) days
    → IsCounted limit day (some (day, n + 1)) (day ∷ days)
next_of_day limit last day n days later room inv = record {
  limited = λ d. let a = inv.limited d in let b = inv.counted day later in grind arith;
  counted = λ d after. let a = inv.counted d (omega arith) in grind arith;
  past = λ d after. grind arith;
}

not_taken :
    (limit last day : ℕ) (count : Option Count) (days : List ℕ)
    → last ≤ day
    → IsCounted limit last count days
    → IsCounted limit day count days
not_taken limit last day count days later inv = record {
  limited = inv.limited;
  counted = λ d after. inv.counted d (omega arith);
  past = λ d after. inv.past d (omega arith);
}

take_count-IsCounted :
    (limit last day : ℕ) (count : Option Count) (days : List ℕ)
    → 0 < limit
    → last ≤ day
    → IsCounted limit last count days
    → let (taken, count') = take_count limit day count in
      IsCounted limit day (some count') (if taken then day ∷ days else days)
take_count-IsCounted limit last day none days h later inv =
    first_of_day limit last day none days h later refl inv
take_count-IsCounted limit last day (some (counted, n)) days h later inv =
    elim (Bool-cases (counted == day)) [
      | inr other ↦
          rw other
            (first_of_day limit last day (some (counted, n)) days h later (rw other refl) inv)
      | inl same ↦ elim (Bool-cases (leb limit n)) [
        | inl full ↦ rw (same, full) (not_taken limit last day (some (counted, n)) days later inv)
        | inr room ↦
            let is : counted ≡ day = (==_iff counted day).0 same in
            rw (same, room)
              (subst (λ c. IsCounted limit day (some (c, n + 1)) (day ∷ days)) (sym is)
                (next_of_day limit last day n days later (grind arith)
                  (subst (λ c. IsCounted limit last (some (c, n)) days) is inv)))
      ]
    ]

taken_after :
    (beat_cap last : ℕ) (route : Route) (times : List ℕ) (daily : Dict Count) (days : List ℕ)
    → 0 < cap beat_cap route
    → IsOrdered last times
    → IsCounted (cap beat_cap route) (day_of last) (lookup (route_name route) daily) days
    → (day : ℕ)
    → count_day day (taken_days beat_cap route times daily) + count_day day days
      ≤ cap beat_cap route
unfolding take_budget
taken_after beat_cap last route [] daily days h o inv day = let a = inv.limited day in omega arith
taken_after beat_cap last route (now ∷ times) daily days h (later, o) inv day =
    let limit = cap beat_cap route in
    let name = route_name route in
    let step = take_count limit (day_of now) (lookup name daily) in
    let taken = step.0 in
    let daily' = insert name step.1 daily in
    let days' = if taken then day_of now ∷ days else days in
    let next : IsCounted limit (day_of now) (lookup name daily') days' =
      rw (lookup-insert_self name step.1 daily) (
        take_count-IsCounted limit (day_of last) (day_of now) (lookup name daily) days h
          (omega arith) inv) in
    let rest = taken_after beat_cap now route times daily' days' h o next day in
    let moved =
      count_day-moved day taken (day_of now) (taken_days beat_cap route times daily') days in
    omega arith
  where
    count_day-moved :
        (day : ℕ) (taken : Bool) (d : ℕ) (rest days : List ℕ)
        → count_day day (if taken then d ∷ rest else rest) + count_day day days
          ≡ count_day day rest + count_day day (if taken then d ∷ days else days)
    count_day-moved day true d rest days = grind arith
    count_day-moved day false d rest days = refl

-- Of requests for a program in the order of their times, its budget lets through no more on any day
-- than its cap, if the cap is not 0.
pub count_day-taken_days :
    (beat_cap : ℕ) (route : Route) (times : List ℕ)
    → 0 < cap beat_cap route
    → IsOrdered 0 times
    → (day : ℕ) → count_day day (taken_days beat_cap route times []) ≤ cap beat_cap route
unfolding lookup
count_day-taken_days beat_cap route times h o day =
    let inv : IsCounted (cap beat_cap route) 0 none [] = record {
      limited = λ d. omega arith;
      counted = λ d l. omega arith;
      past = λ d l. refl;
    } in
    let most = taken_after beat_cap 0 route times [] [] h o inv day in omega arith
