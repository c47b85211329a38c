-- ===== src/Theater/Tests.antt =====
-- btcsoq/theater.ts on single programs and addresses.
use soqtec.Base.{ℕ, ◌+◌, ◌*◌, ◌≤◌, ◌≡◌, List, [], ◌∷◌, text, Dict, arith, ◌===◌, lookup}
use soqtec.Limiter.{Request, admitted, admit, recent}
use soqtec.Limiter.Window.{count_in, count_in-admitted}
use soqtec.Theater.{Route, retry_after_sec}
use soqtec.Theater.Budget.{retry_after_sec-enough}
use soqtec.Theater.Cap.{taken_days, count_day, count_day-taken_days}

abbrev requests : List Request
requests =
    (text "a", 10) ∷ (text "a", 20) ∷ (text "b", 30) ∷ (text "a", 40) ∷ (text "a", 90000) ∷ []

count_in-admitted_example : count_in 60000 50000 (admitted 60000 2 (text "a") requests []) ≤ 2
count_in-admitted_example =
    count_in-admitted 60000 2 (text "a") requests
      (omega arith, (omega arith, (omega arith, (omega arith, (omega arith, tt))))) 50000

-- The address asked for the duel a second ago.
abbrev hits : Dict (List ℕ)
hits = (text "duel:a", 100000 ∷ []) ∷ []

retry_after_sec-enough_example :
    let (wait, hits') = retry_after_sec (text "a") Route.duel 101000 hits in
    (retry_after_sec (text "a") Route.duel (101000 + 1000 * wait) hits').0 ≡ 0
unfolding retry_after_sec lookup ◌===◌ admit recent
retry_after_sec-enough_example =
    retry_after_sec-enough (text "a") Route.duel 101000 hits (omega arith) (omega arith)

count_day-taken_days_example :
    count_day 0 (taken_days 2 Route.beat (5 ∷ 6 ∷ 7 ∷ 90000000 ∷ []) []) ≤ 2
count_day-taken_days_example =
    count_day-taken_days 2 Route.beat (5 ∷ 6 ∷ 7 ∷ 90000000 ∷ []) (omega arith)
      (omega arith, (omega arith, (omega arith, (omega arith, tt)))) 0
