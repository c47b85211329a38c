-- ===== src/Router/Dedup.antt =====
-- cea/router.ts: the seen-set. A burn is sent to PAUL, and to the node, at most once.
use soqtec.Base.{
  ℕ, ◌+◌, ◌≤◌, ◌≡◌, Bool, false, List, [], ◌∷◌, ◌++◌, Text, ◌===◌, ===_iff, if◌then◌else◌, arith,
}
use soqtec.Chain.{NormalizedBurnEvent, ChainId}
use soqtec.Router.{
  paul, direct, strategy, Trace, Answers, World, Router, AdapterOptions, ReleaseRecord, seen,
  event_key, on_burn_detected, on_known_burn, on_new_burn, run_strategy, release_built_in, halt,
  resume, register_adapter,
}

-- How often a burn was sent to PAUL, and to the node.
abbrev pub paul_calls : Text → Trace → ℕ
paul_calls k [] = 0
paul_calls k (paul j a r ∷ t) = if j === k then paul_calls k t + 1 else paul_calls k t
paul_calls k (direct j a r ∷ t) = paul_calls k t
paul_calls k (strategy m j ∷ t) = paul_calls k t

abbrev pub direct_calls : Text → Trace → ℕ
direct_calls k [] = 0
direct_calls k (paul j a r ∷ t) = direct_calls k t
direct_calls k (direct j a r ∷ t) = if j === k then direct_calls k t + 1 else direct_calls k t
direct_calls k (strategy m j ∷ t) = direct_calls k t

paul_calls-append :
    (k : Text) (t u : Trace) → paul_calls k (t ++ u) ≡ paul_calls k t + paul_calls k u
paul_calls-append k [] u = omega arith
paul_calls-append k (paul j a r ∷ t) u = ground (arith, paul_calls-append k t u)
paul_calls-append k (direct j a r ∷ t) u = paul_calls-append k t u
paul_calls-append k (strategy m j ∷ t) u = paul_calls-append k t u

direct_calls-append :
    (k : Text) (t u : Trace) → direct_calls k (t ++ u) ≡ direct_calls k t + direct_calls k u
direct_calls-append k [] u = omega arith
direct_calls-append k (paul j a r ∷ t) u = direct_calls-append k t u
direct_calls-append k (direct j a r ∷ t) u = ground (arith, direct_calls-append k t u)
direct_calls-append k (strategy m j ∷ t) u = direct_calls-append k t u

-- What reaches a router: events, and the operator's calls.
pub data Op : Type 0 where
  burn : NormalizedBurnEvent → Op
  halts resumes : Op
  registers : ChainId → AdapterOptions → Op

unfoldable pub apply : Answers → World → Op → World
apply env w (burn event) = on_burn_detected env w event
apply env w halts = record w { router = halt w.router }
apply env w resumes = record w { router = resume w.router }
apply env w (registers c o) = record w { router = register_adapter c o w.router }

unfoldable pub run : Answers → World → List Op → World
run env w [] = w
run env w (op ∷ ops) = run env (apply env w op) ops

abbrev one_if : Bool → ℕ
one_if b = if b then 1 else 0

-- No key has more calls than the seen-set allows, and none has a direct send without a PAUL call.
abbrev IsDeduped : World → Type 0
IsDeduped w =
    (k : Text)
    → (paul_calls k w.trace ≤ one_if (seen k w.router.seen_set))
      × (direct_calls k w.trace ≤ paul_calls k w.trace)

module _ (env : Answers) (k : Text) where
  run_strategy_calls :
      (method : Text) (event : NormalizedBurnEvent) (r : ReleaseRecord) (t : Trace)
      → let t' = (run_strategy env method event r t).1 in
        (paul_calls k t' ≡ paul_calls k t) × (direct_calls k t' ≡ direct_calls k t)
  unfolding run_strategy
  run_strategy_calls method event r t =
      let new = strategy method (event_key event) ∷ [] in
      ground (arith, paul_calls-append k t new, direct_calls-append k t new)

  release_built_in_calls :
      (event : NormalizedBurnEvent) (r : ReleaseRecord) (t : Trace)
      → let t' = (release_built_in env event r t).1 in
        (paul_calls k t' ≡ paul_calls k t + one_if (event_key event === k))
        × (direct_calls k t' ≤ direct_calls k t + one_if (event_key event === k))
  unfolding release_built_in
  release_built_in_calls event r t =
      let first = paul (event_key event) event.net_amount_soq event.recipient_soq ∷ [] in
      let second = direct (event_key event) event.net_amount_soq event.recipient_soq ∷ [] in
      ground (
        arith,
        paul_calls-append k t first,
        direct_calls-append k t first,
        paul_calls-append k (t ++ first) second,
        direct_calls-append k (t ++ first) second,
      )

  known_calls :
      (w : World) (event : NormalizedBurnEvent)
      → let w' = on_known_burn env w event in
        (paul_calls k w'.trace ≡ paul_calls k w.trace)
        × (direct_calls k w'.trace ≡ direct_calls k w.trace)
        × (w'.router.seen_set ≡ w.router.seen_set)
  unfolding on_known_burn
  known_calls w event = grind (arith, run_strategy_calls)

  new_calls :
      (w : World) (event : NormalizedBurnEvent)
      → let w' = on_new_burn env w event in
        (w'.router.seen_set ≡ event_key event ∷ w.router.seen_set)
        × (paul_calls k w.trace ≤ paul_calls k w'.trace)
        × (paul_calls k w'.trace ≤ paul_calls k w.trace + one_if (event_key event === k))
        × (direct_calls k w'.trace + paul_calls k w.trace
            ≤ direct_calls k w.trace + paul_calls k w'.trace)
  unfolding on_new_burn
  new_calls w event = grind (arith, run_strategy_calls, release_built_in_calls)

  one_if-seen :
      (event : NormalizedBurnEvent) (w : World)
      → seen (event_key event) w.router.seen_set ≡ false
      → one_if (seen k w.router.seen_set) + one_if (event_key event === k)
        ≡ one_if (seen k (event_key event ∷ w.router.seen_set))
  unfolding seen
  one_if-seen event w fresh = ground (arith, ===_iff (event_key event) k)

burn-IsDeduped :
    (env : Answers) (w : World) (event : NormalizedBurnEvent)
    → IsDeduped w
    → IsDeduped (on_burn_detected env w event)
unfolding on_burn_detected
burn-IsDeduped env w event h k =
    ground
      (arith, h k, known_calls env k w event, new_calls env k w event, one_if-seen env k event w)

apply-IsDeduped : (env : Answers) (w : World) (op : Op) → IsDeduped w → IsDeduped (apply env w op)
unfolding apply halt resume register_adapter
apply-IsDeduped env w (burn event) h = burn-IsDeduped env w event h
apply-IsDeduped env w halts h = h
apply-IsDeduped env w resumes h = h
apply-IsDeduped env w (registers c o) h = h

run-IsDeduped :
    (env : Answers) (w : World) (ops : List Op) → IsDeduped w → IsDeduped (run env w ops)
unfolding run
run-IsDeduped env w [] h = h
run-IsDeduped env w (op ∷ ops) h =
    run-IsDeduped env (apply env w op) ops (apply-IsDeduped env w op h)

-- However often the adapters report a burn, at whatever confidence, and whatever halts and resumes
-- come between, a router that starts with an empty trace sends it to PAUL at most once, and to the
-- node at most once, and then only after PAUL. PAUL, node and strategies may answer anything.
pub release_at_most_once :
    (env : Answers) (r : Router) (ops : List Op) (k : Text)
    → let t = (run env (record { router = r; trace = [] }) ops).trace in
      (paul_calls k t ≤ 1) × (direct_calls k t ≤ paul_calls k t)
release_at_most_once env r ops k =
    let h = run-IsDeduped env (record { router = r; trace = [] }) ops (λ j. ground arith) k in
    ground (arith, h)
