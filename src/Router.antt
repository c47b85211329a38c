-- ===== src/Router.antt =====
-- relayer/src/cea/router.ts: the DUA event router. Each call to PAUL, to the node or to a strategy
-- is appended to a trace, and its answer may depend on all calls so far.
pub mod Dedup
pub mod Policy
mod Tests
use soqtec.Base.{
  ℕ, Bool, true, false, ◌&&◌, not, Option, none, some, List, [], ◌∷◌, ◌++◌, Text, text, Result, ok,
  err, leb, ltb, is_some, ◌===◌, if◌then◌else◌, find, filter, length,
}
use soqtec.Chain.{
  BurnConfidence, ChainId, NormalizedBurnEvent, level, chain_name, same_chain, is_finalized,
}

pub record ReleaseRecord : Type 0 where
  pub burn_tx_id : Text
  pub chain : ChainId
  pub recipient_soq : Text
  pub net_amount_soq : ℕ
  pub confidence : BurnConfidence
  pub release_tx_id : Option Text
  pub release_method : Text
  pub detected_at : ℕ
  pub released_at : Option ℕ
  pub finalized_at : Option ℕ

-- The strategy of a chain is known by its method; what its `release` answers is in `Answers`.
pub record AdapterOptions : Type 0 where
  pub strategy : Option Text
  pub managed : Bool

pub record Router : Type 0 where
  pub release_policy : BurnConfidence
  pub adapters : List (ChainId × AdapterOptions)
  pub seen_set : List Text
  pub releases : List ReleaseRecord
  pub halted : Bool

pub data Call : Type 0 where
  paul : Text → ℕ → Text → Call
  direct : Text → ℕ → Text → Call
  strategy : Text → Text → Call

abbrev pub Trace : Type 0
Trace = List Call

-- The world outside: the clock, the PAUL lane manager, the node's `sendtoaddress`, and the release
-- functions of the strategies.
pub record Answers : Type 0 where
  pub now : Trace → ℕ
  pub paul_release : Trace → NormalizedBurnEvent → Result Text Text
  pub direct_release : Trace → NormalizedBurnEvent → Result Text Text
  pub strategy_release : Trace → Text → NormalizedBurnEvent → Result Text (Option Text)

pub record World : Type 0 where
  pub router : Router
  pub trace : Trace

abbrev pub pending_method : Text
pending_method = text "pending"

abbrev pub paul_method : Text
paul_method = text "paul"

abbrev pub direct_method : Text
direct_method = text "direct"

-- `${event.chain}:${event.burnTxId}`
unfoldable pub dedup_key : ChainId → Text → Text
dedup_key chain burn_tx_id = chain_name chain ++ (b':' ∷ burn_tx_id)

unfoldable pub event_key : NormalizedBurnEvent → Text
unfolding dedup_key
event_key event = dedup_key event.chain event.burn_tx_id

unfoldable pub seen : Text → List Text → Bool
seen k [] = false
seen k (j ∷ js) = if j === k then true else seen k js

unfoldable pub options_of : ChainId → List (ChainId × AdapterOptions) → Option AdapterOptions
options_of c [] = none
options_of c ((d, o) ∷ rest) = if same_chain d c then some o else options_of c rest

unfoldable pub strategy_of : Router → ChainId → Option Text
strategy_of r c = elim (options_of c r.adapters) [ none ↦ none | some o ↦ o.strategy ]

-- `Map.set`
set_options :
    ChainId → AdapterOptions → List (ChainId × AdapterOptions) → List (ChainId × AdapterOptions)
set_options c o [] = (c, o) ∷ []
set_options c o ((d, p) ∷ rest) =
    if same_chain d c then (d, o) ∷ rest else (d, p) ∷ set_options c o rest

unfoldable pub register_adapter : ChainId → AdapterOptions → Router → Router
unfolding set_options
register_adapter c o r = record r { adapters = set_options c o r.adapters }

unfoldable pub meets_policy : Router → BurnConfidence → Bool
meets_policy r actual = leb (level r.release_policy) (level actual)

unfoldable pub is_upgrade : BurnConfidence → BurnConfidence → Bool
is_upgrade from to = ltb (level from) (level to)

-- The record of an event before any release.
unfoldable pub pending_record : NormalizedBurnEvent → Option ℕ → ReleaseRecord
pending_record event finalized_at = record {
  burn_tx_id = event.burn_tx_id;
  chain = event.chain;
  recipient_soq = event.recipient_soq;
  net_amount_soq = event.net_amount_soq;
  confidence = event.confidence;
  release_tx_id = none;
  release_method = pending_method;
  detected_at = event.detected_at;
  released_at = none;
  finalized_at = finalized_at;
}

-- Assign to the record that `releases.find(r => r.burnTxId === …)` returns.
unfoldable pub update_record :
    Text → (ReleaseRecord → ReleaseRecord) → List ReleaseRecord → List ReleaseRecord
update_record id f [] = []
update_record id f (r ∷ rs) = if r.burn_tx_id === id then f r ∷ rs else r ∷ update_record id f rs

abbrev pub released : Text → Text → ℕ → ReleaseRecord → ReleaseRecord
released txid method at r = record r {
  release_tx_id = some txid;
  release_method = method;
  released_at = some at;
}

module _ (env : Answers) where
  -- `runStrategy`: the record afterwards, and the trace. A null answer and an error leave it pending.
  unfoldable pub run_strategy :
      Text → NormalizedBurnEvent → ReleaseRecord → Trace → ReleaseRecord × Trace
  run_strategy method event r t =
      let t' = t ++ (strategy method (event_key event) ∷ []) in
      elim (env.strategy_release t method event) [
        | ok answer ↦ elim answer [
          | none ↦ (r, t')
          | some txid ↦ (released txid method (env.now t') r, t')
        ]
        | err message ↦ (r, t')
      ]

  -- The branch of an event whose key is in the seen-set.
  unfoldable pub on_known_burn : World → NormalizedBurnEvent → World
  unfolding is_upgrade meets_policy
  on_known_burn w event =
      let r = w.router in
      elim (find (λ e. e.burn_tx_id === event.burn_tx_id) r.releases) [
        | none ↦ w
        | some existing ↦
            let raised : ReleaseRecord = record existing {
              confidence = event.confidence;
              finalized_at =
                  if is_finalized event.confidence
                  then some (env.now w.trace)
                  else existing.finalized_at;
            } in
            if not (is_upgrade existing.confidence event.confidence)
            then w
            else elim (strategy_of r event.chain) [
              | none ↦ record w {
                router = record r {
                  releases = update_record event.burn_tx_id (λ _. raised) r.releases;
                };
              }
              | some method ↦
                  let fires =
                    not r.halted
                    && (not (is_some existing.release_tx_id) && meets_policy r event.confidence) in
                  let (done, t) =
                    if fires then run_strategy method event raised w.trace else (raised, w.trace) in
                  record {
                    router = record r {
                      releases = update_record event.burn_tx_id (λ _. done) r.releases;
                    };
                    trace = t;
                  }
            ]
      ]

  -- The built-in lane: PAUL, and the direct send if PAUL fails.
  unfoldable pub release_built_in :
      NormalizedBurnEvent → ReleaseRecord → Trace → ReleaseRecord × Trace
  release_built_in event r t =
      let key = event_key event in
      let t1 = t ++ (paul key event.net_amount_soq event.recipient_soq ∷ []) in
      elim (env.paul_release t event) [
        | ok txid ↦ (released txid paul_method (env.now t1) r, t1)
        | err message ↦
            let t2 = t1 ++ (direct key event.net_amount_soq event.recipient_soq ∷ []) in
            elim (env.direct_release t1 event) [
              | ok txid ↦ (released txid direct_method (env.now t2) r, t2)
              | err reason ↦ (r, t2)
            ]
      ]

  abbrev push_release : Router → ReleaseRecord × Trace → World
  push_release r (done, t) = record {
    router = record r { releases = r.releases ++ (done ∷ []) };
    trace = t;
  }

  -- The branch of an event that is seen for the first time.
  unfoldable pub on_new_burn : World → NormalizedBurnEvent → World
  unfolding meets_policy
  on_new_burn w event =
      let r = record (w.router) { seen_set = event_key event ∷ w.router.seen_set } in
      let at = if is_finalized event.confidence then some (env.now w.trace) else none in
      if r.halted
      then push_release r (pending_record event none, w.trace)
      else if not (meets_policy r event.confidence)
      then push_release r (pending_record event none, w.trace)
      else elim (strategy_of r event.chain) [
        | some method ↦ push_release r (run_strategy method event (pending_record event at) w.trace)
        | none ↦ push_release r (release_built_in event (pending_record event at) w.trace)
      ]

  -- `onBurnDetected`
  unfoldable pub on_burn_detected : World → NormalizedBurnEvent → World
  on_burn_detected w event =
      if seen (event_key event) w.router.seen_set
      then on_known_burn w event
      else on_new_burn w event

unfoldable pub halt : Router → Router
halt r = record r { halted = true }

-- `resume` counts the pending records for its log line, and processes none of them.
unfoldable pub resume : Router → Router
resume r = record r { halted = false }

abbrev pub is_method : Text → ReleaseRecord → Bool
is_method m r = r.release_method === m

pub record ReleaseCounts : Type 0 where
  pub total : ℕ
  pub paul_count : ℕ
  pub direct_count : ℕ
  pub pending_count : ℕ

-- The `releases` of `getStatus`.
unfoldable pub release_counts : Router → ReleaseCounts
release_counts r = record {
  total = length r.releases;
  paul_count = length (filter (is_method paul_method) r.releases);
  direct_count = length (filter (is_method direct_method) r.releases);
  pending_count = length (filter (is_method pending_method) r.releases);
}
