-- ===== src/Gateway/Deposits.antt =====
-- btcsoq/gateway.ts: deposit events, the intents that they move, and the expiry of intents.
use soqtec.Base.{
  ℕ, ◌+◌, ◌*◌, Bool, true, false, ◌&&◌, ◌||◌, not, Option, none, some, ◌∷◌, Text, ok, ltb, leb,
  if◌then◌else◌, is_some, lookup, insert,
}
use soqtec.Chain.{BurnConfidence, NormalizedBurnEvent, level, is_mempool}
use soqtec.Bitcoin.{DepositEvent, get_spv_proof}
use soqtec.Store.{
  get_deposit, put_deposit, put_intent, find_deposit_intent_by_address, list_intents, put_intent,
}
use soqtec.Store.Records.{DepositRecord, BtcIntent, IntentStatus, deposit_confirmed}
use soqtec.Gateway.World.{
  Answers, BtcsoqConfig, M, pure, gets, on_store, ◌>>=◌, ◌>>◌, for_each, query, money_loop_enabled,
}
use soqtec.Gateway.Attest.{attest}
use soqtec.Gateway.Mint.{mint_for_deposit_key}

abbrev pub or_else {ℓ} : {A : Type ℓ} → Option A → Option A → Option A
or_else none b = b
or_else (some a) b = some a

abbrev pub intent_id_of : Option BtcIntent → Option Text
intent_id_of none = none
intent_id_of (some i) = some i.id

abbrev pub is_awaiting_deposit : IntentStatus → Bool
is_awaiting_deposit IntentStatus.awaiting_deposit = true
is_awaiting_deposit _ = false

abbrev pub is_deposit_seen : IntentStatus → Bool
is_deposit_seen IntentStatus.deposit_seen = true
is_deposit_seen _ = false

abbrev pub is_expired_status : IntentStatus → Bool
is_expired_status IntentStatus.expired = true
is_expired_status _ = false

abbrev pub is_awaiting_receipt : IntentStatus → Bool
is_awaiting_receipt IntentStatus.awaiting_receipt = true
is_awaiting_receipt _ = false

abbrev pub is_confirmed_status : IntentStatus → Bool
is_confirmed_status IntentStatus.confirmed = true
is_confirmed_status _ = false

-- The dedup gate: an event passes if its confidence is above the last one seen for the key.
unfoldable pub is_news : Option BurnConfidence → BurnConfidence → Bool
is_news none c = true
is_news (some prev) c = not (leb (level c) (level prev))

module _ (env : Answers) (config : BtcsoqConfig) where
  abbrev fresh_deposit : DepositEvent → Option BtcIntent → DepositRecord
  fresh_deposit e intent = record {
    key = e.burn_tx_id;
    txid = e.txid;
    vout = e.vout;
    address = e.address;
    sats = e.gross_amount;
    confirmations = e.confirmations;
    confidence = e.confidence;
    intent_id = intent_id_of intent;
    network = config.network;
    first_seen_at = e.detected_at;
    confirmed_at = none;
    block_hash = none;
    block_height = none;
    spv_proof = none;
    held_reason = none;
  }

  abbrev refreshed : DepositEvent → DepositRecord → DepositRecord
  refreshed e dep = record dep {
    confirmations = e.confirmations;
    confidence = e.confidence;
    block_hash = or_else e.blockhash dep.block_hash;
    block_height = or_else e.blockheight dep.block_height;
  }

  abbrev proved : DepositRecord → Option Text → ℕ → DepositRecord
  proved dep proof now = record dep {
    spv_proof = proof;
    confirmed_at = or_else dep.confirmed_at (some now);
  }

  -- The proof is asked for once the deposit is confirmed, as long as there is none.
  unfoldable pub record_deposit : DepositEvent → DepositRecord → M DepositRecord
  record_deposit e dep w =
      if is_mempool e.confidence || is_some dep.spv_proof
      then (ok dep, record w { store = put_deposit dep w.store })
      else let now = env.now (query ∷ w.trace) in
        let proof =
          get_spv_proof (env.tx_out_proof w.trace) (env.verify_proof w.trace) dep.txid
            dep.block_hash in
        let done = proved dep proof now in
        (ok done, record w { store = put_deposit done w.store; trace = query ∷ w.trace })

  unfoldable pub transition : BtcIntent → IntentStatus → DepositRecord → M (Unit {0})
  transition intent status dep w =
      let moved = record intent {
        status = status;
        updated_at = env.now w.trace;
        deposit_txid = some dep.txid;
        deposit_vout = some dep.vout;
        sats = some dep.sats;
        confirmations = some dep.confirmations;
        spv_proof = or_else dep.spv_proof intent.spv_proof;
      } in
      let w' = record w { store = put_intent moved w.store } in
      if is_confirmed_status status
      then attest env config deposit_confirmed
          (record {
            key = dep.key;
            intent_id = intent.id;
            ssq_address = intent.ssq_address;
            sats = dep.sats;
            txid = dep.txid;
            detail = none;
          })
          w'
      else (ok tt, w')

  abbrev revived : BtcIntent → ℕ → BtcIntent
  revived intent now =
      if is_expired_status intent.status
      then record intent {
        status = IntentStatus.awaiting_deposit;
        expires_at = now + config.intent_ttl_hours * 3600000;
        updated_at = now;
      }
      else intent

  -- Money to an expired intent revives it; then it moves with the confidence of the deposit.
  unfoldable pub move_intent : BurnConfidence → BtcIntent → DepositRecord → M (Unit {0})
  move_intent confidence intent dep w =
      let live = revived intent (env.now w.trace) in
      let w' =
        if is_expired_status intent.status
        then record w { store = put_intent live w.store }
        else w in
      if is_mempool confidence && is_awaiting_deposit live.status
      then transition live IntentStatus.deposit_seen dep w'
      else if not (is_mempool confidence)
          && (is_awaiting_deposit live.status || is_deposit_seen live.status)
      then transition live IntentStatus.confirmed dep w'
      else (ok tt, w')

  -- Mint directly; behind a router sink the same call is made by the release strategy.
  unfoldable pub route_mint : NormalizedBurnEvent → M (Unit {0})
  route_mint e =
      if money_loop_enabled config && not (is_mempool e.confidence)
      then mint_for_deposit_key env config e.burn_tx_id >> pure tt
      else pure tt

  unfoldable pub known_deposit :
      DepositEvent → Option BtcIntent → Option DepositRecord → DepositRecord
  known_deposit e intent none = fresh_deposit e intent
  known_deposit e intent (some dep) = dep

  -- The deposit is recorded: move its intent, if there is one, and mint.
  unfoldable pub after_record : DepositEvent → Option BtcIntent → DepositRecord → M (Unit {0})
  after_record e none dep = route_mint e.event
  after_record e (some intent) dep = move_intent e.confidence intent dep >> route_mint e.event

  unfoldable pub handle_deposit : DepositEvent → M (Unit {0})
  handle_deposit e w =
      let intent = find_deposit_intent_by_address e.address w.store in
      let known = known_deposit e intent (get_deposit e.burn_tx_id w.store) in
      (record_deposit e (refreshed e known) >>= after_record e intent) w

  unfoldable pub on_deposit_event : DepositEvent → M (Unit {0})
  unfolding is_news
  on_deposit_event e w =
      if not (is_news (lookup e.burn_tx_id w.seen) e.confidence)
      then (ok tt, w)
      else handle_deposit e (record w { seen = insert e.burn_tx_id e.confidence w.seen })

  abbrev is_stale : ℕ → BtcIntent → Bool
  is_stale now i =
      (is_awaiting_deposit i.status || is_awaiting_receipt i.status) && ltb i.expires_at now

  unfoldable pub expire_intent : ℕ → BtcIntent → M (Unit {0})
  expire_intent now i =
      if is_stale now i
      then on_store (put_intent (record i { status = IntentStatus.expired; updated_at = now }))
      else pure tt

  unfoldable pub expire_stale_intents : M (Unit {0})
  expire_stale_intents = do
    now ← gets (λ v. env.now v.trace)
    intents ← gets (λ v. list_intents v.store)
    for_each intents (expire_intent now)
