-- ===== src/Gateway/Poll.antt =====
-- btcsoq/gateway.ts and cea/bitcoin-cea.ts: the start of the gateway, and the poll that feeds it
-- deposits. The gateway's `onDepositEvent` is the callback of the adapter; one poll reads the clock
-- once. Timers are operations of the environment.
use soqtec.Base.{
  ℕ, Bool, true, false, ◌&&◌, not, Option, none, some, List, [], ◌∷◌, Text, Dict, insert, ok, ◌===◌,
  if◌then◌else◌, length,
}
use soqtec.Chain.{BurnConfidence}
use soqtec.Bitcoin.{DepositEvent, poll_burns}
use soqtec.Store.{load, new_store, list_deposits, set_poll_cursor}
use soqtec.Store.Records.{DepositRecord}
use soqtec.Gateway.World.{
  Answers, BtcsoqConfig, World, M, pure, ask, modify, on_store, finally, ◌>>=◌, ◌>>◌, for_each,
  query, load_wallet, truthy, in_set, money_loop_enabled,
}
use soqtec.Gateway.Deposits.{on_deposit_event, expire_stale_intents}
use soqtec.Gateway.Tick.{recover_in_flight}

module _ (env : Answers) (config : BtcsoqConfig) where
  -- The poll, and the cursor that is taken over before any event is handed on.
  unfoldable pub cea_poll : M (List DepositEvent)
  cea_poll w =
      let t = w.trace in
      let poll =
        poll_burns config.finality_conf (env.now t) (env.best_block_hash t) (env.list_since_block t)
          w.cea.cursor in
      (
        ok poll.burns,
        record w {
          cea = record (w.cea) { cursor = some poll.next_ref; healthy = poll.node_up };
          trace = query ∷ t;
        },
      )

  unfoldable pub hand_on : List DepositEvent → M ℕ
  hand_on burns = for_each burns (on_deposit_event env config) >> pure (length burns)

  abbrev set_checking : Bool → World → World
  set_checking b w = record w { cea = record (w.cea) { checking = b } }

  -- `checkNow` of the adapter.
  unfoldable pub cea_check_now : M ℕ
  cea_check_now w =
      if w.cea.checking
      then (ok 0, w)
      else finally (cea_poll >>= hand_on) (set_checking false) (set_checking true w)

  abbrev same_cursor : Text → Option Text → Bool
  same_cursor cursor none = false
  same_cursor cursor (some stored) = cursor === stored

  abbrev new_cursor : Option Text → Option Text → Option Text
  new_cursor none stored = none
  new_cursor (some cursor) stored =
      if truthy cursor && not (same_cursor cursor stored) then some cursor else none

  abbrev store_cursor : Option Text → M (Unit {0})
  store_cursor none = pure tt
  store_cursor (some cursor) = on_store (set_poll_cursor cursor)

  unfoldable pub save_cursor : M (Unit {0})
  save_cursor w = store_cursor (new_cursor w.cea.cursor w.store.state.poll_cursor) w

  -- `checkNow` of the gateway.
  unfoldable pub check_now : M ℕ
  check_now = do n ← cea_check_now; save_cursor; expire_stale_intents env config; pure n

  unfoldable pub prime : List DepositRecord → Dict BurnConfidence → Dict BurnConfidence
  prime [] seen = seen
  prime (d ∷ ds) seen = prime ds (insert d.key d.confidence seen)

  abbrev start_cursor : Option Text → M Text
  start_cursor none = ask query (λ t. env.best_block_hash t)
  start_cursor (some []) = ask query (λ t. env.best_block_hash t)
  start_cursor (some (c ∷ saved)) = pure (c ∷ saved)

  abbrev ensure_wallet : List Text → M (Unit {0})
  ensure_wallet wallets =
      if in_set config.deposit_wallet wallets
      then pure tt
      else ask (load_wallet config.deposit_wallet) (λ t. env.load_wallet t config.deposit_wallet)

  -- `start` of the adapter.
  unfoldable pub cea_start : Option Text → M (Unit {0})
  cea_start saved = do
    ask query (λ t. env.blockchain_info t) >> pure tt
    wallets ← ask query (λ t. env.list_wallets t)
    ensure_wallet wallets
    cursor ← start_cursor saved
    modify (λ v. record v { cea = record (v.cea) { cursor = some cursor; healthy = true } })

  unfoldable pub recover_if_enabled : M (Unit {0})
  recover_if_enabled = if money_loop_enabled config then recover_in_flight env config else pure tt

  unfoldable pub start : M (Unit {0})
  unfolding prime
  start w =
      let store = load w.store in
      let primed = record w { store = store; seen = prime (list_deposits store) w.seen } in
      (cea_start store.state.poll_cursor >> recover_if_enabled) primed

  -- The process stops and another one starts on the file; the calls that were made stay made.
  unfoldable pub reboot : M (Unit {0})
  reboot w = start (record {
    store = new_store w.store.file;
    seen = [];
    por_halted = false;
    minting_in_flight = [];
    converting_in_flight = [];
    ln402_in_flight = [];
    money_loop_running = false;
    anchoring = false;
    cea = record { cursor = none; healthy = false; checking = false };
    trace = w.trace;
  })
