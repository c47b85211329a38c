-- ===== src/Gateway/Guarded/Steps/Deposits.antt =====
-- btcsoq/gateway.ts: deposit events and the expiry of intents.
use soqtec.Base.{ℕ, Option, none, some, List, arith}
use soqtec.Chain.{BurnConfidence, NormalizedBurnEvent}
use soqtec.Store.Records.{DepositRecord, BtcIntent, IntentStatus}
use soqtec.Gateway.World.{Answers, BtcsoqConfig, for_each}
use soqtec.Bitcoin.{DepositEvent}
use soqtec.Gateway.Deposits.{
  record_deposit, transition, move_intent, route_mint, after_record, handle_deposit,
  on_deposit_event, expire_intent, expire_stale_intents,
}
use soqtec.Gateway.Guarded.{Keeps}
use soqtec.Gateway.Guarded.Steps.Answer.{attest-Keeps}
use soqtec.Gateway.Guarded.Steps.Mint.{mint_for_deposit_key-Keeps}
use soqtec.Gateway.Guarded.Steps.Redeem.{for_each-Keeps}

module _ (env : Answers) (config : BtcsoqConfig) where
  record_deposit-Keeps :
      (e : DepositEvent) (d : DepositRecord) → Keeps env (record_deposit env config e d)
  unfolding record_deposit
  record_deposit-Keeps e d w h = ground arith

  transition-Keeps :
      (i : BtcIntent) (s : IntentStatus) (d : DepositRecord)
      → Keeps env (transition env config i s d)
  unfolding transition
  transition-Keeps i s d w h = grind (arith, attest-Keeps)

  move_intent-Keeps :
      (c : BurnConfidence) (i : BtcIntent) (d : DepositRecord)
      → Keeps env (move_intent env config c i d)
  unfolding move_intent
  move_intent-Keeps c i d w h = grind (arith, transition-Keeps)

  route_mint-Keeps : (e : NormalizedBurnEvent) → Keeps env (route_mint env config e)
  unfolding route_mint
  route_mint-Keeps e w h = grind (arith, mint_for_deposit_key-Keeps)

  after_record-Keeps :
      (e : DepositEvent) (i : Option BtcIntent) (d : DepositRecord)
      → Keeps env (after_record env config e i d)
  unfolding after_record
  after_record-Keeps e none d w h = grind (arith, route_mint-Keeps)
  after_record-Keeps e (some i) d w h = grind (arith, move_intent-Keeps, route_mint-Keeps)

  handle_deposit-Keeps : (e : DepositEvent) → Keeps env (handle_deposit env config e)
  unfolding handle_deposit
  handle_deposit-Keeps e w h = grind (arith, record_deposit-Keeps, after_record-Keeps)

  pub on_deposit_event-Keeps : (e : DepositEvent) → Keeps env (on_deposit_event env config e)
  unfolding on_deposit_event
  on_deposit_event-Keeps e w h = grind (arith, handle_deposit-Keeps)

  expire_intent-Keeps : (now : ℕ) (i : BtcIntent) → Keeps env (expire_intent env config now i)
  unfolding expire_intent
  expire_intent-Keeps now i w h = ground arith

  expire_intents-Keeps :
      (now : ℕ) (is : List BtcIntent) → Keeps env (for_each is (expire_intent env config now))
  expire_intents-Keeps now is =
      for_each-Keeps env is (expire_intent env config now) (expire_intent-Keeps now)

  pub expire_stale_intents-Keeps : Keeps env (expire_stale_intents env config)
  unfolding expire_stale_intents
  expire_stale_intents-Keeps w h = grind (arith, expire_intents-Keeps)
