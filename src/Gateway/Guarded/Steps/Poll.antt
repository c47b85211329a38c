-- ===== src/Gateway/Guarded/Steps/Poll.antt =====
-- btcsoq/gateway.ts: the poll, the start, new intents and the anchor keep the payments guarded.
use soqtec.Base.{Bool, Option, none, some, List, [], ◌∷◌, Text, arith}
use soqtec.Bitcoin.{DepositEvent}
use soqtec.Store.Records.{BtcIntent}
use soqtec.Gateway.World.{Answers, BtcsoqConfig, for_each, SignedTx}
use soqtec.Gateway.Anchor.{LedgerRoot, send_signed, send_payload, publish, try_publish, anchor_now}
use soqtec.Gateway.Deposits.{on_deposit_event}
use soqtec.Gateway.Intents.{
  require_valid_ssq, store_intent, open_deposit, open_redeem, create_deposit_intent,
  create_redeem_intent,
}
use soqtec.Gateway.Poll.{
  cea_poll, hand_on, cea_check_now, save_cursor, check_now, cea_start, recover_if_enabled, start,
  reboot,
}
use soqtec.Gateway.Guarded.{Keeps}
use soqtec.Gateway.Guarded.Steps.Deposits.{on_deposit_event-Keeps, expire_stale_intents-Keeps}
use soqtec.Gateway.Guarded.Steps.Redeem.{for_each-Keeps}
use soqtec.Gateway.Guarded.Steps.Run.{recover_in_flight-Keeps}

module _ (env : Answers) (config : BtcsoqConfig) where
  require_valid_ssq-Keeps : (ssq : Text) → Keeps env (require_valid_ssq env config ssq)
  unfolding require_valid_ssq
  require_valid_ssq-Keeps ssq w h = grind arith

  store_intent-Keeps : (i : BtcIntent) → Keeps env (store_intent env config i)
  unfolding store_intent
  store_intent-Keeps i w h = h

  open_deposit-Keeps : (ssq : Text) → Keeps env (open_deposit env config ssq)
  unfolding open_deposit
  open_deposit-Keeps ssq w h = grind (arith, store_intent-Keeps)

  open_redeem-Keeps : (ssq payout : Text) → Keeps env (open_redeem env config ssq payout)
  unfolding open_redeem
  open_redeem-Keeps ssq payout w h = grind (arith, store_intent-Keeps)

  pub create_deposit_intent-Keeps : (ssq : Text) → Keeps env (create_deposit_intent env config ssq)
  unfolding create_deposit_intent
  create_deposit_intent-Keeps ssq w h = grind (arith, require_valid_ssq-Keeps, open_deposit-Keeps)

  pub create_redeem_intent-Keeps :
      (ssq payout : Text) → Keeps env (create_redeem_intent env config ssq payout)
  unfolding create_redeem_intent
  create_redeem_intent-Keeps ssq payout w h =
      grind (arith, require_valid_ssq-Keeps, open_redeem-Keeps)

  cea_poll-Keeps : Keeps env (cea_poll env config)
  unfolding cea_poll
  cea_poll-Keeps w h = (tt, h)

  each_event-Keeps :
      (es : List DepositEvent) → Keeps env (for_each es (on_deposit_event env config))
  each_event-Keeps es =
      for_each-Keeps env es (on_deposit_event env config) (on_deposit_event-Keeps env config)

  hand_on-Keeps : (es : List DepositEvent) → Keeps env (hand_on env config es)
  unfolding hand_on
  hand_on-Keeps es w h = grind (arith, each_event-Keeps)

  cea_check_now-Keeps : Keeps env (cea_check_now env config)
  unfolding cea_check_now
  cea_check_now-Keeps w h = grind (arith, cea_poll-Keeps, hand_on-Keeps)

  save_cursor-Keeps : Keeps env (save_cursor env config)
  unfolding save_cursor
  save_cursor-Keeps w h = grind arith

  pub check_now-Keeps : Keeps env (check_now env config)
  unfolding check_now
  check_now-Keeps w h =
      grind (arith, cea_check_now-Keeps, save_cursor-Keeps, expire_stale_intents-Keeps)

  cea_start-Keeps : (saved : Option Text) → Keeps env (cea_start env config saved)
  unfolding cea_start
  cea_start-Keeps none w h = grind arith
  cea_start-Keeps (some []) w h = grind arith
  cea_start-Keeps (some (c ∷ s)) w h = grind arith

  recover_if_enabled-Keeps : Keeps env (recover_if_enabled env config)
  unfolding recover_if_enabled
  recover_if_enabled-Keeps w h = grind (arith, recover_in_flight-Keeps)

  start-Keeps : Keeps env (start env config)
  unfolding start
  start-Keeps w h = grind (arith, cea_start-Keeps, recover_if_enabled-Keeps)

  pub reboot-Keeps : Keeps env (reboot env config)
  unfolding reboot
  reboot-Keeps w h = grind (arith, start-Keeps)

module _ (env : Answers) where
  send_signed-Keeps : (s : SignedTx) → Keeps env (send_signed env s)
  unfolding send_signed
  send_signed-Keeps s w h = grind arith

  send_payload-Keeps : (r : LedgerRoot) → Keeps env (send_payload env r)
  unfolding send_payload
  send_payload-Keeps r w h = grind (arith, send_signed-Keeps)

  publish-Keeps : (r : LedgerRoot) → Keeps env (publish env r)
  unfolding publish
  publish-Keeps r w h = grind (arith, send_payload-Keeps)

  try_publish-Keeps : (r : LedgerRoot) → Keeps env (try_publish env r)
  unfolding try_publish
  try_publish-Keeps r w h = grind (arith, publish-Keeps)

  pub anchor_now-Keeps : (force : Bool) → Keeps env (anchor_now env force)
  unfolding anchor_now
  anchor_now-Keeps force w h = grind (arith, try_publish-Keeps)
