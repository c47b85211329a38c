-- ===== src/Gateway/Intents/Tests.antt =====
-- btcsoq/gateway.ts: the first deposit intent of an empty store.
use soqtec.Base.{◌≡◌, refl, none, some, Text, text, lookup}
use soqtec.Store.{new_store, find_deposit_intent_by_address, get_intent}
use soqtec.Store.Records.{BtcIntent, IntentKind, IntentStatus}
use soqtec.Gateway.World.{World, money_loop_enabled}
use soqtec.Gateway.Tests.{env, config, world}
use soqtec.Gateway.Intents.{
  create_deposit_intent, is_ssq_address, new_intent, require_valid_ssq, open_deposit, store_intent,
}
use soqtec.Gateway.Intents.Opened.{IsOpened, create_deposit_intent-found}

abbrev ssq : Text
ssq = text "ssq1qqqqqqqqqqqqqqqqqqqqqqqq"

abbrev empty : World
empty = world (new_store none)

abbrev opened : BtcIntent
opened =
    new_intent env config IntentKind.deposit IntentStatus.awaiting_deposit (text "u1") ssq
      (some (text "bc9")) none 1000

create_deposit_intent-found_example :
    let w' = (create_deposit_intent env config ssq empty).1 in
    IsOpened env config ssq opened empty w'
    × (find_deposit_intent_by_address (text "bc9") w'.store ≡ some opened)
unfolding create_deposit_intent is_ssq_address require_valid_ssq money_loop_enabled open_deposit
    store_intent new_intent get_intent lookup
create_deposit_intent-found_example =
    create_deposit_intent-found env config ssq empty opened (text "bc9") refl refl refl tt
