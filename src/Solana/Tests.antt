-- ===== src/Solana/Tests.antt =====
-- cea/solana-cea.ts on a webhook entry and a poll of two transactions, of which one failed.
use soqtec.Base.{true, none, some, List, [], ◌∷◌, text, ok, All, ◌===◌, if◌then◌else◌}
use soqtec.Watchers.Solana.{LogEvent}
use soqtec.Solana.{Adapter, Node, HookEvent, poll_burns, process_webhook_payload}
use soqtec.Solana.Burns.{IsBurn, channels-IsBurn}

abbrev burn : LogEvent
burn = record {
  name = text "BurnForRedemptionEvent";
  user = text "u";
  amount = 1001;
  net_amount = 1000;
  fee = 1;
  soq_address = text "ssq1";
  nonce = 1;
  timestamp = 7;
}

abbrev node : Node
node = record {
  now = λ s. 1000;
  slot = ok 5;
  signatures = λ until n. ok (text "s2" ∷ text "s1" ∷ []);
  shown = λ s. ok (
      some (record {
        slot = 3;
        meta = some (record {
          failure = if s === text "s1" then some (text "custom") else none;
          log_messages = some (s ∷ []);
        });
      }));
  at_commitment = λ c s. ok none;
  parse_logs = λ logs. burn ∷ [];
  utf8 = λ bytes. bytes;
  register_webhook = ok (text "w1");
}

abbrev adapter : Adapter
adapter = record {
  subscribed = true;
  last_signature = some (text "s0");
  healthy = true;
  webhook_id = none;
}

abbrev payload : List HookEvent
payload =
    record { kind = text "BURN"; signature = some (text "s2") }
    ∷ record { kind = text "TRANSFER"; signature = some (text "s3") }
    ∷ []

channels-IsBurn_example :
    All (IsBurn node) (poll_burns node none adapter).0.0
    × All (IsBurn node) (process_webhook_payload node payload adapter)
channels-IsBurn_example = channels-IsBurn node none payload adapter
