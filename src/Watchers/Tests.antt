-- ===== src/Watchers/Tests.antt =====
-- watchers/soqucoin.ts and queue.ts on a block that pays the vault; watchers/solana.ts on two burns,
-- of which the younger one is listed twice.
use soqtec.Base.{◌≡◌, refl, true, none, some, List, [], ◌∷◌, text, ok, All, ◌===◌, if◌then◌else◌}
use soqtec.Queue.{Answers}
use soqtec.Watchers.Soqucoin.{Watch, Node}
use soqtec.Watchers.Solana
use soqtec.Watchers.Solana.Backed.{IsRelease, run_watch-IsRelease}
use soqtec.Watchers.Solana.Backed as Backed
use soqtec.Watchers.Soqucoin.Unpaid.{polls, fires, run_watch, run_watch-no_call}

abbrev node : Node
node = record {
  now = λ q. 1000;
  new_id = λ q. text "t1";
  height = λ w. ok 12;
  block = λ h. ok (record {
    time = 900;
    txs =
        record {
          txid = text "tx1";
          outputs = record { addresses = text "vault" ∷ []; value = 25 } ∷ [];
          from = none;
        }
        ∷ [];
  });
}

abbrev watch : Watch
watch = record {
  last_block_height = 10;
  deposits = [];
  queue = record { queue = []; completed = []; processed_source_txs = []; trace = [] };
}

abbrev answers : Answers
answers = record {
  now = λ t. 1000;
  send = λ t x. ok (text "s1");
  mint = λ t x. ok (text "m1");
  confirmations = λ t x. ok (some 100);
  executor_ready = λ t. true;
}

run_watch-no_call_example :
    (run_watch node (text "vault") answers 1 (polls ∷ fires ∷ polls ∷ fires ∷ []) watch).queue.trace
    ≡ []
run_watch-no_call_example =
    run_watch-no_call node (text "vault") answers 1 (polls ∷ fires ∷ polls ∷ fires ∷ []) watch tt
      refl

abbrev burn : Solana.LogEvent
burn = record {
  name = text "burnForRedemptionEvent";
  user = text "u";
  amount = 1001;
  net_amount = 1000;
  fee = 1;
  soq_address = text "ssq1234567890";
  nonce = 1;
  timestamp = 7;
}

abbrev solana_node : Solana.Node
solana_node = record {
  now = λ w. 1000;
  new_id = λ w. elim w.queue.queue [ [] ↦ text "t1" | _ ∷ _ ↦ text "t2" ];
  signatures = λ w until n. elim until [
    | none ↦ ok []
    | some s ↦ if s === text "s0" then ok (text "s2" ∷ text "s1" ∷ []) else ok (text "s2" ∷ [])
  ];
  transaction = λ w s. ok (
      some (record {
        slot = 3;
        meta = some (record { failure = none; log_messages = some (s ∷ []) });
      }));
  parse_logs = λ logs. burn ∷ [];
  utf8 = λ bytes. bytes;
}

abbrev solana_watch : Solana.Watch
solana_watch = record {
  last_signature = some (text "s0");
  burn_events = [];
  queue = record { queue = []; completed = []; processed_source_txs = []; trace = [] };
}

abbrev solana_ops : List Backed.WatchOp
solana_ops = Backed.polls ∷ Backed.fires ∷ Backed.polls ∷ Backed.fires ∷ Backed.fires ∷ []

run_watch-IsRelease_example :
    All
      (IsRelease solana_node)
      (Backed.run_watch solana_node answers 1 solana_ops solana_watch).queue.trace
run_watch-IsRelease_example =
    run_watch-IsRelease solana_node answers 1 solana_ops solana_watch refl refl
