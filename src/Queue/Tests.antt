-- ===== src/Queue/Tests.antt =====
-- queue.ts on one transfer that the node pays and answers with a timeout.
use soqtec.Base.{◌≡◌, ◌≤◌, true, false, none, some, List, [], ◌∷◌, text, ok, err}
use soqtec.Queue.{Transfer, TransferStatus, TransferDirection, send, Answers, TransferQueue, has}
use soqtec.Queue.Retries.{
  QueueOp, arrives, fires, empty_queue, run_queue, payments, pay_three_times_at_most,
}

abbrev env : Answers
env = record {
  now = λ t. 1000;
  send = λ t x. err (text "timeout");
  mint = λ t x. ok (text "sig");
  confirmations = λ t x. ok (some 6);
  executor_ready = λ t. true;
}

abbrev burn : Transfer
burn = record {
  id = text "1";
  direction = TransferDirection.solana_to_soqucoin;
  source_tx = text "burn-1";
  amount = 5000;
  destination_address = text "soq1address";
  timestamp = 1;
  status = TransferStatus.pending;
  required_confirmations = none;
  current_confirmations = none;
  destination_tx = none;
  error = none;
  retry_count = 0;
}

abbrev ops : List QueueOp
ops = arrives (text "1") burn ∷ fires ∷ arrives (text "2") burn ∷ fires ∷ fires ∷ fires ∷ []

pay_three_times_at_most_example :
    (payments (text "burn-1") (run_queue env 1000 ops empty_queue).trace ≤ 3)
    × (has (text "burn-1") (run_queue env 1000 ops empty_queue).processed_source_txs ≡ false
        → payments (text "burn-1") (run_queue env 1000 ops empty_queue).trace ≡ 0)
pay_three_times_at_most_example = pay_three_times_at_most env 1000 (text "burn-1") ops

abbrev waiting : TransferQueue
waiting = record empty_queue { queue = burn ∷ [] }
