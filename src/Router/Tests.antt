-- ===== src/Router/Tests.antt =====
-- cea/router.ts on one burn that PAUL refuses.
use soqtec.Base.{◌≤◌, Bool, true, false, none, List, [], ◌∷◌, Text, text, ok, err}
use soqtec.Chain.{NormalizedBurnEvent, ChainId, BurnConfidence}
use soqtec.Router.{Answers, World, Router, event_key, on_burn_detected}
use soqtec.Router.Dedup.{
  Op, burn, halts, resumes, run, paul_calls, direct_calls, release_at_most_once,
}

abbrev env : Answers
env = record {
  now = λ t. 1000;
  paul_release = λ t e. err (text "lane timeout");
  direct_release = λ t e. ok (text "direct-tx");
  strategy_release = λ t m e. ok none;
}

abbrev event : BurnConfidence → NormalizedBurnEvent
event confidence = record {
  chain = ChainId.solana;
  burn_tx_id = text "burn-1";
  gross_amount = 100;
  net_amount_soq = 90;
  fee_amount = 10;
  recipient_soq = text "soq1";
  nonce = 1;
  confidence = confidence;
  detected_at = 5;
  finalized_at = none;
}

abbrev router : Bool → Router
router halted = record {
  release_policy = BurnConfidence.finalized;
  adapters = [];
  seen_set = [];
  releases = [];
  halted = halted;
}

abbrev world : Bool → World
world halted = record { router = router halted; trace = [] }

abbrev key : Text
key = event_key (event BurnConfidence.mempool)

abbrev ops : List Op
ops =
    burn (event BurnConfidence.finalized)
    ∷ halts
    ∷ resumes
    ∷ burn (event BurnConfidence.finalized)
    ∷ []

release_at_most_once_example :
    (paul_calls key (run env (world false) ops).trace ≤ 1)
    × (direct_calls key (run env (world false) ops).trace
        ≤ paul_calls key (run env (world false) ops).trace)
release_at_most_once_example = release_at_most_once env (router false) ops key

-- A burn that was seen in the mempool while the router was halted.
abbrev after_halt : World
after_halt = on_burn_detected env (world true) (event BurnConfidence.mempool)
