-- ===== src/Watchers/Solana.antt =====
-- relayer/src/watchers/solana.ts: the watcher of the bridge program. The answers of the node, what
-- the parser of the Anchor library reads from the logs, the decoder of UTF-8, the clock and the ids of
-- new transfers are parameters; amounts are taken as whole numbers. Log lines are left out.
pub mod Shown
pub mod Backed
use soqtec.Base.{
  ℕ, zero, suc, ◌+◌, ◌-◌, Bool, true, false, Option, none, some, List, [], ◌∷◌, ◌++◌, Text, text,
  Result, ok, err, ltb, ◌===◌, if◌then◌else◌, filter, length, drop,
}
use mathlib.Core.List.{reverse}
use soqtec.Queue.{
  Transfer, TransferDirection, TransferStatus, TransferQueue, enqueue, solana_to_soqucoin,
}

pub record BurnEvent : Type 0 where
  pub user : Text
  pub amount : ℕ
  pub net_amount : ℕ
  pub fee : ℕ
  pub soq_address : Text
  pub nonce : ℕ
  pub timestamp : ℕ
  pub tx_signature : Text

-- An event that the parser reads from the logs.
pub record LogEvent : Type 0 where
  pub name : Text
  pub user : Text
  pub amount : ℕ
  pub net_amount : ℕ
  pub fee : ℕ
  pub soq_address : List ℕ
  pub nonce : ℕ
  pub timestamp : ℕ

pub record Meta : Type 0 where
  pub failure : Option Text
  pub log_messages : Option (List Text)

pub record SolanaTx : Type 0 where
  pub slot : ℕ
  pub meta : Option Meta

-- The watcher, and the queue that it feeds.
pub record Watch : Type 0 where
  pub last_signature : Option Text
  pub burn_events : List BurnEvent
  pub queue : TransferQueue

-- `signatures` lists the newest first, at most as many as asked for; `parse_logs` are the events that
-- the parser yields before it ends or fails.
pub record Node : Type 0 where
  pub now : Watch → ℕ
  pub new_id : Watch → Text
  pub signatures : Watch → Option Text → ℕ → Result Text (List Text)
  pub transaction : Watch → Text → Result Text (Option SolanaTx)
  pub parse_logs : List Text → List LogEvent
  pub utf8 : List ℕ → Text

abbrev pub or_empty : Option (List Text) → List Text
or_empty none = []
or_empty (some logs) = logs

-- An empty text is no signature.
abbrev until_of : Option Text → Option Text
until_of none = none
until_of (some []) = none
until_of (some (c ∷ cs)) = some (c ∷ cs)

abbrev first_or : Option Text → List Text → Option Text
first_or old [] = old
first_or old (s ∷ ss) = some s

-- The events of a transaction that the node shows, with its logs, as one that did not fail.
unfoldable pub events_of :
    (List Text → List LogEvent) → Result Text (Option SolanaTx) → List LogEvent
events_of parse_logs (err message) = []
events_of parse_logs (ok none) = []
events_of parse_logs (ok (some tx)) = elim tx.meta [
  | none ↦ []
  | some meta ↦ elim meta.failure [
    | some failure ↦ []
    | none ↦ parse_logs (or_empty meta.log_messages)
  ]
]

module _ (env : Node) where
  unfoldable pub burn_of : Text → LogEvent → BurnEvent
  burn_of signature e = record {
    user = e.user;
    amount = e.amount;
    net_amount = e.net_amount;
    fee = e.fee;
    soq_address = filter (λ c. ltb 0 c) (env.utf8 e.soq_address);
    nonce = e.nonce;
    timestamp = e.timestamp;
    tx_signature = signature;
  }

  unfoldable pub transfer_of : ℕ → BurnEvent → Transfer
  transfer_of now burn = record {
    id = [];
    direction = solana_to_soqucoin;
    source_tx = burn.tx_signature;
    amount = burn.net_amount;
    destination_address = burn.soq_address;
    timestamp = now;
    status = TransferStatus.pending;
    required_confirmations = none;
    current_confirmations = none;
    destination_tx = none;
    error = none;
    retry_count = 0;
  }

  unfoldable pub on_event : Text → Watch → LogEvent → Watch
  on_event signature w e =
      let burn = burn_of signature e in
      if e.name === text "burnForRedemptionEvent"
      then record w {
        burn_events = w.burn_events ++ (burn ∷ []);
        queue = enqueue (env.new_id w) (transfer_of (env.now w) burn) w.queue;
      }
      else w

  unfoldable pub on_events : Text → List LogEvent → Watch → Watch
  on_events signature [] w = w
  on_events signature (e ∷ es) w = on_events signature es (on_event signature w e)

  unfoldable pub process_transaction : Watch → Text → Watch
  process_transaction w signature =
      on_events signature (events_of env.parse_logs (env.transaction w signature)) w

  unfoldable pub process_all : List Text → Watch → Watch
  process_all [] w = w
  process_all (s ∷ ss) w = process_all ss (process_transaction w s)

  -- The list is reversed in place, so that its first element, the next cursor, is the oldest signature.
  abbrev poll_list : Result Text (List Text) → Watch → Watch
  poll_list (err message) w = w
  poll_list (ok sigs) w =
      let reversed = reverse sigs in
      record (process_all reversed w) { last_signature = first_or w.last_signature reversed }

  unfoldable pub poll : Watch → Watch
  poll w = poll_list (env.signatures w (until_of w.last_signature) 20) w

  abbrev start_list : Result Text (List Text) → Watch → Watch
  start_list (err message) w = w
  start_list (ok sigs) w = record w { last_signature = first_or w.last_signature sigs }

  -- `start`, less its timer.
  unfoldable pub start : Watch → Watch
  start w = start_list (env.signatures w none 1) w

-- `slice(-0)` is the whole list.
unfoldable pub get_recent_burns : ℕ → Watch → List BurnEvent
get_recent_burns zero w = reverse w.burn_events
get_recent_burns (suc n) w = reverse (drop (length w.burn_events - suc n) w.burn_events)

unfoldable pub sum_amounts : List BurnEvent → ℕ
sum_amounts [] = 0
sum_amounts (e ∷ es) = e.amount + sum_amounts es

unfoldable pub get_total_burned : Watch → ℕ
get_total_burned w = sum_amounts w.burn_events

unfoldable pub get_burn_count : Watch → ℕ
get_burn_count w = length w.burn_events
