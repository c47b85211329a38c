-- ===== src/Queue.antt =====
-- relayer/src/queue.ts: the transfer queue of the bridge. A transfer that fails is tried again, three
-- times in all. The node and the bridge program answer as functions of the calls made so far. A
-- firing of the timer runs to its end, so that the flag `processing` is never seen set.
pub mod Retries
pub mod Failures
mod Tests
use soqtec.Base.{
  ℕ, zero, suc, ◌+◌, ◌*◌, ◌^◌, Bool, true, false, ◌&&◌, ◌||◌, not, Option, none, some, List, [],
  ◌∷◌, ◌++◌, Text, text, Result, ok, err, ltb, ◌===◌, if◌then◌else◌, find, filter, length, is_some,
}
use soqtec.Attestation.{decimal}

pub data TransferDirection : Type 0 where
  solana_to_soqucoin soqucoin_to_solana : TransferDirection

pub data TransferStatus : Type 0 where
  pending pending_confirmations signing submitting completed failed : TransferStatus

pub record Transfer : Type 0 where
  pub id : Text
  pub direction : TransferDirection
  pub source_tx : Text
  pub amount : ℕ
  pub destination_address : Text
  pub timestamp : ℕ
  pub status : TransferStatus
  pub required_confirmations : Option ℕ
  pub current_confirmations : Option ℕ
  pub destination_tx : Option Text
  pub error : Option Text
  pub retry_count : ℕ

-- `send` is `sendtoaddress`, `mint` is `mintFromDeposit`, `get_transaction` the look for a deposit.
pub data Call : Type 0 where
  send : Text → ℕ → Text → Call
  mint : Text → ℕ → Text → Call
  get_transaction : Text → Call

abbrev pub Trace : Type 0
Trace = List Call

pub record Answers : Type 0 where
  pub now : Trace → ℕ
  pub send : Trace → Transfer → Result Text Text
  pub mint : Trace → Transfer → Result Text Text
  pub confirmations : Trace → Text → Result Text (Option ℕ)
  pub executor_ready : Trace → Bool

pub record TransferQueue : Type 0 where
  pub queue : List Transfer
  pub completed : List Transfer
  pub processed_source_txs : List Text
  pub trace : Trace

unfoldable pub has : Text → List Text → Bool
has k [] = false
has k (j ∷ js) = let rest = has k js in if j === k then true else rest

-- `enqueue`; `id` is the new id, of the clock and a random text.
unfoldable pub enqueue : Text → Transfer → TransferQueue → TransferQueue
enqueue id t q = if has t.source_tx q.processed_source_txs then q else record q {
  processed_source_txs = t.source_tx ∷ q.processed_source_txs;
  queue = q.queue ++ (record t { id = id; retry_count = 0 } ∷ []);
}

abbrev pub is_pending : TransferStatus → Bool
is_pending pending = true
is_pending _ = false

-- `requiredConfirmations || 6`
abbrev pub required : Option ℕ → ℕ
required none = 6
required (some zero) = 6
required (some (suc n)) = suc n

abbrev pub short_of : Option ℕ → ℕ → Bool
short_of none n = false
short_of (some c) n = ltb c n

abbrev count_of : Option ℕ → ℕ
count_of none = 0
count_of (some c) = c

-- `!txInfo || txInfo.confirmations < …`
abbrev pub unconfirmed : Option ℕ → ℕ → Bool
unconfirmed none n = true
unconfirmed (some c) n = ltb c n

-- The messages of the two checks below leave out the numbers that the code prints in them.
module _ (env : Answers) (min_transfer_soq : ℕ) where
  -- Both sides of the minimum are divided by 1e9 in the code.
  unfoldable pub process_sol_to_soq : Transfer → Trace → Result Text Text × Trace
  process_sol_to_soq t trace =
      if ltb (length t.destination_address) 10
      then (err (text "Invalid SOQ address: " ++ t.destination_address), trace)
      else if ltb t.amount min_transfer_soq
      then (err (text "Amount below minimum transfer"), trace)
      else (env.send trace t, send t.source_tx t.amount t.destination_address ∷ trace)

  unfoldable pub mint_verified : Transfer → Trace → Result Text Text × Trace
  mint_verified t trace =
      if env.executor_ready trace
      then (env.mint trace t, mint t.source_tx (t.amount * 10 ^ 9) t.destination_address ∷ trace)
      else (ok (text "pending_mint_" ++ decimal (env.now trace)), trace)

  unfoldable pub process_soq_to_sol : Transfer → Trace → Result Text Text × Trace
  process_soq_to_sol t trace =
      if short_of t.current_confirmations (required t.required_confirmations)
      then (err (text "Only some confirmations"), trace)
      else let trace' = get_transaction t.source_tx ∷ trace in
        elim (env.confirmations trace t.source_tx) [
          | err message ↦ (err (text "Could not verify L1 deposit: " ++ message), trace')
          | ok found ↦
              if unconfirmed found (required t.required_confirmations)
              then (
                err (
                    text "Could not verify L1 deposit: Insufficient confirmations: "
                    ++ decimal (count_of found)),
                trace',
              )
              else mint_verified t trace'
        ]

  unfoldable pub process : Transfer → Trace → Result Text Text × Trace
  process t trace = elim t.direction [
    | solana_to_soqucoin ↦ process_sol_to_soq t trace
    | soqucoin_to_solana ↦ process_soq_to_sol t trace
  ]

-- The catch block: the third failure is final, the first two leave the transfer pending.
unfoldable pub fail : Text → Transfer → Transfer
fail message t = record t {
  error = some message;
  retry_count = t.retry_count + 1;
  status = if ltb (t.retry_count + 1) 3 then TransferStatus.pending else TransferStatus.failed;
}

abbrev pub complete : Text → Transfer → Transfer
complete txid t = record t { status = TransferStatus.completed; destination_tx = some txid }

-- Assign to the transfer that `queue.find(t => t.status === 'pending')` returns.
unfoldable pub replace_pending : Transfer → List Transfer → List Transfer
replace_pending y [] = []
replace_pending y (t ∷ ts) =
    let rest = replace_pending y ts in if is_pending t.status then y ∷ ts else t ∷ rest

abbrev pub settle : Transfer → Result Text Text × Trace → TransferQueue → TransferQueue
settle t (ok txid, trace) q = record q {
  queue = filter (λ u. not (u.id === t.id)) (replace_pending (complete txid t) q.queue);
  completed = q.completed ++ (complete txid t ∷ []);
  trace = trace;
}
settle t (err message, trace) q = record q {
  queue = replace_pending (fail message t) q.queue;
  trace = trace;
}

unfoldable pub process_next : Answers → ℕ → TransferQueue → TransferQueue
process_next env min_transfer_soq q = elim (find (λ t. is_pending t.status) q.queue) [
  | none ↦ q
  | some t ↦ settle t (process env min_transfer_soq t q.trace) q
]
