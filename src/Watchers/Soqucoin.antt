-- ===== src/Watchers/Soqucoin.antt =====
-- relayer/src/watchers/soqucoin.ts: the watcher of the Soqucoin vault. The answers of the cold node,
-- the clock and the ids of new transfers are parameters; amounts are taken as whole numbers.
pub mod Unpaid
use soqtec.Base.{
  ℕ, zero, suc, ◌+◌, ◌-◌, Bool, true, false, Option, none, some, List, [], ◌∷◌, ◌++◌, Text, text,
  Result, ok, err, leb, ltb, ◌===◌, if◌then◌else◌,
}
use soqtec.Queue.{
  Transfer, TransferDirection, TransferStatus, TransferQueue, enqueue, has, soqucoin_to_solana,
  pending_confirmations,
}

pub record VaultDeposit : Type 0 where
  pub txid : Text
  pub amount : ℕ
  pub from_address : Text
  pub confirmations : ℕ
  pub block_height : ℕ
  pub timestamp : ℕ

pub record Output : Type 0 where
  pub addresses : List Text
  pub value : ℕ

-- A transaction, with the address of its first input where the node shows it.
pub record BlockTx : Type 0 where
  pub txid : Text
  pub outputs : List Output
  pub from : Option Text

pub record Block : Type 0 where
  pub time : ℕ
  pub txs : List BlockTx

-- The watcher, and the queue that it feeds.
pub record Watch : Type 0 where
  pub last_block_height : ℕ
  pub deposits : List VaultDeposit
  pub queue : TransferQueue

pub record Node : Type 0 where
  pub now : TransferQueue → ℕ
  pub new_id : TransferQueue → Text
  pub height : Watch → Result Text ℕ
  pub block : ℕ → Result Text Block

abbrev or_unknown : Option Text → Text
or_unknown none = text "unknown"
or_unknown (some a) = a

unfoldable pub deposit_of : ℕ → ℕ → BlockTx → Output → VaultDeposit
deposit_of height time tx out = record {
  txid = tx.txid;
  amount = out.value;
  from_address = or_unknown tx.from;
  confirmations = 1;
  block_height = height;
  timestamp = time;
}

unfoldable pub transfer_of : ℕ → VaultDeposit → Transfer
transfer_of now d = record {
  id = [];
  direction = soqucoin_to_solana;
  source_tx = d.txid;
  amount = d.amount;
  destination_address = [];
  timestamp = now;
  status = pending_confirmations;
  required_confirmations = some 6;
  current_confirmations = none;
  destination_tx = none;
  error = none;
  retry_count = 0;
}

module _ (env : Node) (vault_address : Text) where
  unfoldable pub on_output : ℕ → ℕ → BlockTx → Watch → Output → Watch
  on_output height time tx w out =
      let d = deposit_of height time tx out in
      if has vault_address out.addresses
      then record w {
        deposits = w.deposits ++ (d ∷ []);
        queue = enqueue (env.new_id w.queue) (transfer_of (env.now w.queue) d) w.queue;
      }
      else w

  unfoldable pub on_outputs : ℕ → ℕ → BlockTx → List Output → Watch → Watch
  on_outputs height time tx [] w = w
  on_outputs height time tx (out ∷ outs) w =
      on_outputs height time tx outs (on_output height time tx w out)

  unfoldable pub on_txs : ℕ → ℕ → List BlockTx → Watch → Watch
  on_txs height time [] w = w
  on_txs height time (tx ∷ txs) w = on_txs height time txs (on_outputs height time tx tx.outputs w)

  -- A block that cannot be read is skipped.
  unfoldable pub scan_block : ℕ → Watch → Watch
  scan_block height w = elim (env.block height) [
    | err message ↦ w
    | ok block ↦ on_txs height block.time block.txs w
  ]

  -- `count` blocks from a height on.
  unfoldable pub scan_from : ℕ → ℕ → Watch → Watch
  scan_from zero height w = w
  scan_from (suc count) height w = scan_from count (suc height) (scan_block height w)

  abbrev poll_to : Result Text ℕ → Watch → Watch
  poll_to (err message) w = w
  poll_to (ok current) w =
      if leb current w.last_block_height
      then w
      else record (scan_from (current - w.last_block_height) (suc w.last_block_height) w) {
        last_block_height = current;
      }

  -- The balance that is read after the scan is left out.
  unfoldable pub poll : Watch → Watch
  poll w = poll_to (env.height w) w
