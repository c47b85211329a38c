-- ===== src/Watchers/Soqucoin/Unpaid.antt =====
-- watchers/soqucoin.ts and queue.ts: what becomes of the deposits that the watcher sees.
use soqtec.Base.{
  ℕ, zero, suc, ◌-◌, ◌≡◌, refl, sym, ap, subst, ◌∙◌, false, none, List, [], ◌∷◌, Text, All,
  All-append, Result-cases, Bool-cases, leb, inl, inr, find,
}
use soqtec.Queue.{Transfer, TransferQueue, Answers, enqueue, has, is_pending, process_next}
use soqtec.Watchers.Soqucoin.{
  Output, BlockTx, Watch, Node, deposit_of, transfer_of, on_output, on_outputs, on_txs, scan_block,
  scan_from, poll,
}

abbrev IsIdle : TransferQueue → Type 0
IsIdle q = All (λ t. is_pending t.status ≡ false) q.queue × (q.trace ≡ [])

no_pending :
    (ts : List Transfer)
    → All (λ t. is_pending t.status ≡ false) ts
    → find (λ t. is_pending t.status) ts ≡ none
no_pending [] h = refl
no_pending (t ∷ ts) (h, hs) = rw h (no_pending ts hs)

process_next-IsIdle :
    (answers : Answers) (min : ℕ) (q : TransferQueue) → IsIdle q → process_next answers min q ≡ q
unfolding process_next
process_next-IsIdle answers min q (h, e) = rw (process_next, no_pending q.queue h) refl

enqueue-IsIdle :
    (id : Text) (t : Transfer) (q : TransferQueue)
    → is_pending t.status ≡ false
    → IsIdle q
    → IsIdle (enqueue id t q)
unfolding enqueue
enqueue-IsIdle id t q waits (h, e) =
    let grown =
      All-append (λ t. is_pending t.status ≡ false) q.queue
        (record t { id = id; retry_count = 0 } ∷ []) h (waits, tt) in
    elim (Bool-cases (has t.source_tx q.processed_source_txs)) [
      | inl seen ↦ rw seen (h, e)
      | inr new ↦ rw new (grown, e)
    ]

-- What happens to the relayer: the watcher polls, or the timer of the queue fires.
pub data WatchOp : Type 0 where
  polls fires : WatchOp

module _ (env : Node) (vault_address : Text) where
  on_output-IsIdle :
      (height time : ℕ) (tx : BlockTx) (w : Watch) (out : Output)
      → IsIdle w.queue
      → IsIdle (on_output env vault_address height time tx w out).queue
  unfolding on_output transfer_of
  on_output-IsIdle height time tx w out h =
      let d = deposit_of height time tx out in
      elim (Bool-cases (has vault_address out.addresses)) [
        | inl paid ↦
            rw paid
              (enqueue-IsIdle (env.new_id w.queue) (transfer_of (env.now w.queue) d) w.queue refl h)
        | inr other ↦ rw other h
      ]

  on_outputs-IsIdle :
      (height time : ℕ) (tx : BlockTx) (outs : List Output) (w : Watch)
      → IsIdle w.queue
      → IsIdle (on_outputs env vault_address height time tx outs w).queue
  unfolding on_outputs
  on_outputs-IsIdle height time tx [] w h = h
  on_outputs-IsIdle height time tx (out ∷ outs) w h =
      on_outputs-IsIdle height time tx outs (on_output env vault_address height time tx w out)
        (on_output-IsIdle height time tx w out h)

  on_txs-IsIdle :
      (height time : ℕ) (txs : List BlockTx) (w : Watch)
      → IsIdle w.queue
      → IsIdle (on_txs env vault_address height time txs w).queue
  unfolding on_txs
  on_txs-IsIdle height time [] w h = h
  on_txs-IsIdle height time (tx ∷ txs) w h =
      on_txs-IsIdle height time txs (on_outputs env vault_address height time tx tx.outputs w)
        (on_outputs-IsIdle height time tx tx.outputs w h)

  scan_block-IsIdle :
      (height : ℕ) (w : Watch)
      → IsIdle w.queue
      → IsIdle (scan_block env vault_address height w).queue
  unfolding scan_block
  scan_block-IsIdle height w h = elim (Result-cases (env.block height)) [
    | inr (message, e) ↦ rw (scan_block, e) h
    | inl (block, e) ↦ rw (scan_block, e) (on_txs-IsIdle height block.time block.txs w h)
  ]

  scan_from-IsIdle :
      (count height : ℕ) (w : Watch)
      → IsIdle w.queue
      → IsIdle (scan_from env vault_address count height w).queue
  unfolding scan_from
  scan_from-IsIdle zero height w h = h
  scan_from-IsIdle (suc count) height w h =
      scan_from-IsIdle count (suc height) (scan_block env vault_address height w)
        (scan_block-IsIdle height w h)

  poll-IsIdle : (w : Watch) → IsIdle w.queue → IsIdle (poll env vault_address w).queue
  unfolding poll
  poll-IsIdle w h = elim (Result-cases (env.height w)) [
    | inr (message, e) ↦ rw e h
    | inl (current, e) ↦ elim (Bool-cases (leb current w.last_block_height)) [
      | inl old ↦ rw (e, old) h
      | inr new ↦
          rw (e, new)
            (scan_from-IsIdle (current - w.last_block_height) (suc w.last_block_height) w h)
    ]
  ]

  module _ (answers : Answers) (min_transfer_soq : ℕ) where
    abbrev pub run_watch : List WatchOp → Watch → Watch
    run_watch [] w = w
    run_watch (polls ∷ ops) w = run_watch ops (poll env vault_address w)
    run_watch (fires ∷ ops) w =
        run_watch ops (record w { queue = process_next answers min_transfer_soq w.queue })

    -- The queue makes no call for the deposits of the vault: over any run of polls of the Soqucoin
    -- watcher and firings of the timer, a queue that has made no call, and holds no pending transfer,
    -- makes none.
    pub run_watch-no_call :
        (ops : List WatchOp) (w : Watch)
        → All (λ t. is_pending t.status ≡ false) w.queue.queue
        → w.queue.trace ≡ []
        → (run_watch ops w).queue.trace ≡ []
    run_watch-no_call [] w h e = e
    run_watch-no_call (polls ∷ ops) w h e =
        let (h', e') = poll-IsIdle w (h, e) in
        run_watch-no_call ops (poll env vault_address w) h' e'
    run_watch-no_call (fires ∷ ops) w h e =
        let same = process_next-IsIdle answers min_transfer_soq w.queue (h, e) in
        let next : Watch = record w { queue = process_next answers min_transfer_soq w.queue } in
        run_watch-no_call ops next
          (subst (λ q. All (λ t. is_pending t.status ≡ false) q.queue) (sym same) h)
          (ap (λ q. q.trace) same ∙ e)
