-- ===== src/Watchers/Solana/Backed.antt =====
-- watchers/solana.ts and queue.ts: what the releases of the queue stand on.
use soqtec.Base.{
  ℕ, ◌≡◌, refl, not, List, [], ◌∷◌, Text, text, Result, ok, err, ◌===◌, ===_iff, ltb, All,
  All-append, All-filter, All-find, Bool-cases, Result-cases, Option-cases, inl, inr, find, length,
  filter,
}
use mathlib.Core.List.{reverse, Memᴰ}
use mathlib.Core.List.Memᴰ.{head, tail}
use soqtec.Queue.{
  Transfer, Call, send, Trace, TransferQueue, Answers, solana_to_soqucoin, enqueue, has, is_pending,
  process, process_sol_to_soq, process_next, settle, replace_pending, fail, complete,
}
use soqtec.Watchers.Solana.Shown.{IsShown, events_of-IsShown}
use soqtec.Watchers.Solana.{
  LogEvent, Watch, Node, burn_of, transfer_of, on_event, on_events, events_of, process_transaction,
  process_all, poll, until_of,
}

-- What happens to the relayer: the watcher polls, or the timer of the queue fires.
pub data WatchOp : Type 0 where
  polls fires : WatchOp

module _ (env : Node) where
  -- A transaction, shown as one that did not fail, logs a burn of this net amount for this address,
  -- from which the padding with zeros is left out.
  pub data IsBurn : Text → ℕ → Text → Type 0 where
    logged :
        (w : Watch) (source : Text) (e : LogEvent)
        → IsShown env.parse_logs (env.transaction w source) e
        → e.name ≡ text "burnForRedemptionEvent"
        → IsBurn source e.net_amount (filter (λ c. ltb 0 c) (env.utf8 e.soq_address))

  abbrev IsBacked : Transfer → Type 0
  IsBacked t =
      IsBurn t.source_tx t.amount t.destination_address × (t.direction ≡ solana_to_soqucoin)

  pub data IsRelease : Call → Type 0 where
    sends :
        (source : Text) (amount : ℕ) (address : Text)
        → IsBurn source amount address
        → IsRelease (send source amount address)

  abbrev IsSound : TransferQueue → Type 0
  IsSound q = All IsBacked q.queue × All IsRelease q.trace

  enqueue-IsSound :
      (id : Text) (t : Transfer) (q : TransferQueue)
      → IsBacked t
      → IsSound q
      → IsSound (enqueue id t q)
  unfolding enqueue
  enqueue-IsSound id t q backed (h, calls) =
      let grown =
        All-append IsBacked q.queue (record t { id = id; retry_count = 0 } ∷ []) h (backed, tt) in
      elim (Bool-cases (has t.source_tx q.processed_source_txs)) [
        | inl seen ↦ rw seen (h, calls)
        | inr new ↦ rw new (grown, calls)
      ]

  replace_pending-IsBacked :
      (y : Transfer) (ts : List Transfer)
      → IsBacked y
      → All IsBacked ts
      → All IsBacked (replace_pending y ts)
  unfolding replace_pending
  replace_pending-IsBacked y [] hy hs = tt
  replace_pending-IsBacked y (t ∷ ts) hy (h, hs) =
      let rest = replace_pending-IsBacked y ts hy hs in
      elim (Bool-cases (is_pending t.status)) [
        | inl hit ↦ rw hit (hy, hs)
        | inr miss ↦ rw miss (h, rest)
      ]

  module _ (answers : Answers) (min_transfer_soq : ℕ) where
    process-IsRelease :
        (t : Transfer) (trace : Trace)
        → IsBacked t
        → All IsRelease trace
        → All IsRelease (process answers min_transfer_soq t trace).1
    unfolding process process_sol_to_soq
    process-IsRelease t trace (burn, way) calls =
        elim (Bool-cases (ltb (length t.destination_address) 10)) [
          | inl short ↦ rw (way, short) calls
          | inr long ↦ elim (Bool-cases (ltb t.amount min_transfer_soq)) [
            | inl low ↦ rw (way, long, low) calls
            | inr enough ↦
                rw (way, long, enough)
                  (sends t.source_tx t.amount t.destination_address burn, calls)
          ]
        ]

    settle-IsSound :
        (t : Transfer) (r : Result Text Text) (trace : Trace) (q : TransferQueue)
        → IsBacked t
        → All IsRelease trace
        → IsSound q
        → IsSound (settle t (r, trace) q)
    unfolding fail
    settle-IsSound t (ok txid) trace q backed calls (h, _) = (
      All-filter IsBacked (λ u. not (u.id === t.id)) (replace_pending (complete txid t) q.queue)
          (replace_pending-IsBacked (complete txid t) q.queue backed h),
      calls,
    )
    settle-IsSound t (err message) trace q backed calls (h, _) =
        (replace_pending-IsBacked (fail message t) q.queue backed h, calls)

    process_next-IsSound :
        (q : TransferQueue) → IsSound q → IsSound (process_next answers min_transfer_soq q)
    unfolding process_next
    process_next-IsSound q (h, calls) =
        elim (Option-cases (find (λ t. is_pending t.status) q.queue)) [
          | inl e ↦ rw (process_next, e) (h, calls)
          | inr (t, e) ↦
              let r = process answers min_transfer_soq t q.trace in
              let backed = All-find IsBacked (λ u. is_pending u.status) q.queue t h e in
              rw (process_next, e)
                (settle-IsSound t r.0 r.1 q backed (process-IsRelease t q.trace backed calls)
                  (h, calls))
        ]

  on_event-IsSound :
      (v : Watch) (signature : Text) (w : Watch) (e : LogEvent)
      → Memᴰ e (events_of env.parse_logs (env.transaction v signature))
      → IsSound w.queue
      → IsSound (on_event env signature w e).queue
  unfolding on_event transfer_of burn_of
  on_event-IsSound v signature w e shown h =
      elim (Bool-cases (e.name === text "burnForRedemptionEvent")) [
        | inr other ↦ rw other h
        | inl burns ↦
            let named = (===_iff e.name (text "burnForRedemptionEvent")).0 burns in
            rw burns (
              enqueue-IsSound (env.new_id w) (transfer_of env (env.now w) (burn_of env signature e))
                w.queue
                (
                  logged v signature e
                      (events_of-IsShown env.parse_logs (env.transaction v signature) e shown)
                      named,
                  refl,
                )
                h)
      ]

  on_events-IsSound :
      (v : Watch) (signature : Text) (es : List LogEvent) (w : Watch)
      → ((e : LogEvent)
          → Memᴰ e es
          → Memᴰ e (events_of env.parse_logs (env.transaction v signature)))
      → IsSound w.queue
      → IsSound (on_events env signature es w).queue
  unfolding on_events
  on_events-IsSound v signature [] w shown h = h
  on_events-IsSound v signature (e ∷ es) w shown h =
      on_events-IsSound v signature es (on_event env signature w e) (λ f m. shown f (tail m))
        (on_event-IsSound v signature w e (shown e (head refl)) h)

  process_all-IsSound :
      (ss : List Text) (w : Watch) → IsSound w.queue → IsSound (process_all env ss w).queue
  unfolding process_all process_transaction
  process_all-IsSound [] w h = h
  process_all-IsSound (s ∷ ss) w h =
      process_all-IsSound ss (process_transaction env w s)
        (on_events-IsSound w s (events_of env.parse_logs (env.transaction w s)) w (λ e m. m) h)

  poll-IsSound : (w : Watch) → IsSound w.queue → IsSound (poll env w).queue
  unfolding poll
  poll-IsSound w h = elim (Result-cases (env.signatures w (until_of w.last_signature) 20)) [
    | inr (message, e) ↦ rw e h
    | inl (sigs, e) ↦ rw e (process_all-IsSound (reverse sigs) w h)
  ]

  module _ (answers : Answers) (min_transfer_soq : ℕ) where
    abbrev pub run_watch : List WatchOp → Watch → Watch
    run_watch [] w = w
    run_watch (polls ∷ ops) w = run_watch ops (poll env w)
    run_watch (fires ∷ ops) w =
        run_watch ops (record w { queue = process_next answers min_transfer_soq w.queue })

    run_watch-IsSound :
        (ops : List WatchOp) (w : Watch) → IsSound w.queue → IsSound (run_watch ops w).queue
    run_watch-IsSound [] w h = h
    run_watch-IsSound (polls ∷ ops) w h = run_watch-IsSound ops (poll env w) (poll-IsSound w h)
    run_watch-IsSound (fires ∷ ops) w h =
        run_watch-IsSound ops (record w { queue = process_next answers min_transfer_soq w.queue })
          (process_next-IsSound answers min_transfer_soq w.queue h)

    -- Over any run of polls of the Solana watcher and firings of the timer, a queue that starts empty
    -- makes no call but releases, each of the net amount of a burn, to its address, that is logged by
    -- the transaction which the release names, shown as one that did not fail.
    pub run_watch-IsRelease :
        (ops : List WatchOp) (w : Watch)
        → w.queue.queue ≡ []
        → w.queue.trace ≡ []
        → All IsRelease (run_watch ops w).queue.trace
    run_watch-IsRelease ops w none_queued no_call =
        (run_watch-IsSound ops w (rw none_queued tt, rw no_call tt)).1
