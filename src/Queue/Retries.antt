-- ===== src/Queue/Retries.antt =====
-- queue.ts: how often a source transaction is paid for.
use soqtec.Base.{
  ℕ, ◌+◌, ◌-◌, ◌≤◌, ◌≡◌, Bool, true, false, ◌&&◌, not, some, List, [], ◌∷◌, ◌++◌, Text, Result, ok,
  err, ◌===◌, ===_iff, if◌then◌else◌, find, filter, arith, Option-cases, inl, inr,
}
use soqtec.Queue.{
  Transfer, send, mint, get_transaction, Trace, Answers, TransferQueue, has, enqueue, is_pending,
  process, process_sol_to_soq, process_soq_to_sol, mint_verified, fail, complete, replace_pending,
  settle, process_next,
}

-- The payments for a source transaction, in either direction.
abbrev pub payments : Text → Trace → ℕ
payments k [] = 0
payments k (send s a d ∷ t) = let rest = payments k t in if s === k then rest + 1 else rest
payments k (mint s a d ∷ t) = let rest = payments k t in if s === k then rest + 1 else rest
payments k (get_transaction s ∷ t) = payments k t

-- The tries that a transfer has left.
abbrev tries_left : Text → Transfer → ℕ
tries_left k t = if t.source_tx === k && is_pending t.status then 1 + (2 - t.retry_count) else 0

abbrev all_tries : Text → List Transfer → ℕ
all_tries k [] = 0
all_tries k (t ∷ ts) = tries_left k t + all_tries k ts

abbrev three_if : Bool → ℕ
three_if true = 3
three_if false = 0

module _ (k : Text) where
  all_tries-append :
      (ts us : List Transfer) → all_tries k (ts ++ us) ≡ all_tries k ts + all_tries k us
  all_tries-append [] us = omega arith
  all_tries-append (t ∷ ts) us = omega (arith, all_tries-append ts us)

  all_tries-filter :
      (p : Transfer → Bool) (ts : List Transfer) → all_tries k (filter p ts) ≤ all_tries k ts
  all_tries-filter p [] = omega arith
  all_tries-filter p (t ∷ ts) = let rest = all_tries-filter p ts in ground arith

  all_tries-replace_pending :
      (y t : Transfer) (ts : List Transfer)
      → find (λ u. is_pending u.status) ts ≡ some t
      → all_tries k (replace_pending y ts) + tries_left k t ≡ all_tries k ts + tries_left k y
  unfolding replace_pending
  all_tries-replace_pending y t [] e = absurd (ground arith)
  all_tries-replace_pending y t (u ∷ ts) e = grind (arith, all_tries-replace_pending y t ts)

find-is_pending :
    (ts : List Transfer) (t : Transfer)
    → find (λ u. is_pending u.status) ts ≡ some t
    → is_pending t.status ≡ true
find-is_pending [] t e = absurd (ground arith)
find-is_pending (u ∷ ts) t e = grind (arith, find-is_pending ts t)

module _ (env : Answers) (min_transfer_soq : ℕ) (k : Text) where
  process-payments :
      (t : Transfer) (trace : Trace)
      → payments k (process env min_transfer_soq t trace).1
        ≤ payments k trace + (if t.source_tx === k then 1 else 0)
  unfolding process process_sol_to_soq process_soq_to_sol mint_verified
  process-payments t trace = grind arith

  settle-payments :
      (t : Transfer) (r : Result Text Text) (trace : Trace) (q : TransferQueue)
      → find (λ u. is_pending u.status) q.queue ≡ some t
      → payments k trace ≤ payments k q.trace + (if t.source_tx === k then 1 else 0)
      → let q' = settle t (r, trace) q in
        payments k q'.trace + all_tries k q'.queue ≤ payments k q.trace + all_tries k q.queue
  unfolding fail
  settle-payments t (ok txid) trace q e le =
      let at = find-is_pending q.queue t e in
      let sum = all_tries-replace_pending k (complete txid t) t q.queue e in
      let less =
        all_tries-filter k (λ u. not (u.id === t.id)) (replace_pending (complete txid t) q.queue) in
      grind arith
  settle-payments t (err message) trace q e le =
      let at = find-is_pending q.queue t e in
      let sum = all_tries-replace_pending k (fail message t) t q.queue e in grind arith

  process_next-payments :
      (q : TransferQueue)
      → let q' = process_next env min_transfer_soq q in
        payments k q'.trace + all_tries k q'.queue ≤ payments k q.trace + all_tries k q.queue
  unfolding process_next
  process_next-payments q = elim (Option-cases (find (λ t. is_pending t.status) q.queue)) [
    | inl e ↦ grind arith
    | inr (t, e) ↦
        let r = process env min_transfer_soq t q.trace in
        let settled = settle-payments t r.0 r.1 q e (process-payments t q.trace) in grind arith
  ]

  process_next-processed :
      (q : TransferQueue)
      → (process_next env min_transfer_soq q).processed_source_txs ≡ q.processed_source_txs
  unfolding process_next
  process_next-processed q = grind arith

  abbrev IsWithinTries : TransferQueue → Type 0
  IsWithinTries q =
      payments k q.trace + all_tries k q.queue ≤ three_if (has k q.processed_source_txs)

  enqueue-IsWithinTries :
      (id : Text) (t : Transfer) (q : TransferQueue)
      → IsWithinTries q
      → IsWithinTries (enqueue id t q)
  unfolding enqueue has
  enqueue-IsWithinTries id t q h =
      let more = all_tries-append k q.queue (record t { id = id; retry_count = 0 } ∷ []) in
      grind (arith, ===_iff t.source_tx k)

  process_next-IsWithinTries :
      (q : TransferQueue) → IsWithinTries q → IsWithinTries (process_next env min_transfer_soq q)
  process_next-IsWithinTries q h =
      let step = process_next-payments q in let same = process_next-processed q in grind arith

-- What happens to the queue: a watcher adds a transfer under a new id, or the timer fires.
pub data QueueOp : Type 0 where
  arrives : Text → Transfer → QueueOp
  fires : QueueOp

abbrev pub empty_queue : TransferQueue
empty_queue = record { queue = []; completed = []; processed_source_txs = []; trace = [] }

module _ (env : Answers) (min_transfer_soq : ℕ) where
  abbrev pub run_queue : List QueueOp → TransferQueue → TransferQueue
  run_queue [] q = q
  run_queue (arrives id t ∷ ops) q = run_queue ops (enqueue id t q)
  run_queue (fires ∷ ops) q = run_queue ops (process_next env min_transfer_soq q)

  run_queue-IsWithinTries :
      (k : Text) (ops : List QueueOp) (q : TransferQueue)
      → IsWithinTries env min_transfer_soq k q
      → IsWithinTries env min_transfer_soq k (run_queue ops q)
  run_queue-IsWithinTries k [] q h = h
  run_queue-IsWithinTries k (arrives id t ∷ ops) q h =
      run_queue-IsWithinTries k ops (enqueue id t q)
        (enqueue-IsWithinTries env min_transfer_soq k id t q h)
  run_queue-IsWithinTries k (fires ∷ ops) q h =
      run_queue-IsWithinTries k ops (process_next env min_transfer_soq q)
        (process_next-IsWithinTries env min_transfer_soq k q h)

  -- However often a source transaction arrives, and whatever the node and the bridge program answer, an
  -- empty queue pays for it three times at most, sends and mints together, and not at all if it never
  -- arrives.
  pub pay_three_times_at_most :
      (k : Text) (ops : List QueueOp)
      → let q = run_queue ops empty_queue in
        (payments k q.trace ≤ 3) × (has k q.processed_source_txs ≡ false → payments k q.trace ≡ 0)
  pay_three_times_at_most k ops =
      let start : IsWithinTries env min_transfer_soq k empty_queue = omega arith in
      let h = run_queue-IsWithinTries k ops empty_queue start in (grind arith, λ e. grind arith)
