-- ===== src/Queue/Failures.antt =====
-- queue.ts: what a failed payment leads to.
use mathlib.Core.List.{Memᴰ}
use soqtec.Base.{ℕ, ◌≤◌, ◌≡◌, List, length}
use soqtec.Queue.{Transfer, solana_to_soqucoin, Answers}

module _ (env : Answers) (min_transfer_soq : ℕ) where
  -- A release of SOQ that the node can be asked for.
  abbrev pub IsPayable : Transfer → Type 0
  IsPayable t =
      (t.direction ≡ solana_to_soqucoin)
      × (10 ≤ length t.destination_address)
      × (min_transfer_soq ≤ t.amount)
