-- ===== src/Scan/Find.antt =====
-- btcsoq/soq-scan.ts: `findMintTx` misses nothing in the blocks it covers, and makes nothing up.
use native.Mathlib.Decide.{dec_lt}
use soqtec.Base.{
  ℕ, zero, suc, ◌+◌, ◌-◌, ◌≤◌, ◌<◌, ◌≡◌, false, Option, none, some, List, [], ◌∷◌, Text, arith, All,
}
use soqtec.Scan.{
  Tx, Block, ChainView, tx_carries_script, find_in_mempool, find_in_block, find_in_blocks,
  scan_start, find_script,
}

abbrev pub Lacks : Text → Tx → Type 0
Lacks script tx = tx_carries_script tx.vout script ≡ false

abbrev pub LacksFetched : Text → Option Tx → Type 0
LacksFetched script none = Unit
LacksFetched script (some tx) = Lacks script tx

mempool-Lacks :
    (script : Text) (txs : List (Option Tx))
    → find_in_mempool script txs ≡ none
    → All (LacksFetched script) txs
unfolding find_in_mempool
mempool-Lacks script [] e = tt
mempool-Lacks script (none ∷ txs) e = (tt, mempool-Lacks script txs e)
mempool-Lacks script (some tx ∷ txs) e = ground (arith, mempool-Lacks script txs)

block-Lacks :
    (script : Text) (h : ℕ) (txs : Block)
    → find_in_block script h txs ≡ none
    → All (Lacks script) txs
unfolding find_in_block
block-Lacks script h [] e = tt
block-Lacks script h (tx ∷ txs) e = ground (arith, block-Lacks script h txs)

blocks-Lacks :
    (script : Text) (block : ℕ → Block) (from rounds h : ℕ)
    → find_in_blocks script block from rounds ≡ none
    → from ≤ h
    → h < from + rounds
    → All (Lacks script) (block h)
unfolding find_in_blocks
blocks-Lacks script block from zero h e lo hi = absurd (omega arith)
blocks-Lacks script block from (suc rounds) h e lo hi =
    let here = block-Lacks script from (block from) (ground arith) in
    elim (dec_lt from h) [
      | yes later ↦
          blocks-Lacks script block (from + 1) rounds h (ground arith) (omega arith) (omega arith)
      | no same ↦ let eq : h ≡ from = omega arith in rw eq here
    ]

-- If the search finds nothing, no transaction of the mempool that could be fetched, and none in the
-- blocks from two below the claim height up to the tip, carries the script.
pub find_script-none :
    (script : Text) (since : ℕ) (view : ChainView)
    → find_script script since view ≡ none
    → All (LacksFetched script) view.mempool
      × ((h : ℕ) → since ≤ h + 2 → h ≤ view.tip → All (Lacks script) (view.block h))
unfolding find_script scan_start
find_script-none script since view e = (
  mempool-Lacks script view.mempool (ground arith),
  λ h lo hi.
      blocks-Lacks script view.block (since - 2) (view.tip + 1 - (since - 2)) h (ground arith)
        (omega arith) (omega arith),
)
