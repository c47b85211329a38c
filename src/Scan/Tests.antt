-- ===== src/Scan/Tests.antt =====
-- btcsoq/soq-scan.ts on a chain with one return spend in block 7.
use soqtec.Base.{
  ℕ, ◌≡◌, refl, ◌≤◌, ◌+◌, true, none, some, [], ◌∷◌, ◌++◌, text, ◌==◌, ◌===◌, if◌then◌else◌, All,
  arith,
}
use soqtec.Scan.{
  Tx, Block, ChainView, find_script, find_in_mempool, find_in_block, find_in_blocks, scan_start,
  tx_carries_script, scan_redemptions,
}
use soqtec.Scan.Find.{Lacks, LacksFetched, find_script-none}
use soqtec.Scan.Redemptions.{scan_redemptions-append}

abbrev return_spend : Tx
return_spend = record {
  txid = text "r1";
  vin = record { outpoint = text "m1:0" } ∷ [];
  vout =
      record { value_shors = 700; script_hex = text "0014aa"; address = some (text "redeem") } ∷ [];
}

abbrev block : ℕ → Block
block h = if h == 7 then return_spend ∷ [] else []

abbrev view : ChainView
view = record { mempool = none ∷ some return_spend ∷ []; tip = 8; block = block }

nothing_found : find_script (text "6a31") 5 view ≡ none
unfolding find_script find_in_mempool find_in_block find_in_blocks scan_start tx_carries_script
    ◌===◌
nothing_found = refl

find_script-none_example :
    All (LacksFetched (text "6a31")) view.mempool
    × ((h : ℕ) → 5 ≤ h + 2 → h ≤ 8 → All (Lacks (text "6a31")) (block h))
find_script-none_example = find_script-none (text "6a31") 5 view nothing_found

scan_redemptions-append_example :
    scan_redemptions (text "redeem") 2 9 (λ o. true) block
    ≡ scan_redemptions (text "redeem") 2 6 (λ o. true) block
      ++ scan_redemptions (text "redeem") 6 9 (λ o. true) block
scan_redemptions-append_example =
    scan_redemptions-append (text "redeem") (λ o. true) block 2 6 9 (omega arith) (omega arith)
