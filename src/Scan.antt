-- ===== src/Scan.antt =====
-- relayer/src/btcsoq/soq-scan.ts: what the gateway reads from the Soqucoin chain. The node's answers
-- (mempool, blocks, tip) are data; a transaction of the mempool is `none` if its fetch failed.
pub mod Find
pub mod Redemptions
mod Tests
use soqtec.Base.{
  ℕ, zero, suc, ◌+◌, ◌-◌, ◌<◌, Bool, true, false, ◌||◌, Option, none, some, List, [], ◌∷◌, ◌++◌,
  Text, Result, ok, err, ltb, leb, ◌==◌, ◌===◌, if◌then◌else◌, filter, map,
}
use soqtec.Receipt.{BtcsoqTag, tag_script_hex, tag_from_script_hex}

-- One output: its value in shors, its script, and the address that the node shows for it.
pub record TxOut : Type 0 where
  pub value_shors : ℕ
  pub script_hex : Text
  pub address : Option Text

-- One input that names an outpoint; a coinbase input is none of these.
pub record TxIn : Type 0 where
  pub outpoint : Text

pub record Tx : Type 0 where
  pub txid : Text
  pub vin : List TxIn
  pub vout : List TxOut

abbrev pub Block : Type 0
Block = List Tx

pub record ChainView : Type 0 where
  pub mempool : List (Option Tx)
  pub tip : ℕ
  pub block : ℕ → Block

pub record FoundMint : Type 0 where
  pub txid : Text
  pub height : Option ℕ
  pub carrier_address : Option Text

unfoldable pub tx_carries_script : List TxOut → Text → Bool
tx_carries_script [] script = false
tx_carries_script (o ∷ os) script = o.script_hex === script || tx_carries_script os script

-- `voutAddress(tx.vout?.[0])`
abbrev pub first_address : List TxOut → Option Text
first_address [] = none
first_address (o ∷ os) = o.address

unfoldable pub find_in_mempool : Text → List (Option Tx) → Option FoundMint
find_in_mempool script [] = none
find_in_mempool script (none ∷ rest) = find_in_mempool script rest
find_in_mempool script (some tx ∷ rest) =
    if tx_carries_script tx.vout script
    then some (record { txid = tx.txid; height = none; carrier_address = first_address tx.vout })
    else find_in_mempool script rest

unfoldable pub find_in_block : Text → ℕ → Block → Option FoundMint
find_in_block script h [] = none
find_in_block script h (tx ∷ rest) =
    if tx_carries_script tx.vout script
    then some (record { txid = tx.txid; height = some h; carrier_address = first_address tx.vout })
    else find_in_block script h rest

-- `for (let h = from; h <= tip; h++)`, by the number of rounds left.
unfoldable pub find_in_blocks : Text → (ℕ → Block) → ℕ → ℕ → Option FoundMint
find_in_blocks script block from zero = none
find_in_blocks script block from (suc rounds) =
    let rest = find_in_blocks script block (from + 1) rounds in
    elim (find_in_block script from (block from)) [ some m ↦ some m | none ↦ rest ]

unfoldable pub scan_start : ℕ → ℕ
scan_start since_height = since_height - 2

unfoldable pub find_script : Text → ℕ → ChainView → Option FoundMint
find_script script since_height view = elim (find_in_mempool script view.mempool) [
  | some m ↦ some m
  | none ↦
      find_in_blocks script view.block (scan_start since_height)
        (view.tip + 1 - scan_start since_height)
]

-- `findMintTx`; `tagScriptHex` throws on a payload of 76 bytes or more.
unfoldable pub find_mint_tx : List ℕ → ℕ → ChainView → Option (Option FoundMint)
find_mint_tx payload since_height view = elim (tag_script_hex payload) [
  | ok script ↦ some (find_script script since_height view)
  | err e ↦ none
]

pub record RedemptionSpend : Type 0 where
  pub txid : Text
  pub height : ℕ
  pub spent_carriers : List Text
  pub tag : Option BtcsoqTag
  pub paid_shors : ℕ

-- The loop over the outputs: what is paid to the address, and the first tag.
abbrev pays : Text → Option Text → Bool
pays address none = false
pays address (some a) = a === address

unfoldable pub paid_to : Text → List TxOut → ℕ
paid_to address [] = 0
paid_to address (o ∷ os) =
    (if pays address o.address then o.value_shors else 0) + paid_to address os

unfoldable pub first_tag : List TxOut → Option BtcsoqTag
first_tag [] = none
first_tag (o ∷ os) =
    let rest = first_tag os in
    elim (tag_from_script_hex o.script_hex) [ some t ↦ some t | none ↦ rest ]

unfoldable pub scan_block : Text → (Text → Bool) → ℕ → Block → List RedemptionSpend
scan_block address is_carrier h [] = []
scan_block address is_carrier h (tx ∷ rest) =
    let more = scan_block address is_carrier h rest in
    let spend : RedemptionSpend = record {
      txid = tx.txid;
      height = h;
      spent_carriers = filter is_carrier (map (λ i. i.outpoint) tx.vin);
      tag = first_tag tx.vout;
      paid_shors = paid_to address tx.vout;
    } in
    if leb (paid_to address tx.vout) 0 then more else spend ∷ more

unfoldable pub scan_blocks : Text → (Text → Bool) → (ℕ → Block) → ℕ → ℕ → List RedemptionSpend
scan_blocks address is_carrier block h zero = []
scan_blocks address is_carrier block h (suc rounds) =
    scan_block address is_carrier h (block h) ++ scan_blocks address is_carrier block (h + 1) rounds

-- Blocks (fromHeight, toHeight].
unfoldable pub scan_redemptions : Text → ℕ → ℕ → (Text → Bool) → (ℕ → Block) → List RedemptionSpend
scan_redemptions address from_height to_height is_carrier block =
    scan_blocks address is_carrier block (from_height + 1) (to_height - from_height)
