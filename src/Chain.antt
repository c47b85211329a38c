-- ===== src/Chain.antt =====
-- relayer/src/cea/types.ts: what every chain adapter reports. Amounts are bigints that are never
-- negative, times are milliseconds.
use soqtec.Base.{ℕ, Bool, true, false, Option, Text, text, ◌==◌}

-- `BurnConfidence`
pub data BurnConfidence : Type 0 where
  mempool confirmed finalized : BurnConfidence

pub data ChainId : Type 0 where
  solana ethereum bitcoin litecoin cosmos : ChainId

pub record NormalizedBurnEvent : Type 0 where
  pub chain : ChainId
  pub burn_tx_id : Text
  pub gross_amount : ℕ
  pub net_amount_soq : ℕ
  pub fee_amount : ℕ
  pub recipient_soq : Text
  pub nonce : ℕ
  pub confidence : BurnConfidence
  pub detected_at : ℕ
  pub finalized_at : Option ℕ

-- The place in `['mempool', 'confirmed', 'finalized']`.
abbrev pub level : BurnConfidence → ℕ
level mempool = 0
level confirmed = 1
level finalized = 2

-- The string of a chain.
abbrev pub chain_name : ChainId → Text
chain_name solana = text "solana"
chain_name ethereum = text "ethereum"
chain_name bitcoin = text "bitcoin"
chain_name litecoin = text "litecoin"
chain_name cosmos = text "cosmos"

abbrev pub chain_index : ChainId → ℕ
chain_index solana = 0
chain_index ethereum = 1
chain_index bitcoin = 2
chain_index litecoin = 3
chain_index cosmos = 4

abbrev pub same_chain : ChainId → ChainId → Bool
same_chain c d = chain_index c == chain_index d

abbrev pub is_finalized : BurnConfidence → Bool
is_finalized finalized = true
is_finalized _ = false

abbrev pub is_mempool : BurnConfidence → Bool
is_mempool mempool = true
is_mempool _ = false
