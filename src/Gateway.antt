-- ===== src/Gateway.antt =====
-- relayer/src/btcsoq/gateway.ts: the orchestrator of the Bitcoin lane, a module per part.
pub mod World
pub mod Breaker
pub mod Attest
pub mod Answer
pub mod Convert
pub mod Mint
pub mod Redeem
pub mod Intents
pub mod Deposits
pub mod Poll
pub mod Tick
pub mod Guarded
pub mod Interleave
pub mod Limits
pub mod Ledger
pub mod Anchor
pub mod Binding
mod Tests
