-- ===== src/Gateway/Guarded/Steps.antt =====
-- btcsoq/gateway.ts: no method of the gateway makes a payment that is not guarded.
pub mod Answer
pub mod Convert
pub mod Mint
pub mod Redeem
pub mod Deposits
pub mod Run
pub mod Poll
