-- ===== src/Gateway/Ledger.antt =====
-- btcsoq/gateway.ts: what the two legs behind a mint leave as it is.
pub mod Frame
pub mod Settle
