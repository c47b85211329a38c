-- ===== src/Watchers.antt =====
-- relayer/src/watchers: the pollers that feed the transfer queue.
pub mod Soqucoin
pub mod Solana
mod Tests
