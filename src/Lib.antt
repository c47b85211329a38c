-- ===== src/Lib.antt =====
-- SOQ-TEC relayer: a verification library of the relayer's own logic (relayer/src).
--
-- The BTCSOQ gateway turns BTC deposits into receipts on the Soqucoin chain and returned receipts into
-- BTC. A deposit event moves an intent and claims a mint; a periodic tick drives every claim that has
-- not landed, scans the chain for returned receipts and releases BTC for them; two optional legs behind
-- a mint convert SOQ to USDSOQ and buy an answer over Lightning. Each step claims its record in the
-- store before it calls outside. The DUA router is the older lane: it turns burns that the chain
-- adapters report into releases by PAUL, by the node, or by a strategy. The transfer
-- queue is older still: it pays for each source transaction that a watcher reports, with retries. The
-- Bitcoin adapter polls the node for the deposits of the gateway, the Lightning client pays invoices
-- from a hosted channel, and the theater shows both to visitors behind a gate.
--
-- Files:
--   Base            tests, lists, texts, dictionaries, sorting, integers and results that all share
--   Receipt         relayer/src/btcsoq/receipt.ts: encodeTag, decodeTag, payoutCommit, the script form
--   Store           relayer/src/btcsoq/store.ts: GatewayStore; Store/Records its record types
--   Scan            relayer/src/btcsoq/soq-scan.ts: findMintTx, scanRedemptions over a view of the chain
--   Attestation     relayer/src/btcsoq/attestation.ts: buildPayload, sha256Hex
--   Chain           relayer/src/cea/types.ts: events of the chain adapters
--   Router          relayer/src/cea/router.ts: onBurnDetected, runStrategy, halt, resume
--   Queue           relayer/src/queue.ts: enqueue, processNext and the two directions
--   Bitcoin         relayer/src/cea/bitcoin-cea.ts: pollBurns, verifyBurn, getSpvProof
--   Ln402           relayer/src/btcsoq/ln402.ts: the types of the client; Ln402/Receipt verifyReceipt,
--                   Ln402/Calls its operations, Ln402/Race the payments of the race in theater.ts
--   Limiter         the sliding windows of relayer/src/btcsoq/api.ts and theater.ts
--   Theater         relayer/src/btcsoq/theater.ts: gate, takeBudget, recordSettle, tapePush
--   Solana          relayer/src/cea/solana-cea.ts: both channels, verifyBurn
--   Watchers        relayer/src/watchers/soqucoin.ts: poll, scanBlock; solana.ts: poll, processTransaction
--   Gateway/World   relayer/src/btcsoq/gateway.ts: configuration, the fields of the class, outside calls
--   Gateway/Breaker   mintBreakerReason and its like, checkPorInvariant
--   Gateway/Attest    attest, signAttestation
--   Gateway/Deposits  onDepositEvent, transition, expireStaleIntents
--   Gateway/Intents   createDepositIntent, createRedeemIntent
--   Gateway/Poll      start, checkNow, and those of the Bitcoin adapter
--   Gateway/Anchor    computeLedgerRoot, anchorNow, anchorStatus
--   Gateway/Mint      mintForDepositKey, attemptMint, finalizeMint
--   Gateway/Interleave  several runs of attemptMint that take turns at their awaits
--   Gateway/Convert   startConvertLeg, attemptConvert
--   Gateway/Answer    startLn402Leg, attempt402
--   Gateway/Redeem    scanForRedemptions, onReceiptReturned, attemptRelease, finalizeRelease
--   Gateway/Tick      moneyTick, recoverInFlight
--   Gateway/Guarded, Gateway/Ledger, Gateway/Limits, Gateway/Binding   theorems about these
--   the files named Tests, and those in Gateway/Tests, hold runs on concrete inputs
--
-- A method of the gateway is a function of the world: the store, the fields of the class, and the trace
-- of the outside calls made so far, newest first. It returns a value or the message that it throws,
-- and the world afterwards. What the outside answers (clock, pause file, Soqucoin node, Bitcoin wallet,
-- signers, Lightning rail, SHA-256) is a record of functions of the trace, so that an answer may depend
-- on every earlier call. The router and the queue have traces and answers of their own; the trace of
-- the router is oldest first.
--
-- Choices. Handlers run to completion one at a time; only in Gateway/Interleave do other attempts
-- to mint move between the awaits of one. Calls that the code does not await (the legs behind a
-- mint and behind a conversion) run where they are started, and their errors are swallowed. Time
-- moves only with calls. Writes of the store file do not fail, and what JSON.parse reads from it
-- is, field by field, what JSON.stringify was given. Strings are lists of character codes and
-- numbers are not negative. A loop over records of the store takes the list when it starts and
-- reads each record again at its turn, where the code shares the object. A scan reads the blocks of
-- one view of the chain. The sink of the router for deposits is the direct call of the mint. Loops
-- are recursions on lists or on the number of blocks left; the digits of a decimal number take one
-- unit of fuel more than its value, which its digits never exceed, and the levels of the Merkle
-- tree one unit for each leaf.
--
-- Not modelled: the executor of the Solana bridge and the HTTP clients (transport and SDKs),
-- the HTTP routes, the acts of the theater but the race, configuration and timers; in the gateway the
-- status report. The Solana programs and the lane manager are other programs in other languages.
pub mod Base
pub mod Receipt
pub mod Chain
pub mod Bitcoin
pub mod Limiter
pub mod Ln402
pub mod Theater
pub mod Watchers
pub mod Solana
pub mod Router
pub mod Queue
pub mod Store
pub mod Scan
pub mod Gateway
pub mod Attestation
