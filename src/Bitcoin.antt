-- ===== src/Bitcoin.antt =====
-- relayer/src/cea/bitcoin-cea.ts: what the Bitcoin adapter makes of the answers of bitcoind. Amounts
-- are satoshis; bitcoind's decimals, and their conversion, are left out.
mod Deposits
mod Outpoints
pub mod Polls
mod Tests
use soqtec.Base.{
  ℕ, ◌+◌, ◌-◌, ◌*◌, Bool, true, false, ◌&&◌, ◌||◌, not, Option, none, some, List, [], ◌∷◌, ◌++◌,
  Text, text, Result, ok, err, ltb, leb, ◌==◌, ◌===◌, if◌then◌else◌, find, length, is_some,
}
use soqtec.Base.Int.{ℤ, pos, negsuc}
use soqtec.Attestation.{decimal}
use soqtec.Store.{split_colon}
use soqtec.Chain.{
  BurnConfidence, mempool, confirmed, finalized, ChainId, NormalizedBurnEvent, is_finalized,
}

-- An entry of `listsinceblock`.
pub record WalletEntry : Type 0 where
  pub is_receive : Bool
  pub abandoned : Bool
  pub replaceable : Bool
  pub has_conflicts : Bool
  pub confirmations : Option ℤ
  pub txid : Text
  pub vout : ℕ
  pub sats : ℕ
  pub address : Text
  pub blockhash : Option Text
  pub blockheight : Option ℕ

pub record SinceBlock : Type 0 where
  pub transactions : List WalletEntry
  pub lastblock : Text

-- The event of the adapter with the fields of its `rawMeta` that the gateway reads.
pub record DepositEvent : Type 0 where
  pub event : NormalizedBurnEvent
  pub open event use *
  pub txid : Text
  pub vout : ℕ
  pub address : Text
  pub confirmations : ℕ
  pub blockhash : Option Text
  pub blockheight : Option ℕ

-- `tx.confirmations ?? 0`
abbrev pub confirmations_of : Option ℤ → ℤ
confirmations_of none = pos 0
confirmations_of (some c) = c

abbrev pub is_zero : Option ℤ → Bool
is_zero (some (pos n)) = n == 0
is_zero _ = false

unfoldable pub confidence_for : ℕ → ℕ → BurnConfidence
confidence_for finality_conf confirmations =
    if leb confirmations 0
    then mempool
    else if leb finality_conf confirmations
    then finalized
    else confirmed

-- A replaced or abandoned transaction is no deposit.
unfoldable pub is_dropped : WalletEntry → Bool
is_dropped tx = tx.abandoned || (tx.replaceable && (is_zero tx.confirmations && tx.has_conflicts))

-- `txid:vout`
unfoldable pub outpoint_of : Text → ℕ → Text
outpoint_of txid vout = txid ++ (b':' ∷ decimal vout)

unfoldable pub event_of : ℕ → ℕ → WalletEntry → ℕ → DepositEvent
unfolding confidence_for outpoint_of
event_of finality_conf now tx confirmations =
    let confidence = confidence_for finality_conf confirmations in
    record {
      event = record {
        chain = ChainId.bitcoin;
        burn_tx_id = outpoint_of tx.txid tx.vout;
        gross_amount = tx.sats;
        net_amount_soq = 0;
        fee_amount = 0;
        recipient_soq = [];
        nonce = tx.vout;
        confidence = confidence;
        detected_at = now;
        finalized_at = if is_finalized confidence then some now else none;
      };
      txid = tx.txid;
      vout = tx.vout;
      address = tx.address;
      confirmations = confirmations;
      blockhash = tx.blockhash;
      blockheight = tx.blockheight;
    }

-- A negative number of confirmations is a conflict: the block was reorganised away.
abbrev pub entry_event : ℕ → ℕ → WalletEntry → ℤ → Option DepositEvent
entry_event finality_conf now tx (negsuc n) = none
entry_event finality_conf now tx (pos n) = some (event_of finality_conf now tx n)

unfoldable pub burn_of : ℕ → ℕ → WalletEntry → Option DepositEvent
unfolding is_dropped
burn_of finality_conf now tx =
    if not tx.is_receive
    then none
    else if is_dropped tx
    then none
    else entry_event finality_conf now tx (confirmations_of tx.confirmations)

abbrev pub cons_some {ℓ} : {A : Type ℓ} → Option A → List A → List A
cons_some none xs = xs
cons_some (some a) xs = a ∷ xs

unfoldable pub burns_of : ℕ → ℕ → List WalletEntry → List DepositEvent
burns_of finality_conf now [] = []
burns_of finality_conf now (tx ∷ txs) =
    cons_some (burn_of finality_conf now tx) (burns_of finality_conf now txs)

-- `result.lastblock || ref`
abbrev or_ref : Text → Text → Text
or_ref [] ref = ref
or_ref (c ∷ s) ref = c ∷ s

abbrev or_blank : Option Text → Text
or_blank none = []
or_blank (some s) = s

-- The adapter: the cursor of the poll, and whether the node answered last time.
pub record BitcoinCea : Type 0 where
  pub cursor : Option Text
  pub healthy : Bool
  pub checking : Bool

pub record Poll : Type 0 where
  pub burns : List DepositEvent
  pub next_ref : Text
  pub node_up : Bool

-- The reference of the poll: the cursor, or the best block.
abbrev ref_of : Result Text Text → Option Text → Result Text Text
ref_of best none = best
ref_of best (some ref) = ok ref

abbrev failed_poll : Option Text → Poll
failed_poll since_ref = record { burns = []; next_ref = or_blank since_ref; node_up = false }

abbrev good_poll : ℕ → ℕ → Text → SinceBlock → Poll
good_poll finality_conf now ref result = record {
  burns = burns_of finality_conf now result.transactions;
  next_ref = or_ref result.lastblock ref;
  node_up = true;
}

-- `pollBurns`, for what `getbestblockhash` and `listsinceblock` answer.
unfoldable pub poll_burns :
    ℕ → ℕ → Result Text Text → (Text → Result Text SinceBlock) → Option Text → Poll
poll_burns finality_conf now best since since_ref = elim (ref_of best since_ref) [
  | err message ↦ failed_poll since_ref
  | ok ref ↦ elim (since ref) [
    | err message ↦ failed_poll since_ref
    | ok result ↦ good_poll finality_conf now ref result
  ]
]

-- A missing and an empty block hash are the same to the adapter.
abbrev pub block_ref : Option Text → Option Text
block_ref none = none
block_ref (some []) = none
block_ref (some (c ∷ s)) = some (c ∷ s)

abbrev pub checked_proof : Text → Text → Result Text (List Text) → Option Text
checked_proof txid proof (err message) = none
checked_proof txid proof (ok verified) =
    if is_some (find (λ t. t === txid) verified) then some proof else none

abbrev pub found_proof : (Text → Result Text (List Text)) → Text → Result Text Text → Option Text
found_proof verify txid (err message) = none
found_proof verify txid (ok proof) = checked_proof txid proof (verify proof)

-- `getSpvProof`, for what `gettxoutproof` and `verifytxoutproof` answer.
unfoldable pub get_spv_proof :
    (Text → Option Text → Result Text Text)
    → (Text → Result Text (List Text))
    → Text
    → Option Text
    → Option Text
get_spv_proof prove verify txid blockhash =
    found_proof verify txid (prove txid (block_ref blockhash))

pub record WalletDetail : Type 0 where
  pub is_receive : Bool
  pub vout : ℕ

pub record WalletTransaction : Type 0 where
  pub confirmations : Option ℤ
  pub details : List WalletDetail
  pub blockhash : Option Text

pub record VerifyResult : Type 0 where
  pub valid : Bool
  pub confidence : BurnConfidence
  pub confirmations : Option ℕ
  pub block_height : Option ℕ
  pub error : Option Text

abbrev pub invalid : Text → VerifyResult
invalid message = record {
  valid = false;
  confidence = mempool;
  confirmations = none;
  block_height = none;
  error = some message;
}

-- The value of the decimal digits in front of a text.
unfoldable pub read_digits : Option ℕ → Text → Option ℕ
read_digits acc [] = acc
read_digits none (c ∷ s) =
    let rest = read_digits (some (c - 48)) s in if leb 48 c && leb c 57 then rest else none
read_digits (some n) (c ∷ s) =
    let rest = read_digits (some (n * 10 + (c - 48))) s in
    if leb 48 c && leb c 57 then rest else some n

-- `parseInt(voutStr ?? '', 10)` on a text without sign and leading space.
abbrev pub parse_vout : Option Text → Option ℕ
parse_vout none = none
parse_vout (some s) = read_digits none s

abbrev pub same_vout : Option ℕ → ℕ → Bool
same_vout none n = false
same_vout (some m) n = n == m

unfoldable pub receive_at : Option ℕ → List WalletDetail → Option WalletDetail
receive_at vout details = find (λ d. d.is_receive && same_vout vout d.vout) details

abbrev pub with_height : Result Text ℕ → Result Text (Option ℕ)
with_height (err message) = err message
with_height (ok height) = ok (some height)

-- The block header is asked for where the transaction is in a block.
abbrev pub height_of : (Text → Result Text ℕ) → Option Text → Result Text (Option ℕ)
height_of header none = ok none
height_of header (some blockhash) = with_height (header blockhash)

abbrev pub verified : ℕ → ℕ → Result Text (Option ℕ) → VerifyResult
verified finality_conf confirmations (err message) = invalid message
verified finality_conf confirmations (ok height) = record {
  valid = ltb 0 confirmations;
  confidence = confidence_for finality_conf confirmations;
  confirmations = some confirmations;
  block_height = height;
  error = if confirmations == 0 then some (text "Unconfirmed — awaiting inclusion") else none;
}

abbrev pub verify_output :
    Text → ℕ → (Text → Result Text ℕ) → Option Text → Option WalletDetail → ℕ → VerifyResult
verify_output id finality_conf header blockhash none confirmations =
    invalid (text "No receive output at " ++ id)
verify_output id finality_conf header blockhash (some detail) confirmations =
    verified finality_conf confirmations (height_of header (block_ref blockhash))

abbrev pub verify_confirmed :
    Text → ℕ → (Text → Result Text ℕ) → WalletTransaction → Option WalletDetail → ℤ → VerifyResult
verify_confirmed id finality_conf header tx detail (negsuc n) =
    invalid (text "Transaction conflicted (reorged out)")
verify_confirmed id finality_conf header tx detail (pos confirmations) =
    verify_output id finality_conf header tx.blockhash detail confirmations

abbrev pub verify_tx :
    Text → ℕ → (Text → Result Text ℕ) → Option ℕ → Result Text WalletTransaction → VerifyResult
verify_tx id finality_conf header vout (err message) = invalid message
verify_tx id finality_conf header vout (ok tx) =
    verify_confirmed id finality_conf header tx (receive_at vout tx.details)
      (confirmations_of tx.confirmations)

-- `verifyBurn`, for what `gettransaction` and `getblockheader` answer.
unfoldable pub verify_burn :
    ℕ → (Text → Result Text WalletTransaction) → (Text → Result Text ℕ) → Text → VerifyResult
unfolding confidence_for receive_at split_colon
verify_burn finality_conf transaction header burn_tx_id =
    let (txid, vout) = split_colon burn_tx_id in
    if length txid == 64
    then verify_tx burn_tx_id finality_conf header (parse_vout vout) (transaction txid)
    else invalid (text "Malformed deposit id: " ++ burn_tx_id)
