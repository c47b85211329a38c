-- ===== src/Store/Records.antt =====
-- The records of relayer/src/btcsoq/store.ts and attestation.ts. Optional fields are `Option`.
use soqtec.Base.{ℕ, Bool, Option, Text}
use soqtec.Chain.{BurnConfidence}

pub data IntentKind : Type 0 where
  deposit redeem : IntentKind

-- `DepositIntentStatus | RedeemIntentStatus`
pub data IntentStatus : Type 0 where
  awaiting_deposit deposit_seen confirmed minting minted expired failed : IntentStatus
  awaiting_receipt receipt_received released : IntentStatus

pub record BtcIntent : Type 0 where
  pub id : Text
  pub kind : IntentKind
  pub network : Text
  pub ssq_address : Text
  pub btc_deposit_address : Option Text
  pub btc_payout_address : Option Text
  pub status : IntentStatus
  pub created_at : ℕ
  pub updated_at : ℕ
  pub expires_at : ℕ
  pub deposit_txid : Option Text
  pub deposit_vout : Option ℕ
  pub sats : Option ℕ
  pub confirmations : Option ℕ
  pub spv_proof : Option Text
  pub mint_txid : Option Text
  pub receipt_spend_txid : Option Text
  pub release_txid : Option Text

pub data MintStatus : Type 0 where
  minting minted redeeming redeemed : MintStatus

pub record MintRecord : Type 0 where
  pub key : Text
  pub intent_id : Text
  pub ssq_address : Text
  pub sats : ℕ
  pub carrier_shors : ℕ
  pub op_return_hex : Text
  pub status : MintStatus
  pub claim_height : ℕ
  pub attempts : ℕ
  pub last_error : Option Text
  pub mint_txid : Option Text
  pub minted_at : Option ℕ
  pub released_at : Option ℕ
  pub redeem_intent_id : Option Text
  pub receipt_spend_txid : Option Text
  pub release_txid : Option Text
  pub created_at : ℕ
  pub updated_at : ℕ

pub data ConvertStatus : Type 0 where
  converting converted : ConvertStatus

pub record ConvertRecord : Type 0 where
  pub key : Text
  pub intent_id : Text
  pub ssq_address : Text
  pub sats : ℕ
  pub soq_in_shors : ℕ
  pub op_return_hex : Text
  pub status : ConvertStatus
  pub claim_height : ℕ
  pub attempts : ℕ
  pub last_error : Option Text
  pub treasury_txid : Option Text
  pub payout_txid : Option Text
  pub usdsoq_out_shors : Option ℕ
  pub created_at : ℕ
  pub updated_at : ℕ
  pub converted_at : Option ℕ

pub data Ln402Status : Type 0 where
  asking answered : Ln402Status

pub record Ln402Record : Type 0 where
  pub key : Text
  pub intent_id : Text
  pub ssq_address : Text
  pub sats : ℕ
  pub status : Ln402Status
  pub question : Text
  pub invoice_id : Option Text
  pub amount_sat : Option ℕ
  pub seller_pub : Option Text
  pub answer : Option Text
  pub model : Option Text
  pub receipt : Option Text
  pub receipt_verified : Option Bool
  pub response_sha256 : Option Text
  pub attempts : ℕ
  pub last_error : Option Text
  pub created_at : ℕ
  pub updated_at : ℕ
  pub answered_at : Option ℕ

pub data HeldReason : Type 0 where
  underpay bad_recipient : HeldReason

pub record DepositRecord : Type 0 where
  pub key : Text
  pub txid : Text
  pub vout : ℕ
  pub address : Text
  pub sats : ℕ
  pub confirmations : ℕ
  pub confidence : BurnConfidence
  pub intent_id : Option Text
  pub network : Text
  pub first_seen_at : ℕ
  pub confirmed_at : Option ℕ
  pub block_hash : Option Text
  pub block_height : Option ℕ
  pub spv_proof : Option Text
  pub held_reason : Option HeldReason

pub data AttestedEventKind : Type 0 where
  deposit_confirmed receipt_minted receipt_returned : AttestedEventKind
  btc_released converted_usdsoq lightning_paid : AttestedEventKind

pub record AttestationRecord : Type 0 where
  pub id : Text
  pub kind : AttestedEventKind
  pub payload : Text
  pub digest_hex : Text
  pub signature_hex : Option Text
  pub signer_address : Text
  pub ts : ℕ

pub record AnchorRecord : Type 0 where
  pub ts : ℕ
  pub root : Text
  pub leaf_count : ℕ
  pub txid : Text
