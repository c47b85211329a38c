-- ===== src/Gateway/Tests.antt =====
-- btcsoq/gateway.ts on one deposit of 100000 sats. The wallet carries out what it is asked for and
-- answers with a timeout; the chain shows every send in its mempool.
mod Runs
mod Steps
use soqtec.Base.{
  ℕ, Bool, true, false, ◌&&◌, Option, none, some, List, [], ◌∷◌, ◌++◌, Text, text, Result, ok, err,
  ◌===◌, take, if◌then◌else◌,
}
use soqtec.Chain.{BurnConfidence, ChainId, NormalizedBurnEvent}
use soqtec.Receipt.{tag_script_hex, tag_bytes}
use soqtec.Receipt.{BtcsoqTagOp}
use soqtec.Receipt.Bytes.{from_hex, to_hex}
use soqtec.Scan.{Tx, ChainView}
use soqtec.Store.{GatewayStore, new_store, put_intent, put_deposit}
use soqtec.Store.Records.{
  BtcIntent, IntentKind, IntentStatus, DepositRecord, MintRecord, MintStatus,
}
use soqtec.Gateway.World.{
  Answers, BtcsoqConfig, World, Call, Trace, query, scan_mint, send_mint, list_transactions,
  send_btc, sign_digest, convert_execute, ln_challenge, ln_status, ln_pay, ln_redeem, MintRequest,
  BtcSend, WalletTx, pending, paid,
}
use soqtec.Bitcoin.{DepositEvent}

abbrev pub script_of : Text → Text
script_of payload = elim (tag_script_hex (from_hex payload)) [ ok s ↦ s | err e ↦ [] ]

abbrev pub tx_of : MintRequest → Tx
tx_of req = record {
  txid = text "m1";
  vin = [];
  vout = record { value_shors = 0; script_hex = script_of req.op_return_hex; address = none } ∷ [];
}

abbrev pub mempool_of : Trace → List (Option Tx)
mempool_of [] = []
mempool_of (send_mint req ∷ t) = some (tx_of req) ∷ mempool_of t
mempool_of (_ ∷ t) = mempool_of t

abbrev pub history_of : Trace → List WalletTx
history_of [] = []
history_of (send_btc s ∷ t) =
    record { is_send = true; comment = s.comment; txid = text "b1" } ∷ history_of t
history_of (_ ∷ t) = history_of t

abbrev pub is_paid : Text → Trace → Bool
is_paid i [] = false
is_paid i (ln_pay j ∷ t) = let rest = is_paid i t in if j === i then true else rest
is_paid i (_ ∷ t) = is_paid i t

abbrev pub sha256 : List ℕ → List ℕ
sha256 m = take 32 (
    7 ∷ 7 ∷ 7 ∷ 7 ∷ 7 ∷ 7 ∷ 7 ∷ 7 ∷ 1 ∷ 1 ∷ 1 ∷ 1 ∷ 1 ∷ 1 ∷ 1 ∷ 1 ∷ 7 ∷ 7 ∷ 7 ∷ 7 ∷ 7 ∷ 7 ∷ 7 ∷ 7
    ∷ 1 ∷ 1 ∷ 1 ∷ 1 ∷ 1 ∷ 1 ∷ 1 ∷ 1 ∷ [])

abbrev pub env : Answers
env = record {
  now = λ t. 1000;
  file_exists = λ t f. false;
  sha256 = sha256;
  validate_address = λ t a. ok true;
  tip_height = λ t. ok 50;
  chain_view = λ t. ok (record { mempool = mempool_of t; tip = 50; block = λ h. [] });
  send_btcsoq_mint = λ t req. ok (text "m1");
  sign_digest = λ t d a. err (text "signer down");
  new_uuid = λ t. text "u1";
  blockchain_info = λ t. ok 900;
  list_wallets = λ t. ok (text "deposits" ∷ []);
  load_wallet = λ t n. ok tt;
  best_block_hash = λ t. ok (text "h0");
  list_since_block = λ t ref. ok (record { transactions = []; lastblock = text "h1" });
  get_transaction = λ t x. err (text "unknown");
  block_height = λ t h. ok 900;
  tx_out_proof = λ t x b. err (text "not in a block");
  verify_proof = λ t p. ok [];
  new_address = λ t label. ok (text "bc9");
  create_raw = λ t payload. ok payload;
  fund_raw = λ t hex. ok hex;
  sign_raw = λ t hex. ok (record { complete = true; hex = hex });
  send_raw = λ t hex. ok (text "a1");
  vault_balance = λ t. ok (record { confirmed_sats = 5000; pending_sats = 0 });
  list_transactions = λ t. ok (history_of t);
  send_to_address = λ t s. err (text "timeout");
  convert_execute = λ t x a. err (text "down");
  ln_client = λ t. ok tt;
  ln_challenge =
      λ t. ok (record { invoice_id = text "inv"; amount_sat = 3; seller_pub = text "s" });
  ln_status = λ t i. ok (if is_paid i t then paid else pending);
  ln_pay = λ t i. ok tt;
  ln_redeem = λ t i p. err (text "seller down");
}

abbrev pub config : BtcsoqConfig
config = record {
  network = text "regtest";
  deposit_wallet = text "deposits";
  finality_conf = 1;
  intent_ttl_hours = 24;
  mint_signer_url = text "u";
  mint_signer_token = text "t";
  mint_from_address = text "f";
  redemption_address = text "r";
  carrier_shors = 546;
  min_deposit_sats = 1000;
  attestation_address = [];
  max_daily_mint_sats = 500000;
  max_daily_release_sats = 500000;
  pause_file = [];
  convert_signer_url = [];
  convert_signer_token = [];
  convert_treasury_address = [];
  convert_usdsoq_address = [];
  convert_soq_shors = 0;
  max_daily_convert_shors = 0;
  ln402_lsp_url = [];
  ln402_seller_url = [];
  ln402_question = [];
  ln402_channel_address = [];
}

abbrev pub txid : Text
txid = text "00ff00ff00ff00ff00ff00ff00ff00ff00ff00ff00ff00ff00ff00ff00ff00ff"

abbrev pub key : Text
key = text "d1"

abbrev pub intent : IntentKind → IntentStatus → BtcIntent
intent kind status = record {
  id = text "i1";
  kind = kind;
  network = text "regtest";
  ssq_address = text "ssq1";
  btc_deposit_address = some (text "bc1");
  btc_payout_address = some (text "bc2");
  status = status;
  created_at = 1;
  updated_at = 1;
  expires_at = 5000;
  deposit_txid = none;
  deposit_vout = none;
  sats = none;
  confirmations = none;
  spv_proof = none;
  mint_txid = none;
  receipt_spend_txid = none;
  release_txid = none;
}

abbrev pub deposit : DepositRecord
deposit = record {
  key = key;
  txid = txid;
  vout = 1;
  address = text "bc1";
  sats = 100000;
  confirmations = 6;
  confidence = BurnConfidence.confirmed;
  intent_id = some (text "i1");
  network = text "regtest";
  first_seen_at = 1;
  confirmed_at = none;
  block_hash = none;
  block_height = none;
  spv_proof = none;
  held_reason = none;
}

abbrev pub world : GatewayStore → World
world s = record {
  store = s;
  seen = [];
  por_halted = false;
  minting_in_flight = [];
  converting_in_flight = [];
  ln402_in_flight = [];
  money_loop_running = false;
  anchoring = false;
  cea = record { cursor = some (text "h0"); healthy = true; checking = false };
  trace = [];
}

-- The intent waits; the deposit is only about to be reported.
abbrev pub waiting : World
waiting =
    world (put_intent (intent IntentKind.deposit IntentStatus.awaiting_deposit) (new_store none))

-- The deposit is recorded, and not minted.
abbrev pub recorded : World
recorded = world (
    put_deposit deposit
      (put_intent (intent IntentKind.deposit IntentStatus.confirmed) (new_store none)))

abbrev pub event : DepositEvent
event = record {
  event = record {
    chain = ChainId.bitcoin;
    burn_tx_id = key;
    gross_amount = 100000;
    net_amount_soq = 0;
    fee_amount = 0;
    recipient_soq = [];
    nonce = 0;
    confidence = BurnConfidence.confirmed;
    detected_at = 5;
    finalized_at = none;
  };
  txid = txid;
  vout = 1;
  address = text "bc1";
  confirmations = 6;
  blockhash = none;
  blockheight = none;
}

abbrev pub payload : Text
payload = to_hex (tag_bytes BtcsoqTagOp.mint 100000 txid 1)

abbrev pub receipt : MintStatus → MintRecord
receipt status = record {
  key = key;
  intent_id = text "i1";
  ssq_address = text "ssq1";
  sats = 100000;
  carrier_shors = 546;
  op_return_hex = payload;
  status = status;
  claim_height = 50;
  attempts = 0;
  last_error = none;
  mint_txid = none;
  minted_at = none;
  released_at = none;
  redeem_intent_id = some (text "i1");
  receipt_spend_txid = none;
  release_txid = none;
  created_at = 1;
  updated_at = 1;
}
