-- ===== src/Gateway/Intents.antt =====
-- btcsoq/gateway.ts: the intents that users open.
mod Opened
mod Tests
use soqtec.Base.{
  ℕ, ◌+◌, ◌*◌, Bool, true, false, ◌&&◌, ◌||◌, not, Option, none, some, List, [], ◌∷◌, ◌++◌, Text,
  text, Result, ok, err, leb, ◌==◌, if◌then◌else◌, length, all,
}
use soqtec.Store.{put_intent, get_intent, GatewayStore}
use soqtec.Store.Records.{BtcIntent, IntentKind, IntentStatus}
use soqtec.Gateway.World.{
  Answers, BtcsoqConfig, World, M, pure, throw, ask, gets, on_store, ◌>>=◌, ◌>>◌, query,
  new_address, money_loop_enabled,
}

-- `[02-9ac-hj-np-z]`
unfoldable pub is_bech32 : ℕ → Bool
is_bech32 c =
    (c == b'0')
    || ((leb b'2' c && leb c b'9')
        || ((c == b'a')
            || ((leb b'c' c && leb c b'h')
                || ((leb b'j' c && leb c b'n') || (leb b'p' c && leb c b'z')))))

-- What follows a prefix.
unfoldable pub after_prefix : Text → Text → Option Text
after_prefix [] s = some s
after_prefix (c ∷ p) [] = none
after_prefix (c ∷ p) (d ∷ s) = let rest = after_prefix p s in if c == d then rest else none

-- `prefix[02-9ac-hj-np-z]{20,high}`, the whole text.
abbrev has_data : ℕ → Option Text → Bool
has_data high none = false
has_data high (some rest) = leb 20 (length rest) && (leb (length rest) high && all is_bech32 rest)

-- `SSQ_ADDR_RE`
unfoldable pub is_ssq_address : Text → Bool
unfolding is_bech32 after_prefix
is_ssq_address s = has_data 120 (after_prefix (text "ssq1") s)

-- `BTC_ADDR_RE`
unfoldable pub is_btc_address : Text → Bool
unfolding is_bech32 after_prefix
is_btc_address s =
    has_data 100 (after_prefix (text "tb1") s) || has_data 100 (after_prefix (text "bcrt1") s)

module _ (env : Answers) (config : BtcsoqConfig) where
  -- Open where the node does not answer.
  abbrev accept_valid : Result Text Bool → M (Unit {0})
  accept_valid (err message) = pure tt
  accept_valid (ok true) = pure tt
  accept_valid (ok false) =
      throw (text "Soqucoin address failed checksum validation (not a real stagenet address)")

  unfoldable pub require_valid_ssq : Text → M (Unit {0})
  require_valid_ssq ssq w =
      if not (money_loop_enabled config)
      then (ok tt, w)
      else accept_valid (env.validate_address w.trace ssq) (record w { trace = query ∷ w.trace })

  unfoldable pub new_intent :
      IntentKind → IntentStatus → Text → Text → Option Text → Option Text → ℕ → BtcIntent
  new_intent kind status id ssq deposit_address payout_address now = record {
    id = id;
    kind = kind;
    network = config.network;
    ssq_address = ssq;
    btc_deposit_address = deposit_address;
    btc_payout_address = payout_address;
    status = status;
    created_at = now;
    updated_at = now;
    expires_at = now + config.intent_ttl_hours * 3600000;
    deposit_txid = none;
    deposit_vout = none;
    sats = none;
    confirmations = none;
    spv_proof = none;
    mint_txid = none;
    receipt_spend_txid = none;
    release_txid = none;
  }

  unfoldable pub store_intent : BtcIntent → M BtcIntent
  store_intent intent = on_store (put_intent intent) >> pure intent

  -- The address is fresh and carries the intent as its label.
  unfoldable pub open_deposit : Text → M BtcIntent
  open_deposit ssq = do
    id ← gets (λ v. env.new_uuid v.trace)
    let label = text "intent:" ++ id
    address ← ask (new_address label) (λ t. env.new_address t label)
    now ← gets (λ v. env.now v.trace)
    store_intent
        (new_intent IntentKind.deposit IntentStatus.awaiting_deposit id ssq (some address) none now)

  abbrev invalid_ssq : Text
  invalid_ssq = text "Invalid Soqucoin address (expected stagenet bech32m, ssq1...)"

  unfoldable pub create_deposit_intent : Text → M BtcIntent
  create_deposit_intent ssq =
      if is_ssq_address ssq then require_valid_ssq ssq >> open_deposit ssq else throw invalid_ssq

  unfoldable pub open_redeem : Text → Text → M BtcIntent
  open_redeem ssq payout =
      if is_btc_address payout
      then (do
        now ← gets (λ v. env.now v.trace)
        id ← gets (λ v. env.new_uuid v.trace)
        store_intent (
            new_intent IntentKind.redeem IntentStatus.awaiting_receipt id ssq none (some payout)
              now))
      else throw (text "Invalid Bitcoin payout address for " ++ config.network)

  unfoldable pub create_redeem_intent : Text → Text → M BtcIntent
  create_redeem_intent ssq payout =
      if is_ssq_address ssq
      then require_valid_ssq ssq >> open_redeem ssq payout
      else throw invalid_ssq
