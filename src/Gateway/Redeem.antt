-- ===== src/Gateway/Redeem.antt =====
-- btcsoq/gateway.ts: returned receipts and the release of BTC for them.
use soqtec.Base.{
  ℕ, ◌+◌, ◌*◌, Bool, true, false, ◌&&◌, ◌||◌, Option, none, some, List, [], ◌∷◌, ◌++◌, Text, text,
  ok, leb, if◌then◌else◌, is_some, find, filter, sort_desc, ◌===◌,
}
use soqtec.Receipt.{BtcsoqTag, is_redeem, payout_commit}
use soqtec.Scan.{RedemptionSpend, scan_redemptions}
use soqtec.Store.{
  GatewayStore, get_intent, put_intent, get_mint, list_intents, find_mint_by_carrier,
  set_soq_scan_height,
}
use soqtec.Store.Records.{
  BtcIntent, IntentKind, IntentStatus, MintRecord, minting, minted, redeeming, redeemed,
  receipt_returned, btc_released,
}
use soqtec.Gateway.World.{
  Answers, BtcsoqConfig, M, pure, ask, gets, on_store, catch, ◌>>=◌, ◌>>◌, for_each, query,
  list_transactions, send_btc, BtcSend, WalletTx,
}
use soqtec.Gateway.Breaker.{release_breaker_reason}
use soqtec.Gateway.Attest.{attest}
use soqtec.Gateway.Mint.{save_mint}

-- `redeem:${intent.id}`
unfoldable pub redeem_comment : Text → Text
redeem_comment id = text "redeem:" ++ id

abbrev ttl_ms : BtcsoqConfig → ℕ
ttl_ms config = config.intent_ttl_hours * 3600000

abbrev pub is_open : IntentStatus → Bool
is_open IntentStatus.awaiting_receipt = true
is_open _ = false

abbrev pub is_expired : IntentStatus → Bool
is_expired IntentStatus.expired = true
is_expired _ = false

abbrev pub is_redeem_kind : IntentKind → Bool
is_redeem_kind IntentKind.redeem = true
is_redeem_kind _ = false

-- The open or expired redeem intents of the receipt's owner, newest first.
unfoldable pub candidates : MintRecord → GatewayStore → List BtcIntent
candidates rec s =
    filter
      (λ i.
        is_redeem_kind i.kind
        && ((i.ssq_address === rec.ssq_address) && (is_open i.status || is_expired i.status)))
      (list_intents s)

abbrev pub head? {ℓ} : {A : Type ℓ} → List A → Option A
head? [] = none
head? (a ∷ rest) = some a

-- `sort((a, b) => a.createdAt - b.createdAt)[0]`: the first of the oldest.
unfoldable pub oldest : List BtcIntent → Option BtcIntent
oldest [] = none
oldest (i ∷ rest) = elim (oldest rest) [
  | none ↦ some i
  | some j ↦ if leb i.created_at j.created_at then some i else some j
]

abbrev pub sent_with : Text → WalletTx → Bool
sent_with comment t = t.is_send && (t.comment === comment)

-- The payout commitment of the return spend, if it is a redeem tag that carries one.
abbrev pub commitment : Option BtcsoqTag → Option Text
commitment none = none
commitment (some tag) = if is_redeem tag.op then tag.payout_commit else none

module _ (env : Answers) (config : BtcsoqConfig) where
  abbrev pub commits_to : Text → Option Text → Bool
  commits_to commit none = false
  commits_to commit (some address) = payout_commit env.sha256 address === commit

  -- Which redeem intent a returned receipt binds to.
  unfoldable pub choose_intent : Option BtcsoqTag → List BtcIntent → Option BtcIntent
  choose_intent tag cs = elim (commitment tag) [
    | some commit ↦ find (λ i. commits_to commit i.btc_payout_address) cs
    | none ↦ elim (oldest (filter (λ i. is_open i.status) cs)) [
      | some i ↦ some i
      | none ↦ head? (sort_desc (λ i. i.created_at) (filter (λ i. is_expired i.status) cs))
    ]
  ]

  unfoldable pub finalize_release : MintRecord → BtcIntent → Text → M (Unit {0})
  finalize_release rec intent release_txid = do
    now ← gets (λ v. env.now v.trace)
    save_mint env config (record rec {
      status = redeemed;
      release_txid = some release_txid;
      released_at = (if is_some rec.released_at then rec.released_at else some now);
      last_error = none;
    })
    on_store (
        put_intent (record intent {
          status = IntentStatus.released;
          release_txid = some release_txid;
          updated_at = now;
        }))
    attest env config btc_released (record {
      key = rec.key;
      intent_id = intent.id;
      ssq_address = rec.ssq_address;
      sats = rec.sats;
      txid = release_txid;
      detail = none;
    })

  -- Behind the look at the wallet's history: finalize the payment that is there, or pay.
  unfoldable pub settle_release : MintRecord → BtcIntent → BtcSend → List WalletTx → M (Unit {0})
  settle_release rec intent send history = elim (find (sent_with send.comment) history) [
    | some already ↦ finalize_release rec intent already.txid
    | none ↦ do
      txid ← ask (send_btc send) (λ t. env.send_to_address t send)
      finalize_release rec intent txid
  ]

  unfoldable pub drive_release : MintRecord → BtcIntent → Text → M (Unit {0})
  drive_release rec intent address =
      let send : BtcSend = record {
        address = address;
        sats = rec.sats;
        comment = redeem_comment intent.id;
      } in
      ask list_transactions env.list_transactions >>= settle_release rec intent send

  abbrev note_release_error : Text → Text → M (Unit {0})
  note_release_error key message w = elim (get_mint key w.store) [
    | none ↦ (ok tt, w)
    | some latest ↦ save_mint env config (record latest { last_error = some message }) w
  ]

  abbrev pub linked_intent : MintRecord → GatewayStore → Option BtcIntent
  linked_intent rec s = elim rec.redeem_intent_id [ none ↦ none | some id ↦ get_intent id s ]

  unfoldable pub attempt_release : MintRecord → M (Unit {0})
  attempt_release rec w = elim (linked_intent rec w.store) [
    | none ↦ (ok tt, w)
    | some intent ↦ elim intent.btc_payout_address [
      | none ↦ (ok tt, w)
      | some address ↦
          if is_some (release_breaker_reason env config rec.sats w)
          then (ok tt, w)
          else catch (drive_release rec intent address) (note_release_error rec.key) w
    ]
  ]

  -- The release is claimed on the record before the wallet is called.
  unfoldable pub claim_release : MintRecord → BtcIntent → Text → M (Unit {0})
  claim_release rec intent receipt_spend_txid = do
    now ← gets (λ v. env.now v.trace)
    let claimed = record rec {
      status = redeeming;
      redeem_intent_id = some intent.id;
      receipt_spend_txid = some receipt_spend_txid;
    }
    save_mint env config claimed
    on_store (
        put_intent (record intent {
          expires_at =
              (if is_expired intent.status then now + ttl_ms config else intent.expires_at);
          status = IntentStatus.receipt_received;
          receipt_spend_txid = some receipt_spend_txid;
          mint_txid = rec.mint_txid;
          sats = some rec.sats;
          updated_at = now;
        }))
    attest env config receipt_returned (record {
      key = rec.key;
      intent_id = intent.id;
      ssq_address = rec.ssq_address;
      sats = rec.sats;
      txid = receipt_spend_txid;
      detail = none;
    })
    attempt_release claimed

  unfoldable pub on_receipt_returned : MintRecord → Text → Option BtcsoqTag → M (Unit {0})
  on_receipt_returned rec receipt_spend_txid tag w = elim rec.status [
    | minting ↦ (ok tt, w)
    | redeeming ↦ (ok tt, w)
    | redeemed ↦ (ok tt, w)
    | minted ↦ elim (choose_intent tag (candidates rec w.store)) [
      | none ↦ (ok tt, w)
      | some intent ↦ claim_release rec intent receipt_spend_txid w
    ]
  ]

  abbrev pub on_carrier : RedemptionSpend → Text → M (Unit {0})
  on_carrier spend carrier w = elim (find_mint_by_carrier carrier w.store) [
    | none ↦ (ok tt, w)
    | some rec ↦ on_receipt_returned rec spend.txid spend.tag w
  ]

  abbrev pub on_spend : RedemptionSpend → M (Unit {0})
  on_spend spend = for_each spend.spent_carriers (on_carrier spend)

  -- A first run starts at the tip. A scan reads the blocks of one view of the chain.
  unfoldable pub scan_for_redemptions : M (Unit {0})
  scan_for_redemptions = do
    tip ← ask query env.tip_height
    cursor ← gets (λ v. v.store.state.soq_scan_height)
    elim cursor [
      | none ↦ on_store (set_soq_scan_height tip)
      | some from ↦ if leb tip from then pure tt else do
        view ← ask query env.chain_view
        store ← gets (λ v. v.store)
        for_each
            (scan_redemptions config.redemption_address from tip
              (λ o. is_some (find_mint_by_carrier o store)) view.block)
            on_spend
        on_store (set_soq_scan_height tip)
    ]
