-- ===== src/Gateway/Answer.antt =====
-- btcsoq/gateway.ts: the SOQ-402 leg, one paid answer for each deposit outpoint.
use soqtec.Base.{ℕ, ◌+◌, Option, none, some, [], ◌∷◌, Text, text, ok, if◌then◌else◌, not, is_some}
use soqtec.Attestation.{word, number}
use soqtec.Store.{claim_ln402, put_ln402, get_ln402}
use soqtec.Store.Records.{Ln402Record, ConvertRecord, asking, answered, lightning_paid}
use soqtec.Gateway.World.{
  Answers, BtcsoqConfig, M, pure, ask, gets, on_store, catch, finally, ◌>>=◌, ◌>>◌, query,
  ln_challenge, ln_status, ln_pay, ln_redeem, InvoiceStatus, pending, paid, expired, in_set, delete,
  ln402_enabled,
}
use soqtec.Gateway.Breaker.{is_paused}
use soqtec.Gateway.Attest.{attest}

abbrev pub or_zero : Option ℕ → ℕ
or_zero none = 0
or_zero (some n) = n

abbrev pub or_empty : Option Text → Text
or_empty none = []
or_empty (some s) = s

module _ (env : Answers) (config : BtcsoqConfig) where
  abbrev save_ln402 : Ln402Record → M (Unit {0})
  save_ln402 rec w = on_store (put_ln402 (env.now w.trace) rec) w

  -- The invoice of the record: the one it has, or that of a fresh challenge.
  unfoldable pub ensure_invoice : Ln402Record → M (Ln402Record × Text)
  ensure_invoice rec = elim rec.invoice_id [
    | some invoice ↦ pure (rec, invoice)
    | none ↦
        let tried = record rec { attempts = rec.attempts + 1 } in
        do
          save_ln402 tried
          c ← ask ln_challenge env.ln_challenge
          let pinned = record tried {
            invoice_id = some c.invoice_id;
            amount_sat = some c.amount_sat;
            seller_pub = some c.seller_pub;
          }
          save_ln402 pinned
          pure (pinned, c.invoice_id)
  ]

  unfoldable pub redeem_402 : Ln402Record → Text → M (Unit {0})
  redeem_402 rec invoice = do
    ans ←
        ask (ln_redeem invoice (or_empty rec.seller_pub))
          (λ t. env.ln_redeem t invoice (or_empty rec.seller_pub))
    now ← gets (λ v. env.now v.trace)
    let done = record rec {
      status = answered;
      answer = some ans.answer;
      model = some ans.model;
      receipt = some ans.receipt;
      receipt_verified = some ans.receipt_verified;
      response_sha256 = some ans.response_sha256;
      answered_at = (if is_some rec.answered_at then rec.answered_at else some now);
      last_error = none;
    }
    save_ln402 done
    attest env config lightning_paid (record {
      key = rec.key;
      intent_id = rec.intent_id;
      ssq_address = rec.ssq_address;
      sats = rec.sats;
      txid = invoice;
      detail = some (
          (text "invoiceId", word invoice)
          ∷ (text "amountShors", number (or_zero rec.amount_sat))
          ∷ (text "responseSha256", word ans.response_sha256)
          ∷ (text "sellerReceiptVerified", number (if ans.receipt_verified then 1 else 0))
          ∷ []);
    })

  -- An expired invoice is dropped; a pending one is paid; a paid one is only redeemed.
  unfoldable pub pay_and_redeem : Ln402Record → Text → InvoiceStatus → M (Unit {0})
  pay_and_redeem rec invoice expired =
      save_ln402 (record rec { invoice_id = none; seller_pub = none })
  pay_and_redeem rec invoice pending =
      ask (ln_pay invoice) (λ t. env.ln_pay t invoice) >> redeem_402 rec invoice
  pay_and_redeem rec invoice paid = redeem_402 rec invoice

  -- What a throw leaves in the ledger is the record as it was last saved, with the error.
  abbrev note_ln402_error : Text → Text → M (Unit {0})
  note_ln402_error key message w = elim (get_ln402 key w.store) [
    | none ↦ (ok tt, w)
    | some latest ↦ save_ln402 (record latest { last_error = some message }) w
  ]

  unfoldable pub drive_402 : Ln402Record → M (Unit {0})
  drive_402 rec = do
    ask query env.ln_client
    (pinned, invoice) ← ensure_invoice rec
    status ← ask (ln_status invoice) (λ t. env.ln_status t invoice)
    pay_and_redeem pinned invoice status

  unfoldable pub attempt_402 : Ln402Record → M (Unit {0})
  attempt_402 rec w =
      if not (ln402_enabled config)
      then (ok tt, w)
      else if in_set rec.key w.ln402_in_flight
      then (ok tt, w)
      else if is_paused env config w
      then (ok tt, w)
      else finally (catch (drive_402 rec) (note_ln402_error rec.key))
          (λ v. record v { ln402_in_flight = delete rec.key v.ln402_in_flight })
          (record w { ln402_in_flight = rec.key ∷ w.ln402_in_flight })

  unfoldable pub start_ln402_leg : ConvertRecord → M (Unit {0})
  start_ln402_leg convert w =
      if not (ln402_enabled config)
      then (ok tt, w)
      else if is_some (get_ln402 convert.key w.store)
      then (ok tt, w)
      else let now = env.now w.trace in
        let rec : Ln402Record = record {
          key = convert.key;
          intent_id = convert.intent_id;
          ssq_address = convert.ssq_address;
          sats = convert.sats;
          status = asking;
          question = config.ln402_question;
          invoice_id = none;
          amount_sat = none;
          seller_pub = none;
          answer = none;
          model = none;
          receipt = none;
          receipt_verified = none;
          response_sha256 = none;
          attempts = 0;
          last_error = none;
          created_at = now;
          updated_at = now;
          answered_at = none;
        } in
        let (claimed, s) = claim_ln402 rec w.store in
        if not claimed then (ok tt, w) else attempt_402 rec (record w { store = s })
