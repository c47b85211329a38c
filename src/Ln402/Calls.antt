-- ===== src/Ln402/Calls.antt =====
-- btcsoq/ln402.ts: the operations of the client.
use soqtec.Base.{
  ℕ, ◌+◌, ◌-◌, not, Option, none, some, [], ◌∷◌, ◌++◌, Text, text, Result, ok, err, ltb, leb, ◌==◌,
  ◌===◌, if◌then◌else◌,
}
use soqtec.Base.Int.{ℤ, pos, negsuc}
use soqtec.Base.Effects.{pure, throw, catch, gets, modify, ◌>>=◌, ◌>>◌}
use soqtec.Attestation.{decimal}
use soqtec.Ln402.{
  Ln402Config, LnChannelState, Invoice, Channel, PayRequest, LspAnswer, Challenge402, SellerAnswer,
  Answer402, Lsp, C, call, is_open, faucet, get_invoice, get_channel, open_channel, pay, ask_seller,
  write_file,
}
use soqtec.Ln402.Receipt.{verify_receipt}

-- `a - b`
abbrev pub minus : ℕ → ℕ → ℤ
minus a b = if leb b a then pos (a - b) else negsuc (b - a - 1)

abbrev pub minus_ℤ : ℤ → ℕ → ℤ
minus_ℤ (pos a) b = minus a b
minus_ℤ (negsuc a) b = negsuc (a + b)

-- An id that is missing or empty is none.
abbrev pub truthy_id : Option Text → Option Text
truthy_id none = none
truthy_id (some []) = none
truthy_id (some (c ∷ s)) = some (c ∷ s)

module _ (env : Lsp) (config : Ln402Config) where
  -- The channel of the file, if the LSP still shows it open.
  unfoldable pub saved_channel : Result Text LnChannelState → C (Option LnChannelState)
  saved_channel (err message) = pure none
  saved_channel (ok saved) =
      catch
        (call (get_channel saved.channel_id) (λ t. env.get_channel t saved.channel_id) >>= λ ch.
          pure (if is_open ch then some saved else none))
        (λ message. pure none)

  abbrev pub opened_id : LspAnswer → C Text
  opened_id a =
      if a.accepted
      then elim (truthy_id a.channel_id) [
        | none ↦ throw (text "LSP channel open rejected: " ++ a.reject_reason)
        | some id ↦ pure id
      ]
      else throw (text "LSP channel open rejected: " ++ a.reject_reason)

  unfoldable pub open_plain : Text → Text → ℕ → C Text
  open_plain pubkey address capacity =
      call (open_channel pubkey address capacity) (λ t. env.open_channel t pubkey address capacity)
      >>= opened_id

  abbrev faucet_id : LspAnswer → Option Text
  faucet_id a = if a.accepted then truthy_id a.channel_id else none

  -- The faucet's channel, or a plain open where the faucet declines or fails.
  unfoldable pub open_by_faucet : C (Option Text)
  open_by_faucet =
      catch (call faucet (λ t. env.faucet t) >>= λ a. pure (faucet_id a)) (λ message. pure none)

  abbrev pub or_open : Option Text → C Text
  or_open none =
      open_plain config.channel_pubkey_hex config.channel_address config.channel_capacity_shors
  or_open (some id) = pure id

  -- The channel is in use before its file is written.
  unfoldable pub store_channel : LnChannelState → C Text
  store_channel state = do
    modify (λ s. record s { channel = some state })
    call (write_file state) (λ t. env.write_file t state)
    modify (λ s. record s { channel_file = ok state })
    pure state.channel_id

  unfoldable pub keep_channel : Text → C Text
  keep_channel id = do
    now ← gets (λ s. env.now s.calls)
    store_channel (record { channel_id = id; address = config.channel_address; created_at = now })

  abbrev pub use_channel : Option LnChannelState → C Text
  use_channel none = (open_by_faucet >>= or_open) >>= keep_channel
  use_channel (some saved) =
      modify (λ s. record s { channel = some saved }) >> pure saved.channel_id

  abbrev pub find_channel : Option LnChannelState → C Text
  find_channel (some c) = pure c.channel_id
  find_channel none = gets (λ s. s.channel_file) >>= λ f. saved_channel f >>= use_channel

  unfoldable pub ensure_channel : C Text
  ensure_channel = gets (λ s. s.channel) >>= find_channel

  abbrev missing_payment : Text
  missing_payment = text "402 challenge missing invoice_id/seller_pub"

  abbrev pub challenged : SellerAnswer → C Challenge402
  challenged resp =
      if resp.status == 402
      then elim resp.payment [ none ↦ throw missing_payment | some p ↦ pure p ]
      else throw (
          text "seller returned "
          ++ (decimal resp.status ++ text " to an unpaid request (expected 402)"))

  unfoldable pub challenge : Text → Text → C Challenge402
  challenge question url =
      call (ask_seller none question url) (λ t. env.seller t none question url) >>= challenged

  unfoldable pub invoice_status : Text → C Text
  invoice_status id = call (get_invoice id) (λ t. env.get_invoice t id) >>= λ inv. pure inv.status

  abbrev pub accepted : LspAnswer → C (Unit {0})
  accepted a =
      if a.accepted then pure tt else throw (text "invoice pay rejected: " ++ a.reject_reason)

  -- The channel's next state: the amount goes from the initiator to the peer.
  unfoldable pub bump : Text → Text → ℕ → ℤ → ℕ → ℕ → PayRequest
  bump invoice_id channel_id state_index initiator peer amount = record {
    invoice_id = invoice_id;
    channel_id = channel_id;
    state_index = state_index + 1;
    initiator_balance_sat = minus_ℤ initiator amount;
    peer_balance_sat = peer + amount;
  }

  unfoldable pub send_pay : PayRequest → C (Unit {0})
  send_pay req = call (pay req) (λ t. env.pay t req) >>= accepted

  unfoldable pub pay_from : Text → Text → Invoice → Channel → C (Unit {0})
  pay_from invoice_id channel_id inv ch =
      if not (is_open ch)
      then throw (text "channel not open (state=" ++ (ch.state ++ text ")"))
      else if ltb ch.initiator_balance_sat inv.amount_sat
      then throw (text "insufficient channel balance")
      else send_pay (
          bump invoice_id channel_id ch.state_index (pos ch.initiator_balance_sat)
            ch.peer_balance_sat inv.amount_sat)

  unfoldable pub pay_pending : Text → Text → Invoice → C (Unit {0})
  pay_pending invoice_id channel_id inv =
      if inv.status === text "pending"
      then call (get_channel channel_id) (λ t. env.get_channel t channel_id)
        >>= pay_from invoice_id channel_id inv
      else if inv.status === text "paid"
      then pure tt
      else throw (text "invoice is " ++ inv.status)

  unfoldable pub pay_invoice : Text → C (Unit {0})
  pay_invoice invoice_id = do
    channel_id ← ensure_channel
    inv ← call (get_invoice invoice_id) (λ t. env.get_invoice t invoice_id)
    pay_pending invoice_id channel_id inv

  abbrev or_unknown : Option Text → Text → Text
  or_unknown none m = m
  or_unknown (some m) fallback = m

  abbrev pub redeemed : Text → SellerAnswer → C Answer402
  redeemed expected resp = elim resp.receipt [
    | none ↦ throw (text "paid response missing answer or signed receipt")
    | some signed ↦
        if resp.answer === []
        then throw (text "paid response missing answer or signed receipt")
        else pure (record {
          answer = resp.answer;
          model = or_unknown resp.model signed.receipt.model;
          receipt = signed;
          receipt_verified = verify_receipt env.crypto signed expected;
          response_sha256 = signed.receipt.response_sha256;
        })
  ]

  abbrev pub redeem_answer : Text → SellerAnswer → C Answer402
  redeem_answer expected resp =
      if resp.status == 402
      then throw (text "seller re-challenged (invoice not paid or already redeemed)")
      else if resp.status == 200
      then redeemed expected resp
      else throw (text "seller redeem HTTP " ++ decimal resp.status)

  unfoldable pub redeem : Text → Text → Text → Text → C Answer402
  redeem invoice_id expected question url =
      call (ask_seller (some invoice_id) question url)
        (λ t. env.seller t (some invoice_id) question url)
      >>= redeem_answer expected

  -- `performPaidAsk`, less its progress events and its times.
  unfoldable pub perform_paid_ask : Text → Text → C (Challenge402 × Answer402)
  perform_paid_ask question url = do
    c ← challenge question url
    pay_invoice c.invoice_id
    answer ← redeem c.invoice_id c.seller_pub question url
    pure (c, answer)
