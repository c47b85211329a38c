-- ===== src/Ln402/Race.antt =====
-- btcsoq/ln402.ts: the second channel, and the payments of the race, which keep the state of the
-- channel on this side. btcsoq/theater.ts: the loop of the race, less its events and its times.
use soqtec.Base.{ℕ, zero, suc, ◌+◌, Option, none, some, ◌++◌, Text, text, ok, if◌then◌else◌}
use soqtec.Base.Int.{ℤ, pos}
use soqtec.Base.Effects.{pure, throw, catch, gets, modify, ◌>>=◌, ◌>>◌}
use soqtec.Ln402.{
  LnChannelState, Channel, PayRequest, Lsp, C, call, is_open, create_invoice, get_channel,
  write_file, Ln402Config,
}
use soqtec.Ln402.Calls.{saved_channel, open_plain, bump, send_pay, truthy_id, minus_ℤ}

-- `{ stateIndex, initiatorBal, peerBal }`; the balance that is subtracted from may go below zero.
pub record View : Type 0 where
  pub state_index : ℕ
  pub initiator_bal : ℤ
  pub peer_bal : ℕ

abbrev pub view_of : Channel → View
view_of ch = record {
  state_index = ch.state_index;
  initiator_bal = pos ch.initiator_balance_sat;
  peer_bal = ch.peer_balance_sat;
}

-- The state that a payment asks for.
abbrev pub view_after : PayRequest → View
view_after req = record {
  state_index = req.state_index;
  initiator_bal = req.initiator_balance_sat;
  peer_bal = req.peer_balance_sat;
}

module _ (env : Lsp) (config : Ln402Config) where
  unfoldable pub store_payee : LnChannelState → C Text
  store_payee state = do
    modify (λ s. record s { payee = some state })
    call (write_file state) (λ t. env.write_file t state)
    modify (λ s. record s { payee_file = ok state })
    pure state.channel_id

  abbrev kept_payee : Text → Text → C Text
  kept_payee address id = gets (λ s. env.now s.calls) >>= λ now.
      store_payee (record { channel_id = id; address = address; created_at = now })

  abbrev use_payee : Text → Text → ℕ → Option LnChannelState → C Text
  use_payee address pubkey capacity none =
      open_plain env config pubkey address capacity >>= kept_payee address
  use_payee address pubkey capacity (some saved) =
      modify (λ s. record s { payee = some saved }) >> pure saved.channel_id

  abbrev find_payee : Text → Text → ℕ → Option LnChannelState → C Text
  find_payee address pubkey capacity (some c) = pure c.channel_id
  find_payee address pubkey capacity none = gets (λ s. s.payee_file) >>= λ f.
      saved_channel env config f >>= use_payee address pubkey capacity

  unfoldable pub ensure_payee_channel : Text → Text → ℕ → C Text
  ensure_payee_channel address pubkey capacity =
      gets (λ s. s.payee) >>= find_payee address pubkey capacity

  abbrev pub invoice_or_throw : Option Text → C Text
  invoice_or_throw none = throw (text "LSP returned no invoice_id")
  invoice_or_throw (some id) = pure id

  unfoldable pub new_invoice : Text → ℕ → C Text
  new_invoice channel_id amount =
      call (create_invoice channel_id amount) (λ t. env.create_invoice t channel_id amount)
      >>= λ id. invoice_or_throw (truthy_id id)

  abbrev pub open_view : Channel → C View
  open_view ch =
      if is_open ch
      then pure (view_of ch)
      else throw (text "channel not open (state=" ++ (ch.state ++ text ")"))

  unfoldable pub channel_view : Text → C View
  channel_view id = call (get_channel id) (λ t. env.get_channel t id) >>= open_view

  -- One request; the view moves on if it is accepted.
  unfoldable pub pay_invoice_fast : Text → Text → View → ℕ → C View
  pay_invoice_fast id channel_id view amount =
      let req =
        bump env config id channel_id view.state_index view.initiator_bal view.peer_bal amount in
      send_pay env config req
      >> pure (record {
        state_index = view.state_index + 1;
        initiator_bal = minus_ℤ view.initiator_bal amount;
        peer_bal = view.peer_bal + amount;
      })

  -- A payment that fails is tried once more on a fresh view.
  unfoldable pub pay_lap : Text → Text → View → ℕ → C View
  pay_lap id channel_id view amount =
      catch (pay_invoice_fast id channel_id view amount) (λ message.
        channel_view channel_id >>= λ fresh. pay_invoice_fast id channel_id fresh amount)

  abbrev pub lap_shors : ℕ
  lap_shors = 1000

  unfoldable pub run_laps : ℕ → Text → Text → View → C View
  run_laps zero payer payee view = pure view
  run_laps (suc laps) payer payee view = new_invoice payee lap_shors >>= λ id.
      pay_lap id payer view lap_shors >>= λ next. run_laps laps payer payee next

  unfoldable pub race : ℕ → Text → Text → C View
  race laps payer payee = channel_view payer >>= run_laps laps payer payee
