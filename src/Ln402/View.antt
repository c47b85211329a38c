-- ===== src/Ln402/View.antt =====
-- btcsoq/theater.ts and ln402.ts: the race against a provider that applies what it accepts.
use soqtec.Base.{
  ℕ, zero, suc, ◌≡◌, sym, ap, ◌∙◌, true, ◌∷◌, Text, ok, arith, Bool-cases, Result-cases, inl, inr,
}
use soqtec.Ln402.{
  Channel, PayRequest, LspAnswer, Calls, Lsp, Client, is_open, pay, get_channel, create_invoice,
  Ln402Config,
}
use soqtec.Ln402.Calls.{send_pay, bump}
use soqtec.Ln402.Race.{
  View, view_of, view_after, new_invoice, channel_view, pay_invoice_fast, pay_lap, run_laps, race,
}

-- The provider holds a state for each channel: it answers it, a payment that it accepts replaces it
-- by the state that the payment asks for, and reads and new invoices leave it.
pub record IsLedger (env : Lsp) (held : Calls → Text → View) : Type 0 where
  pub shows :
      (t : Calls) (id : Text) (ch : Channel) → env.get_channel t id ≡ ok ch → view_of ch ≡ held t id
  pub applies :
      (t : Calls) (req : PayRequest) (a : LspAnswer)
      → env.pay t req ≡ ok a
      → a.accepted ≡ true
      → held (pay req ∷ t) req.channel_id ≡ view_after req
  pub reads : (t : Calls) (i id : Text) → held (get_channel i ∷ t) id ≡ held t id
  pub invoices :
      (t : Calls) (i : Text) (n : ℕ) (id : Text) → held (create_invoice i n ∷ t) id ≡ held t id

module _ (env : Lsp) (config : Ln402Config) (held : Calls → Text → View)
    (ledger : IsLedger env held) where
  pay_invoice_fast-held :
      (id payer : Text) (view v : View) (amount : ℕ) (s : Client)
      → let (r, s') = pay_invoice_fast env config id payer view amount s in
        r ≡ ok v → v ≡ held s'.calls payer
  unfolding pay_invoice_fast send_pay bump
  pay_invoice_fast-held id payer view v amount s h =
      let req = bump env config id payer view.state_index view.initiator_bal view.peer_bal amount in
      elim (Result-cases (env.pay s.calls req)) [
        | inr (message, e) ↦ absurd (grind arith)
        | inl (a, e) ↦ elim (Bool-cases a.accepted) [
          | inr refused ↦ absurd (grind arith)
          | inl taken ↦
              let applied = ledger.applies s.calls req a e taken in
              let is : view_after req ≡ v = grind arith in
              let moved : (pay_invoice_fast env config id payer view amount s).1.calls
                  ≡ pay req ∷ s.calls =
                grind arith in
              sym is ∙ (sym applied ∙ ap (λ t. held t payer) (sym moved))
        ]
      ]

  channel_view-held :
      (payer : Text) (v : View) (s : Client)
      → let (r, s') = channel_view env config payer s in r ≡ ok v → v ≡ held s'.calls payer
  unfolding channel_view
  channel_view-held payer v s h = elim (Result-cases (env.get_channel s.calls payer)) [
    | inr (message, e) ↦ absurd (grind arith)
    | inl (ch, e) ↦ elim (Bool-cases (is_open ch)) [
      | inr shut ↦ absurd (grind arith)
      | inl up ↦
          let is : view_of ch ≡ v = grind arith in
          rw (e, up)
            (sym is ∙ (ledger.shows s.calls payer ch e ∙ sym (ledger.reads s.calls payer payer)))
    ]
  ]

  pay_lap-held :
      (id payer : Text) (view v : View) (amount : ℕ) (s : Client)
      → let (r, s') = pay_lap env config id payer view amount s in
        r ≡ ok v → v ≡ held s'.calls payer
  unfolding pay_lap pay_invoice_fast send_pay channel_view
  pay_lap-held id payer view v amount s h =
      let first = pay_invoice_fast env config id payer view amount s in
      elim (Result-cases first.0) [
        | inl (w, e) ↦
            let is : w ≡ v = grind arith in
            rw e (sym is ∙ pay_invoice_fast-held id payer view w amount s e)
        | inr (message, e) ↦
            let reread = channel_view env config payer first.1 in
            elim (Result-cases reread.0) [
              | inr (m, f) ↦ absurd (grind arith)
              | inl (fresh, f) ↦
                  rw (e, f) (pay_invoice_fast-held id payer fresh v amount reread.1 (grind arith))
            ]
      ]

  run_laps-held :
      (laps : ℕ) (payer payee : Text) (view v : View) (s : Client)
      → view ≡ held s.calls payer
      → let (r, s') = run_laps env config laps payer payee view s in
        r ≡ ok v → v ≡ held s'.calls payer
  unfolding run_laps new_invoice pay_lap pay_invoice_fast send_pay
  run_laps-held zero payer payee view v s start h =
      let is : view ≡ v = grind arith in sym is ∙ start
  run_laps-held (suc laps) payer payee view v s start h =
      let invoice = new_invoice env config payee 1000 s in
      elim (Result-cases invoice.0) [
        | inr (m, e) ↦ absurd (grind arith)
        | inl (id, e) ↦
            let lap = pay_lap env config id payer view 1000 invoice.1 in
            elim (Result-cases lap.0) [
              | inr (m, f) ↦ absurd (grind arith)
              | inl (next, f) ↦
                  rw (e, f)
                    (run_laps-held laps payer payee next v lap.1
                      (pay_lap-held id payer view next 1000 invoice.1 f) (grind arith))
            ]
      ]

  -- If the provider shows the state it holds for a channel, replaces it by the state that a payment
  -- asks for when it accepts the payment, and leaves it on reads and new invoices, then the view that
  -- a race ends with is the state that the provider holds for the payer's channel, whichever payments
  -- had to be repeated.
  pub race-held :
      (laps : ℕ) (payer payee : Text) (v : View) (s : Client)
      → let (r, s') = race env config laps payer payee s in r ≡ ok v → v ≡ held s'.calls payer
  unfolding race channel_view
  race-held laps payer payee v s h =
      let read = channel_view env config payer s in
      elim (Result-cases read.0) [
        | inr (m, e) ↦ absurd (grind arith)
        | inl (view, e) ↦ rw e (
            run_laps-held laps payer payee view v read.1 (channel_view-held payer view s e)
              (grind arith))
      ]
