-- ===== src/Ln402/Pays.antt =====
-- btcsoq/ln402.ts: what the client pays, and when.
use soqtec.Base.{
  ℕ, ◌+◌, ◌-◌, ◌≤◌, ◌≡◌, refl, Option, none, some, List, [], ◌∷◌, Text, text, Result, ok, err,
  arith, ltb, ◌===◌, ===_iff, Bool-cases, Result-cases, inl, inr,
}
use soqtec.Base.Int.{pos}
use soqtec.Ln402.{
  Ln402Config, LnChannelState, Invoice, Channel, PayRequest, Calls, LspCall, Lsp, Client, C,
  is_open, get_invoice, get_channel, pay,
}
use soqtec.Ln402.Calls.{
  saved_channel, open_plain, open_by_faucet, keep_channel, store_channel, use_channel, find_channel,
  ensure_channel, challenge, invoice_status, bump, send_pay, pay_from, pay_pending, pay_invoice,
  redeem, perform_paid_ask, or_open,
}

module _ (env : Lsp) where
  -- The two calls before read the invoice, which is pending, and the channel, which is open; the
  -- payment is the next state of the channel, in which the amount of the invoice, which the
  -- initiator has, is moved to the peer.
  pub record IsExact (req : PayRequest) (t : Calls) : Type 0 where
    pub before : Calls
    pub read : t ≡ get_channel req.channel_id ∷ get_invoice req.invoice_id ∷ before
    pub invoice : Invoice
    pub asked : env.get_invoice before req.invoice_id ≡ ok invoice
    pub pending : invoice.status ≡ text "pending"
    pub channel : Channel
    pub seen : env.get_channel (get_invoice req.invoice_id ∷ before) req.channel_id ≡ ok channel
    pub is_open : channel.state ≡ text "open"
    pub next : req.state_index ≡ channel.state_index + 1
    pub left : ℕ
    pub paid_from : req.initiator_balance_sat ≡ pos left
    pub moved : left + invoice.amount_sat ≡ channel.initiator_balance_sat
    pub paid_to : req.peer_balance_sat ≡ channel.peer_balance_sat + invoice.amount_sat

  abbrev pub IsExactCall : LspCall → Calls → Type 0
  IsExactCall (pay req) t = IsExact req t
  IsExactCall _ t = Unit {0}

  abbrev pub IsExactTrace : Calls → Type 0
  IsExactTrace [] = Unit {0}
  IsExactTrace (c ∷ t) = IsExactCall c t × IsExactTrace t

  abbrev pub Keeps : {A : Type 0} → C A → Type 0
  Keeps m = (s : Client) → IsExactTrace s.calls → IsExactTrace (m s).1.calls

module _ (env : Lsp) (config : Ln402Config) where
  saved_channel-Keeps : (f : Result Text LnChannelState) → Keeps env (saved_channel env config f)
  unfolding saved_channel
  saved_channel-Keeps (err m) s h = h
  saved_channel-Keeps (ok saved) s h = grind arith

  open_plain-Keeps :
      (key address : Text) (capacity : ℕ) → Keeps env (open_plain env config key address capacity)
  unfolding open_plain
  open_plain-Keeps key address capacity s h = grind arith

  open_by_faucet-Keeps : Keeps env (open_by_faucet env config)
  unfolding open_by_faucet
  open_by_faucet-Keeps s h = grind arith

  keep_channel-Keeps : (id : Text) → Keeps env (keep_channel env config id)
  unfolding keep_channel store_channel
  keep_channel-Keeps id s h = grind arith

  or_open-Keeps : (id : Option Text) → Keeps env (or_open env config id)
  or_open-Keeps none s h =
      open_plain-Keeps config.channel_pubkey_hex config.channel_address
        config.channel_capacity_shors s h
  or_open-Keeps (some id) s h = h

  use_channel-Keeps : (saved : Option LnChannelState) → Keeps env (use_channel env config saved)
  use_channel-Keeps none s h =
      grind (arith, open_by_faucet-Keeps, or_open-Keeps, keep_channel-Keeps)
  use_channel-Keeps (some saved) s h = h

  find_channel-Keeps : (c : Option LnChannelState) → Keeps env (find_channel env config c)
  find_channel-Keeps (some c) s h = h
  find_channel-Keeps none s h = grind (arith, saved_channel-Keeps, use_channel-Keeps)

  ensure_channel-Keeps : Keeps env (ensure_channel env config)
  unfolding ensure_channel
  ensure_channel-Keeps s h = find_channel-Keeps s.channel s h

  challenge-Keeps : (question url : Text) → Keeps env (challenge env config question url)
  unfolding challenge
  challenge-Keeps question url s h = grind arith

  redeem-Keeps :
      (id expected question url : Text) → Keeps env (redeem env config id expected question url)
  unfolding redeem
  redeem-Keeps id expected question url s h = grind arith

  -- The client after the two reads.
  abbrev after_reads : Text → Text → Client → Client
  after_reads id channel_id s = record s {
    calls = get_channel channel_id ∷ get_invoice id ∷ s.calls;
  }

  send_pay-Keeps :
      (req : PayRequest) (s : Client)
      → IsExact env req s.calls
      → IsExactTrace env s.calls
      → IsExactTrace env (send_pay env config req s).1.calls
  unfolding send_pay
  send_pay-Keeps req s exact h = grind arith

  bump-IsExact :
      (id channel_id : Text) (inv : Invoice) (ch : Channel) (s : Client)
      → env.get_invoice s.calls id ≡ ok inv
      → inv.status ≡ text "pending"
      → env.get_channel (get_invoice id ∷ s.calls) channel_id ≡ ok ch
      → ch.state ≡ text "open"
      → inv.amount_sat ≤ ch.initiator_balance_sat
      → IsExact env
          (bump env config id channel_id ch.state_index
            (pos ch.initiator_balance_sat)
            ch.peer_balance_sat
            inv.amount_sat)
          (after_reads id channel_id s).calls
  unfolding bump
  bump-IsExact id channel_id inv ch s asked pending seen is_open enough = record {
    before = s.calls;
    read = refl;
    invoice = inv;
    asked = asked;
    pending = pending;
    channel = ch;
    seen = seen;
    is_open = is_open;
    next = refl;
    left = ch.initiator_balance_sat - inv.amount_sat;
    paid_from = grind arith;
    moved = omega arith;
    paid_to = refl;
  }

  pay_from-Keeps :
      (id channel_id : Text) (inv : Invoice) (ch : Channel) (s : Client)
      → env.get_invoice s.calls id ≡ ok inv
      → inv.status ≡ text "pending"
      → env.get_channel (get_invoice id ∷ s.calls) channel_id ≡ ok ch
      → IsExactTrace env s.calls
      → IsExactTrace env
          (pay_from env config id channel_id inv ch (after_reads id channel_id s)).1.calls
  unfolding pay_from
  pay_from-Keeps id channel_id inv ch s asked pending seen h = elim (Bool-cases (is_open ch)) [
    | inr shut ↦ rw shut (tt, (tt, h))
    | inl up ↦ elim (Bool-cases (ltb ch.initiator_balance_sat inv.amount_sat)) [
      | inl poor ↦ rw (up, poor) (tt, (tt, h))
      | inr enough ↦
          let req =
            bump env config id channel_id ch.state_index (pos ch.initiator_balance_sat)
              ch.peer_balance_sat inv.amount_sat in
          let exact =
            bump-IsExact id channel_id inv ch s asked pending seen
              ((===_iff ch.state (text "open")).0 up) (grind arith) in
          rw (up, enough) (send_pay-Keeps req (after_reads id channel_id s) exact (tt, (tt, h)))
    ]
  ]

  pay_pending-Keeps :
      (id channel_id : Text) (inv : Invoice) (s : Client)
      → env.get_invoice s.calls id ≡ ok inv
      → IsExactTrace env s.calls
      → let read : Client = record s { calls = get_invoice id ∷ s.calls } in
        IsExactTrace env (pay_pending env config id channel_id inv read).1.calls
  unfolding pay_pending
  pay_pending-Keeps id channel_id inv s asked h =
      elim (Bool-cases (inv.status === text "pending")) [
        | inr other ↦ grind arith
        | inl same ↦ elim (Result-cases (env.get_channel (get_invoice id ∷ s.calls) channel_id)) [
          | inr (message, e) ↦ rw (same, e) (tt, (tt, h))
          | inl (ch, e) ↦
              rw (same, e)
                (pay_from-Keeps id channel_id inv ch s asked
                  ((===_iff inv.status (text "pending")).0 same) e h)
        ]
      ]

  pay_invoice-Keeps : (id : Text) → Keeps env (pay_invoice env config id)
  unfolding pay_invoice
  pay_invoice-Keeps id s h =
      let s' = (ensure_channel env config s).1 in
      let kept = ensure_channel-Keeps s h in
      elim (Result-cases (ensure_channel env config s).0) [
        | inr (message, e) ↦ grind arith
        | inl (channel_id, e) ↦ elim (Result-cases (env.get_invoice s'.calls id)) [
          | inr (message, f) ↦ grind arith
          | inl (inv, f) ↦ let done = pay_pending-Keeps id channel_id inv s' f kept in grind arith
        ]
      ]

  perform_paid_ask-Keeps :
      (question url : Text) → Keeps env (perform_paid_ask env config question url)
  unfolding perform_paid_ask
  perform_paid_ask-Keeps question url s h =
      grind (arith, challenge-Keeps, pay_invoice-Keeps, redeem-Keeps)

  invoice_status-Keeps : (id : Text) → Keeps env (invoice_status env config id)
  unfolding invoice_status
  invoice_status-Keeps id s h = grind arith

-- What the gateway and the theater ask of the client, the race left out.
pub data ClientOp : Type 0 where
  do_challenge do_ask : Text → Text → ClientOp
  do_status do_pay : Text → ClientOp
  do_redeem : Text → Text → Text → Text → ClientOp

module _ (env : Lsp) (config : Ln402Config) where
  abbrev pub run_op : ClientOp → Client → Client
  run_op (do_challenge question url) s = (challenge env config question url s).1
  run_op (do_ask question url) s = (perform_paid_ask env config question url s).1
  run_op (do_status id) s = (invoice_status env config id s).1
  run_op (do_pay id) s = (pay_invoice env config id s).1
  run_op (do_redeem id expected question url) s = (redeem env config id expected question url s).1

  abbrev pub run_ops : List ClientOp → Client → Client
  run_ops [] s = s
  run_ops (op ∷ ops) s = run_ops ops (run_op op s)

  run_op-Keeps :
      (op : ClientOp) (s : Client) → IsExactTrace env s.calls → IsExactTrace env (run_op op s).calls
  run_op-Keeps (do_challenge question url) s h = challenge-Keeps env config question url s h
  run_op-Keeps (do_ask question url) s h = perform_paid_ask-Keeps env config question url s h
  run_op-Keeps (do_status id) s h = invoice_status-Keeps env config id s h
  run_op-Keeps (do_pay id) s h = pay_invoice-Keeps env config id s h
  run_op-Keeps (do_redeem id expected question url) s h =
      redeem-Keeps env config id expected question url s h

  -- Over any run of challenges, paid asks, status reads, payments and redemptions, each payment
  -- follows at once on a read of its invoice, which is pending, and of its channel, which is open and
  -- holds the amount; it asks for the next state of the channel, in which the initiator has the amount
  -- less and the peer has it more.
  pub run_ops-IsExactTrace :
      (ops : List ClientOp) (s : Client)
      → IsExactTrace env s.calls
      → IsExactTrace env (run_ops ops s).calls
  run_ops-IsExactTrace [] s h = h
  run_ops-IsExactTrace (op ∷ ops) s h = run_ops-IsExactTrace ops (run_op op s) (run_op-Keeps op s h)
