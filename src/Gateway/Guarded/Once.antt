-- ===== src/Gateway/Guarded/Once.antt =====
-- btcsoq/gateway.ts: what the guards give against a wallet, a chain and a rail that show what they
-- have done. A call may fail at the gateway and still have been carried out.
pub mod Mints
use soqtec.Base.{
  ℕ, ◌≡◌, refl, subst, sym, ap, ◌∙◌, Bool, true, false, ◌&&◌, Option, none, some, List, [], ◌∷◌,
  Text, Result, ok, err, arith, if◌then◌else◌, ◌===◌, ===_iff, ◌≤◌, find, Bool-cases, inl, inr, ◌+◌,
  suc, zero, is_some, ◌≢◌,
}
use soqtec.Receipt.Bytes.{from_hex}
use soqtec.Scan.{ChainView, FoundMint, find_mint_tx}
use soqtec.Gateway.World.{
  Answers, BtcsoqConfig, World, M, Call, Trace, query, scan_mint, send_mint, list_transactions,
  send_btc, sign_digest, convert_execute, ln_challenge, ln_status, ln_pay, ln_redeem, MintRequest,
  BtcSend, WalletTx, pending, InvoiceStatus,
}
use soqtec.Gateway.Redeem.{sent_with}
use soqtec.Bitcoin.{DepositEvent}
use soqtec.Gateway.Deposits.{on_deposit_event, expire_stale_intents}
use soqtec.Gateway.Anchor.{anchor_now}
use soqtec.Gateway.Intents.{create_deposit_intent, create_redeem_intent}
use soqtec.Gateway.Poll.{check_now, reboot}
use soqtec.Gateway.Tick.{money_tick, recover_in_flight}
use soqtec.Gateway.Guarded.{IsGuarded, IsGuardedCall, IsNotOnChain, IsNotInWallet, IsUnpaid, Keeps}
use soqtec.Gateway.Guarded.Steps.Deposits.{on_deposit_event-Keeps, expire_stale_intents-Keeps}
use soqtec.Gateway.Guarded.Steps.Poll.{
  check_now-Keeps, reboot-Keeps, create_deposit_intent-Keeps, create_redeem_intent-Keeps,
  anchor_now-Keeps,
}
use soqtec.Gateway.Guarded.Steps.Run.{money_tick-Keeps, recover_in_flight-Keeps}

-- What drives the gateway from outside.
pub data GatewayOp : Type 0 where
  deposit_event : DepositEvent → GatewayOp
  tick recover expire check boot : GatewayOp
  intend_deposit : Text → GatewayOp
  intend_redeem : Text → Text → GatewayOp
  anchor : Bool → GatewayOp

module _ (env : Answers) (config : BtcsoqConfig) where
  abbrev pub run_op : GatewayOp → World → World
  run_op (deposit_event e) w = (on_deposit_event env config e w).1
  run_op tick w = (money_tick env config w).1
  run_op recover w = (recover_in_flight env config w).1
  run_op expire w = (expire_stale_intents env config w).1
  run_op check w = (check_now env config w).1
  run_op boot w = (reboot env config w).1
  run_op (intend_deposit ssq) w = (create_deposit_intent env config ssq w).1
  run_op (intend_redeem ssq payout) w = (create_redeem_intent env config ssq payout w).1
  run_op (anchor force) w = (anchor_now env force w).1

  abbrev pub run_ops : List GatewayOp → World → World
  run_ops [] w = w
  run_ops (op ∷ ops) w = run_ops ops (run_op op w)

  run_op-IsGuarded :
      (op : GatewayOp) (w : World) → IsGuarded env w.trace → IsGuarded env (run_op op w).trace
  run_op-IsGuarded (deposit_event e) w h = on_deposit_event-Keeps env config e w h
  run_op-IsGuarded tick w h = money_tick-Keeps env config w h
  run_op-IsGuarded recover w h = recover_in_flight-Keeps env config w h
  run_op-IsGuarded expire w h = expire_stale_intents-Keeps env config w h
  run_op-IsGuarded check w h = check_now-Keeps env config w h
  run_op-IsGuarded boot w h = reboot-Keeps env config w h
  run_op-IsGuarded (intend_deposit ssq) w h = create_deposit_intent-Keeps env config ssq w h
  run_op-IsGuarded (intend_redeem ssq payout) w h =
      create_redeem_intent-Keeps env config ssq payout w h
  run_op-IsGuarded (anchor force) w h = anchor_now-Keeps env force w h

  -- Over any run of deposit events, polls, ticks, recoveries, expiries, restarts, new intents and
  -- anchors, each payment follows at once on
  -- its guard: a mint and a treasury deposit on a scan of the chain for the same payload that found
  -- nothing, a BTC release on a wallet history without its comment, and a Lightning payment on a
  -- pending status of the same invoice.
  pub run_ops-IsGuarded :
      (ops : List GatewayOp) (w : World)
      → IsGuarded env w.trace
      → IsGuarded env (run_ops ops w).trace
  run_ops-IsGuarded [] w h = h
  run_ops-IsGuarded (op ∷ ops) w h = run_ops-IsGuarded ops (run_op op w) (run_op-IsGuarded op w h)

-- How many calls of a kind the trace has; `p` sees a call and what came before it.
abbrev pub count_calls : (Trace → Call → Bool) → Trace → ℕ
count_calls p [] = 0
count_calls p (c ∷ t) = let rest = count_calls p t in if p t c then suc rest else rest

-- Calls of a kind that are made only when there was none before: there is one at most.
count_calls-once :
    (env : Answers) (p : Trace → Call → Bool) (t : Trace)
    → ((c : Call) (t : Trace) → IsGuardedCall env c t → p t c ≡ true → count_calls p t ≡ 0)
    → IsGuarded env t
    → count_calls p t ≤ 1
count_calls-once env p [] fresh h = omega arith
count_calls-once env p (c ∷ t) fresh (g, h) = elim (Bool-cases (p t c)) [
  | inl e ↦ let z = fresh c t g e in grind arith
  | inr e ↦ let rest = count_calls-once env p t fresh h in grind arith
]

-- `landed t s`: the wallet carried out the send made after `t`, whatever it answered.
abbrev pub is_release : (Trace → BtcSend → Bool) → Text → Trace → Call → Bool
is_release landed comment t (send_btc s) = (s.comment === comment) && landed t s
is_release landed comment t _ = false

-- A listing of the wallet shows every send that was carried out, by its comment.
abbrev pub ShowsSends : Answers → (Trace → BtcSend → Bool) → Type 0
ShowsSends env landed =
    (comment : Text) (t : Trace) (history : List WalletTx)
    → env.list_transactions t ≡ ok history
    → find (sent_with comment) history ≡ none
    → count_calls (is_release landed comment) t ≡ 0

release_is_fresh :
    (env : Answers) (landed : Trace → BtcSend → Bool)
    → ShowsSends env landed
    → (comment : Text) (c : Call) (t : Trace) → IsGuardedCall env c t
    → is_release landed comment t c ≡ true
    → count_calls (is_release landed comment) t ≡ 0
release_is_fresh env landed shows comment (send_btc s) t g e =
    elim (Bool-cases (s.comment === comment)) [
      | inl same ↦
          let same_text = ((===_iff s.comment comment).0 same) in
          let unseen = ap (λ x. find (sent_with x) g.history) (sym same_text) ∙ g.absent in
          ap (count_calls (is_release landed comment)) g.listed
          ∙ shows comment g.before g.history g.answer unseen
      | inr other ↦ grind arith
    ]
release_is_fresh env landed shows comment _ t g e = grind arith

-- `landed t i`: the rail carried out the payment of `i` that was asked for after `t`.
abbrev pub is_payment : (Trace → Text → Bool) → Text → Trace → Call → Bool
is_payment landed invoice t (ln_pay i) = (i === invoice) && landed t i
is_payment landed invoice t _ = false

-- An invoice that was paid is not pending.
abbrev pub ShowsPayments : Answers → (Trace → Text → Bool) → Type 0
ShowsPayments env landed =
    (invoice : Text) (t : Trace)
    → env.ln_status t invoice ≡ ok pending
    → count_calls (is_payment landed invoice) t ≡ 0

payment_is_fresh :
    (env : Answers) (landed : Trace → Text → Bool)
    → ShowsPayments env landed
    → (invoice : Text) (c : Call) (t : Trace) → IsGuardedCall env c t
    → is_payment landed invoice t c ≡ true
    → count_calls (is_payment landed invoice) t ≡ 0
payment_is_fresh env landed shows invoice (ln_pay i) t g e = elim (Bool-cases (i === invoice)) [
  | inl same ↦
      let asked = ap (env.ln_status g.before) (sym ((===_iff i invoice).0 same)) ∙ g.answer in
      ap (count_calls (is_payment landed invoice)) g.asked ∙ shows invoice g.before asked
  | inr other ↦ grind arith
]
payment_is_fresh env landed shows invoice _ t g e = grind arith

module _ (env : Answers) (config : BtcsoqConfig) where
  -- If every listing of the wallet shows the sends that were carried out, a run from an empty trace
  -- carries out at most one send of BTC with a given comment, whatever the sends answer.
  pub btc_release_at_most_once :
      (landed : Trace → BtcSend → Bool) (comment : Text) (ops : List GatewayOp) (w : World)
      → ShowsSends env landed
      → w.trace ≡ []
      → count_calls (is_release landed comment) (run_ops env config ops w).trace ≤ 1
  btc_release_at_most_once landed comment ops w shows start =
      count_calls-once env (is_release landed comment) (run_ops env config ops w).trace
        (release_is_fresh env landed shows comment)
        (run_ops-IsGuarded env config ops w (subst (IsGuarded env) (sym start) tt))

  -- If an invoice that was paid no longer shows as pending, a run from an empty trace pays a given
  -- invoice at most once, whatever the payments answer.
  pub pay_at_most_once :
      (landed : Trace → Text → Bool) (invoice : Text) (ops : List GatewayOp) (w : World)
      → ShowsPayments env landed
      → w.trace ≡ []
      → count_calls (is_payment landed invoice) (run_ops env config ops w).trace ≤ 1
  pay_at_most_once landed invoice ops w shows start =
      count_calls-once env (is_payment landed invoice) (run_ops env config ops w).trace
        (payment_is_fresh env landed shows invoice)
        (run_ops-IsGuarded env config ops w (subst (IsGuarded env) (sym start) tt))
