-- ===== src/Gateway/Tests/Runs.antt =====
-- btcsoq/gateway.ts: a deposit event, then ticks, against the world of the tests.
use soqtec.Base.{
  ℕ, ◌≡◌, refl, ◌≤◌, true, false, Option, none, some, List, [], ◌∷◌, Text, text, Result, ok, err,
  ◌===◌, ===_iff, lookup, insert, sort_desc, sym, ap, ◌∙◌, find, arith, inl, inr, Bool-cases,
}
use soqtec.Receipt.{tag_script_hex, encode_tag, is_txid, tag_bytes}
use soqtec.Receipt.Bytes.{from_hex, to_hex, hex_digit, digit_value, is_lower_hex, le_bytes}
use soqtec.Scan.{
  find_mint_tx, find_script, find_in_mempool, find_in_blocks, find_in_block, scan_start,
  tx_carries_script, ChainView, Tx,
}
use soqtec.Gateway.World.{Trace, send_mint, send_btc, ln_pay}
use soqtec.Gateway.World.{money_loop_enabled, convert_enabled, in_set, delete}
use soqtec.Gateway.Redeem.{sent_with}
use soqtec.Gateway.Breaker.{mint_breaker_reason, is_paused, over_cap, daily_minted_sats}
use soqtec.Gateway.Attest.{attest}
use soqtec.Gateway.Convert.{find_tagged, start_convert_leg}
use soqtec.Gateway.Mint.{
  mint_for_deposit_key, mint_to, claim_and_mint, mint_if_claimed, attempt_mint, drive_mint,
  settle_mint, finalize_mint, show_minted,
}
use soqtec.Gateway.Deposits.{
  on_deposit_event, handle_deposit, record_deposit, known_deposit, after_record, move_intent,
  transition, route_mint, is_news,
}
use soqtec.Store.{
  find_deposit_intent_by_address, get_deposit, put_deposit, put_intent, get_intent, get_mint,
  put_mint, claim_mint, list_mints,
}
use soqtec.Gateway.Guarded.{IsGuarded}
use soqtec.Gateway.Guarded.Once.{
  GatewayOp, deposit_event, tick, recover, expire, check, boot, anchor, run_ops, run_ops-IsGuarded,
  count_calls, is_release, ShowsSends, is_payment, ShowsPayments, btc_release_at_most_once,
  pay_at_most_once,
}
use soqtec.Gateway.Guarded.Once.Mints.{is_mint, is_late_scan, ShowsMints, mint_at_most_once}
use soqtec.Gateway.Tests.{
  env, config, waiting, event, mempool_of, history_of, is_paid, script_of, payload,
}

abbrev ops : List GatewayOp
ops = deposit_event event ∷ tick ∷ boot ∷ check ∷ recover ∷ tick ∷ anchor false ∷ expire ∷ []

run_ops-IsGuarded_example : IsGuarded env (run_ops env config ops waiting).trace
run_ops-IsGuarded_example = run_ops-IsGuarded env config ops waiting tt

shows_sends :
    (comment : Text) (t : Trace)
    → find (sent_with comment) (history_of t) ≡ none
    → count_calls (is_release (λ t s. true) comment) t ≡ 0
shows_sends comment [] e = refl
shows_sends comment (send_btc s ∷ t) e = ground (arith, shows_sends comment t)
shows_sends comment (_ ∷ t) e = shows_sends comment t e

wallet_shows : ShowsSends env (λ t s. true)
wallet_shows comment t history a e = shows_sends comment t (grind arith)

btc_release_at_most_once_example :
    count_calls (is_release (λ t s. true) (text "redeem:i1")) (run_ops env config ops waiting).trace
    ≤ 1
btc_release_at_most_once_example =
    btc_release_at_most_once env config (λ t s. true) (text "redeem:i1") ops waiting wallet_shows
      refl

shows_paid :
    (invoice : Text) (t : Trace)
    → is_paid invoice t ≡ false
    → count_calls (is_payment (λ t i. true) invoice) t ≡ 0
shows_paid invoice [] e = refl
shows_paid invoice (ln_pay i ∷ t) e = ground (arith, shows_paid invoice t)
shows_paid invoice (_ ∷ t) e = shows_paid invoice t e

rail_shows : ShowsPayments env (λ t i. true)
rail_shows invoice t a = shows_paid invoice t (ground arith)

pay_at_most_once_example :
    count_calls (is_payment (λ t i. true) (text "inv")) (run_ops env config ops waiting).trace ≤ 1
pay_at_most_once_example =
    pay_at_most_once env config (λ t i. true) (text "inv") ops waiting rail_shows refl

shows_sent :
    (payload script : Text) (height : ℕ) (t : Trace)
    → script_of payload ≡ script
    → find_in_mempool script (mempool_of t) ≡ none
    → count_calls (is_mint (λ t req. some 50) payload height) t ≡ 0
unfolding find_in_mempool tx_carries_script
shows_sent payload script height [] s e = refl
shows_sent payload script height (send_mint req ∷ t) s e =
    elim (Bool-cases (req.op_return_hex === payload)) [
      | inl same ↦
          let here = ap script_of ((===_iff req.op_return_hex payload).0 same) ∙ s in
          let carries = (===_iff (script_of req.op_return_hex) script).1 here in
          absurd (ground arith)
      | inr other ↦ let rest = shows_sent payload script height t s in ground arith
    ]
shows_sent payload script height (_ ∷ t) s e = shows_sent payload script height t s e

absent_from_mempool :
    (payload : Text) (since : ℕ) (view : ChainView)
    → find_mint_tx (from_hex payload) since view ≡ some none
    → find_in_mempool (script_of payload) view.mempool ≡ none
unfolding find_mint_tx find_script
absent_from_mempool payload since view e = grind arith

abbrev mempool_in : Result Text ChainView → List (Option Tx)
mempool_in (ok view) = view.mempool
mempool_in (err e) = []

chain_shows : ShowsMints env (λ t req. some 50)
chain_shows payload since height t view a e le =
    let absent = absent_from_mempool payload since view e in
    let same = ap mempool_in (sym a) in
    shows_sent payload (script_of payload) height t refl
      (ap (find_in_mempool (script_of payload)) (sym same) ∙ absent)

abbrev one_deposit : List GatewayOp
one_deposit = deposit_event event ∷ []

no_late_scan :
    count_calls (is_late_scan payload 50) (run_ops env config one_deposit waiting).trace ≡ 0
unfolding on_deposit_event handle_deposit record_deposit known_deposit after_record move_intent
    transition route_mint is_news mint_for_deposit_key mint_to claim_and_mint mint_if_claimed
    attempt_mint drive_mint settle_mint finalize_mint show_minted find_tagged start_convert_leg
    attest mint_breaker_reason is_paused over_cap daily_minted_sats money_loop_enabled
    convert_enabled in_set delete find_deposit_intent_by_address get_deposit put_deposit put_intent
    get_intent get_mint put_mint claim_mint list_mints encode_tag is_txid is_lower_hex tag_bytes
    le_bytes from_hex to_hex hex_digit digit_value find_mint_tx find_script find_in_mempool
    find_in_blocks find_in_block scan_start tag_script_hex lookup insert sort_desc ◌===◌
no_late_scan = refl

mint_at_most_once_example :
    count_calls
      (is_mint (λ t req. some 50) payload 50)
      (run_ops env config one_deposit waiting).trace
    ≤ 1
mint_at_most_once_example =
    mint_at_most_once env config (λ t req. some 50) payload 50 one_deposit waiting chain_shows refl
      no_late_scan
