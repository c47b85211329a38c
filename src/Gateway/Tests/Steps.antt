-- ===== src/Gateway/Tests/Steps.antt =====
-- btcsoq/gateway.ts: single methods on the recorded deposit.
use soqtec.Base.{
  ℕ, ◌<◌, ◌↔◌, true, values, ◌≡◌, refl, ◌+◌, ◌⊎◌, false, Option, none, some, [], Text, text, ok,
  arith, lookup, insert, sort_desc, ◌===◌,
}
use soqtec.Receipt.{
  BtcsoqTag, BtcsoqTagOp, payout_commit, encode_tag, is_txid, tag_bytes, tag_script_hex,
}
use soqtec.Receipt.Bytes.{
  to_hex, from_hex, hex_digit, digit_value, is_lower_hex, le_bytes, trim_lower,
}
use soqtec.Scan.{
  find_mint_tx, find_script, find_in_mempool, find_in_blocks, find_in_block, scan_start,
}
use soqtec.Store.{
  get_deposit, put_deposit, put_intent, get_intent, get_mint, put_mint, claim_mint, list_mints,
  list_intents, new_store,
}
use soqtec.Store.Records.{IntentKind, IntentStatus, MintStatus}
use soqtec.Gateway.World.{World, convert_enabled, in_set, delete}
use soqtec.Gateway.Breaker.{
  mint_breaker_reason, is_paused, over_cap, daily_minted_sats, check_por_invariant,
}
use soqtec.Gateway.Attest.{attest}
use soqtec.Gateway.Convert.{find_tagged, start_convert_leg}
use soqtec.Gateway.Mint.{
  mint_for_deposit_key, mint_to, claim_and_mint, mint_if_claimed, attempt_mint, drive_mint,
  settle_mint, finalize_mint, show_minted,
}
use soqtec.Gateway.Redeem.{attempt_release, candidates, choose_intent}
use soqtec.Gateway.Ledger.Settle.{
  IsKeyed, IsSettled, mint_for_deposit_key-IsSettled, mint_for_deposit_key_twice,
}
use soqtec.Gateway.Binding.{choose_intent-commitment}
use soqtec.Gateway.Limits.{
  IsWithin, IsRunning, IsEligible, mint_for_deposit_key-IsEligible, attempt_mint-IsWithin,
  attempt_release-IsWithin, check_por_invariant-halted,
}
use soqtec.Gateway.Limits.Totals.{IsTotal, IsRecent, IsOutstanding}
use soqtec.Gateway.Tests.{env, config, recorded, world, key, intent, receipt, sha256}

keyed : IsKeyed key recorded
unfolding get_deposit put_deposit put_intent insert lookup ◌===◌
keyed dep e = grind arith

mints : (mint_for_deposit_key env config key recorded).0 ≡ ok (some (text "m1"))
unfolding mint_for_deposit_key mint_to claim_and_mint mint_if_claimed attempt_mint drive_mint
    settle_mint finalize_mint show_minted find_tagged start_convert_leg attest mint_breaker_reason
    is_paused over_cap daily_minted_sats convert_enabled in_set delete get_deposit put_deposit
    put_intent get_intent get_mint put_mint claim_mint list_mints encode_tag is_txid is_lower_hex
    tag_bytes le_bytes from_hex to_hex hex_digit digit_value find_mint_tx find_script
    find_in_mempool find_in_blocks find_in_block scan_start tag_script_hex lookup insert sort_desc
    ◌===◌
mints = refl

mint_for_deposit_key-IsSettled_example :
    IsSettled key (text "m1") recorded.store (mint_for_deposit_key env config key recorded).1.store
mint_for_deposit_key-IsSettled_example =
    mint_for_deposit_key-IsSettled env config key (text "m1") recorded keyed mints

mint_for_deposit_key_twice_example :
    let v = (mint_for_deposit_key env config key recorded).1 in
    mint_for_deposit_key env config key v ≡ (ok (some (text "m1")), v)
mint_for_deposit_key_twice_example =
    mint_for_deposit_key_twice env config key (text "m1") recorded keyed mints

-- The owner of the receipt has a redeem intent that pays to "bc2".
abbrev redeemable : World
redeemable =
    world (put_intent (intent IntentKind.redeem IntentStatus.awaiting_receipt) (new_store none))

abbrev bound : Option BtcsoqTag
bound = some (record {
  op = BtcsoqTagOp.redeem;
  sats = 100000;
  btc_txid = [];
  vout = 1;
  payout_commit = some (payout_commit sha256 (text "bc2"));
})

binds :
    choose_intent env config bound (candidates (receipt MintStatus.minted) redeemable.store)
    ≡ some (intent IntentKind.redeem IntentStatus.awaiting_receipt)
unfolding choose_intent candidates list_intents sort_desc put_intent insert payout_commit to_hex
    hex_digit trim_lower ◌===◌
binds = refl

choose_intent-commitment_example :
    (a : Text) × ((some (text "bc2") ≡ some a)
      × (payout_commit sha256 a ≡ payout_commit sha256 (text "bc2")))
choose_intent-commitment_example =
    choose_intent-commitment env config bound
      (candidates (receipt MintStatus.minted) redeemable.store) (payout_commit sha256 (text "bc2"))
      (intent IntentKind.redeem IntentStatus.awaiting_receipt) refl binds

mint_for_deposit_key-IsEligible_example :
    ((mint_for_deposit_key env config key recorded).1.trace ≡ []) ⊎ IsEligible config key recorded
mint_for_deposit_key-IsEligible_example = mint_for_deposit_key-IsEligible env config key recorded

attempt_mint-IsWithin_example :
    (attempt_mint env config (receipt MintStatus.minting) recorded ≡ (ok none, recorded))
    ⊎ (IsRunning env config recorded
        × (recorded.por_halted ≡ false)
        × (total : ℕ) × IsTotal
            (λ m. IsRecent 1000 m.minted_at)
            (values recorded.store.state.mints)
            total
        × IsWithin 500000 (total + 100000))
attempt_mint-IsWithin_example =
    attempt_mint-IsWithin env config (receipt MintStatus.minting) recorded

attempt_release-IsWithin_example :
    (attempt_release env config (receipt MintStatus.redeeming) redeemable ≡ (ok tt, redeemable))
    ⊎ (IsRunning env config redeemable
        × (total : ℕ) × IsTotal
            (λ m. IsRecent 1000 m.released_at)
            (values redeemable.store.state.mints)
            total
        × IsWithin 500000 (total + 100000))
attempt_release-IsWithin_example =
    attempt_release-IsWithin env config (receipt MintStatus.redeeming) redeemable

-- Receipts of 100000 sats are outstanding, and the vault holds 5000.
abbrev uncovered : World
uncovered = world (put_mint 5 (receipt MintStatus.minted) (new_store none))

check_por_invariant-halted_example :
    (total : ℕ) × IsTotal IsOutstanding (values uncovered.store.state.mints) total
    × ((check_por_invariant env uncovered).por_halted ≡ true ↔ 5000 + 0 < total)
check_por_invariant-halted_example =
    check_por_invariant-halted env uncovered (record { confirmed_sats = 5000; pending_sats = 0 })
      refl
