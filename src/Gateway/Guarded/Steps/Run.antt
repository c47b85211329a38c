-- ===== src/Gateway/Guarded/Steps/Run.antt =====
-- btcsoq/gateway.ts: the gateway as its callers drive it: deposit events, the periodic tick, the
-- recovery at boot and the expiry of intents, in any order.
use soqtec.Base.{List, arith}
use soqtec.Store.Records.{DepositRecord, MintRecord, ConvertRecord, Ln402Record, AttestationRecord}
use soqtec.Gateway.World.{Answers, BtcsoqConfig, World, for_each, pure, ◌>>◌}
use soqtec.Gateway.Breaker.{check_por_invariant}
use soqtec.Gateway.Mint.{attempt_mint}
use soqtec.Gateway.Redeem.{attempt_release}
use soqtec.Gateway.Tick.{
  sweep_deposit, drive_minting, drive_redeeming, claim_missing_convert, drive_converting,
  claim_missing_ln402, drive_asking, sign_missing, convert_tick, ln402_tick, mint_tick, redeem_tick,
  legs_tick, sign_tick, tick_body, money_tick, recover_in_flight,
}
use soqtec.Gateway.Guarded.{IsGuarded, Keeps}
use soqtec.Gateway.Guarded.Steps.Answer.{
  sign_attestation-Keeps, attempt_402-Keeps, start_ln402_leg-Keeps,
}
use soqtec.Gateway.Guarded.Steps.Convert.{attempt_convert-Keeps, start_convert_leg-Keeps}
use soqtec.Gateway.Guarded.Steps.Mint.{attempt_mint-Keeps, mint_for_deposit_key-Keeps}
use soqtec.Gateway.Guarded.Steps.Redeem.{
  attempt_release-Keeps, scan_for_redemptions-Keeps, for_each-Keeps,
}

module _ (env : Answers) (config : BtcsoqConfig) where
  sweep_deposit-Keeps : (d : DepositRecord) → Keeps env (sweep_deposit env config d)
  unfolding sweep_deposit
  sweep_deposit-Keeps d w h = grind (arith, mint_for_deposit_key-Keeps)

  drive_minting-Keeps : (m : MintRecord) → Keeps env (drive_minting env config m)
  unfolding drive_minting
  drive_minting-Keeps m w h = grind (arith, attempt_mint-Keeps)

  drive_redeeming-Keeps : (m : MintRecord) → Keeps env (drive_redeeming env config m)
  unfolding drive_redeeming
  drive_redeeming-Keeps m w h = grind (arith, attempt_release-Keeps)

  claim_missing_convert-Keeps : (m : MintRecord) → Keeps env (claim_missing_convert env config m)
  unfolding claim_missing_convert
  claim_missing_convert-Keeps m w h = grind (arith, start_convert_leg-Keeps)

  drive_converting-Keeps : (c : ConvertRecord) → Keeps env (drive_converting env config c)
  unfolding drive_converting
  drive_converting-Keeps c w h = grind (arith, attempt_convert-Keeps)

  claim_missing_ln402-Keeps : (c : ConvertRecord) → Keeps env (claim_missing_ln402 env config c)
  unfolding claim_missing_ln402
  claim_missing_ln402-Keeps c w h = grind (arith, start_ln402_leg-Keeps)

  drive_asking-Keeps : (r : Ln402Record) → Keeps env (drive_asking env config r)
  unfolding drive_asking
  drive_asking-Keeps r w h = grind (arith, attempt_402-Keeps)

  sign_missing-Keeps : (a : AttestationRecord) → Keeps env (sign_missing env config a)
  unfolding sign_missing
  sign_missing-Keeps a w h = grind (arith, sign_attestation-Keeps)

  check_por_invariant-Keeps :
      (w : World) → IsGuarded env w.trace → IsGuarded env (check_por_invariant env w).trace
  unfolding check_por_invariant
  check_por_invariant-Keeps w h = ground arith

  each_deposit-Keeps :
      (ds : List DepositRecord) → Keeps env (for_each ds (sweep_deposit env config))
  each_deposit-Keeps ds = for_each-Keeps env ds (sweep_deposit env config) sweep_deposit-Keeps

  each_minting-Keeps : (ms : List MintRecord) → Keeps env (for_each ms (drive_minting env config))
  each_minting-Keeps ms = for_each-Keeps env ms (drive_minting env config) drive_minting-Keeps

  each_redeeming-Keeps :
      (ms : List MintRecord) → Keeps env (for_each ms (drive_redeeming env config))
  each_redeeming-Keeps ms = for_each-Keeps env ms (drive_redeeming env config) drive_redeeming-Keeps

  each_missing_convert-Keeps :
      (ms : List MintRecord) → Keeps env (for_each ms (claim_missing_convert env config))
  each_missing_convert-Keeps ms =
      for_each-Keeps env ms (claim_missing_convert env config) claim_missing_convert-Keeps

  each_converting-Keeps :
      (cs : List ConvertRecord) → Keeps env (for_each cs (drive_converting env config))
  each_converting-Keeps cs =
      for_each-Keeps env cs (drive_converting env config) drive_converting-Keeps

  each_missing_ln402-Keeps :
      (cs : List ConvertRecord) → Keeps env (for_each cs (claim_missing_ln402 env config))
  each_missing_ln402-Keeps cs =
      for_each-Keeps env cs (claim_missing_ln402 env config) claim_missing_ln402-Keeps

  each_asking-Keeps : (rs : List Ln402Record) → Keeps env (for_each rs (drive_asking env config))
  each_asking-Keeps rs = for_each-Keeps env rs (drive_asking env config) drive_asking-Keeps

  each_unsigned-Keeps :
      (as' : List AttestationRecord) → Keeps env (for_each as' (sign_missing env config))
  each_unsigned-Keeps as' = for_each-Keeps env as' (sign_missing env config) sign_missing-Keeps

  recover_mint-Keeps : (m : MintRecord) → Keeps env (attempt_mint env config m >> pure tt)
  recover_mint-Keeps m w h = grind (arith, attempt_mint-Keeps)

  each_recover-Keeps :
      (ms : List MintRecord) → Keeps env (for_each ms (λ m. attempt_mint env config m >> pure tt))
  each_recover-Keeps ms =
      for_each-Keeps env ms (λ m. attempt_mint env config m >> pure tt) recover_mint-Keeps

  each_release-Keeps : (ms : List MintRecord) → Keeps env (for_each ms (attempt_release env config))
  each_release-Keeps ms =
      for_each-Keeps env ms (attempt_release env config) (attempt_release-Keeps env config)

  convert_tick-Keeps : Keeps env (convert_tick env config)
  unfolding convert_tick
  convert_tick-Keeps w h = grind (arith, each_missing_convert-Keeps, each_converting-Keeps)

  ln402_tick-Keeps : Keeps env (ln402_tick env config)
  unfolding ln402_tick
  ln402_tick-Keeps w h = grind (arith, each_missing_ln402-Keeps, each_asking-Keeps)

  mint_tick-Keeps : Keeps env (mint_tick env config)
  unfolding mint_tick
  mint_tick-Keeps w h = grind (arith, each_deposit-Keeps, each_minting-Keeps)

  redeem_tick-Keeps : Keeps env (redeem_tick env config)
  unfolding redeem_tick
  redeem_tick-Keeps w h = grind (arith, scan_for_redemptions-Keeps, each_redeeming-Keeps)

  legs_tick-Keeps : Keeps env (legs_tick env config)
  unfolding legs_tick
  legs_tick-Keeps w h = grind (arith, convert_tick-Keeps, ln402_tick-Keeps)

  sign_tick-Keeps : Keeps env (sign_tick env config)
  unfolding sign_tick
  sign_tick-Keeps w h = grind (arith, each_unsigned-Keeps)

  tick_body-Keeps : Keeps env (tick_body env config)
  unfolding tick_body
  tick_body-Keeps w h = grind (
    arith, check_por_invariant-Keeps, mint_tick-Keeps, redeem_tick-Keeps, legs_tick-Keeps,
    sign_tick-Keeps,
  )

  pub money_tick-Keeps : Keeps env (money_tick env config)
  unfolding money_tick
  money_tick-Keeps w h = grind (arith, tick_body-Keeps)

  pub recover_in_flight-Keeps : Keeps env (recover_in_flight env config)
  unfolding recover_in_flight
  recover_in_flight-Keeps w h =
      grind
        (arith, each_recover-Keeps, each_release-Keeps, each_converting-Keeps, each_asking-Keeps)
