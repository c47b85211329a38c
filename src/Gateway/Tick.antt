-- ===== src/Gateway/Tick.antt =====
-- btcsoq/gateway.ts: the periodic driver of the money loop, and the recovery at boot. The lists are
-- taken when a loop starts, and each record is read again at its turn, as its object would show it.
use soqtec.Base.{Bool, true, false, ◌&&◌, not, none, some, ok, if◌then◌else◌, is_some, filter}
use soqtec.Chain.{is_mempool}
use soqtec.Store.{
  get_deposit, list_deposits, get_mint, list_mints, get_convert, list_converts, get_ln402,
  list_ln402, get_attestation, list_attestations,
}
use soqtec.Store.Records.{
  DepositRecord, MintRecord, MintStatus, minting, redeeming, ConvertRecord, ConvertStatus,
  converting, converted, Ln402Record, Ln402Status, asking, answered, AttestationRecord,
}
use soqtec.Gateway.World.{
  Answers, BtcsoqConfig, M, pure, gets, modify, finally, ◌>>=◌, ◌>>◌, for_each, convert_enabled,
  ln402_enabled,
}
use soqtec.Gateway.Breaker.{check_por_invariant}
use soqtec.Gateway.Attest.{sign_attestation}
use soqtec.Gateway.Answer.{attempt_402, start_ln402_leg}
use soqtec.Gateway.Convert.{attempt_convert, start_convert_leg}
use soqtec.Gateway.Mint.{mint_for_deposit_key, attempt_mint}
use soqtec.Gateway.Redeem.{scan_for_redemptions, attempt_release}

abbrev is_minting : MintStatus → Bool
is_minting minting = true
is_minting _ = false

abbrev is_redeeming : MintStatus → Bool
is_redeeming redeeming = true
is_redeeming _ = false

abbrev is_converting : ConvertStatus → Bool
is_converting converting = true
is_converting converted = false

abbrev is_asking : Ln402Status → Bool
is_asking asking = true
is_asking answered = false

module _ (env : Answers) (config : BtcsoqConfig) where
  unfoldable pub sweep_deposit : DepositRecord → M (Unit {0})
  sweep_deposit d w = elim (get_deposit d.key w.store) [
    | none ↦ (ok tt, w)
    | some dep ↦
        if is_some dep.intent_id
          && (not (is_mempool dep.confidence)
              && (not (is_some dep.held_reason) && not (is_some (get_mint dep.key w.store))))
        then (mint_for_deposit_key env config dep.key >> pure tt) w
        else (ok tt, w)
  ]

  unfoldable pub drive_minting : MintRecord → M (Unit {0})
  drive_minting m w = elim (get_mint m.key w.store) [
    | none ↦ (ok tt, w)
    | some rec ↦
        if is_minting rec.status then (attempt_mint env config rec >> pure tt) w else (ok tt, w)
  ]

  unfoldable pub drive_redeeming : MintRecord → M (Unit {0})
  drive_redeeming m w = elim (get_mint m.key w.store) [
    | none ↦ (ok tt, w)
    | some rec ↦ if is_redeeming rec.status then attempt_release env config rec w else (ok tt, w)
  ]

  unfoldable pub claim_missing_convert : MintRecord → M (Unit {0})
  claim_missing_convert m w = elim (get_mint m.key w.store) [
    | none ↦ (ok tt, w)
    | some rec ↦
        if not (is_minting rec.status) && not (is_some (get_convert rec.key w.store))
        then start_convert_leg env config rec w
        else (ok tt, w)
  ]

  unfoldable pub drive_converting : ConvertRecord → M (Unit {0})
  drive_converting c w = elim (get_convert c.key w.store) [
    | none ↦ (ok tt, w)
    | some rec ↦ if is_converting rec.status then attempt_convert env config rec w else (ok tt, w)
  ]

  unfoldable pub claim_missing_ln402 : ConvertRecord → M (Unit {0})
  claim_missing_ln402 c w = elim (get_convert c.key w.store) [
    | none ↦ (ok tt, w)
    | some rec ↦
        if not (is_converting rec.status) && not (is_some (get_ln402 rec.key w.store))
        then start_ln402_leg env config rec w
        else (ok tt, w)
  ]

  unfoldable pub drive_asking : Ln402Record → M (Unit {0})
  drive_asking r w = elim (get_ln402 r.key w.store) [
    | none ↦ (ok tt, w)
    | some rec ↦ if is_asking rec.status then attempt_402 env config rec w else (ok tt, w)
  ]

  unfoldable pub sign_missing : AttestationRecord → M (Unit {0})
  sign_missing a w = elim (get_attestation a.id w.store) [
    | none ↦ (ok tt, w)
    | some rec ↦ if is_some rec.signature_hex then (ok tt, w) else sign_attestation env config rec w
  ]

  unfoldable pub convert_tick : M (Unit {0})
  convert_tick = do
    mints ← gets (λ v. list_mints v.store)
    for_each mints claim_missing_convert
    converts ← gets (λ v. list_converts v.store)
    for_each converts drive_converting

  unfoldable pub ln402_tick : M (Unit {0})
  ln402_tick = do
    converts ← gets (λ v. list_converts v.store)
    for_each converts claim_missing_ln402
    asks ← gets (λ v. list_ln402 v.store)
    for_each asks drive_asking

  unfoldable pub mint_tick : M (Unit {0})
  mint_tick = do
    deposits ← gets (λ v. list_deposits v.store)
    for_each deposits sweep_deposit
    claimed ← gets (λ v. list_mints v.store)
    for_each claimed drive_minting

  unfoldable pub redeem_tick : M (Unit {0})
  redeem_tick = do
    scan_for_redemptions env config
    returned ← gets (λ v. list_mints v.store)
    for_each returned drive_redeeming

  unfoldable pub legs_tick : M (Unit {0})
  legs_tick = do
    if convert_enabled config then convert_tick else pure tt
    if ln402_enabled config then ln402_tick else pure tt

  unfoldable pub sign_tick : M (Unit {0})
  sign_tick = do unsigned ← gets (λ v. list_attestations v.store); for_each unsigned sign_missing

  unfoldable pub tick_body : M (Unit {0})
  tick_body = do modify (check_por_invariant env); mint_tick; redeem_tick; legs_tick; sign_tick

  unfoldable pub money_tick : M (Unit {0})
  money_tick w =
      if w.money_loop_running
      then (ok tt, w)
      else finally tick_body (λ v. record v { money_loop_running = false })
          (record w { money_loop_running = true })

  -- The two lists are taken before the first attempt.
  unfoldable pub recover_in_flight : M (Unit {0})
  recover_in_flight = do
    mints ← gets (λ v. filter (λ m. is_minting m.status) (list_mints v.store))
    redeems ← gets (λ v. filter (λ m. is_redeeming m.status) (list_mints v.store))
    for_each mints (λ m. attempt_mint env config m >> pure tt)
    for_each redeems (attempt_release env config)
    converts ← gets (λ v. list_converts v.store)
    for_each converts drive_converting
    asks ← gets (λ v. list_ln402 v.store)
    for_each asks drive_asking
