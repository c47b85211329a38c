-- ===== src/Gateway/Ledger/Frame.antt =====
-- btcsoq/gateway.ts: attestations, the conversion leg and the 402 leg write neither mints nor deposits.
use soqtec.Base.{ℕ, ◌≡◌, Option, none, some, List, Text, ok, arith}
use soqtec.Scan.{FoundMint}
use soqtec.Store.{put_attestation, put_ln402, put_convert, claim_ln402, claim_convert}
use soqtec.Store.Records.{
  AttestedEventKind, AttestationRecord, Ln402Record, ConvertRecord, MintRecord,
}
use soqtec.Gateway.World.{Answers, BtcsoqConfig, World, M, InvoiceStatus, pending, paid, expired}
use soqtec.Gateway.Attest.{Event, attest, sign_attestation}
use soqtec.Gateway.Answer.{
  ensure_invoice, redeem_402, pay_and_redeem, drive_402, attempt_402, start_ln402_leg,
}
use soqtec.Gateway.Convert.{
  find_tagged, treasury_send, treasury_deposit, execute_convert, execute_sent, drive_convert,
  attempt_convert, convert_if_claimed, claim_and_convert, start_convert_leg,
}

abbrev pub KeepsMints : {A : Type 0} → M A → Type 0
KeepsMints m =
    (w : World)
    → ((m w).1.store.state.mints ≡ w.store.state.mints)
      × ((m w).1.store.state.deposits ≡ w.store.state.deposits)

module _ (env : Answers) (config : BtcsoqConfig) where
  sign_attestation-KeepsMints :
      (rec : AttestationRecord) → KeepsMints (sign_attestation env config rec)
  unfolding sign_attestation put_attestation
  sign_attestation-KeepsMints rec w = grind arith

  pub attest-KeepsMints :
      (kind : AttestedEventKind) (f : Event) → KeepsMints (attest env config kind f)
  unfolding attest put_attestation
  attest-KeepsMints kind f w = grind (arith, sign_attestation-KeepsMints)

  sign_attestation-returns :
      (rec : AttestationRecord) (w : World) → (sign_attestation env config rec w).0 ≡ ok tt
  unfolding sign_attestation
  sign_attestation-returns rec w = grind arith

  pub attest-returns :
      (kind : AttestedEventKind) (f : Event) (w : World) → (attest env config kind f w).0 ≡ ok tt
  unfolding attest
  attest-returns kind f w = grind (arith, sign_attestation-returns)

  ensure_invoice-KeepsMints : (rec : Ln402Record) → KeepsMints (ensure_invoice env config rec)
  unfolding ensure_invoice put_ln402
  ensure_invoice-KeepsMints rec w = grind arith

  redeem_402-KeepsMints : (rec : Ln402Record) (i : Text) → KeepsMints (redeem_402 env config rec i)
  unfolding redeem_402 put_ln402
  redeem_402-KeepsMints rec i w = grind (arith, attest-KeepsMints)

  pay_and_redeem-KeepsMints :
      (rec : Ln402Record) (i : Text) (s : InvoiceStatus)
      → KeepsMints (pay_and_redeem env config rec i s)
  unfolding pay_and_redeem put_ln402
  pay_and_redeem-KeepsMints rec i expired w = grind arith
  pay_and_redeem-KeepsMints rec i pending w = grind (arith, redeem_402-KeepsMints)
  pay_and_redeem-KeepsMints rec i paid w = redeem_402-KeepsMints rec i w

  drive_402-KeepsMints : (rec : Ln402Record) → KeepsMints (drive_402 env config rec)
  unfolding drive_402
  drive_402-KeepsMints rec w = grind (arith, ensure_invoice-KeepsMints, pay_and_redeem-KeepsMints)

  attempt_402-KeepsMints : (rec : Ln402Record) → KeepsMints (attempt_402 env config rec)
  unfolding attempt_402 put_ln402
  attempt_402-KeepsMints rec w = grind (arith, drive_402-KeepsMints)

  start_ln402_leg-KeepsMints : (c : ConvertRecord) → KeepsMints (start_ln402_leg env config c)
  unfolding start_ln402_leg claim_ln402
  start_ln402_leg-KeepsMints c w = grind (arith, attempt_402-KeepsMints)

  pub find_tagged-KeepsMints :
      (payload : Text) (since : ℕ) → KeepsMints (find_tagged env config payload since)
  unfolding find_tagged
  find_tagged-KeepsMints payload since w = grind arith

  treasury_send-KeepsMints :
      (rec : ConvertRecord) (found : Option FoundMint)
      → KeepsMints (treasury_send env config rec found)
  unfolding treasury_send put_convert
  treasury_send-KeepsMints rec (some found) w = grind arith
  treasury_send-KeepsMints rec none w = grind arith

  treasury_deposit-KeepsMints : (rec : ConvertRecord) → KeepsMints (treasury_deposit env config rec)
  unfolding treasury_deposit
  treasury_deposit-KeepsMints rec w =
      grind (arith, find_tagged-KeepsMints, treasury_send-KeepsMints)

  execute_convert-KeepsMints :
      (rec : ConvertRecord) (t : Text) → KeepsMints (execute_convert env config rec t)
  unfolding execute_convert put_convert
  execute_convert-KeepsMints rec t w = grind (arith, attest-KeepsMints, start_ln402_leg-KeepsMints)

  execute_sent-KeepsMints :
      (sent : Option (ConvertRecord × Text)) → KeepsMints (execute_sent env config sent)
  unfolding execute_sent
  execute_sent-KeepsMints none w = ground arith
  execute_sent-KeepsMints (some (latest, treasury)) w = execute_convert-KeepsMints latest treasury w

  drive_convert-KeepsMints : (rec : ConvertRecord) → KeepsMints (drive_convert env config rec)
  unfolding drive_convert
  drive_convert-KeepsMints rec w =
      grind (arith, treasury_deposit-KeepsMints, execute_sent-KeepsMints)

  attempt_convert-KeepsMints : (rec : ConvertRecord) → KeepsMints (attempt_convert env config rec)
  unfolding attempt_convert put_convert
  attempt_convert-KeepsMints rec w = grind (arith, drive_convert-KeepsMints)

  convert_if_claimed-KeepsMints :
      (rec : ConvertRecord) → KeepsMints (convert_if_claimed env config rec)
  unfolding convert_if_claimed claim_convert
  convert_if_claimed-KeepsMints rec w = grind (arith, attempt_convert-KeepsMints)

  claim_and_convert-KeepsMints :
      (m : MintRecord) (tag : List ℕ) → KeepsMints (claim_and_convert env config m tag)
  unfolding claim_and_convert
  claim_and_convert-KeepsMints m tag w = grind (arith, convert_if_claimed-KeepsMints)

  pub start_convert_leg-KeepsMints : (m : MintRecord) → KeepsMints (start_convert_leg env config m)
  unfolding start_convert_leg
  start_convert_leg-KeepsMints m w = grind (arith, claim_and_convert-KeepsMints)
