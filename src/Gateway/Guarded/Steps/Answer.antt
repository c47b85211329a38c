-- ===== src/Gateway/Guarded/Steps/Answer.antt =====
-- btcsoq/gateway.ts: attestations make no payment, and the 402 leg pays only a pending invoice.
use soqtec.Base.{◌≡◌, refl, ap, ◌∙◌, ◌∷◌, Text, ok, arith}
use soqtec.Store.Records.{AttestedEventKind, AttestationRecord, Ln402Record, ConvertRecord}
use soqtec.Gateway.World.{
  Answers, BtcsoqConfig, World, InvoiceStatus, pending, paid, expired, ln_status,
}
use soqtec.Gateway.Attest.{Event, attest, sign_attestation}
use soqtec.Gateway.Answer.{
  ensure_invoice, redeem_402, pay_and_redeem, drive_402, attempt_402, start_ln402_leg,
}
use soqtec.Gateway.Guarded.{IsGuarded, IsUnpaid, Keeps}

module _ (env : Answers) (config : BtcsoqConfig) where
  pub sign_attestation-Keeps :
      (rec : AttestationRecord) → Keeps env (sign_attestation env config rec)
  unfolding sign_attestation
  sign_attestation-Keeps rec w h = ground arith

  pub attest-Keeps : (kind : AttestedEventKind) (f : Event) → Keeps env (attest env config kind f)
  unfolding attest
  attest-Keeps kind f w h = grind (arith, sign_attestation-Keeps)

  ensure_invoice-Keeps : (rec : Ln402Record) → Keeps env (ensure_invoice env config rec)
  unfolding ensure_invoice
  ensure_invoice-Keeps rec w h = ground arith

  redeem_402-Keeps : (rec : Ln402Record) (i : Text) → Keeps env (redeem_402 env config rec i)
  unfolding redeem_402
  redeem_402-Keeps rec i w h = grind (arith, attest-Keeps)

  pay_and_redeem-Keeps :
      (rec : Ln402Record) (i : Text) (s : InvoiceStatus) (w : World)
      → (s ≡ pending → IsUnpaid env i w.trace)
      → IsGuarded env w.trace
      → IsGuarded env (pay_and_redeem env config rec i s w).1.trace
  unfolding pay_and_redeem
  pay_and_redeem-Keeps rec i expired w u h = ground arith
  pay_and_redeem-Keeps rec i pending w u h = grind (arith, redeem_402-Keeps, u refl)
  pay_and_redeem-Keeps rec i paid w u h = redeem_402-Keeps rec i w h

  pay_after_status :
      (rec : Ln402Record) (i : Text) (s : InvoiceStatus) (w : World)
      → env.ln_status w.trace i ≡ ok s
      → IsGuarded env w.trace
      → let w' = record w { trace = ln_status i ∷ w.trace } in
        IsGuarded env (pay_and_redeem env config rec i s w').1.trace
  pay_after_status rec i s w e h =
      pay_and_redeem-Keeps rec i s (record w { trace = ln_status i ∷ w.trace })
        (λ p. record { before = w.trace; asked = refl; answer = e ∙ ap ok p }) (tt, h)

  drive_402-Keeps : (rec : Ln402Record) → Keeps env (drive_402 env config rec)
  unfolding drive_402
  drive_402-Keeps rec w h = grind (arith, ensure_invoice-Keeps, pay_after_status)

  pub attempt_402-Keeps : (rec : Ln402Record) → Keeps env (attempt_402 env config rec)
  unfolding attempt_402
  attempt_402-Keeps rec w h = grind (arith, drive_402-Keeps)

  pub start_ln402_leg-Keeps : (c : ConvertRecord) → Keeps env (start_ln402_leg env config c)
  unfolding start_ln402_leg
  start_ln402_leg-Keeps c w h = grind (arith, attempt_402-Keeps)
