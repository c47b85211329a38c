-- ===== src/Gateway/Guarded/Steps/Convert.antt =====
-- btcsoq/gateway.ts: the conversion leg sends to the treasury only after a scan that found nothing.
use soqtec.Base.{
  ℕ, ◌≡◌, refl, Option, none, some, List, ◌∷◌, Text, arith, Option-cases, Result-cases, inl, inr,
}
use soqtec.Receipt.Bytes.{from_hex}
use soqtec.Scan.{FoundMint, find_mint_tx}
use soqtec.Store.Records.{ConvertRecord, MintRecord}
use soqtec.Gateway.World.{Answers, BtcsoqConfig, World, M, scan_mint, ◌>>=◌}
use soqtec.Gateway.Convert.{
  find_tagged, treasury_send, treasury_deposit, execute_convert, execute_sent, drive_convert,
  attempt_convert, convert_if_claimed, claim_and_convert, start_convert_leg,
}
use soqtec.Gateway.Guarded.{IsGuarded, IsNotOnChain, Keeps}
use soqtec.Gateway.Guarded.Steps.Answer.{attest-Keeps, start_ln402_leg-Keeps}

module _ (env : Answers) (config : BtcsoqConfig) where
  -- A continuation of the scan may pay when the scan found nothing.
  pub find_tagged-then :
      {A : Type 0} (payload : Text) (since : ℕ) (k : Option FoundMint → M A)
      → ((found : Option FoundMint) (v : World)
          → (found ≡ none → IsNotOnChain env payload v.trace)
          → IsGuarded env v.trace
          → IsGuarded env (k found v).1.trace)
      → Keeps env (find_tagged env config payload since >>= k)
  unfolding find_tagged
  find_tagged-then payload since k step w h = elim (Result-cases (env.chain_view w.trace)) [
    | inl (view, e) ↦ elim (Option-cases (find_mint_tx (from_hex payload) since view)) [
      | inl f ↦ grind arith
      | inr (none, f) ↦
          let w' = record w { trace = scan_mint payload since ∷ w.trace } in
          let absent : IsNotOnChain env payload w'.trace = record {
            since = since;
            before = w.trace;
            view = view;
            scanned = refl;
            answer = e;
            absent = f;
          } in
          let kept = step none w' (λ p. absent) (tt, h) in grind arith
      | inr (some found, f) ↦
          let w' = record w { trace = scan_mint payload since ∷ w.trace } in
          let kept = step (some found) w' (λ p. grind arith) (tt, h) in grind arith
    ]
    | inr (message, e) ↦ grind arith
  ]

  treasury_send-Keeps :
      (rec : ConvertRecord) (found : Option FoundMint) (w : World)
      → (found ≡ none → IsNotOnChain env rec.op_return_hex w.trace)
      → IsGuarded env w.trace
      → IsGuarded env (treasury_send env config rec found w).1.trace
  unfolding treasury_send
  treasury_send-Keeps rec (some found) w u h = ground arith
  treasury_send-Keeps rec none w u h = grind (arith, u refl)

  treasury_deposit-Keeps : (rec : ConvertRecord) → Keeps env (treasury_deposit env config rec)
  unfolding treasury_deposit
  treasury_deposit-Keeps rec w h = grind (
    arith,
    find_tagged-then rec.op_return_hex rec.claim_height (treasury_send env config rec)
        (treasury_send-Keeps rec),
  )

  execute_convert-Keeps :
      (rec : ConvertRecord) (t : Text) → Keeps env (execute_convert env config rec t)
  unfolding execute_convert
  execute_convert-Keeps rec t w h = grind (arith, attest-Keeps, start_ln402_leg-Keeps)

  execute_sent-Keeps :
      (sent : Option (ConvertRecord × Text)) → Keeps env (execute_sent env config sent)
  unfolding execute_sent
  execute_sent-Keeps none w h = ground arith
  execute_sent-Keeps (some (latest, treasury)) w h = execute_convert-Keeps latest treasury w h

  drive_convert-Keeps : (rec : ConvertRecord) → Keeps env (drive_convert env config rec)
  unfolding drive_convert
  drive_convert-Keeps rec w h = grind (arith, treasury_deposit-Keeps, execute_sent-Keeps)

  pub attempt_convert-Keeps : (rec : ConvertRecord) → Keeps env (attempt_convert env config rec)
  unfolding attempt_convert
  attempt_convert-Keeps rec w h = grind (arith, drive_convert-Keeps)

  convert_if_claimed-Keeps : (rec : ConvertRecord) → Keeps env (convert_if_claimed env config rec)
  unfolding convert_if_claimed
  convert_if_claimed-Keeps rec w h = grind (arith, attempt_convert-Keeps)

  claim_and_convert-Keeps :
      (m : MintRecord) (tag : List ℕ) → Keeps env (claim_and_convert env config m tag)
  unfolding claim_and_convert
  claim_and_convert-Keeps m tag w h = grind (arith, convert_if_claimed-Keeps)

  pub start_convert_leg-Keeps : (m : MintRecord) → Keeps env (start_convert_leg env config m)
  unfolding start_convert_leg
  start_convert_leg-Keeps m w h = grind (arith, claim_and_convert-Keeps)
