-- ===== src/Gateway/Guarded/Steps/Redeem.antt =====
-- btcsoq/gateway.ts: the wallet pays only after a look at its history that found no such payment.
use soqtec.Base.{◌≡◌, refl, Option, none, List, [], ◌∷◌, Text, ok, arith, find}
use soqtec.Receipt.{BtcsoqTag}
use soqtec.Scan.{RedemptionSpend}
use soqtec.Store.Records.{BtcIntent, MintRecord}
use soqtec.Gateway.World.{
  Answers, BtcsoqConfig, World, M, WalletTx, BtcSend, list_transactions, for_each,
}
use soqtec.Gateway.Redeem.{
  sent_with, finalize_release, settle_release, drive_release, attempt_release, claim_release,
  on_receipt_returned, on_carrier, on_spend, scan_for_redemptions,
}
use soqtec.Gateway.Guarded.{IsGuarded, IsNotInWallet, Keeps}
use soqtec.Gateway.Guarded.Steps.Answer.{attest-Keeps}

module _ (env : Answers) where
  -- A loop keeps what its body keeps.
  pub for_each-Keeps :
      {A : Type 0} (xs : List A) (body : A → M (Unit {0}))
      → ((a : A) → Keeps env (body a))
      → Keeps env (for_each xs body)
  for_each-Keeps [] body step w h = h
  for_each-Keeps (x ∷ xs) body step w h = grind (arith, step, for_each-Keeps xs body step)

module _ (env : Answers) (config : BtcsoqConfig) where
  finalize_release-Keeps :
      (rec : MintRecord) (i : BtcIntent) (txid : Text)
      → Keeps env (finalize_release env config rec i txid)
  unfolding finalize_release
  finalize_release-Keeps rec i txid w h = grind (arith, attest-Keeps)

  settle_release-Keeps :
      (rec : MintRecord) (i : BtcIntent) (s : BtcSend) (history : List WalletTx) (w : World)
      → (find (sent_with s.comment) history ≡ none → IsNotInWallet env s.comment w.trace)
      → IsGuarded env w.trace
      → IsGuarded env (settle_release env config rec i s history w).1.trace
  unfolding settle_release
  settle_release-Keeps rec i s history w u h = grind (arith, finalize_release-Keeps, u)

  release_after_history :
      (rec : MintRecord) (i : BtcIntent) (s : BtcSend) (history : List WalletTx) (w : World)
      → env.list_transactions w.trace ≡ ok history
      → IsGuarded env w.trace
      → let w' = record w { trace = list_transactions ∷ w.trace } in
        IsGuarded env (settle_release env config rec i s history w').1.trace
  release_after_history rec i s history w e h =
      settle_release-Keeps rec i s history (record w { trace = list_transactions ∷ w.trace })
        (λ p. record { before = w.trace; history = history; listed = refl; answer = e; absent = p })
        (tt, h)

  drive_release-Keeps :
      (rec : MintRecord) (i : BtcIntent) (a : Text) → Keeps env (drive_release env config rec i a)
  unfolding drive_release
  drive_release-Keeps rec i a w h = grind (arith, release_after_history)

  pub attempt_release-Keeps : (rec : MintRecord) → Keeps env (attempt_release env config rec)
  unfolding attempt_release
  attempt_release-Keeps rec w h = grind (arith, drive_release-Keeps)

  claim_release-Keeps :
      (rec : MintRecord) (i : BtcIntent) (txid : Text)
      → Keeps env (claim_release env config rec i txid)
  unfolding claim_release
  claim_release-Keeps rec i txid w h = grind (arith, attest-Keeps, attempt_release-Keeps)

  on_receipt_returned-Keeps :
      (rec : MintRecord) (txid : Text) (tag : Option BtcsoqTag)
      → Keeps env (on_receipt_returned env config rec txid tag)
  unfolding on_receipt_returned
  on_receipt_returned-Keeps rec txid tag w h = grind (arith, claim_release-Keeps)

  on_carrier-Keeps : (s : RedemptionSpend) (c : Text) → Keeps env (on_carrier env config s c)
  on_carrier-Keeps s c w h = grind (arith, on_receipt_returned-Keeps)

  on_spend-Keeps : (s : RedemptionSpend) → Keeps env (on_spend env config s)
  on_spend-Keeps s =
      for_each-Keeps env s.spent_carriers (on_carrier env config s) (on_carrier-Keeps s)

  on_spends-Keeps :
      (spends : List RedemptionSpend) → Keeps env (for_each spends (on_spend env config))
  on_spends-Keeps spends = for_each-Keeps env spends (on_spend env config) on_spend-Keeps

  pub scan_for_redemptions-Keeps : Keeps env (scan_for_redemptions env config)
  unfolding scan_for_redemptions
  scan_for_redemptions-Keeps w h = grind (arith, on_spends-Keeps)
