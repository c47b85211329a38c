-- ===== src/Gateway/Guarded/Steps/Mint.antt =====
-- btcsoq/gateway.ts: the signer is asked for a mint only after a scan that found nothing.
use soqtec.Base.{ℕ, ◌≡◌, refl, Option, none, some, List, Text, arith}
use soqtec.Scan.{FoundMint}
use soqtec.Store.Records.{DepositRecord, BtcIntent, MintRecord, HeldReason}
use soqtec.Gateway.World.{Answers, BtcsoqConfig, World}
use soqtec.Gateway.Mint.{
  show_minted, finalize_mint, settle_mint, drive_mint, attempt_mint, mint_if_claimed,
  claim_and_mint, hold, mint_to, mint_for_deposit_key,
}
use soqtec.Gateway.Guarded.{IsGuarded, IsNotOnChain, Keeps}
use soqtec.Gateway.Guarded.Steps.Answer.{attest-Keeps}
use soqtec.Gateway.Guarded.Steps.Convert.{find_tagged-then, start_convert_leg-Keeps}

module _ (env : Answers) (config : BtcsoqConfig) where
  show_minted-Keeps : (rec : MintRecord) (txid : Text) → Keeps env (show_minted env config rec txid)
  unfolding show_minted
  show_minted-Keeps rec txid w h = ground arith

  finalize_mint-Keeps :
      (rec : MintRecord) (txid : Text) → Keeps env (finalize_mint env config rec txid)
  unfolding finalize_mint
  finalize_mint-Keeps rec txid w h =
      grind (arith, attest-Keeps, show_minted-Keeps, start_convert_leg-Keeps)

  settle_mint-Keeps :
      (rec : MintRecord) (found : Option FoundMint) (w : World)
      → (found ≡ none → IsNotOnChain env rec.op_return_hex w.trace)
      → IsGuarded env w.trace
      → IsGuarded env (settle_mint env config rec found w).1.trace
  unfolding settle_mint
  settle_mint-Keeps rec (some found) w u h = grind (arith, finalize_mint-Keeps)
  settle_mint-Keeps rec none w u h = grind (arith, finalize_mint-Keeps, u refl)

  drive_mint-Keeps : (rec : MintRecord) → Keeps env (drive_mint env config rec)
  unfolding drive_mint
  drive_mint-Keeps rec w h = grind (
    arith,
    find_tagged-then env config rec.op_return_hex rec.claim_height (settle_mint env config rec)
        (settle_mint-Keeps rec),
  )

  pub attempt_mint-Keeps : (rec : MintRecord) → Keeps env (attempt_mint env config rec)
  unfolding attempt_mint
  attempt_mint-Keeps rec w h = grind (arith, drive_mint-Keeps)

  mint_if_claimed-Keeps :
      (d : DepositRecord) (i : BtcIntent) (rec : MintRecord)
      → Keeps env (mint_if_claimed env config d i rec)
  unfolding mint_if_claimed
  mint_if_claimed-Keeps d i rec w h = grind (arith, attempt_mint-Keeps)

  claim_and_mint-Keeps :
      (d : DepositRecord) (i : BtcIntent) (tag : List ℕ)
      → Keeps env (claim_and_mint env config d i tag)
  unfolding claim_and_mint
  claim_and_mint-Keeps d i tag w h = grind (arith, mint_if_claimed-Keeps)

  hold-Keeps : (r : HeldReason) (d : DepositRecord) → Keeps env (hold env config r d)
  unfolding hold
  hold-Keeps r d w h = ground arith

  mint_to-Keeps : (d : DepositRecord) (i : BtcIntent) → Keeps env (mint_to env config d i)
  unfolding mint_to
  mint_to-Keeps d i w h = grind (arith, hold-Keeps, claim_and_mint-Keeps)

  pub mint_for_deposit_key-Keeps : (key : Text) → Keeps env (mint_for_deposit_key env config key)
  unfolding mint_for_deposit_key
  mint_for_deposit_key-Keeps key w h = grind (arith, hold-Keeps, mint_to-Keeps)
