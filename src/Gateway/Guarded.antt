-- ===== src/Gateway/Guarded.antt =====
-- btcsoq/gateway.ts: every payment comes straight after a look for an earlier one that found none.
pub mod Steps
pub mod Once
use soqtec.Base.{
  ℕ, ◌≡◌, refl, Option, none, some, List, [], ◌∷◌, Text, Result, ok, err, find, arith,
}
use soqtec.Receipt.Bytes.{from_hex}
use soqtec.Scan.{ChainView, FoundMint, find_mint_tx}
use soqtec.Gateway.World.{
  Answers, World, M, Call, Trace, query, scan_mint, send_mint, list_transactions, send_btc,
  sign_digest, convert_execute, ln_challenge, ln_status, ln_pay, ln_redeem, MintRequest, BtcSend,
  WalletTx, pending,
}
use soqtec.Gateway.Redeem.{sent_with}

module _ (env : Answers) where
  -- The call before was a chain scan for the payload, and it found nothing.
  pub record IsNotOnChain (payload : Text) (t : Trace) : Type 0 where
    pub since : ℕ
    pub before : Trace
    pub view : ChainView
    pub scanned : t ≡ scan_mint payload since ∷ before
    pub answer : env.chain_view before ≡ ok view
    pub absent : find_mint_tx (from_hex payload) since view ≡ some none

  -- The call before listed the wallet's transactions, and none carries the comment.
  pub record IsNotInWallet (comment : Text) (t : Trace) : Type 0 where
    pub before : Trace
    pub history : List WalletTx
    pub listed : t ≡ list_transactions ∷ before
    pub answer : env.list_transactions before ≡ ok history
    pub absent : find (sent_with comment) history ≡ none

  -- The call before asked for the invoice, and it was pending.
  pub record IsUnpaid (invoice : Text) (t : Trace) : Type 0 where
    pub before : Trace
    pub asked : t ≡ ln_status invoice ∷ before
    pub answer : env.ln_status before invoice ≡ ok pending

  abbrev pub IsGuardedCall : Call → Trace → Type 0
  IsGuardedCall (send_mint req) t = IsNotOnChain req.op_return_hex t
  IsGuardedCall (send_btc s) t = IsNotInWallet s.comment t
  IsGuardedCall (ln_pay invoice) t = IsUnpaid invoice t
  IsGuardedCall _ t = Unit {0}

  -- Every payment in the trace was guarded in this way when it was made.
  abbrev pub IsGuarded : Trace → Type 0
  IsGuarded [] = Unit {0}
  IsGuarded (c ∷ t) = IsGuardedCall c t × IsGuarded t

  abbrev pub Keeps : {A : Type 0} → M A → Type 0
  Keeps m = (w : World) → IsGuarded w.trace → IsGuarded (m w).1.trace
