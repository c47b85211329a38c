-- ===== src/Bitcoin/Deposits.antt =====
-- cea/bitcoin-cea.ts: what a deposit is, and what an event tells of it.
use soqtec.Base.{
  ℕ, ◌<◌, ◌≤◌, ◌&&◌, ◌++◌, ◌≡◌, refl, true, false, inl, inr, Option, none, some, ◌∷◌, arith,
  Bool-cases, ==_iff,
}
use soqtec.Base.Int.{ℤ, pos, negsuc}
use soqtec.Attestation.{decimal}
use soqtec.Chain.{BurnConfidence, mempool, confirmed, finalized, ChainId}
use soqtec.Bitcoin.{
  is_zero, outpoint_of, WalletEntry, DepositEvent, confirmations_of, confidence_for, is_dropped,
  event_of,
}

-- What the adapter takes for a deposit: a receive that is neither abandoned nor, while it is
-- unconfirmed, replaced by a conflicting transaction, with its confirmations.
pub record IsDeposit (tx : WalletEntry) (confirmations : ℕ) : Type 0 where
  pub receive : tx.is_receive ≡ true
  pub not_abandoned : tx.abandoned ≡ false
  pub not_replaced :
      ¬ ((tx.replaceable ≡ true) × (tx.confirmations ≡ some (pos 0)) × (tx.has_conflicts ≡ true))
  pub in_chain : confirmations_of tx.confirmations ≡ pos confirmations

-- The confidence that a number of confirmations stands for.
pub record IsConfidence (finality_conf confirmations : ℕ) (c : BurnConfidence) : Type 0 where
  pub unmined : confirmations ≡ 0 → c ≡ mempool
  pub mined : 0 < confirmations → confirmations < finality_conf → c ≡ confirmed
  pub final : 0 < confirmations → finality_conf ≤ confirmations → c ≡ finalized

-- The event tells the deposit.
pub record IsEventOf (finality_conf now : ℕ) (tx : WalletEntry) (confirmations : ℕ)
    (e : DepositEvent) : Type 0 where
  pub chain : e.chain ≡ ChainId.bitcoin
  pub id : e.burn_tx_id ≡ tx.txid ++ (b':' ∷ decimal tx.vout)
  pub gross : e.gross_amount ≡ tx.sats
  pub confidence : IsConfidence finality_conf confirmations e.confidence
  pub detected : e.detected_at ≡ now
  pub txid : e.txid ≡ tx.txid
  pub vout : e.vout ≡ tx.vout
  pub address : e.address ≡ tx.address
  pub confirmations_told : e.confirmations ≡ confirmations
  pub blockhash : e.blockhash ≡ tx.blockhash
  pub blockheight : e.blockheight ≡ tx.blockheight

pub confidence_for-IsConfidence :
    (finality_conf n : ℕ) → IsConfidence finality_conf n (confidence_for finality_conf n)
unfolding confidence_for
confidence_for-IsConfidence finality_conf n = record {
  unmined = λ h. ground arith;
  mined = λ h k. ground arith;
  final = λ h k. ground arith;
}

pub event_of-IsEventOf :
    (finality_conf now : ℕ) (tx : WalletEntry) (n : ℕ)
    → IsEventOf finality_conf now tx n (event_of finality_conf now tx n)
unfolding event_of outpoint_of
event_of-IsEventOf finality_conf now tx n = record {
  chain = refl;
  id = refl;
  gross = refl;
  confidence = confidence_for-IsConfidence finality_conf n;
  detected = refl;
  txid = refl;
  vout = refl;
  address = refl;
  confirmations_told = refl;
  blockhash = refl;
  blockheight = refl;
}

is_zero_lem : (o : Option ℤ) → is_zero o ≡ true → o ≡ some (pos 0)
is_zero_lem (some (pos n)) h = rw ((==_iff n 0).0 h) refl
is_zero_lem (some (negsuc n)) h = absurd (ground arith)
is_zero_lem none h = absurd (ground arith)

pub kept_deposit : (tx : WalletEntry) (n : ℕ) → IsDeposit tx n → is_dropped tx ≡ false
unfolding is_dropped
kept_deposit tx n d =
    let stays = d.not_abandoned in
    elim (Bool-cases (tx.replaceable && (is_zero tx.confirmations && tx.has_conflicts))) [
      | inr other ↦ grind arith
      | inl replaced ↦
          absurd
            (d.not_replaced (grind arith, is_zero_lem tx.confirmations (grind arith), grind arith))
    ]

pub kept-IsDeposit :
    (tx : WalletEntry) (n : ℕ)
    → tx.is_receive ≡ true
    → is_dropped tx ≡ false
    → confirmations_of tx.confirmations ≡ pos n
    → IsDeposit tx n
unfolding is_dropped
kept-IsDeposit tx n receive kept in_chain = record {
  receive = receive;
  not_abandoned = grind arith;
  not_replaced = λ (r, z, c).
      let zero_now : is_zero tx.confirmations ≡ true = rw z refl in absurd (grind arith);
  in_chain = in_chain;
}
