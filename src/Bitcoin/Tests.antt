-- ===== src/Bitcoin/Tests.antt =====
-- cea/bitcoin-cea.ts on a wallet with a receive, a send and a conflicted receive.
use soqtec.Base.{
  arith, ℕ, ◌≡◌, refl, Bool, true, false, some, List, [], ◌∷◌, Text, text, Result, ok, length,
}
use soqtec.Base.Int.{ℤ, pos, negsuc}
use soqtec.Store.{split_colon}
use soqtec.Bitcoin.{
  WalletEntry, DepositEvent, WalletTransaction, burns_of, event_of, verify_burn, read_digits,
  burn_of, is_dropped,
}
use soqtec.Attestation.{decimal, decimal_fuel}
use soqtec.Bitcoin.{outpoint_of, receive_at}
use soqtec.Bitcoin.Outpoints.{HasNoColon}
use soqtec.Bitcoin.Deposits.{IsDeposit, IsEventOf}
use soqtec.Bitcoin.Polls.{burns_of-Mem, Stands, verify_burn-valid}
use mathlib.Core.List.{Memᴰ}

abbrev txid : Text
txid = text "00ff00ff00ff00ff00ff00ff00ff00ff00ff00ff00ff00ff00ff00ff00ff00ff"

abbrev entry : Bool → ℤ → WalletEntry
entry is_receive confirmations = record {
  is_receive = is_receive;
  abandoned = false;
  replaceable = false;
  has_conflicts = false;
  confirmations = some confirmations;
  txid = txid;
  vout = 1;
  sats = 5000;
  address = text "bc1";
  blockhash = some (text "h");
  blockheight = some 9;
}

abbrev wallet : List WalletEntry
wallet = entry true (pos 2) ∷ entry false (pos 3) ∷ entry true (negsuc 0) ∷ []

reported_once : burns_of 6 10 wallet ≡ event_of 6 10 (entry true (pos 2)) 2 ∷ []
unfolding burns_of burn_of is_dropped event_of
reported_once = refl

burns_of-Mem_example :
    ((e : DepositEvent)
      → Memᴰ e (burns_of 6 10 wallet)
      → (tx : WalletEntry) × (n : ℕ) × Memᴰ tx wallet × IsDeposit tx n × IsEventOf 6 10 tx n e)
    × ((tx : WalletEntry) (n : ℕ)
        → Memᴰ tx wallet
        → IsDeposit tx n
        → (e : DepositEvent) × Memᴰ e (burns_of 6 10 wallet) × IsEventOf 6 10 tx n e)
burns_of-Mem_example = burns_of-Mem 6 10 wallet

abbrev known : WalletTransaction
known = record {
  confirmations = some (pos 2);
  details = record { is_receive = true; vout = 1 } ∷ [];
  blockhash = some (text "h");
}

abbrev transaction : Text → Result Text WalletTransaction
transaction t = ok known

abbrev header : Text → Result Text ℕ
header h = ok 9

plain : HasNoColon txid
plain = ground arith

verify_burn-valid_example :
    let answer = verify_burn 6 transaction header (outpoint_of txid 1) in
    (length txid ≡ 64) × Stands 6 (some 1) (transaction txid) answer
unfolding verify_burn read_digits outpoint_of decimal decimal_fuel split_colon receive_at
verify_burn-valid_example = verify_burn-valid 6 transaction header txid 1 plain refl
