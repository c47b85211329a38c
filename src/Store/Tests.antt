-- ===== src/Store/Tests.antt =====
-- btcsoq/store.ts on one minted receipt.
use soqtec.Base.{
  ◌≡◌, refl, true, false, Option, none, some, List, [], ◌∷◌, Text, text, is_some, lookup,
}
use soqtec.Store.Records.{
  MintRecord, MintStatus, ConvertRecord, ConvertStatus, Ln402Record, Ln402Status, AnchorRecord,
}
use soqtec.Store.{GatewayStore, new_store, load, restart, claim_mint, get_mint}
use soqtec.Store.Laws.{
  claim_mint_twice, Write, mint_claim, mint, anchor, cursor, write_all, restart-write_all,
}

abbrev receipt : Option Text → MintRecord
receipt mint_txid = record {
  key = text "d1:0";
  intent_id = text "i1";
  ssq_address = text "ssq1";
  sats = 1000;
  carrier_shors = 546;
  op_return_hex = text "42";
  status = MintStatus.minting;
  claim_height = 10;
  attempts = 0;
  last_error = none;
  mint_txid = mint_txid;
  minted_at = none;
  released_at = none;
  redeem_intent_id = none;
  receipt_spend_txid = none;
  release_txid = none;
  created_at = 1;
  updated_at = 1;
}

abbrev conversion : ConvertRecord
conversion = record {
  key = text "d1:0";
  intent_id = text "i1";
  ssq_address = text "ssq1";
  sats = 1000;
  soq_in_shors = 5;
  op_return_hex = text "43";
  status = ConvertStatus.converting;
  claim_height = 10;
  attempts = 0;
  last_error = none;
  treasury_txid = none;
  payout_txid = none;
  usdsoq_out_shors = none;
  created_at = 1;
  updated_at = 1;
  converted_at = none;
}

abbrev paid_answer : Ln402Record
paid_answer = record {
  key = text "d1:0";
  intent_id = text "i1";
  ssq_address = text "ssq1";
  sats = 1000;
  status = Ln402Status.asking;
  question = text "q";
  invoice_id = none;
  amount_sat = none;
  seller_pub = none;
  answer = none;
  model = none;
  receipt = none;
  receipt_verified = none;
  response_sha256 = none;
  attempts = 0;
  last_error = none;
  created_at = 1;
  updated_at = 1;
  answered_at = none;
}

abbrev root : AnchorRecord
root = record { ts = 1; root = text "00"; leaf_count = 1; txid = text "a1" }

abbrev empty : GatewayStore
empty = new_store none

claim_mint_twice_example :
    let s' = (claim_mint (receipt none) empty).1 in
    (claim_mint (receipt (some (text "m1"))) s' ≡ (false, s'))
    × (is_some (get_mint (text "d1:0") s') ≡ true)
claim_mint_twice_example = claim_mint_twice (receipt none) (receipt (some (text "m1"))) empty refl

no_receipt : get_mint (text "d1:0") empty ≡ none
unfolding get_mint lookup
no_receipt = refl

abbrev writes : List Write
writes =
    mint_claim (receipt none)
    ∷ mint 5 (receipt (some (text "m1")))
    ∷ anchor root
    ∷ cursor (text "b7")
    ∷ []

restart-write_all_example :
    restart (write_all writes (load (new_store none))) ≡ write_all writes (load (new_store none))
restart-write_all_example = restart-write_all writes none
