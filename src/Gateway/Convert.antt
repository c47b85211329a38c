-- ===== src/Gateway/Convert.antt =====
-- btcsoq/gateway.ts: the USDSOQ leg. A tagged treasury deposit, which the chain is searched for
-- before it is sent, and the convert call of the production signer.
use soqtec.Base.{
  ℕ, ◌+◌, ◌-◌, ◌*◌, Bool, false, Option, none, some, List, [], ◌∷◌, ◌++◌, Text, text, ok, err,
  if◌then◌else◌, not, is_some, ◌===◌,
}
use soqtec.Base.Int.{pos}
use soqtec.Attestation.{word, number}
use soqtec.Receipt.{encode_tag, convert}
use soqtec.Receipt.Bytes.{to_hex, from_hex}
use soqtec.Scan.{FoundMint, find_mint_tx}
use soqtec.Store.{claim_convert, put_convert, get_convert, split_colon}
use soqtec.Store.Records.{ConvertRecord, MintRecord, converting, converted, converted_usdsoq}
use soqtec.Gateway.World.{
  Answers, BtcsoqConfig, M, pure, throw, ask, gets, on_store, catch, finally, ◌>>=◌, ◌>>◌, query,
  scan_mint, send_mint, convert_execute, MintRequest, in_set, delete, convert_enabled,
}
use soqtec.Gateway.Breaker.{convert_breaker_reason}
use soqtec.Gateway.Attest.{attest}
use soqtec.Gateway.Answer.{start_ln402_leg}

-- `Number(s)` for a text of decimal digits.
unfoldable pub number_of : ℕ → Text → ℕ
number_of acc [] = acc
number_of acc (c ∷ s) = number_of (10 * acc + (c - 48)) s

abbrev pub digits_of : Option Text → ℕ
digits_of none = 0
digits_of (some s) = number_of 0 s

-- The carrier address is compared only where the node shows one.
abbrev pub pays_other : Option Text → Text → Bool
pays_other none expected = false
pays_other (some a) expected = not (a === expected)

module _ (env : Answers) (config : BtcsoqConfig) where
  abbrev save_convert : ConvertRecord → M (Unit {0})
  save_convert rec w = on_store (put_convert (env.now w.trace) rec) w

  -- `scanner.findMintTx` on the payload whose hex is given.
  unfoldable pub find_tagged : Text → ℕ → M (Option FoundMint)
  find_tagged op_return_hex since = do
    view ← ask (scan_mint op_return_hex since) env.chain_view
    elim (find_mint_tx (from_hex op_return_hex) since view) [
      | none ↦ throw (text "tagScriptHex: payload requires OP_PUSHDATA1")
      | some found ↦ pure found
    ]

  abbrev treasury_request : ConvertRecord → MintRequest
  treasury_request rec = record {
    recipient_address = config.convert_treasury_address;
    amount = rec.soq_in_shors;
    op_return_hex = rec.op_return_hex;
    from_address = config.mint_from_address;
  }

  -- Phase A behind the scan: what was found, or a new send. `none` is the early return.
  unfoldable pub treasury_send :
      ConvertRecord → Option FoundMint → M (Option (ConvertRecord × Text))
  treasury_send rec (some found) =
      if pays_other found.carrier_address config.convert_treasury_address
      then (do
        save_convert (record rec {
          last_error =
              some (text "treasury address mismatch on recovered convert send " ++ found.txid);
        })
        pure none)
      else (do
        let sent = record rec { treasury_txid = some found.txid }
        save_convert sent
        pure (some (sent, found.txid)))
  treasury_send rec none = do
    let tried = record rec { attempts = rec.attempts + 1 }
    save_convert tried
    txid ←
        ask (send_mint (treasury_request rec)) (λ t. env.send_btcsoq_mint t (treasury_request rec))
    let sent = record tried { treasury_txid = some txid }
    save_convert sent
    pure (some (sent, txid))

  unfoldable pub treasury_deposit : ConvertRecord → M (Option (ConvertRecord × Text))
  treasury_deposit rec = elim rec.treasury_txid [
    | some txid ↦ pure (some (rec, txid))
    | none ↦ find_tagged rec.op_return_hex rec.claim_height >>= treasury_send rec
  ]

  -- Phase B. The 402 leg behind it is not awaited; it runs here, and its failure is only logged.
  unfoldable pub execute_convert : ConvertRecord → Text → M (Unit {0})
  execute_convert rec treasury = do
    result ←
        ask (convert_execute treasury config.convert_usdsoq_address)
          (λ t. env.convert_execute t treasury config.convert_usdsoq_address)
    now ← gets (λ v. env.now v.trace)
    let done = record rec {
      status = converted;
      payout_txid = some result.payout_txid;
      usdsoq_out_shors = some result.amount_out;
      converted_at = (if is_some rec.converted_at then rec.converted_at else some now);
      last_error = none;
    }
    save_convert done
    attest env config converted_usdsoq (record {
      key = rec.key;
      intent_id = rec.intent_id;
      ssq_address = rec.ssq_address;
      sats = rec.sats;
      txid = result.payout_txid;
      detail = some (
          (text "soqInShors", number rec.soq_in_shors)
          ∷ (text "usdsoqOutShors", number result.amount_out)
          ∷ (text "treasuryTxid", word treasury)
          ∷ []);
    })
    catch (start_ln402_leg env config done) (λ message. pure tt)

  -- Phase B follows unless phase A returned early.
  unfoldable pub execute_sent : Option (ConvertRecord × Text) → M (Unit {0})
  execute_sent none = pure tt
  execute_sent (some (latest, treasury)) = execute_convert latest treasury

  unfoldable pub drive_convert : ConvertRecord → M (Unit {0})
  drive_convert rec = treasury_deposit rec >>= execute_sent

  abbrev note_convert_error : Text → Text → M (Unit {0})
  note_convert_error key message w = elim (get_convert key w.store) [
    | none ↦ (ok tt, w)
    | some latest ↦ save_convert (record latest { last_error = some message }) w
  ]

  unfoldable pub attempt_convert : ConvertRecord → M (Unit {0})
  attempt_convert rec w =
      if not (convert_enabled config)
      then (ok tt, w)
      else if in_set rec.key w.converting_in_flight
      then (ok tt, w)
      else if is_some (
          convert_breaker_reason env config
            (if is_some rec.treasury_txid then 0 else rec.soq_in_shors) w)
      then (ok tt, w)
      else finally (catch (drive_convert rec) (note_convert_error rec.key))
          (λ v. record v { converting_in_flight = delete rec.key v.converting_in_flight })
          (record w { converting_in_flight = rec.key ∷ w.converting_in_flight })

  abbrev new_convert : MintRecord → List ℕ → ℕ → ℕ → ConvertRecord
  new_convert mint tag claim_height now = record {
    key = mint.key;
    intent_id = mint.intent_id;
    ssq_address = mint.ssq_address;
    sats = mint.sats;
    soq_in_shors = config.convert_soq_shors;
    op_return_hex = to_hex tag;
    status = converting;
    claim_height = claim_height;
    attempts = 0;
    last_error = none;
    treasury_txid = none;
    payout_txid = none;
    usdsoq_out_shors = none;
    created_at = now;
    updated_at = now;
    converted_at = none;
  }

  -- `if (!store.claimConvert(rec)) return; await attemptConvert(rec)`
  unfoldable pub convert_if_claimed : ConvertRecord → M (Unit {0})
  convert_if_claimed rec w =
      let (claimed, s) = claim_convert rec w.store in
      let w' = record w { store = s } in if not claimed then (ok tt, w') else attempt_convert rec w'

  unfoldable pub claim_and_convert : MintRecord → List ℕ → M (Unit {0})
  claim_and_convert mint tag = do
    claim_height ← ask query env.tip_height
    rec ← gets (λ v. new_convert mint tag claim_height (env.now v.trace))
    convert_if_claimed rec

  unfoldable pub start_convert_leg : MintRecord → M (Unit {0})
  start_convert_leg mint w =
      if not (convert_enabled config)
      then (ok tt, w)
      else if is_some (get_convert mint.key w.store)
      then (ok tt, w)
      else if is_some (convert_breaker_reason env config config.convert_soq_shors w)
      then (ok tt, w)
      else let (txid, vout) = split_colon mint.key in
        elim (encode_tag convert (pos mint.sats) txid (digits_of vout)) [
          | err e ↦ throw (text "encodeTag") w
          | ok tag ↦ claim_and_convert mint tag w
        ]
