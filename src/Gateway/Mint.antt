-- ===== src/Gateway/Mint.antt =====
-- btcsoq/gateway.ts: the receipt mint. Claim the deposit outpoint, search the chain for its tag, and
-- only then ask the signer.
use soqtec.Base.{
  ℕ, ◌+◌, Bool, true, false, Option, none, some, List, ◌∷◌, ◌++◌, Text, text, ok, err, ltb,
  if◌then◌else◌, not, is_some,
}
use soqtec.Base.Int.{pos}
use soqtec.Chain.{is_mempool}
use soqtec.Receipt.{encode_tag, mint}
use soqtec.Receipt.Bytes.{to_hex}
use soqtec.Scan.{FoundMint}
use soqtec.Store.{
  GatewayStore, get_deposit, put_deposit, get_intent, put_intent, get_mint, put_mint, claim_mint,
}
use soqtec.Store.Records.{
  DepositRecord, BtcIntent, IntentKind, IntentStatus, MintRecord, HeldReason, underpay,
  bad_recipient, MintStatus, receipt_minted,
}
use soqtec.Gateway.World.{
  Answers, BtcsoqConfig, M, pure, throw, ask, gets, on_store, catch, finally, ◌>>=◌, ◌>>◌, query,
  send_mint, MintRequest, in_set, delete,
}
use soqtec.Gateway.Breaker.{mint_breaker_reason}
use soqtec.Gateway.Attest.{attest}
use soqtec.Gateway.Convert.{find_tagged, pays_other, start_convert_leg}

abbrev pub deposit_intent : Option BtcIntent → Option BtcIntent
deposit_intent none = none
deposit_intent (some i) = elim i.kind [ IntentKind.deposit ↦ some i | IntentKind.redeem ↦ none ]

abbrev pub held_for : HeldReason → Option HeldReason → Bool
held_for underpay (some underpay) = true
held_for bad_recipient (some bad_recipient) = true
held_for r _ = false

abbrev pub mint_txid_of : Option MintRecord → Option Text
mint_txid_of none = none
mint_txid_of (some m) = m.mint_txid

module _ (env : Answers) (config : BtcsoqConfig) where
  abbrev pub save_mint : MintRecord → M (Unit {0})
  save_mint rec w = on_store (put_mint (env.now w.trace) rec) w

  -- The intent of a minted record, if it is known, shows the mint.
  unfoldable pub show_minted : MintRecord → Text → M (Unit {0})
  show_minted rec mint_txid w = elim (get_intent rec.intent_id w.store) [
    | none ↦ (ok tt, w)
    | some intent ↦
        on_store
          (put_intent (record intent {
            status = IntentStatus.minted;
            mint_txid = some mint_txid;
            updated_at = env.now w.trace;
          }))
          w
  ]

  abbrev pub minted_record : MintRecord → Text → ℕ → MintRecord
  minted_record rec mint_txid now = record rec {
    status = MintStatus.minted;
    mint_txid = some mint_txid;
    minted_at = (if is_some rec.minted_at then rec.minted_at else some now);
    last_error = none;
  }

  -- The conversion leg behind it is not awaited; it runs here, and its failure is only logged.
  unfoldable pub finalize_mint : MintRecord → Text → M Text
  finalize_mint rec mint_txid = do
    now ← gets (λ v. env.now v.trace)
    let done = minted_record rec mint_txid now
    save_mint done
    show_minted done mint_txid
    attest env config receipt_minted (record {
      key = rec.key;
      intent_id = rec.intent_id;
      ssq_address = rec.ssq_address;
      sats = rec.sats;
      txid = mint_txid;
      detail = none;
    })
    catch (start_convert_leg env config done) (λ message. pure tt)
    pure mint_txid

  abbrev pub mint_request : MintRecord → MintRequest
  mint_request rec = record {
    recipient_address = rec.ssq_address;
    amount = rec.carrier_shors;
    op_return_hex = rec.op_return_hex;
    from_address = config.mint_from_address;
  }

  -- Behind the scan: finalize what was found, flag a carrier that pays somebody else, or mint.
  unfoldable pub settle_mint : MintRecord → Option FoundMint → M (Option Text)
  settle_mint rec (some found) =
      if pays_other found.carrier_address rec.ssq_address
      then (do
        save_mint (record rec {
          last_error = some (text "carrier address mismatch on recovered mint " ++ found.txid);
        })
        pure none)
      else (do txid ← finalize_mint rec found.txid; pure (some txid))
  settle_mint rec none = do
    let tried = record rec { attempts = rec.attempts + 1 }
    save_mint tried
    sent ← ask (send_mint (mint_request rec)) (λ t. env.send_btcsoq_mint t (mint_request rec))
    txid ← finalize_mint tried sent
    pure (some txid)

  unfoldable pub drive_mint : MintRecord → M (Option Text)
  drive_mint rec = find_tagged env config rec.op_return_hex rec.claim_height >>= settle_mint rec

  abbrev pub note_mint_error : Text → Text → M (Option Text)
  note_mint_error key message w = elim (get_mint key w.store) [
    | none ↦ (ok none, w)
    | some latest ↦ (do save_mint (record latest { last_error = some message }); pure none) w
  ]

  unfoldable pub attempt_mint : MintRecord → M (Option Text)
  attempt_mint rec w =
      if in_set rec.key w.minting_in_flight
      then (ok none, w)
      else if is_some (mint_breaker_reason env config rec.sats w)
      then (ok none, w)
      else finally (catch (drive_mint rec) (note_mint_error rec.key))
          (λ v. record v { minting_in_flight = delete rec.key v.minting_in_flight })
          (record w { minting_in_flight = rec.key ∷ w.minting_in_flight })

  abbrev pub new_mint : DepositRecord → BtcIntent → List ℕ → ℕ → ℕ → MintRecord
  new_mint dep intent tag claim_height now = record {
    key = dep.key;
    intent_id = intent.id;
    ssq_address = intent.ssq_address;
    sats = dep.sats;
    carrier_shors = config.carrier_shors;
    op_return_hex = to_hex tag;
    status = MintStatus.minting;
    claim_height = claim_height;
    attempts = 0;
    last_error = none;
    mint_txid = none;
    minted_at = none;
    released_at = none;
    redeem_intent_id = none;
    receipt_spend_txid = none;
    release_txid = none;
    created_at = now;
    updated_at = now;
  }

  -- The intent shows the outpoint that is being minted.
  abbrev show_minting : DepositRecord → BtcIntent → M (Unit {0})
  show_minting dep intent w =
      on_store
        (put_intent (record intent {
          status = IntentStatus.minting;
          deposit_txid = some dep.txid;
          deposit_vout = some dep.vout;
          sats = some dep.sats;
          updated_at = env.now w.trace;
        }))
        w

  -- A lost race answers with the mint transaction of the record that won.
  unfoldable pub mint_if_claimed : DepositRecord → BtcIntent → MintRecord → M (Option Text)
  mint_if_claimed dep intent rec w =
      let (claimed, s) = claim_mint rec w.store in
      let w' = record w { store = s } in
      if not claimed
      then (ok (mint_txid_of (get_mint dep.key s)), w')
      else (show_minting dep intent >> attempt_mint rec) w'

  unfoldable pub claim_and_mint : DepositRecord → BtcIntent → List ℕ → M (Option Text)
  claim_and_mint dep intent tag = do
    claim_height ← ask query env.tip_height
    rec ← gets (λ v. new_mint dep intent tag claim_height (env.now v.trace))
    mint_if_claimed dep intent rec

  unfoldable pub hold : HeldReason → DepositRecord → M (Option Text)
  hold reason dep w = if held_for reason dep.held_reason then (ok none, w) else (
    ok none,
    record w { store = put_deposit (record dep { held_reason = some reason }) w.store },
  )

  -- Behind the guards on the deposit: the recipient must validate, and an unreachable node defers.
  unfoldable pub mint_to : DepositRecord → BtcIntent → M (Option Text)
  mint_to dep intent w =
      let w' = record w { trace = query ∷ w.trace } in
      elim (env.validate_address w.trace intent.ssq_address) [
        | err message ↦ (ok none, w')
        | ok valid ↦
            if not valid
            then hold bad_recipient dep w'
            else elim (encode_tag mint (pos dep.sats) dep.txid dep.vout) [
              | err e ↦ throw (text "encodeTag") w'
              | ok tag ↦ claim_and_mint dep intent tag w'
            ]
      ]

  abbrev bound_intent : DepositRecord → GatewayStore → Option BtcIntent
  bound_intent dep s = elim dep.intent_id [
    | none ↦ none
    | some id ↦ deposit_intent (get_intent id s)
  ]

  unfoldable pub mint_for_deposit_key : Text → M (Option Text)
  mint_for_deposit_key key w = elim (get_deposit key w.store) [
    | none ↦ (ok none, w)
    | some dep ↦ elim (get_mint key w.store) [
      | some existing ↦ (ok existing.mint_txid, w)
      | none ↦ if is_mempool dep.confidence then (ok none, w) else elim (bound_intent dep w.store) [
        | none ↦ (ok none, w)
        | some intent ↦
            if ltb dep.sats config.min_deposit_sats
            then hold underpay dep w
            else mint_to dep intent w
      ]
    ]
  ]
