-- ===== src/Gateway/Attest.antt =====
-- btcsoq/gateway.ts: one attestation for each kind of event and deposit.
use soqtec.Base.{ℕ, Option, none, some, List, Text, ok, if◌then◌else◌, not, is_some}
use soqtec.Attestation.{DetailValue, build_payload, sha256_hex, attestation_id}
use soqtec.Store.{put_attestation, get_attestation}
use soqtec.Store.Records.{AttestedEventKind, AttestationRecord}
use soqtec.Gateway.World.{
  Answers, BtcsoqConfig, M, pure, ask, gets, on_store, catch, ◌>>=◌, ◌>>◌, sign_digest, truthy,
}

pub record Event : Type 0 where
  pub key : Text
  pub intent_id : Text
  pub ssq_address : Text
  pub sats : ℕ
  pub txid : Text
  pub detail : Option (List (Text × DetailValue))

module _ (env : Answers) (config : BtcsoqConfig) where
  -- A failure leaves the record unsigned; the money tick signs it later.
  unfoldable pub sign_attestation : AttestationRecord → M (Unit {0})
  sign_attestation rec =
      catch
        (do
          signature ←
              ask (sign_digest rec.digest_hex rec.signer_address)
                (λ t. env.sign_digest t rec.digest_hex rec.signer_address)
          on_store (put_attestation (record rec { signature_hex = some signature })))
        (λ message. pure tt)

  unfoldable pub new_attestation : AttestedEventKind → Event → ℕ → AttestationRecord
  new_attestation kind f now =
      let payload = build_payload (record {
        kind = kind;
        network = config.network;
        key = f.key;
        intent_id = f.intent_id;
        ssq_address = f.ssq_address;
        sats = f.sats;
        txid = f.txid;
        ts = now;
        detail = f.detail;
      }) in
      record {
        id = attestation_id kind f.key;
        kind = kind;
        payload = payload;
        digest_hex = sha256_hex env.sha256 payload;
        signature_hex = none;
        signer_address = config.attestation_address;
        ts = now;
      }

  unfoldable pub attest : AttestedEventKind → Event → M (Unit {0})
  unfolding new_attestation
  attest kind f w =
      if not (truthy config.attestation_address)
      then (ok tt, w)
      else if is_some (get_attestation (attestation_id kind f.key) w.store)
      then (ok tt, w)
      else (do
        rec ← gets (λ v. new_attestation kind f (env.now v.trace))
        on_store (put_attestation rec)
        sign_attestation rec)
          w
