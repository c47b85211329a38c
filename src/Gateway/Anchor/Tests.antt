-- ===== src/Gateway/Anchor/Tests.antt =====
-- btcsoq/gateway.ts: anchors of a ledger of three events.
use soqtec.Base.{
  ℕ, zero, suc, ◌%◌, ◌≡◌, refl, ap, ◌⊎◌, true, false, none, some, List, [], ◌∷◌, ◌++◌, map, Text,
  text, ok, arith, length, All, All-append, insert, ◌===◌, sort_desc,
}
use soqtec.Receipt.Bytes.{IsByte, to_hex, hex_digit}
use soqtec.Attestation.{sha256_hex}
use soqtec.Store.{GatewayStore, new_store, put_attestation, list_attestations, last_anchor}
use soqtec.Store.Records.{AttestationRecord, deposit_confirmed}
use soqtec.Gateway.World.{World}
use soqtec.Gateway.Tests.{env, world}
use soqtec.Gateway.Anchor.{
  Digest, compute_ledger_root, anchor_payload, climb, sort_by_id, zeros, anchor_now, skipped,
  AnchorResult, try_publish, publish, send_payload, send_signed, text_lt,
}
use soqtec.Gateway.Anchor.Levels.{climb-one}
use soqtec.Gateway.Anchor.Tree.{Collision, IsDigest}
use soqtec.Gateway.Anchor.Binding.{ledger_messages, payload_of}
use soqtec.Gateway.Anchor.Publish.{anchor_payload-payloads}
use soqtec.Gateway.Anchor.Again.{anchor_now-again}

-- A hash that tells the lengths of messages apart.
abbrev hash : List ℕ → Digest
hash m = zeros 31 ++ ((length m % 256) ∷ [])

zeros-IsByte : (n : ℕ) → All IsByte (zeros n)
zeros-IsByte zero = tt
zeros-IsByte (suc n) = (omega arith, zeros-IsByte n)

hash-IsDigest : (m : List ℕ) → IsDigest (hash m)
hash-IsDigest m =
    (refl, All-append IsByte (zeros 31) ((length m % 256) ∷ []) (zeros-IsByte 31) (omega arith, tt))

abbrev attestation : Text → Text → AttestationRecord
attestation id payload = record {
  id = id;
  kind = deposit_confirmed;
  payload = payload;
  digest_hex = sha256_hex hash payload;
  signature_hex = none;
  signer_address = [];
  ts = 7;
}

abbrev first : AttestationRecord
first = attestation (text "a") (text "one")

abbrev second : AttestationRecord
second = attestation (text "b") (text "three")

abbrev third : AttestationRecord
third = attestation (text "c") []

abbrev ledger : GatewayStore
ledger = put_attestation third (put_attestation second (put_attestation first (new_store none)))

-- The same events, stored in another order.
abbrev other_order : GatewayStore
other_order =
    put_attestation first (put_attestation third (put_attestation second (new_store none)))

climb-one_example : length (climb hash (hash [] ∷ hash (1 ∷ []) ∷ hash [] ∷ []) 3) ≡ 1
climb-one_example = climb-one hash 3 (hash []) (hash (1 ∷ []) ∷ hash [] ∷ []) (omega arith)

-- The order in which the store has the events does not show in the root.
other_order-root : compute_ledger_root hash ledger ≡ compute_ledger_root hash other_order
unfolding compute_ledger_root put_attestation list_attestations sha256_hex to_hex hex_digit insert
    ◌===◌ sort_desc sort_by_id text_lt
other_order-root = refl

anchor_payload-payloads_example :
    (map payload_of (sort_by_id (list_attestations ledger))
      ≡ map payload_of (sort_by_id (list_attestations other_order)))
    ⊎ Collision hash (ledger_messages hash ledger) (ledger_messages hash other_order)
unfolding compute_ledger_root put_attestation list_attestations sort_desc insert ◌===◌ sort_by_id
    text_lt
anchor_payload-payloads_example =
    anchor_payload-payloads hash hash-IsDigest ledger other_order (refl, (refl, (refl, tt)))
      (refl, (refl, (refl, tt))) (omega arith) (omega arith) (ap anchor_payload other_order-root)

abbrev before : World
before = world ledger

abbrev root : Text
root = (compute_ledger_root env.sha256 ledger).root

abbrev done : AnchorResult
done = record { anchored = true; reason = none; txid = some (text "a1"); root = some root }

anchor_now-again_example : anchor_now env false (anchor_now env false before).1 ≡ (
  ok (skipped (text "ledger unchanged since last anchor") (some root)),
  (anchor_now env false before).1,
)
unfolding anchor_now compute_ledger_root put_attestation list_attestations sha256_hex to_hex
    hex_digit insert ◌===◌ sort_desc sort_by_id text_lt last_anchor try_publish publish send_payload
    send_signed
anchor_now-again_example = anchor_now-again env false before done refl refl
