-- ===== src/Gateway/Anchor/Binding.antt =====
-- btcsoq/gateway.ts, `computeLedgerRoot`: what the root and the leaf count say of the ledger.
use soqtec.Base.{
  ℕ, ◌≡◌, refl, sym, ap, ◌∙◌, ◌⊎◌, inl, inr, List, [], ◌∷◌, ◌++◌, map, Text, arith, length, All,
  subst,
}
use mathlib.Core.List.Memᴰ.{head, tail, append_left, append_right}
use soqtec.Receipt.Bytes.{from_hex, from_hex-to_hex}
use soqtec.Attestation.{sha256_hex}
use soqtec.Store.{GatewayStore, list_attestations}
use soqtec.Store.Records.{AttestationRecord}
use soqtec.Gateway.Anchor.{Digest, digest, leaves, sort_by_id, insert_by_id, compute_ledger_root}
use soqtec.Gateway.Anchor.Tree.{Collision, climb_messages, IsDigest, widen, same_message, same_root}

-- The digest field of a record is the hash of its payload.
abbrev pub IsHashed : (List ℕ → Digest) → AttestationRecord → Type 0
IsHashed sha256 a = a.digest_hex ≡ sha256_hex sha256 a.payload

abbrev pub payload_of : AttestationRecord → Text
payload_of a = a.payload

-- All messages that the root of a ledger rests on: its payloads, and the pairs of hashes.
abbrev pub ledger_messages : (List ℕ → Digest) → GatewayStore → List (List ℕ)
ledger_messages sha256 s =
    map payload_of (sort_by_id (list_attestations s))
    ++ climb_messages sha256 (leaves s) (length (leaves s))

insert_by_id-All :
    (P : AttestationRecord → Type 0) (a : AttestationRecord) (bs : List AttestationRecord)
    → P a
    → All P bs
    → All P (insert_by_id a bs)
unfolding insert_by_id
insert_by_id-All P a [] h hs = (h, tt)
insert_by_id-All P a (b ∷ bs) h (hb, hs) = let rest = insert_by_id-All P a bs h hs in ground arith

pub sort_by_id-All :
    (P : AttestationRecord → Type 0) (bs : List AttestationRecord)
    → All P bs
    → All P (sort_by_id bs)
unfolding sort_by_id
sort_by_id-All P [] h = tt
sort_by_id-All P (b ∷ bs) (h, hs) = insert_by_id-All P b (sort_by_id bs) h (sort_by_id-All P bs hs)

module _ (sha256 : List ℕ → Digest) (outputs : (m : List ℕ) → IsDigest (sha256 m)) where
  digest_lem : (a : AttestationRecord) → IsHashed sha256 a → digest a ≡ sha256 a.payload
  unfolding sha256_hex
  digest_lem a h = ap from_hex h ∙ from_hex-to_hex (sha256 a.payload) (outputs a.payload).1

  pub digests-IsDigest :
      (xs : List AttestationRecord) → All (IsHashed sha256) xs → All IsDigest (map digest xs)
  digests-IsDigest [] h = tt
  digests-IsDigest (a ∷ xs) (h, hs) =
      (subst IsDigest (sym (digest_lem a h)) (outputs a.payload), digests-IsDigest xs hs)

  payloads_of_digests :
      (xs bs : List AttestationRecord)
      → All (IsHashed sha256) xs
      → All (IsHashed sha256) bs
      → map digest xs ≡ map digest bs
      → (map payload_of xs ≡ map payload_of bs)
        ⊎ Collision sha256 (map payload_of xs) (map payload_of bs)
  payloads_of_digests [] [] hs ks e = inl refl
  payloads_of_digests [] (b ∷ bs) hs ks e = absurd (ground arith)
  payloads_of_digests (a ∷ xs) [] hs ks e = absurd (ground arith)
  payloads_of_digests (a ∷ xs) (b ∷ bs) (h, hs) (k, ks) e =
      let first_digest : digest a ≡ digest b = grind arith in
      let hashes = sym (digest_lem a h) ∙ (first_digest ∙ digest_lem b k) in
      elim (payloads_of_digests xs bs hs ks (grind arith)) [
        | inr c ↦ inr (
            widen sha256 (map payload_of xs) (map payload_of (a ∷ xs)) (map payload_of bs)
              (map payload_of (b ∷ bs)) (λ m at. tail at) (λ m at. tail at) c)
        | inl rest ↦
            elim (same_message sha256 outputs a.payload b.payload (map payload_of (a ∷ xs))
              (map payload_of (b ∷ bs)) (head refl) (head refl) hashes) [
                | inl m ↦ inl (rw (m, rest) refl)
                | inr c ↦ inr c
              ]
      ]

  -- If two ledgers whose digest fields are the hashes of their payloads have the same root and leaf
  -- count, then they hold the same payloads in the order of their ids, or one of the messages that the
  -- first root rests on and a different one that the second rests on have the same hash.
  pub compute_ledger_root-payloads :
      (s t : GatewayStore)
      → All (IsHashed sha256) (list_attestations s)
      → All (IsHashed sha256) (list_attestations t)
      → compute_ledger_root sha256 s ≡ compute_ledger_root sha256 t
      → (map payload_of (sort_by_id (list_attestations s))
          ≡ map payload_of (sort_by_id (list_attestations t)))
        ⊎ Collision sha256 (ledger_messages sha256 s) (ledger_messages sha256 t)
  unfolding compute_ledger_root leaves
  compute_ledger_root-payloads s t hs ht e =
      let payloads = map payload_of (sort_by_id (list_attestations s)) in
      let payloads' = map payload_of (sort_by_id (list_attestations t)) in
      let pairs = climb_messages sha256 (leaves s) (length (leaves s)) in
      let pairs' = climb_messages sha256 (leaves t) (length (leaves t)) in
      let hashed = sort_by_id-All (IsHashed sha256) (list_attestations s) hs in
      let hashed' = sort_by_id-All (IsHashed sha256) (list_attestations t) ht in
      elim (same_root sha256 outputs (leaves s) (leaves t) (ap (λ r. r.leaf_count) e)
        (digests-IsDigest (sort_by_id (list_attestations s)) hashed)
        (digests-IsDigest (sort_by_id (list_attestations t)) hashed') (ap (λ r. r.root) e)) [
          | inl same ↦
              elim (payloads_of_digests (sort_by_id (list_attestations s))
                (sort_by_id (list_attestations t)) hashed hashed' same) [
                  | inl equal ↦ inl equal
                  | inr c ↦ inr (
                      widen sha256 payloads (payloads ++ pairs) payloads' (payloads' ++ pairs')
                        (λ m at. append_left pairs at) (λ m at. append_left pairs' at) c)
                ]
          | inr c ↦ inr (
              widen sha256 pairs (payloads ++ pairs) pairs' (payloads' ++ pairs')
                (λ m at. append_right payloads at) (λ m at. append_right payloads' at) c)
        ]
