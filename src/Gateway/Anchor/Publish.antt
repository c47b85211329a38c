-- ===== src/Gateway/Anchor/Publish.antt =====
-- btcsoq/gateway.ts, `anchorNow`: what the published bytes say of the ledger, and when an anchor is
-- not repeated.
use soqtec.Base.{
  ℕ, suc, ◌<◌, ◌^◌, ◌≡◌, refl, sym, ap, ◌∙◌, ◌⊎◌, List, [], ◌∷◌, ◌++◌, map, Text, arith, length,
  All, take, drop, take_of_length, length-take_le, length-append,
}
use soqtec.Receipt.Bytes.{from_hex, to_hex, from_hex-to_hex, le_bytes, of_le, of_le-le_bytes}
use soqtec.Store.{GatewayStore, list_attestations}
use soqtec.Gateway.Anchor.{
  Digest, LedgerRoot, compute_ledger_root, anchor_payload, leaves, climb, root_text, zeros,
  sort_by_id,
}
use soqtec.Gateway.Anchor.Levels.{climb-one}
use soqtec.Gateway.Anchor.Tree.{Collision, IsDigest, append-halves, climb-IsDigest}
use soqtec.Gateway.Anchor.Binding.{
  IsHashed, ledger_messages, payload_of, digests-IsDigest, sort_by_id-All,
  compute_ledger_root-payloads,
}

-- The bytes that stand for the root.
abbrev root_bytes : Text → List ℕ
root_bytes root = take 32 (from_hex root ++ zeros 32)

length-root_bytes : (root : Text) → length (root_bytes root) ≡ 32
length-root_bytes root =
    let n = length-append (from_hex root) (zeros 32) in
    length-take_le 32 (from_hex root ++ zeros 32) (omega arith)

one_digest :
    (xs : List Digest)
    → length xs ≡ 1
    → All IsDigest xs
    → (d : Digest) × IsDigest d × (root_text xs ≡ to_hex d)
one_digest (x ∷ []) n (h, hs) = (x, h, refl)
one_digest [] n h = absurd (omega arith)
one_digest (x ∷ y ∷ xs) n h = absurd (omega arith)

-- The root of as many leaves.
abbrev root_of : (List ℕ → Digest) → List Digest → LedgerRoot
root_of sha256 ls = record {
  root = root_text (climb sha256 ls (length ls));
  leaf_count = length ls;
}

root_bytes-to_hex : (d : Digest) → IsDigest d → root_bytes (to_hex d) ≡ d
root_bytes-to_hex d (n, h) = rw (from_hex-to_hex d h) (take_of_length d (zeros 32) n)

payload_fields :
    (r r' : LedgerRoot)
    → r.leaf_count < 2 ^ 32
    → r'.leaf_count < 2 ^ 32
    → anchor_payload r ≡ anchor_payload r'
    → (root_bytes r.root ≡ root_bytes r'.root) × (r.leaf_count ≡ r'.leaf_count)
unfolding anchor_payload
payload_fields r r' n n' e =
    let (roots, counts) =
      append-halves (root_bytes r.root) (le_bytes 4 r.leaf_count) (root_bytes r'.root)
        (le_bytes 4 r'.leaf_count) (length-root_bytes r.root) (length-root_bytes r'.root)
        (ap (drop 5) e) in
    (
      roots,
      sym (of_le-le_bytes 4 r.leaf_count n) ∙ (ap of_le counts ∙ of_le-le_bytes 4 r'.leaf_count n'),
    )

module _ (sha256 : List ℕ → Digest) (outputs : (m : List ℕ) → IsDigest (sha256 m)) where
  same_fields :
      (xs ys : List Digest)
      → All IsDigest xs
      → All IsDigest ys
      → root_bytes (root_of sha256 xs).root ≡ root_bytes (root_of sha256 ys).root
      → length xs ≡ length ys
      → root_of sha256 xs ≡ root_of sha256 ys
  same_fields [] [] hx hy e n = refl
  same_fields [] (y ∷ ys) hx hy e n = absurd (omega arith)
  same_fields (x ∷ xs) [] hx hy e n = absurd (omega arith)
  same_fields (x ∷ xs) (y ∷ ys) hx hy e n =
      let fuel = suc (length xs) in
      let fuel' = suc (length ys) in
      let (d, hd, is) =
        one_digest (climb sha256 (x ∷ xs) fuel) (climb-one sha256 fuel x xs (omega arith))
          (climb-IsDigest sha256 outputs (x ∷ xs) fuel hx) in
      let (d', hd', is') =
        one_digest (climb sha256 (y ∷ ys) fuel') (climb-one sha256 fuel' y ys (omega arith))
          (climb-IsDigest sha256 outputs (y ∷ ys) fuel' hy) in
      let same : d ≡ d' =
        sym (root_bytes-to_hex d hd)
        ∙ (ap root_bytes (sym is) ∙ (e ∙ (ap root_bytes is' ∙ root_bytes-to_hex d' hd'))) in
      let roots : (root_of sha256 (x ∷ xs)).root ≡ (root_of sha256 (y ∷ ys)).root =
        is ∙ (ap to_hex same ∙ sym is') in
      rw (roots, n) refl

  -- If two ledgers whose digest fields are the hashes of their payloads, with fewer than 2^32 events
  -- each, are published in the same 41 bytes, then they hold the same payloads in the order of their
  -- ids, or a message that the first root rests on and a different one that the second rests on have
  -- the same hash. These messages are the payloads and, up to the root, the pairs of neighbouring
  -- hashes. Hashes have 32 bytes.
  pub anchor_payload-payloads :
      (s t : GatewayStore)
      → All (IsHashed sha256) (list_attestations s)
      → All (IsHashed sha256) (list_attestations t)
      → (compute_ledger_root sha256 s).leaf_count < 2 ^ 32
      → (compute_ledger_root sha256 t).leaf_count < 2 ^ 32
      → anchor_payload (compute_ledger_root sha256 s)
        ≡ anchor_payload (compute_ledger_root sha256 t)
      → (map payload_of (sort_by_id (list_attestations s))
          ≡ map payload_of (sort_by_id (list_attestations t)))
        ⊎ Collision sha256 (ledger_messages sha256 s) (ledger_messages sha256 t)
  unfolding compute_ledger_root leaves
  anchor_payload-payloads s t hs ht n n' e =
      let digests =
        digests-IsDigest sha256 outputs (sort_by_id (list_attestations s))
          (sort_by_id-All (IsHashed sha256) (list_attestations s) hs) in
      let digests' =
        digests-IsDigest sha256 outputs (sort_by_id (list_attestations t))
          (sort_by_id-All (IsHashed sha256) (list_attestations t) ht) in
      let (roots, counts) =
        payload_fields (compute_ledger_root sha256 s) (compute_ledger_root sha256 t) n n' e in
      compute_ledger_root-payloads sha256 outputs s t hs ht
        (same_fields (leaves s) (leaves t) digests digests' roots counts)
