-- ===== src/Gateway/Anchor.antt =====
-- btcsoq/gateway.ts, `computeLedgerRoot`, `anchorNow` and `anchorStatus`: the Merkle root over the
-- attestation ledger, and its publication in an output of a Bitcoin transaction.
mod Levels
mod Tree
mod Binding
mod Publish
mod Again
mod Tests
use soqtec.Base.{
  ℕ, zero, suc, ◌^◌, Bool, true, false, ◌||◌, ◌&&◌, not, Option, none, some, List, [], ◌∷◌, ◌++◌,
  Text, text, map, ok, ltb, ◌==◌, ◌===◌, if◌then◌else◌, length, take,
}
use soqtec.Receipt.Bytes.{from_hex, to_hex, le_bytes}
use soqtec.Store.{GatewayStore, list_attestations, last_anchor, put_anchor}
use soqtec.Store.Records.{AttestationRecord, AnchorRecord}
use soqtec.Gateway.World.{
  Answers, World, M, pure, throw, ask, gets, on_store, catch, finally, ◌>>=◌, ◌>>◌, query,
  send_anchor, SignedTx, truthy,
}

abbrev pub Digest : Type 0
Digest = List ℕ

-- `<` on strings
unfoldable pub text_lt : Text → Text → Bool
text_lt s [] = false
text_lt [] (d ∷ t) = true
text_lt (c ∷ s) (d ∷ t) = ltb c d || ((c == d) && text_lt s t)

-- Before the first entry whose id is not below its own.
unfoldable pub insert_by_id : AttestationRecord → List AttestationRecord → List AttestationRecord
insert_by_id a [] = a ∷ []
insert_by_id a (b ∷ bs) =
    let rest = insert_by_id a bs in if text_lt b.id a.id then b ∷ rest else a ∷ b ∷ bs

-- `sort((a, b) => (a.id < b.id ? -1 : a.id > b.id ? 1 : 0))`
unfoldable pub sort_by_id : List AttestationRecord → List AttestationRecord
unfolding insert_by_id
sort_by_id [] = []
sort_by_id (a ∷ rest) = insert_by_id a (sort_by_id rest)

abbrev pub digest : AttestationRecord → Digest
digest a = from_hex a.digest_hex

unfoldable pub leaves : GatewayStore → List Digest
leaves s = map digest (sort_by_id (list_attestations s))

-- `sha256(left || right)` of the pairs of a level; an odd node is paired with itself.
unfoldable pub level_up : (List ℕ → Digest) → List Digest → List Digest
level_up sha256 [] = []
level_up sha256 (x ∷ []) = sha256 (x ++ x) ∷ []
level_up sha256 (x ∷ y ∷ rest) = sha256 (x ++ y) ∷ level_up sha256 rest

-- `while (level.length > 1)`, on fuel.
unfoldable pub climb : (List ℕ → Digest) → List Digest → ℕ → List Digest
climb sha256 [] fuel = []
climb sha256 (x ∷ []) fuel = x ∷ []
climb sha256 (x ∷ y ∷ rest) zero = x ∷ y ∷ rest
climb sha256 (x ∷ y ∷ rest) (suc fuel) = climb sha256 (level_up sha256 (x ∷ y ∷ rest)) fuel

pub record LedgerRoot : Type 0 where
  pub root : Text
  pub leaf_count : ℕ

-- `level[0].toString('hex')`; no leaf leaves the empty text.
abbrev pub root_text : List Digest → Text
root_text [] = []
root_text (x ∷ xs) = to_hex x

unfoldable pub compute_ledger_root : (List ℕ → Digest) → GatewayStore → LedgerRoot
unfolding leaves climb level_up
compute_ledger_root sha256 s =
    let ls = leaves s in
    record { root = root_text (climb sha256 ls (length ls)); leaf_count = length ls }

-- `Buffer.alloc(n)`
abbrev pub zeros : ℕ → List ℕ
zeros zero = []
zeros (suc n) = 0 ∷ zeros n

-- "BSQA", 1, the root in 32 bytes, the leaf count in four.
unfoldable pub anchor_payload : LedgerRoot → List ℕ
anchor_payload r =
    text "BSQA" ++ (1 ∷ (take 32 (from_hex r.root ++ zeros 32) ++ le_bytes 4 r.leaf_count))

pub record AnchorResult : Type 0 where
  pub anchored : Bool
  pub reason : Option Text
  pub txid : Option Text
  pub root : Option Text

abbrev pub skipped : Text → Option Text → AnchorResult
skipped reason root = record { anchored = false; reason = some reason; txid = none; root = root }

unfoldable pub is_current : LedgerRoot → Option AnchorRecord → Bool
is_current r none = false
is_current r (some last) = last.root === r.root

abbrev ledger_empty : AnchorResult
ledger_empty = skipped (text "ledger is empty") none

module _ (env : Answers) where
  unfoldable pub send_signed : SignedTx → M Text
  send_signed signed =
      if signed.complete
      then ask (send_anchor signed.hex) (λ t. env.send_raw t signed.hex)
      else throw (text "anchor tx signing incomplete")

  -- The transaction with the payload, created, funded, signed and sent.
  unfoldable pub send_payload : LedgerRoot → M Text
  unfolding anchor_payload
  send_payload r =
      if ltb r.leaf_count (2 ^ 32)
      then (do
        raw ← ask query (λ t. env.create_raw t (to_hex (anchor_payload r)))
        funded ← ask query (λ t. env.fund_raw t raw)
        signed ← ask query (λ t. env.sign_raw t funded)
        send_signed signed)
      else throw (text "leaf count out of range")

  unfoldable pub anchor_record : LedgerRoot → Text → ℕ → AnchorRecord
  anchor_record r txid now = record {
    ts = now;
    root = r.root;
    leaf_count = r.leaf_count;
    txid = txid;
  }

  unfoldable pub publish : LedgerRoot → M AnchorResult
  publish r = do
    txid ← send_payload r
    now ← gets (λ v. env.now v.trace)
    on_store (put_anchor (anchor_record r txid now))
    pure (record { anchored = true; reason = none; txid = some txid; root = some r.root })

  unfoldable pub try_publish : LedgerRoot → M AnchorResult
  try_publish r w =
      finally (catch (publish r) (λ message. pure (skipped message none)))
        (λ v. record v { anchoring = false }) (record w { anchoring = true })

  unfoldable pub anchor_now : Bool → M AnchorResult
  unfolding is_current
  anchor_now force w =
      if w.anchoring
      then (ok (skipped (text "anchor already in flight") none), w)
      else let r = compute_ledger_root env.sha256 w.store in
        if not (truthy r.root)
        then (ok ledger_empty, w)
        else if not force && is_current r (last_anchor w.store)
        then (ok (skipped (text "ledger unchanged since last anchor") (some r.root)), w)
        else try_publish r w

pub record AnchorStatus : Type 0 where
  pub last : Option AnchorRecord
  pub current : Bool
  pub current_root : LedgerRoot

-- `anchorStatus`, less the fields that it copies from the configuration.
unfoldable pub anchor_status : (List ℕ → Digest) → GatewayStore → AnchorStatus
unfolding is_current
anchor_status sha256 s =
    let r = compute_ledger_root sha256 s in
    record { last = last_anchor s; current = is_current r (last_anchor s); current_root = r }
