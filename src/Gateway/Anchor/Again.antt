-- ===== src/Gateway/Anchor/Again.antt =====
-- btcsoq/gateway.ts, `anchorNow`: an anchor is not repeated while the ledger stays as it is.
use soqtec.Base.{
  ℕ, ◌≡◌, refl, sym, ap, ◌∙◌, Bool, true, false, not, ◌&&◌, some, Text, text, ok, arith, List, [],
  ◌∷◌, length, take, ltb, if◌then◌else◌, Bool-cases, Result-cases, subst, inl, inr, ===_refl,
}
use soqtec.Store.{head?, GatewayStore, list_attestations, put_anchor, last_anchor}
use soqtec.Store.Records.{AnchorRecord}
use soqtec.Gateway.World.{Answers, World, truthy}
use soqtec.Gateway.Anchor.{
  LedgerRoot, compute_ledger_root, leaves, AnchorResult, anchor_now, try_publish, publish,
  send_payload, send_signed, is_current, skipped, anchor_record,
}

last_anchor-put_anchor :
    (a : AnchorRecord) (s : GatewayStore) → last_anchor (put_anchor a s) ≡ some a
unfolding last_anchor put_anchor
last_anchor-put_anchor a s = newest s.state.anchors
  where
    newest :
        (xs : List AnchorRecord)
        → head? (if ltb 50 (length (a ∷ xs)) then take (length xs) (a ∷ xs) else a ∷ xs) ≡ some a
    newest [] = refl
    newest (x ∷ xs) = ground arith

compute_ledger_root-put_anchor :
    (sha256 : List ℕ → List ℕ) (a : AnchorRecord) (s : GatewayStore)
    → compute_ledger_root sha256 (put_anchor a s) ≡ compute_ledger_root sha256 s
unfolding compute_ledger_root leaves put_anchor list_attestations
compute_ledger_root-put_anchor sha256 a s = refl

module _ (env : Answers) where
  send_payload-store : (r : LedgerRoot) (w : World) → (send_payload env r w).1.store ≡ w.store
  unfolding send_payload send_signed
  send_payload-store r w = grind arith

  -- The anchor of the ledger root is stored, and no anchor is in flight.
  abbrev IsStored : LedgerRoot → World → World → Type 0
  IsStored r w w' =
      (txid : Text) × (now : ℕ) × (w'.store ≡ put_anchor (anchor_record env r txid now) w.store)
      × (w'.anchoring ≡ false)

  publish-IsStored :
      (r : LedgerRoot) (w : World) (a : AnchorResult)
      → (publish env r w).0 ≡ ok a
      → (txid : Text) × (now : ℕ) × ((publish env r w).1.store
          ≡ put_anchor (anchor_record env r txid now) w.store)
  unfolding publish
  publish-IsStored r w a h = elim (Result-cases (send_payload env r w).0) [
    | inr (message, e) ↦ absurd (grind arith)
    | inl (txid, e) ↦
        let kept = send_payload-store r w in
        (txid, env.now (send_payload env r w).1.trace, grind arith)
  ]

  try_publish-IsStored :
      (r : LedgerRoot) (w : World) (a : AnchorResult)
      → (try_publish env r w).0 ≡ ok a
      → a.anchored ≡ true
      → IsStored r w (try_publish env r w).1
  unfolding try_publish
  try_publish-IsStored r w a h anchored =
      let started : World = record w { anchoring = true } in
      elim (Result-cases (publish env r started).0) [
        | inr (message, e) ↦ absurd (grind arith)
        | inl (b, e) ↦
            let (txid, now, same) = publish-IsStored r started b e in
            (txid, now, grind arith, grind arith)
      ]

  anchor_now-IsStored :
      (force : Bool) (w : World) (a : AnchorResult)
      → (anchor_now env force w).0 ≡ ok a
      → a.anchored ≡ true
      → let r = compute_ledger_root env.sha256 w.store in
        (truthy r.root ≡ true) × IsStored r w (anchor_now env force w).1
  unfolding anchor_now
  anchor_now-IsStored force w a h anchored =
      let r = compute_ledger_root env.sha256 w.store in
      elim (Bool-cases w.anchoring) [
        | inl busy ↦ absurd (grind arith)
        | inr idle ↦ elim (Bool-cases (truthy r.root)) [
          | inr empty ↦ absurd (grind arith)
          | inl shown ↦ elim (Bool-cases (not force && is_current r (last_anchor w.store))) [
            | inl current ↦ absurd (grind arith)
            | inr changed ↦
                let same : anchor_now env force w ≡ try_publish env r w =
                  rw (idle, shown, changed) refl in
                (
                  shown,
                  subst (λ p. IsStored r w p.1) (sym same)
                      (try_publish-IsStored r w a (ap (λ p. p.0) (sym same) ∙ h) anchored),
                )
          ]
        ]
      ]

  anchor_now-unchanged :
      (v : World) (r : LedgerRoot) (txid : Text) (now : ℕ) (s : GatewayStore)
      → v.store ≡ put_anchor (anchor_record env r txid now) s
      → v.anchoring ≡ false
      → compute_ledger_root env.sha256 s ≡ r
      → truthy r.root ≡ true
      → anchor_now env false v
        ≡ (ok (skipped (text "ledger unchanged since last anchor") (some r.root)), v)
  unfolding anchor_now is_current anchor_record
  anchor_now-unchanged v r txid now s stored idle is shown =
      let rec = anchor_record env r txid now in
      let root : compute_ledger_root env.sha256 v.store ≡ r =
        ap (compute_ledger_root env.sha256) stored
        ∙ (compute_ledger_root-put_anchor env.sha256 rec s ∙ is) in
      let last : last_anchor v.store ≡ some rec =
        ap last_anchor stored ∙ last_anchor-put_anchor rec s in
      rw (idle, root, shown, last, ===_refl r.root) refl

  -- After an anchor that was made, an anchor that is not forced makes no call and changes nothing; it
  -- answers that the ledger is unchanged, with the root that was published.
  pub anchor_now-again :
      (force : Bool) (w : World) (a : AnchorResult)
      → (anchor_now env force w).0 ≡ ok a
      → a.anchored ≡ true
      → let w' = (anchor_now env force w).1 in
        let root = (compute_ledger_root env.sha256 w.store).root in
        anchor_now env false w'
        ≡ (ok (skipped (text "ledger unchanged since last anchor") (some root)), w')
  anchor_now-again force w a h anchored =
      let r = compute_ledger_root env.sha256 w.store in
      let (shown, (txid, now, stored, idle)) = anchor_now-IsStored force w a h anchored in
      anchor_now-unchanged (anchor_now env force w).1 r txid now w.store stored idle refl shown
