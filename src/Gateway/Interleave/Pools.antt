-- ===== src/Gateway/Interleave/Pools.antt =====
-- btcsoq/gateway.ts, `attemptMint`: the invariant of a pool of attempts.
use soqtec.Base.{
  ℕ, ◌+◌, ◌≤◌, ◌≡◌, refl, sym, ap, ◌∙◌, subst, Bool, true, false, Option, none, some, List, [], ◌∷◌,
  Text, Result, ok, err, arith, All, ◌===◌, ===_iff, Bool-cases, Option-cases, Result-cases, inl,
  inr, ◌⊎◌,
}
use soqtec.Receipt.Bytes.{from_hex}
use soqtec.Scan.{FoundMint, find_mint_tx}
use soqtec.Store.Records.{MintRecord}
use soqtec.Gateway.World.{Answers, BtcsoqConfig, World, Call, Trace, scan_mint, send_mint}
use soqtec.Gateway.Convert.{find_tagged}
use soqtec.Gateway.Mint.{mint_request}
use soqtec.Gateway.Interleave.{
  Phase, begins, scanning, leaving, ended, settling, sending, replied, failing, Task, advance,
  after_scan,
}
use soqtec.Gateway.Interleave.Orderly.{
  is_send, IsFresh, scanned, since_then, IsOrderly, IsReady, is_active, active, one_if, call_of,
  with_call, find_tagged-trace,
}

module _ (env : Answers) where
  -- A call that is no send of the payload of an attempt leaves it ready, and any call does if the
  -- attempt is not under way.
  IsReady-after :
      (c : Call) (t : Trace) (rec : MintRecord) (phase : Phase)
      → (is_active phase ≡ false) ⊎ (is_send rec.op_return_hex c ≡ false)
      → IsReady env t (record { rec = rec; phase = phase })
      → IsReady env (c ∷ t) (record { rec = rec; phase = phase })
  IsReady-after c t rec (settling none) (inl off) h = absurd (ground arith)
  IsReady-after c t rec (settling none) (inr other) h = since_then c t other h
  IsReady-after c t rec (sending tried) (inl off) h = absurd (ground arith)
  IsReady-after c t rec (sending tried) (inr other) (same, h) = (same, since_then c t other h)
  IsReady-after c t rec (settling (some found)) d h = tt
  IsReady-after c t rec begins d h = tt
  IsReady-after c t rec scanning d h = tt
  IsReady-after c t rec leaving d h = tt
  IsReady-after c t rec ended d h = tt
  IsReady-after c t rec (replied tried txid) d h = tt
  IsReady-after c t rec (failing message) d h = tt

  All-IsReady :
      (c : Call) (t : Trace) (ts : List Task)
      → All (λ u. (is_active u.phase ≡ false) ⊎ (is_send u.rec.op_return_hex c ≡ false)) ts
      → All (IsReady env t) ts
      → All (IsReady env (c ∷ t)) ts
  All-IsReady c t [] d h = tt
  All-IsReady c t (u ∷ us) (d, ds) (h, hs) =
      (IsReady-after c t u.rec u.phase d h, All-IsReady c t us ds hs)

module _ (env : Answers) (config : BtcsoqConfig) (tag_of : Text → Text) where
  abbrev pub IsTagged : Task → Type 0
  IsTagged t = t.rec.op_return_hex ≡ tag_of t.rec.key

  find_tagged-IsFresh :
      (payload : Text) (since : ℕ) (w : World)
      → (find_tagged env config payload since w).0 ≡ ok none
      → IsFresh env payload (scan_mint payload since ∷ w.trace)
  unfolding find_tagged
  find_tagged-IsFresh payload since w h = elim (Result-cases (env.chain_view w.trace)) [
    | inr (message, e) ↦ absurd (grind arith)
    | inl (view, e) ↦ elim (Option-cases (find_mint_tx (from_hex payload) since view)) [
      | inl f ↦ absurd (grind arith)
      | inr (found, f) ↦
          let is : found ≡ none = grind arith in scanned since w.trace view e (f ∙ ap some is)
    ]
  ]

  -- An attempt that is not about to send.
  abbrev is_sending : Phase → Bool
  is_sending (settling none) = true
  is_sending (sending tried) = true
  is_sending _ = false

  not_sending :
      (t : Trace) (rec : MintRecord) (phase : Phase)
      → is_sending phase ≡ false
      → IsReady env t (record { rec = rec; phase = phase })
  not_sending t rec (settling none) h = absurd (ground arith)
  not_sending t rec (sending tried) h = absurd (ground arith)
  not_sending t rec (settling (some found)) h = tt
  not_sending t rec begins h = tt
  not_sending t rec scanning h = tt
  not_sending t rec leaving h = tt
  not_sending t rec ended h = tt
  not_sending t rec (replied tried txid) h = tt
  not_sending t rec (failing message) h = tt

  scan_answered :
      (rec : MintRecord) (w : World) (r : Result Text (Option FoundMint))
      → (find_tagged env config rec.op_return_hex rec.claim_height w).0 ≡ r
      → IsReady env
          (find_tagged env config rec.op_return_hex rec.claim_height w).1.trace
          (record { rec = rec; phase = after_scan env config r })
  scan_answered rec w (ok none) e =
      subst (IsFresh env rec.op_return_hex)
        (sym (find_tagged-trace env config rec.op_return_hex rec.claim_height w).0)
        (find_tagged-IsFresh rec.op_return_hex rec.claim_height w e)
  scan_answered rec w (ok (some found)) e = tt
  scan_answered rec w (err message) e = tt

  pub advance-IsReady :
      (rec : MintRecord) (phase : Phase) (w : World)
      → IsReady env w.trace (record { rec = rec; phase = phase })
      → let (phase', w') = advance env config rec phase w in
        IsReady env w'.trace (record { rec = rec; phase = phase' })
  unfolding advance
  advance-IsReady rec begins w h =
      let step = advance env config rec begins w in
      not_sending step.1.trace rec step.0 (grind arith)
  advance-IsReady rec scanning w h =
      scan_answered rec w (find_tagged env config rec.op_return_hex rec.claim_height w).0 refl
  advance-IsReady rec leaving w h = tt
  advance-IsReady rec ended w h = tt
  advance-IsReady rec (settling none) w h = (refl, h)
  advance-IsReady rec (settling (some found)) w h =
      let step = advance env config rec (settling (some found)) w in
      not_sending step.1.trace rec step.0 (grind arith)
  advance-IsReady rec (sending tried) w h =
      let step = advance env config rec (sending tried) w in
      not_sending step.1.trace rec step.0 (grind arith)
  advance-IsReady rec (replied tried txid) w h = tt
  advance-IsReady rec (failing message) w h = tt

  pub advance-IsOrderly :
      (rec : MintRecord) (phase : Phase) (w : World)
      → IsReady env w.trace (record { rec = rec; phase = phase })
      → IsOrderly env w.trace
      → IsOrderly env (with_call env config (call_of env config rec phase) w.trace)
  advance-IsOrderly rec scanning w r h = (tt, h)
  advance-IsOrderly rec (sending tried) w (same, r) h =
      (subst (λ p. IsFresh env p w.trace) (sym same) r, h)
  advance-IsOrderly rec begins w r h = h
  advance-IsOrderly rec leaving w r h = h
  advance-IsOrderly rec ended w r h = h
  advance-IsOrderly rec (settling found) w r h = h
  advance-IsOrderly rec (replied tried txid) w r h = h
  advance-IsOrderly rec (failing message) w r h = h

  -- The others are about other payloads, if the tag tells keys apart.
  abbrev pub TellsApart : Type 0
  TellsApart = (j k : Text) → tag_of j ≡ tag_of k → j ≡ k

  other_payloads :
      (key payload : Text) (c : Call) (ts : List Task)
      → TellsApart
      → payload ≡ tag_of key
      → ((p : Text) → is_send p c ≡ (payload === p))
      → All IsTagged ts
      → active key ts ≡ 0
      → All (λ u. (is_active u.phase ≡ false) ⊎ (is_send u.rec.op_return_hex c ≡ false)) ts
  other_payloads key payload c [] apart tag sends tags none_active = tt
  other_payloads key payload c (u ∷ us) apart tag sends (same, tags) none_active = (
    elim (Bool-cases (is_active u.phase)) [
      | inr off ↦ inl off
      | inl on ↦ elim (Bool-cases (payload === u.rec.op_return_hex)) [
        | inr other ↦ inr (sends u.rec.op_return_hex ∙ other)
        | inl equal ↦
            let keys =
              apart key u.rec.key
                (sym tag ∙ ((===_iff payload u.rec.op_return_hex).0 equal ∙ same)) in
            let hit = (===_iff u.rec.key key).1 (sym keys) in absurd (grind arith)
      ]
    ],
    other_payloads key payload c us apart tag sends tags (grind arith),
  )

  pub others-IsReady :
      (rec : MintRecord) (phase : Phase) (w : World) (ts : List Task)
      → TellsApart
      → rec.op_return_hex ≡ tag_of rec.key
      → IsReady env w.trace (record { rec = rec; phase = phase })
      → active rec.key ts + one_if (is_active phase) ≤ 1
      → All IsTagged ts
      → All (IsReady env w.trace) ts
      → All (IsReady env (with_call env config (call_of env config rec phase) w.trace)) ts
  others-IsReady rec (sending tried) w ts apart tag (same, r) room tags h =
      let c = send_mint (mint_request env config tried) in
      All-IsReady env c w.trace ts
        (other_payloads rec.key tried.op_return_hex c ts apart (same ∙ tag) (λ p. refl) tags
          (omega arith))
        h
  others-IsReady rec scanning w ts apart tag r room tags h =
      All-IsReady env (scan_mint rec.op_return_hex rec.claim_height) w.trace ts (never ts) h
    where
      never :
          (us : List Task)
          → All
              (λ u.
                (is_active u.phase ≡ false)
                ⊎ (is_send u.rec.op_return_hex (scan_mint rec.op_return_hex rec.claim_height)
                    ≡ false))
              us
      never [] = tt
      never (u ∷ us) = (inr refl, never us)
  others-IsReady rec begins w ts apart tag r room tags h = h
  others-IsReady rec leaving w ts apart tag r room tags h = h
  others-IsReady rec ended w ts apart tag r room tags h = h
  others-IsReady rec (settling found) w ts apart tag r room tags h = h
  others-IsReady rec (replied tried txid) w ts apart tag r room tags h = h
  others-IsReady rec (failing message) w ts apart tag r room tags h = h
