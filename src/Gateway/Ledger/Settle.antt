-- ===== src/Gateway/Ledger/Settle.antt =====
-- btcsoq/gateway.ts: a mint that answers with a transaction has recorded it, and asking again answers
-- with the same transaction and does nothing.
use soqtec.Base.{
  ℕ, ◌≡◌, ap, ◌∙◌, Option, none, some, List, ◌∷◌, Text, ok, arith, ◌+◌, lookup-insert_self, lookup,
  insert, Option-cases, Result-cases, inl, inr, subst,
}
use soqtec.Base.Int.{pos}
use soqtec.Receipt.{encode_tag, mint}
use soqtec.Scan.{FoundMint}
use soqtec.Store.{GatewayStore, get_mint, put_mint, get_deposit, put_intent, claim_mint}
use soqtec.Store.Records.{DepositRecord, BtcIntent, MintRecord}
use soqtec.Gateway.World.{Answers, BtcsoqConfig, World, query}
use soqtec.Gateway.Mint.{
  show_minted, finalize_mint, minted_record, settle_mint, drive_mint, attempt_mint, mint_if_claimed,
  mint_txid_of, claim_and_mint, hold, mint_to, mint_for_deposit_key,
}
use soqtec.Gateway.Ledger.Frame.{
  KeepsMints, attest-returns, attest-KeepsMints, find_tagged-KeepsMints,
  start_convert_leg-KeepsMints,
}

-- The ledger shows the transaction under the key, and the deposits are as before.
pub record IsSettled (key txid : Text) (before after : GatewayStore) : Type 0 where
  pub minted : MintRecord
  pub found : get_mint key after ≡ some minted
  pub shown : minted.mint_txid ≡ some txid
  pub deposits : after.state.deposits ≡ before.state.deposits

-- The ledger keys a deposit by its own key.
abbrev pub IsKeyed : Text → World → Type 0
IsKeyed key w = (dep : DepositRecord) → get_deposit key w.store ≡ some dep → dep.key ≡ key

module _ (env : Answers) (config : BtcsoqConfig) where
  show_minted-KeepsMints :
      (rec : MintRecord) (txid : Text) → KeepsMints (show_minted env config rec txid)
  unfolding show_minted put_intent
  show_minted-KeepsMints rec txid w = grind arith

  show_minted-returns :
      (rec : MintRecord) (txid : Text) (w : World) → (show_minted env config rec txid w).0 ≡ ok tt
  unfolding show_minted
  show_minted-returns rec txid w = grind arith

  finalize_mint-returns :
      (rec : MintRecord) (txid : Text) (w : World)
      → (finalize_mint env config rec txid w).0 ≡ ok txid
  unfolding finalize_mint
  finalize_mint-returns rec txid w = grind (arith, show_minted-returns, attest-returns)

  finalize_mint-mints :
      (rec : MintRecord) (txid : Text) (w : World)
      → let now = env.now w.trace in
        let v = (finalize_mint env config rec txid w).1 in
        let done = record (minted_record env config rec txid now) { updated_at = now } in
        (v.store.state.mints ≡ insert rec.key done w.store.state.mints)
        × (v.store.state.deposits ≡ w.store.state.deposits)
  unfolding finalize_mint put_mint
  finalize_mint-mints rec txid w = grind (
    arith, show_minted-returns, attest-returns, show_minted-KeepsMints, attest-returns,
    attest-KeepsMints, start_convert_leg-KeepsMints,
  )

  finalize_mint-IsSettled :
      (rec : MintRecord) (txid t : Text) (v w : World)
      → (finalize_mint env config rec txid w).0 ≡ ok t
      → w.store.state.deposits ≡ v.store.state.deposits
      → IsSettled rec.key t v.store (finalize_mint env config rec txid w).1.store
  unfolding get_mint
  finalize_mint-IsSettled rec txid t v w e d =
      let now = env.now w.trace in
      let done = record (minted_record env config rec txid now) { updated_at = now } in
      let (mints, deposits) = finalize_mint-mints rec txid w in
      record {
        minted = done;
        found = ap (lookup rec.key) mints ∙ lookup-insert_self rec.key done w.store.state.mints;
        shown = grind (arith, finalize_mint-returns rec txid w);
        deposits = deposits ∙ d;
      }

  settle_mint-IsSettled :
      (rec : MintRecord) (found : Option FoundMint) (t : Text) (v w : World)
      → (settle_mint env config rec found w).0 ≡ ok (some t)
      → w.store.state.deposits ≡ v.store.state.deposits
      → IsSettled rec.key t v.store (settle_mint env config rec found w).1.store
  unfolding settle_mint put_mint
  settle_mint-IsSettled rec (some found) t v w e d =
      grind (arith, finalize_mint-IsSettled rec found.txid t v w)
  settle_mint-IsSettled rec none t v w e d =
      grind (arith, finalize_mint-IsSettled (record rec { attempts = rec.attempts + 1 }))

  drive_mint-IsSettled :
      (rec : MintRecord) (t : Text) (v w : World)
      → (drive_mint env config rec w).0 ≡ ok (some t)
      → w.store.state.deposits ≡ v.store.state.deposits
      → IsSettled rec.key t v.store (drive_mint env config rec w).1.store
  unfolding drive_mint
  drive_mint-IsSettled rec t v w e d = grind (
    arith,
    find_tagged-KeepsMints env config rec.op_return_hex rec.claim_height w,
    settle_mint-IsSettled rec,
  )

  attempt_mint-IsSettled :
      (rec : MintRecord) (t : Text) (v w : World)
      → (attempt_mint env config rec w).0 ≡ ok (some t)
      → w.store.state.deposits ≡ v.store.state.deposits
      → IsSettled rec.key t v.store (attempt_mint env config rec w).1.store
  unfolding attempt_mint
  attempt_mint-IsSettled rec t v w e d = grind (
    arith,
    drive_mint-IsSettled rec t v (record w { minting_in_flight = rec.key ∷ w.minting_in_flight }),
  )

  recorded-IsSettled :
      (key t : Text) (before after : GatewayStore)
      → mint_txid_of (get_mint key after) ≡ some t
      → after.state.deposits ≡ before.state.deposits
      → IsSettled key t before after
  recorded-IsSettled key t before after e d = elim (Option-cases (get_mint key after)) [
    | inl f ↦ absurd (grind arith)
    | inr (m, f) ↦ record { minted = m; found = f; shown = grind arith; deposits = d }
  ]

  mint_if_claimed-IsSettled :
      (dep : DepositRecord) (i : BtcIntent) (rec : MintRecord) (t : Text) (v w : World)
      → rec.key ≡ dep.key
      → (mint_if_claimed env config dep i rec w).0 ≡ ok (some t)
      → w.store.state.deposits ≡ v.store.state.deposits
      → IsSettled dep.key t v.store (mint_if_claimed env config dep i rec w).1.store
  unfolding mint_if_claimed claim_mint put_intent
  mint_if_claimed-IsSettled dep i rec t v w k e d =
      let lost = recorded-IsSettled dep.key t v.store in
      let won = attempt_mint-IsSettled rec t v in
      let same =
        subst (λ key. IsSettled key t v.store (mint_if_claimed env config dep i rec w).1.store) k in
      grind (arith, lost, won, same)

  claim_and_mint-IsSettled :
      (dep : DepositRecord) (i : BtcIntent) (tag : List ℕ) (t : Text) (w : World)
      → (claim_and_mint env config dep i tag w).0 ≡ ok (some t)
      → IsSettled dep.key t w.store (claim_and_mint env config dep i tag w).1.store
  unfolding claim_and_mint
  claim_and_mint-IsSettled dep i tag t w e = grind (arith, mint_if_claimed-IsSettled dep i)

  mint_to-IsSettled :
      (dep : DepositRecord) (i : BtcIntent) (t : Text) (w : World)
      → (mint_to env config dep i w).0 ≡ ok (some t)
      → IsSettled dep.key t w.store (mint_to env config dep i w).1.store
  unfolding mint_to hold
  mint_to-IsSettled dep i t w e =
      elim (Result-cases (encode_tag mint (pos dep.sats) dep.txid dep.vout)) [
        | inl (tag, f) ↦
            let claimed =
              claim_and_mint-IsSettled dep i tag t (record w { trace = query ∷ w.trace }) in
            grind arith
        | inr (e', f) ↦ absurd (grind arith)
      ]

  -- If `mintForDepositKey` answers with a transaction, for a deposit that is stored under its own key,
  -- then the mint ledger shows this transaction under the key, and no deposit has changed.
  pub mint_for_deposit_key-IsSettled :
      (key t : Text) (w : World)
      → IsKeyed key w
      → (mint_for_deposit_key env config key w).0 ≡ ok (some t)
      → IsSettled key t w.store (mint_for_deposit_key env config key w).1.store
  unfolding mint_for_deposit_key hold
  mint_for_deposit_key-IsSettled key t w keyed e = elim (Option-cases (get_deposit key w.store)) [
    | inl f ↦ absurd (grind arith)
    | inr (dep, f) ↦
        let known = recorded-IsSettled key t w.store w.store in
        let after = (mint_for_deposit_key env config key w).1.store in
        let same = subst (λ k. IsSettled k t w.store after) (keyed dep f) in
        grind (arith, known, mint_to-IsSettled dep, same)
  ]

  mint_for_deposit_key-known :
      (key : Text) (dep : DepositRecord) (m : MintRecord) (w : World)
      → get_deposit key w.store ≡ some dep
      → get_mint key w.store ≡ some m
      → mint_for_deposit_key env config key w ≡ (ok m.mint_txid, w)
  unfolding mint_for_deposit_key
  mint_for_deposit_key-known key dep m w d e = grind arith

  mint_for_deposit_key-deposit :
      (key t : Text) (w : World)
      → (mint_for_deposit_key env config key w).0 ≡ ok (some t)
      → (dep : DepositRecord) × (get_deposit key w.store ≡ some dep)
  unfolding mint_for_deposit_key
  mint_for_deposit_key-deposit key t w e = elim (Option-cases (get_deposit key w.store)) [
    | inl f ↦ absurd (grind arith)
    | inr known ↦ known
  ]

  -- If `mintForDepositKey` has answered with a transaction, for a deposit that is stored under its own
  -- key, then asking again answers with the same transaction and changes nothing: no call is made.
  pub mint_for_deposit_key_twice :
      (key t : Text) (w : World)
      → IsKeyed key w
      → (mint_for_deposit_key env config key w).0 ≡ ok (some t)
      → let v = (mint_for_deposit_key env config key w).1 in
        mint_for_deposit_key env config key v ≡ (ok (some t), v)
  unfolding get_deposit
  mint_for_deposit_key_twice key t w keyed e =
      let v = (mint_for_deposit_key env config key w).1 in
      let settled = mint_for_deposit_key-IsSettled key t w keyed e in
      let (dep, known) = mint_for_deposit_key-deposit key t w e in
      let again =
        mint_for_deposit_key-known key dep settled.minted v
          (ap (lookup key) settled.deposits ∙ known) settled.found in
      again ∙ ap (λ r. (ok r, v)) settled.shown
