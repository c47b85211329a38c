-- ===== src/Store/Laws.antt =====
-- btcsoq/store.ts: the claims as compare-and-set, and what survives a restart.
use soqtec.Base.{
  ℕ, ◌+◌, ◌≤◌, ◌≡◌, ◌≢◌, refl, inl, inr, true, false, Option, none, some, List, [], ◌∷◌, Text,
  lookup-insert_self, lookup-insert_ne, length, take, arith, ltb, is_some, length-take_le,
  take-all_le, Bool-cases,
}
use soqtec.Store.Records.{
  BtcIntent, MintRecord, ConvertRecord, Ln402Record, DepositRecord, AttestationRecord, AnchorRecord,
}
use soqtec.Store.{
  SavedState, GatewayStore, new_store, load, parsed_state, saved_state, restart, put_intent,
  put_deposit, claim_mint, put_mint, get_mint, claim_convert, put_convert, get_convert, claim_ln402,
  put_ln402, get_ln402, put_anchor, last_anchor, put_attestation, set_poll_cursor,
  set_soq_scan_height,
}

-- Of two claims of one outpoint the second always answers false and leaves the store as the first
-- left it, in which the key has a record.
pub claim_mint_twice :
    (first second : MintRecord) (s : GatewayStore)
    → first.key ≡ second.key
    → let s' = (claim_mint first s).1 in
      (claim_mint second s' ≡ (false, s')) × (is_some (get_mint first.key s') ≡ true)
unfolding claim_mint get_mint
claim_mint_twice first second s same =
    ground (arith, lookup-insert_self first.key first s.state.mints)

-- Where its key has no record, a claim wins, stores exactly its record under the key, and leaves what
-- every other key shows.
pub claim_mint-wins :
    (rec : MintRecord) (s : GatewayStore) (key : Text)
    → get_mint rec.key s ≡ none
    → let (won, s') = claim_mint rec s in
      (won ≡ true)
      × (get_mint rec.key s' ≡ some rec)
      × (rec.key ≢ key → get_mint key s' ≡ get_mint key s)
unfolding claim_mint get_mint
claim_mint-wins rec s key fresh = (
  ground arith,
  ground (arith, lookup-insert_self rec.key rec s.state.mints),
  λ ne. ground (arith, lookup-insert_ne rec.key key rec s.state.mints ne),
)

-- Of two claims of one key in the conversion ledger the second always answers false and leaves the
-- store as the first left it, in which the key has a record.
pub claim_convert_twice :
    (first second : ConvertRecord) (s : GatewayStore)
    → first.key ≡ second.key
    → let s' = (claim_convert first s).1 in
      (claim_convert second s' ≡ (false, s')) × (is_some (get_convert first.key s') ≡ true)
unfolding claim_convert get_convert
claim_convert_twice first second s same =
    ground (arith, lookup-insert_self first.key first s.state.converts)

-- Of two claims of one key in the ledger of paid answers the second always answers false and leaves
-- the store as the first left it, in which the key has a record.
pub claim_ln402_twice :
    (first second : Ln402Record) (s : GatewayStore)
    → first.key ≡ second.key
    → let s' = (claim_ln402 first s).1 in
      (claim_ln402 second s' ≡ (false, s')) × (is_some (get_ln402 first.key s') ≡ true)
unfolding claim_ln402 get_ln402
claim_ln402_twice first second s same =
    ground (arith, lookup-insert_self first.key first s.state.ln402)

-- Every write to the store.
pub data Write : Type 0 where
  intent : BtcIntent → Write
  deposit : DepositRecord → Write
  mint_claim : MintRecord → Write
  mint : ℕ → MintRecord → Write
  convert_claim : ConvertRecord → Write
  convert : ℕ → ConvertRecord → Write
  ln402_claim : Ln402Record → Write
  ln402 : ℕ → Ln402Record → Write
  anchor : AnchorRecord → Write
  attestation : AttestationRecord → Write
  cursor : Text → Write
  scan_height : ℕ → Write

unfoldable pub write : Write → GatewayStore → GatewayStore
write (intent i) s = put_intent i s
write (deposit d) s = put_deposit d s
write (mint_claim m) s = (claim_mint m s).1
write (mint now m) s = put_mint now m s
write (convert_claim c) s = (claim_convert c s).1
write (convert now c) s = put_convert now c s
write (ln402_claim r) s = (claim_ln402 r s).1
write (ln402 now r) s = put_ln402 now r s
write (anchor a) s = put_anchor a s
write (attestation a) s = put_attestation a s
write (cursor c) s = set_poll_cursor c s
write (scan_height h) s = set_soq_scan_height h s

unfoldable pub write_all : List Write → GatewayStore → GatewayStore
write_all [] s = s
write_all (w ∷ ws) s = write_all ws (write w s)

restart-write : (w : Write) (s : GatewayStore) → restart s ≡ s → restart (write w s) ≡ write w s
unfolding restart load parsed_state saved_state write put_intent put_deposit claim_mint put_mint
    claim_convert put_convert claim_ln402 put_ln402 put_anchor put_attestation set_poll_cursor
    set_soq_scan_height
restart-write (intent i) s h = refl
restart-write (mint_claim m) s h = ground arith
restart-write (convert_claim c) s h = ground arith
restart-write (ln402_claim r) s h = ground arith
restart-write _ s h = refl

restart-load : (file : Option SavedState) → restart (load (new_store file)) ≡ load (new_store file)
unfolding restart load parsed_state
restart-load none = refl
restart-load (some state) = refl

restart_loop :
    (ws : List Write) (s : GatewayStore) → restart s ≡ s → restart (write_all ws s) ≡ write_all ws s
unfolding write_all
restart_loop [] s h = h
restart_loop (w ∷ ws) s h = restart_loop ws (write w s) (restart-write w s h)

-- A store that was opened, on a missing file or on any file, complete or not, comes back from a restart unchanged
-- after any sequence of writes.
pub restart-write_all :
    (ws : List Write) (file : Option SavedState)
    → let s = write_all ws (load (new_store file)) in restart s ≡ s
restart-write_all ws file = restart_loop ws (load (new_store file)) (restart-load file)

-- On a list of at most 50 anchors, a new anchor becomes the last one, and the list keeps the first 50
-- of the new list.
pub put_anchor-length :
    (a : AnchorRecord) (s : GatewayStore)
    → length s.state.anchors ≤ 50
    → let s' = put_anchor a s in
      (last_anchor s' ≡ some a)
      × (length s'.state.anchors ≤ 50)
      × (s'.state.anchors ≡ take 50 (a ∷ s.state.anchors))
unfolding put_anchor last_anchor
put_anchor-length a s h =
    let anchors = s.state.anchors in
    elim (Bool-cases (ltb 50 (length anchors + 1))) [
      | inl full ↦
          let e : length anchors ≡ 50 = ground arith in
          rw (e, put_anchor) (refl, omega (arith, length-take_le 50 (a ∷ anchors)), refl)
      | inr room ↦ let same = take-all_le 50 (a ∷ anchors) in ground (arith, same)
    ]
