-- ===== src/Gateway/Interleave/Orderly.antt =====
-- btcsoq/gateway.ts, `attemptMint`: what the attempts send, however they are interleaved.
use soqtec.Base.{
  ℕ, suc, ◌+◌, ◌≤◌, ◌≡◌, refl, Bool, true, false, ◌&&◌, not, Option, none, some, List, [], ◌∷◌,
  ◌++◌, Text, ok, arith, ◌===◌, ===_iff, if◌then◌else◌,
}
use soqtec.Receipt.Bytes.{from_hex}
use soqtec.Scan.{ChainView, find_mint_tx}
use soqtec.Store.Records.{MintRecord}
use soqtec.Gateway.World.{
  Answers, BtcsoqConfig, World, Call, Trace, scan_mint, send_mint, in_set, delete,
}
use soqtec.Gateway.Convert.{find_tagged}
use soqtec.Gateway.Mint.{mint_request, show_minted}
use soqtec.Gateway.Interleave.{
  Phase, begins, scanning, leaving, ended, settling, sending, replied, failing, Task, advance,
  finalized,
}

-- A call that is no send of the payload.
abbrev pub is_send : Text → Call → Bool
is_send payload (send_mint req) = req.op_return_hex === payload
is_send payload _ = false

module _ (env : Answers) where
  -- A scan for the payload found nothing, and no send of the payload has been made since.
  pub data IsFresh (payload : Text) : Trace → Type 0 where
    scanned :
        (since : ℕ) (before : Trace) (view : ChainView)
        → env.chain_view before ≡ ok view
        → find_mint_tx (from_hex payload) since view ≡ some none
        → IsFresh payload (scan_mint payload since ∷ before)
    since_then :
        (c : Call) (t : Trace)
        → is_send payload c ≡ false
        → IsFresh payload t
        → IsFresh payload (c ∷ t)

  abbrev pub IsOrderlyCall : Call → Trace → Type 0
  IsOrderlyCall (send_mint req) t = IsFresh req.op_return_hex t
  IsOrderlyCall _ t = Unit {0}

  -- Every send of a mint was made on a fresh scan for its payload.
  abbrev pub IsOrderly : Trace → Type 0
  IsOrderly [] = Unit {0}
  IsOrderly (c ∷ t) = IsOrderlyCall c t × IsOrderly t

  -- An attempt that is about to send has a fresh scan.
  abbrev pub IsReady : Trace → Task → Type 0
  IsReady t task = elim task.phase [
    | settling found ↦ elim found [ none ↦ IsFresh task.rec.op_return_hex t | some f ↦ Unit {0} ]
    | sending tried ↦
        (tried.op_return_hex ≡ task.rec.op_return_hex) × IsFresh task.rec.op_return_hex t
    | _ ↦ Unit {0}
  ]

abbrev pub is_active : Phase → Bool
is_active begins = false
is_active ended = false
is_active _ = true

-- The attempts for a key that are under way.
abbrev pub active : Text → List Task → ℕ
active k [] = 0
active k (t ∷ ts) =
    let rest = active k ts in if is_active t.phase && (t.rec.key === k) then suc rest else rest

abbrev pub one_if : Bool → ℕ
one_if true = 1
one_if false = 0

pub active-append : (k : Text) (ts us : List Task) → active k (ts ++ us) ≡ active k ts + active k us
active-append k [] us = omega arith
active-append k (t ∷ ts) us = let rest = active-append k ts us in grind arith

in_set-delete :
    (j k : Text) (ks : List Text) → in_set j (delete k ks) ≡ (in_set j ks && not (j === k))
unfolding in_set delete
in_set-delete j k [] = refl
in_set-delete j k (i ∷ ks) =
    let rest = in_set-delete j k ks in grind (arith, ===_iff i k, ===_iff i j, ===_iff j k)

module _ (env : Answers) (config : BtcsoqConfig) where
  -- The call that a step makes.
  abbrev pub call_of : MintRecord → Phase → Option Call
  call_of rec scanning = some (scan_mint rec.op_return_hex rec.claim_height)
  call_of rec (sending tried) = some (send_mint (mint_request env config tried))
  call_of rec _ = none

  abbrev pub with_call : Option Call → Trace → Trace
  with_call none t = t
  with_call (some c) t = c ∷ t

  finalized-trace :
      (rec : MintRecord) (txid : Text) (w : World)
      → ((finalized env config rec txid w).trace ≡ w.trace)
        × ((finalized env config rec txid w).minting_in_flight ≡ w.minting_in_flight)
  unfolding finalized show_minted
  finalized-trace rec txid w = grind arith

  pub find_tagged-trace :
      (payload : Text) (since : ℕ) (w : World)
      → ((find_tagged env config payload since w).1.trace ≡ scan_mint payload since ∷ w.trace)
        × ((find_tagged env config payload since w).1.minting_in_flight ≡ w.minting_in_flight)
  unfolding find_tagged
  find_tagged-trace payload since w = grind arith

  pub advance-trace :
      (rec : MintRecord) (phase : Phase) (w : World)
      → (advance env config rec phase w).1.trace ≡ with_call (call_of rec phase) w.trace
  unfolding advance
  advance-trace rec begins w = grind arith
  advance-trace rec scanning w = (find_tagged-trace rec.op_return_hex rec.claim_height w).0
  advance-trace rec leaving w = refl
  advance-trace rec ended w = refl
  advance-trace rec (settling none) w = refl
  advance-trace rec (settling (some found)) w =
      let f = finalized-trace rec found.txid w in grind arith
  advance-trace rec (sending tried) w = refl
  advance-trace rec (replied tried txid) w = (finalized-trace tried txid w).0
  advance-trace rec (failing message) w = grind arith

  -- One attempt moves: the others under way for a key, and it, stay within what is in flight.
  pub advance-active :
      (rec : MintRecord) (phase : Phase) (w : World) (k : Text) (others : ℕ)
      → others + one_if (is_active phase && (rec.key === k)) ≤ one_if (in_set k w.minting_in_flight)
      → let (phase', w') = advance env config rec phase w in
        others + one_if (is_active phase' && (rec.key === k))
        ≤ one_if (in_set k w'.minting_in_flight)
  unfolding advance in_set
  advance-active rec begins w k others h = grind (arith, ===_iff rec.key k)
  advance-active rec scanning w k others h =
      let f = (find_tagged-trace rec.op_return_hex rec.claim_height w).1 in grind arith
  advance-active rec leaving w k others h =
      let f = in_set-delete k rec.key w.minting_in_flight in
      grind (arith, ===_iff rec.key k, ===_iff k rec.key)
  advance-active rec ended w k others h = h
  advance-active rec (settling none) w k others h = h
  advance-active rec (settling (some found)) w k others h =
      let f = finalized-trace rec found.txid w in grind arith
  advance-active rec (sending tried) w k others h = grind arith
  advance-active rec (replied tried txid) w k others h =
      let f = finalized-trace tried txid w in grind arith
  advance-active rec (failing message) w k others h = grind arith
