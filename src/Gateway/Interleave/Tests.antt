-- ===== src/Gateway/Interleave/Tests.antt =====
-- btcsoq/gateway.ts, `attemptMint`: two attempts on one record, in turns.
use native.Mathlib.Decide.{dec_lt}
use soqtec.Base.{
  ℕ, ◌≡◌, refl, ◌≤◌, ◌<◌, ap, ◌∙◌, false, Option, none, some, List, [], ◌∷◌, Text, ok, ◌==◌, ◌===◌,
  ===_iff, arith, inl, inr, Bool-cases, All, if◌then◌else◌, sym, subst,
}
use soqtec.Receipt.Bytes.{from_hex}
use soqtec.Scan.{Block, ChainView, find_mint_tx, find_script, tx_carries_script}
use soqtec.Scan.Find.{Lacks, find_script-none}
use soqtec.Store.Records.{MintRecord, MintStatus}
use soqtec.Gateway.World.{Answers, World, Trace, Call, MintRequest, send_mint}
use soqtec.Gateway.Guarded.Once.{count_calls}
use soqtec.Gateway.Guarded.Once.Mints.{is_mint, is_late_scan, ShowsMints}
use soqtec.Gateway.Interleave.{
  Phase, scanning, settling, sending, leaving, ended, replied, failing, begins, Task, Pool, advance,
  starts, moves, Steps, here, next,
}
use soqtec.Gateway.Interleave.Orderly.{call_of, with_call, advance-trace}
use soqtec.Gateway.Interleave.Sound.{mint_once_interleaved}
use soqtec.Gateway.Tests.{env, config, recorded, receipt, payload, script_of, tx_of}

-- The sends are mined in block 51.
abbrev mined : Trace → Block
mined [] = []
mined (send_mint req ∷ t) = tx_of req ∷ mined t
mined (_ ∷ t) = mined t

abbrev view_at : Trace → ChainView
view_at t = record { mempool = []; tip = 60; block = λ h. if h == 51 then mined t else [] }

abbrev mining : Answers
mining = record env { chain_view = λ t. ok (view_at t) }

abbrev landed : Trace → MintRequest → Option ℕ
landed t req = some 51

abbrev rec : MintRecord
rec = record (receipt MintStatus.minting) { key = payload }

abbrev tag_of : Text → Text
tag_of k = k

abbrev start : Pool
start = record { tasks = []; world = recorded }

abbrev enter : Pool → Pool
enter p = record p { tasks = record { rec = rec; phase = begins } ∷ p.tasks }

-- The first of the attempts moves.
abbrev first : Pool → Pool
first p = elim p.tasks [
  | [] ↦ p
  | t ∷ ts ↦ record {
    tasks = record t { phase = (advance mining config t.rec t.phase p.world).0 } ∷ ts;
    world = (advance mining config t.rec t.phase p.world).1;
  }
]

-- The second of them moves.
abbrev second : Pool → Pool
second p = elim p.tasks [
  | [] ↦ p
  | s ∷ rest ↦ elim rest [
    | [] ↦ p
    | t ∷ ts ↦ record {
      tasks = s ∷ record t { phase = (advance mining config t.rec t.phase p.world).0 } ∷ ts;
      world = (advance mining config t.rec t.phase p.world).1;
    }
  ]
]

enters : (p q : Pool) → Steps mining config tag_of p q → Steps mining config tag_of p (enter q)
enters p q h = next p q (enter q) h (starts rec q.tasks q.world refl)

abbrev pool : List Task → World → Pool
pool ts w = record { tasks = ts; world = w }

moves_first :
    (p : Pool) (ts : List Task) (w : World)
    → Steps mining config tag_of p (pool ts w)
    → Steps mining config tag_of p (first (pool ts w))
moves_first p [] w h = h
moves_first p (t ∷ ts) w h = next p (pool (t ∷ ts) w) (first (pool (t ∷ ts) w)) h (moves [] ts t w)

moves_second :
    (p : Pool) (ts : List Task) (w : World)
    → Steps mining config tag_of p (pool ts w)
    → Steps mining config tag_of p (second (pool ts w))
moves_second p [] w h = h
moves_second p (_ ∷ []) w h = h
moves_second p (s ∷ t ∷ ts) w h =
    next p (pool (s ∷ t ∷ ts) w) (second (pool (s ∷ t ∷ ts) w)) h (moves (s ∷ []) ts t w)

shows_mined :
    (text_of script : Text) (height : ℕ) (t : Trace)
    → script_of text_of ≡ script
    → All (Lacks script) (mined t)
    → count_calls (is_mint landed text_of height) t ≡ 0
unfolding tx_carries_script
shows_mined text_of script height [] s h = refl
shows_mined text_of script height (send_mint req ∷ t) s (h, hs) =
    elim (Bool-cases (req.op_return_hex === text_of)) [
      | inl same ↦
          let here = ap script_of ((===_iff req.op_return_hex text_of).0 same) ∙ s in
          let carries = (===_iff (script_of req.op_return_hex) script).1 here in
          absurd (ground arith)
      | inr other ↦ let rest = shows_mined text_of script height t s hs in ground arith
    ]
shows_mined text_of script height (_ ∷ t) s h = shows_mined text_of script height t s h

below_block :
    (text_of : Text) (height : ℕ) (t : Trace) (c : Call)
    → 51 < height
    → is_mint landed text_of height t c ≡ false
below_block text_of height t (send_mint req) h = grind arith
below_block text_of height t _ h = refl

none_above :
    (text_of : Text) (height : ℕ) (t : Trace)
    → 51 < height
    → count_calls (is_mint landed text_of height) t ≡ 0
none_above text_of height [] h = refl
none_above text_of height (c ∷ t) h =
    let rest = none_above text_of height t h in rw (below_block text_of height t c h) rest

absent :
    (text_of : Text) (since : ℕ) (view : ChainView)
    → find_mint_tx (from_hex text_of) since view ≡ some none
    → find_script (script_of text_of) since view ≡ none
unfolding find_mint_tx
absent text_of since view e = grind arith

chain_shows : ShowsMints mining landed
chain_shows text_of since height t view a e le = elim (dec_lt 51 height) [
  | yes high ↦ none_above text_of height t high
  | no low ↦
      let shown : mining.chain_view t ≡ ok view = a in
      let same : view_at t ≡ view = grind arith in
      let lacks =
        subst (λ v. find_script (script_of text_of) since v ≡ none) (sym same)
          (absent text_of since view e) in
      let in_block =
        (find_script-none (script_of text_of) since (view_at t) lacks).1 51 (omega arith)
          (omega arith) in
      shows_mined text_of (script_of text_of) height t refl in_block
]

-- Two attempts on one record enter.
abbrev entered : Pool
entered = enter (enter start)

-- They take turns: the last one in scans and goes on to send, the other one finds the key in flight.
abbrev tried : Pool
tried = first (first (first entered))

abbrev two_attempts : Pool
two_attempts = first (first (second tried))

first_from :
    (q : Pool) → Steps mining config tag_of start q → Steps mining config tag_of start (first q)
first_from q h = moves_first start q.tasks q.world h

second_from :
    (q : Pool) → Steps mining config tag_of start q → Steps mining config tag_of start (second q)
second_from q h = moves_second start q.tasks q.world h

reached : Steps mining config tag_of start two_attempts
reached =
    let two = enters start (enter start) (enters start start (here start)) in
    let a =
      first_from (first (first entered)) (first_from (first entered) (first_from entered two)) in
    first_from (first (second tried)) (first_from (second tried) (second_from tried a))

abbrev IsEarly : Pool → Type 0
IsEarly p =
    All (λ t. t.rec.claim_height ≤ 51) p.tasks
    × (count_calls (is_late_scan payload 51) p.world.trace ≡ 0)

early_call :
    (r : MintRecord) (phase : Phase) (t : Trace)
    → r.claim_height ≤ 51
    → count_calls (is_late_scan payload 51) t ≡ 0
    → count_calls
        (is_late_scan payload 51)
        (with_call mining config (call_of mining config r phase) t)
      ≡ 0
early_call r scanning t le h = grind arith
early_call r (sending _) t le h = h
early_call r (settling none) t le h = h
early_call r (settling (some f)) t le h = h
early_call r begins t le h = h
early_call r leaving t le h = h
early_call r ended t le h = h
early_call r (replied _ txid) t le h = h
early_call r (failing message) t le h = h

early_move :
    (t : Task) (w : World)
    → t.rec.claim_height ≤ 51
    → count_calls (is_late_scan payload 51) w.trace ≡ 0
    → count_calls (is_late_scan payload 51) (advance mining config t.rec t.phase w).1.trace ≡ 0
early_move t w le h =
    ap (count_calls (is_late_scan payload 51)) (advance-trace mining config t.rec t.phase w)
    ∙ early_call t.rec t.phase w.trace le h

first-IsEarly : (ts : List Task) (w : World) → IsEarly (pool ts w) → IsEarly (first (pool ts w))
first-IsEarly [] w h = h
first-IsEarly (t ∷ ts) w ((le, les), h) = ((le, les), early_move t w le h)

second-IsEarly : (ts : List Task) (w : World) → IsEarly (pool ts w) → IsEarly (second (pool ts w))
second-IsEarly [] w h = h
second-IsEarly (_ ∷ []) w h = h
second-IsEarly (s ∷ t ∷ ts) w ((le, (le', les)), h) = ((le, (le', les)), early_move t w le' h)

entered-IsEarly : IsEarly entered
entered-IsEarly = ((omega arith, (omega arith, tt)), refl)

no_late_scan : count_calls (is_late_scan payload 51) two_attempts.world.trace ≡ 0
no_late_scan =
    let early_first = λ (q : Pool) (h : IsEarly q). first-IsEarly q.tasks q.world h in
    let begun = early_first entered entered-IsEarly in
    let scanned_once = early_first (first entered) begun in
    let waits = early_first (first (first entered)) scanned_once in
    let met = second-IsEarly tried.tasks tried.world waits in
    (early_first (first (second tried)) (early_first (second tried) met)).1

mint_once_interleaved_example : count_calls (is_mint landed payload 51) two_attempts.world.trace ≤ 1
mint_once_interleaved_example =
    mint_once_interleaved mining config tag_of landed start two_attempts payload 51 (λ j k e. e)
      chain_shows refl refl reached no_late_scan
