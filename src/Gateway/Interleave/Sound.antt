-- ===== src/Gateway/Interleave/Sound.antt =====
-- btcsoq/gateway.ts, `attemptMint`: what holds of every pool that attempts can reach.
use soqtec.Base.{
  Option, ℕ, ◌+◌, ◌≤◌, ◌≡◌, sym, subst, Bool, true, false, ◌&&◌, List, [], ◌∷◌, ◌++◌, Text, arith,
  All, All-append, ◌===◌, ===_iff, ===_refl, Bool-cases, inl, inr,
}
use soqtec.Store.Records.{MintRecord}
use soqtec.Gateway.Guarded.Once.{count_calls}
use soqtec.Gateway.Guarded.Once.Mints.{is_mint, is_late_scan, ShowsMints}
use soqtec.Gateway.World.{MintRequest, Answers, BtcsoqConfig, World, Call, send_mint, Trace, in_set}
use soqtec.Gateway.Interleave.{Phase, Task, Pool, advance, Step, starts, moves, Steps, here, next}
use soqtec.Gateway.Interleave.Orderly.{
  is_send, IsFresh, scanned, since_then, IsOrderlyCall, IsOrderly, IsReady, is_active, active,
  one_if, active-append, advance-trace, advance-active,
}
use soqtec.Gateway.Interleave.Pools.{
  IsTagged, TellsApart, advance-IsReady, advance-IsOrderly, others-IsReady,
}

All-split : (P : Task → Type 0) (xs ys : List Task) → All P (xs ++ ys) → All P xs × All P ys
All-split P [] ys h = (tt, h)
All-split P (x ∷ xs) ys (h, hs) = let (l, r) = All-split P xs ys hs in ((h, l), r)

one_if_le : (b : Bool) → one_if b ≤ 1
one_if_le true = omega arith
one_if_le false = omega arith

module _ (env : Answers) (config : BtcsoqConfig) (tag_of : Text → Text) where
  -- For each key the attempts that are under way are in flight, so that there is one at most; the
  -- sends so far were orderly, and the attempts that are about to send are ready to.
  pub record IsSound (p : Pool) : Type 0 where
    pub exclusive : (k : Text) → active k p.tasks ≤ one_if (in_set k p.world.minting_in_flight)
    pub orderly : IsOrderly env p.world.trace
    pub ready : All (IsReady env p.world.trace) p.tasks
    pub tagged : All (IsTagged env config tag_of) p.tasks

  active-middle :
      (k : Text) (before after : List Task) (t : Task)
      → active k (before ++ (t ∷ after))
        ≡ active k before + active k after + one_if (is_active t.phase && (t.rec.key === k))
  active-middle k before after t =
      let a = active-append k before (t ∷ after) in
      elim (Bool-cases (is_active t.phase && (t.rec.key === k))) [
        | inl hit ↦ grind arith
        | inr miss ↦ grind arith
      ]

  moves-IsSound :
      (before after : List Task) (rec : MintRecord) (phase : Phase) (w : World)
      → TellsApart env config tag_of
      → IsSound
          (record { tasks = before ++ (record { rec = rec; phase = phase } ∷ after); world = w })
      → let (phase', w') = advance env config rec phase w in
        IsSound
          (record { tasks = before ++ (record { rec = rec; phase = phase' } ∷ after); world = w' })
  moves-IsSound before after rec phase w apart s =
      let step = advance env config rec phase w in
      let t : Task = record { rec = rec; phase = phase } in
      let t' : Task = record { rec = rec; phase = step.0 } in
      let trace = advance-trace env config rec phase w in
      let (ready_before, (ready_it, ready_after)) =
        All-split (IsReady env w.trace) before (t ∷ after) s.ready in
      let (tag_before, (tag_it, tag_after)) =
        All-split (IsTagged env config tag_of) before (t ∷ after) s.tagged in
      let own = s.exclusive rec.key in
      let sum = active-middle rec.key before after t in
      let hit = ===_refl rec.key in
      let most = one_if_le (in_set rec.key w.minting_in_flight) in
      let room_before : active rec.key before + one_if (is_active phase) ≤ 1 = grind arith in
      let room_after : active rec.key after + one_if (is_active phase) ≤ 1 = grind arith in
      let keep =
        λ (ts : List Task) (room : active rec.key ts + one_if (is_active phase) ≤ 1)
            (tags : All (IsTagged env config tag_of) ts) (h : All (IsReady env w.trace) ts).
          subst (λ u. All (IsReady env u) ts) (sym trace)
            (others-IsReady env config tag_of rec phase w ts apart tag_it ready_it room tags h) in
      record {
        exclusive = λ k.
            let a = active-middle k before after t in
            let b = active-middle k before after t' in
            let c = s.exclusive k in
            let d =
              advance-active env config rec phase w k (active k before + active k after)
                (omega arith) in
            omega arith;
        orderly =
            subst (IsOrderly env) (sym trace)
              (advance-IsOrderly env config tag_of rec phase w ready_it s.orderly);
        ready =
            All-append (IsReady env step.1.trace) before (t' ∷ after)
              (keep before room_before tag_before ready_before)
              (
                advance-IsReady env config tag_of rec phase w ready_it,
                keep after room_after tag_after ready_after,
              );
        tagged =
            All-append (IsTagged env config tag_of) before (t' ∷ after) tag_before
              (tag_it, tag_after);
      }

  Step-IsSound :
      (p q : Pool)
      → TellsApart env config tag_of
      → Step env config tag_of p q
      → IsSound p
      → IsSound q
  Step-IsSound p q apart (starts rec tasks w tag) s = record {
    exclusive = s.exclusive;
    orderly = s.orderly;
    ready = (tt, s.ready);
    tagged = (tag, s.tagged);
  }
  Step-IsSound p q apart (moves before after t w) s =
      moves-IsSound before after t.rec t.phase w apart s

  -- Attempts that start on the records of deposits, whose tags tell their keys apart, keep a pool
  -- sound in whatever order they move: for each key one attempt at most is under way, and each send of
  -- a mint comes after a scan for its payload that found nothing, with no send of the payload between
  -- the two.
  pub Steps-IsSound :
      (p q : Pool)
      → TellsApart env config tag_of
      → IsSound p
      → Steps env config tag_of p q
      → IsSound q
  Steps-IsSound p q apart s (here _) = s
  Steps-IsSound p q apart s (next _ r _ before last) =
      Step-IsSound r q apart last (Steps-IsSound p r apart s before)

module _ (env : Answers) (landed : Trace → MintRequest → Option ℕ) (shows : ShowsMints env landed)
    (payload : Text) (height : ℕ) where
  other_mint :
      (c : Call) (t : Trace) → is_send payload c ≡ false → is_mint landed payload height t c ≡ false
  other_mint (send_mint req) t other = grind arith
  other_mint _ t other = grind arith

  fresh-count :
      (t : Trace)
      → IsFresh env payload t
      → count_calls (is_late_scan payload height) t ≡ 0
      → count_calls (is_mint landed payload height) t ≡ 0
  fresh-count t (scanned since before view e f) early =
      let same = ===_refl payload in
      let in_time : since ≤ height = grind arith in
      shows payload since height before view e f in_time
  fresh-count t (since_then c before other h) early =
      let earlier : count_calls (is_late_scan payload height) before ≡ 0 = grind arith in
      let rest = fresh-count before h earlier in rw (other_mint c before other) rest

  mint-IsFresh :
      (c : Call) (t : Trace)
      → IsOrderlyCall env c t
      → is_mint landed payload height t c ≡ true
      → IsFresh env payload t
  mint-IsFresh (send_mint req) t g hit =
      let same : (req.op_return_hex === payload) ≡ true = grind arith in
      subst (λ p. IsFresh env p t) ((===_iff req.op_return_hex payload).0 same) g
  mint-IsFresh _ t g hit = absurd (grind arith)

  orderly-count :
      (t : Trace)
      → count_calls (is_late_scan payload height) t ≡ 0
      → IsOrderly env t
      → count_calls (is_mint landed payload height) t ≤ 1
  orderly-count [] early h = omega arith
  orderly-count (c ∷ t) early (g, h) =
      let earlier : count_calls (is_late_scan payload height) t ≡ 0 = grind arith in
      elim (Bool-cases (is_mint landed payload height t c)) [
        | inr other ↦ let rest = orderly-count t earlier h in rw other rest
        | inl hit ↦
            let none_before = fresh-count t (mint-IsFresh c t g hit) earlier in rw hit (omega arith)
      ]

-- If a scan that finds no transaction of a payload leaves no earlier send of it at or above its start,
-- and tags tell keys apart, then attempts that start from nothing, and whose scans for the payload
-- start at or below a height, make at most one send of it that is mined at this height or above, in
-- whatever order they move and whatever their sends answer.
pub mint_once_interleaved :
    (env : Answers) (config : BtcsoqConfig) (tag_of : Text → Text)
    (landed : Trace → MintRequest → Option ℕ) (p q : Pool) (payload : Text) (height : ℕ)
    → TellsApart env config tag_of
    → ShowsMints env landed
    → p.tasks ≡ []
    → p.world.trace ≡ []
    → Steps env config tag_of p q
    → count_calls (is_late_scan payload height) q.world.trace ≡ 0
    → count_calls (is_mint landed payload height) q.world.trace ≤ 1
mint_once_interleaved env config tag_of landed p q payload height apart shows no_tasks no_calls
      steps early =
    let start : IsSound env config tag_of p = record {
      exclusive = λ k. rw no_tasks (omega arith);
      orderly = rw no_calls tt;
      ready = rw no_tasks tt;
      tagged = rw no_tasks tt;
    } in
    let sound = Steps-IsSound env config tag_of p q apart start steps in
    orderly-count env landed shows payload height q.world.trace early sound.orderly
