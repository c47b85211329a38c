-- ===== src/Gateway/Guarded/Once/Mints.antt =====
-- btcsoq/gateway.ts: sends to the signer, against a chain that shows what was broadcast.
use soqtec.Base.{
  ℕ, ◌≡◌, subst, sym, ap, ◌∙◌, Bool, true, false, ◌&&◌, Option, none, some, List, [], ◌∷◌, Text, ok,
  arith, ◌===◌, ===_iff, ltb, leb, ◌≤◌, Bool-cases, inl, inr,
}
use soqtec.Receipt.Bytes.{from_hex}
use soqtec.Scan.{ChainView, find_mint_tx}
use soqtec.Gateway.World.{
  Answers, BtcsoqConfig, World, Call, Trace, scan_mint, send_mint, MintRequest,
}
use soqtec.Gateway.Guarded.{IsGuarded, IsGuardedCall}
use soqtec.Gateway.Guarded.Once.{GatewayOp, run_ops, run_ops-IsGuarded, count_calls}

-- `landed t req`: the height at which the transaction of the send made after `t` is mined, if it was
-- broadcast.
abbrev pub at_or_above : ℕ → Option ℕ → Bool
at_or_above height none = false
at_or_above height (some h) = leb height h

abbrev pub is_mint : (Trace → MintRequest → Option ℕ) → Text → ℕ → Trace → Call → Bool
is_mint landed payload height t (send_mint req) =
    (req.op_return_hex === payload) && at_or_above height (landed t req)
is_mint landed payload height t _ = false

-- A scan for the payload that starts above the height.
abbrev pub is_late_scan : Text → ℕ → Trace → Call → Bool
is_late_scan payload height t (scan_mint p since) = (p === payload) && ltb height since
is_late_scan payload height t _ = false

-- A scan that finds nothing from `since` leaves no earlier send of the payload from there on.
abbrev pub ShowsMints : Answers → (Trace → MintRequest → Option ℕ) → Type 0
ShowsMints env landed =
    (payload : Text) (since height : ℕ) (t : Trace) (view : ChainView)
    → env.chain_view t ≡ ok view
    → find_mint_tx (from_hex payload) since view ≡ some none
    → since ≤ height
    → count_calls (is_mint landed payload height) t ≡ 0

mint_is_fresh :
    (env : Answers) (landed : Trace → MintRequest → Option ℕ)
    → ShowsMints env landed
    → (payload : Text) (height : ℕ) (c : Call) (t : Trace) → IsGuardedCall env c t
    → count_calls (is_late_scan payload height) t ≡ 0
    → is_mint landed payload height t c ≡ true
    → count_calls (is_mint landed payload height) t ≡ 0
mint_is_fresh env landed shows payload height (send_mint req) t g early e =
    elim (Bool-cases (req.op_return_hex === payload)) [
      | inl same ↦
          let same_text = sym ((===_iff req.op_return_hex payload).0 same) in
          let unseen = ap (λ x. find_mint_tx (from_hex x) g.since g.view) same_text ∙ g.absent in
          let no_late = ap (count_calls (is_late_scan payload height)) (sym g.scanned) ∙ early in
          let in_time : g.since ≤ height = grind arith in
          ap (count_calls (is_mint landed payload height)) g.scanned
          ∙ shows payload g.since height g.before g.view g.answer unseen in_time
      | inr other ↦ grind arith
    ]
mint_is_fresh env landed shows payload height _ t g early e = grind arith

mints_once :
    (env : Answers) (landed : Trace → MintRequest → Option ℕ)
    → ShowsMints env landed
    → (payload : Text) (height : ℕ) (t : Trace) → count_calls (is_late_scan payload height) t ≡ 0
    → IsGuarded env t
    → count_calls (is_mint landed payload height) t ≤ 1
mints_once env landed shows payload height [] early h = omega arith
mints_once env landed shows payload height (c ∷ t) early (g, h) =
    let earlier : count_calls (is_late_scan payload height) t ≡ 0 = grind arith in
    elim (Bool-cases (is_mint landed payload height t c)) [
      | inl e ↦ let z = mint_is_fresh env landed shows payload height c t g earlier e in grind arith
      | inr e ↦ let rest = mints_once env landed shows payload height t earlier h in grind arith
    ]

-- If a scan that finds no transaction of a payload leaves no earlier send of it at or above its start,
-- then a run from an empty trace, in which no scan for the payload starts above a height, makes at
-- most one send of the payload that is mined at this height or above, whatever the sends answer.
pub mint_at_most_once :
    (env : Answers) (config : BtcsoqConfig) (landed : Trace → MintRequest → Option ℕ)
    → (payload : Text) (height : ℕ) (ops : List GatewayOp) (w : World) → ShowsMints env landed
    → w.trace ≡ []
    → count_calls (is_late_scan payload height) (run_ops env config ops w).trace ≡ 0
    → count_calls (is_mint landed payload height) (run_ops env config ops w).trace ≤ 1
mint_at_most_once env config landed payload height ops w shows start early =
    mints_once env landed shows payload height (run_ops env config ops w).trace early
      (run_ops-IsGuarded env config ops w (subst (IsGuarded env) (sym start) tt))
