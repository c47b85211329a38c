-- ===== src/Solana/Burns.antt =====
-- cea/solana-cea.ts: what the events of the two channels, and the verified burns, stand on.
use soqtec.Base.{
  ◌≡◌, refl, subst, Bool, Option, none, some, List, [], ◌∷◌, Text, text, Result, ok, err, ◌===◌,
  ===_iff, All, find, find-test, Bool-cases, Option-cases, inl, inr, arith,
}
use mathlib.Core.List.{reverse, Memᴰ}
use mathlib.Core.List.Memᴰ.{head, tail}
use soqtec.Chain.{NormalizedBurnEvent}
use soqtec.Watchers.Solana.{LogEvent, events_of}
use soqtec.Watchers.Solana.Shown.{IsShown, events_of-IsShown}
use soqtec.Solana.{
  Adapter, Node, HookEvent, or_else, with_event, event_of, is_burn, parse_transaction, parse_all,
  poll_list, poll_burns, hook_burn, hook_burns, process_webhook_payload,
}

find-Memᴰ :
    (p : LogEvent → Bool) (es : List LogEvent) (e : LogEvent) → find p es ≡ some e → Memᴰ e es
find-Memᴰ p [] e h = absurd (ground arith)
find-Memᴰ p (x ∷ es) e h = elim (Bool-cases (p x)) [
  | inl hit ↦ head (grind arith)
  | inr miss ↦ tail (find-Memᴰ p es e (grind arith))
]

module _ (env : Node) where
  -- The event names a transaction, which the node shows as one that did not fail, and tells what a
  -- burn in its logs tells.
  pub record IsBurn (b : NormalizedBurnEvent) : Type 0 where
    pub event : LogEvent
    pub shown : IsShown env.parse_logs (env.shown b.burn_tx_id) event
    pub named : event.name ≡ text "BurnForRedemptionEvent"
    pub gross : b.gross_amount ≡ event.amount
    pub net : b.net_amount_soq ≡ event.net_amount
    pub fee : b.fee_amount ≡ event.fee
    pub nonce : b.nonce ≡ event.nonce

  event_of-IsBurn :
      (signature : Text) (e : LogEvent)
      → IsShown env.parse_logs (env.shown signature) e
      → e.name ≡ text "BurnForRedemptionEvent"
      → IsBurn (event_of env signature e)
  unfolding event_of
  event_of-IsBurn signature e shown named = record {
    event = e;
    shown = shown;
    named = named;
    gross = refl;
    net = refl;
    fee = refl;
    nonce = refl;
  }

  parse_transaction-IsBurn :
      (signature : Text) (b : NormalizedBurnEvent)
      → parse_transaction env signature ≡ some b
      → IsBurn b
  unfolding parse_transaction
  parse_transaction-IsBurn signature b h =
      let es = events_of env.parse_logs (env.shown signature) in
      elim (Option-cases (find (is_burn env) es)) [
        | inl e ↦ absurd (ground arith)
        | inr (found, e) ↦
            let same : event_of env signature found ≡ b = grind arith in
            let named =
              (===_iff found.name (text "BurnForRedemptionEvent")).0
                (find-test (is_burn env) es found e) in
            let shown =
              events_of-IsShown env.parse_logs (env.shown signature) found
                (find-Memᴰ (is_burn env) es found e) in
            subst IsBurn same (event_of-IsBurn signature found shown named)
      ]

  with_event-IsBurn :
      (o : Option NormalizedBurnEvent) (bs : List NormalizedBurnEvent)
      → ((b : NormalizedBurnEvent) → o ≡ some b → IsBurn b)
      → All IsBurn bs
      → All IsBurn (with_event o bs)
  with_event-IsBurn none bs h hs = hs
  with_event-IsBurn (some b) bs h hs = (h b refl, hs)

  parse_all-IsBurn : (ss : List Text) → All IsBurn (parse_all env ss)
  unfolding parse_all
  parse_all-IsBurn [] = tt
  parse_all-IsBurn (s ∷ ss) =
      with_event-IsBurn (parse_transaction env s) (parse_all env ss) (parse_transaction-IsBurn s)
        (parse_all-IsBurn ss)

  poll_list-IsBurn :
      (ref : Option Text) (r : Result Text (List Text)) (a : Adapter)
      → All IsBurn (poll_list env ref r a).0.0
  poll_list-IsBurn ref (err message) a = tt
  poll_list-IsBurn ref (ok []) a = tt
  poll_list-IsBurn ref (ok (s ∷ ss)) a = parse_all-IsBurn (reverse (s ∷ ss))

  hook_burn-IsBurn : (e : HookEvent) (b : NormalizedBurnEvent) → hook_burn env e ≡ some b → IsBurn b
  hook_burn-IsBurn e b h = elim (Bool-cases (e.kind === text "BURN")) [
    | inr other ↦ absurd (grind arith)
    | inl burns ↦ elim (Option-cases (or_else e.signature none)) [
      | inl unnamed ↦ absurd (grind arith)
      | inr (s, named) ↦ parse_transaction-IsBurn s b (grind arith)
    ]
  ]

  hook_burns-IsBurn : (es : List HookEvent) → All IsBurn (hook_burns env es)
  hook_burns-IsBurn [] = tt
  hook_burns-IsBurn (e ∷ es) =
      with_event-IsBurn (hook_burn env e) (hook_burns env es) (hook_burn-IsBurn e)
        (hook_burns-IsBurn es)

  -- Each event of a poll and each event that the webhook hands on names a transaction that the node
  -- shows as one that did not fail, and tells the amounts and the nonce of a burn in its logs.
  pub channels-IsBurn :
      (since_ref : Option Text) (payload : List HookEvent) (a : Adapter)
      → All IsBurn (poll_burns env since_ref a).0.0
        × All IsBurn (process_webhook_payload env payload a)
  unfolding poll_burns process_webhook_payload
  channels-IsBurn since_ref payload a =
      let ref = or_else since_ref a.last_signature in
      (
        poll_list-IsBurn ref (env.signatures (or_else ref none) 20) a,
        elim (Bool-cases a.subscribed) [
          | inl on ↦ rw on (hook_burns-IsBurn payload)
          | inr off ↦ rw off tt
        ],
      )
