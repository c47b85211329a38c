-- ===== src/Watchers/Solana/Shown.antt =====
-- The events that watchers/solana.ts and cea/solana-cea.ts read from the answer of the node.
use soqtec.Base.{
  ◌≡◌, refl, subst, Option, none, some, List, [], Text, Result, ok, err, Option-cases, inl, inr,
}
use mathlib.Core.List.{Memᴰ}
use mathlib.Core.List.Memᴰ.{not-nil}
use soqtec.Watchers.Solana.{LogEvent, Meta, SolanaTx, events_of, or_empty}

abbrev events_with : (List Text → List LogEvent) → Meta → Option Text → List LogEvent
events_with parse_logs meta none = parse_logs (or_empty meta.log_messages)
events_with parse_logs meta (some failure) = []

abbrev events_in : (List Text → List LogEvent) → Option Meta → List LogEvent
events_in parse_logs none = []
events_in parse_logs (some meta) = events_with parse_logs meta meta.failure

-- The answer shows a transaction that did not fail, which logs the event.
abbrev pub IsShown : (List Text → List LogEvent) → Result Text (Option SolanaTx) → LogEvent → Type 0
IsShown parse_logs r e =
    (tx : SolanaTx) × (meta : Meta) × (r ≡ ok (some tx))
    × (tx.meta ≡ some meta)
    × (meta.failure ≡ none)
    × Memᴰ e (parse_logs (or_empty meta.log_messages))

pub events_of-IsShown :
    (parse_logs : List Text → List LogEvent) (r : Result Text (Option SolanaTx)) (e : LogEvent)
    → Memᴰ e (events_of parse_logs r)
    → IsShown parse_logs r e
unfolding events_of
events_of-IsShown parse_logs (err message) e h = absurd (not-nil h)
events_of-IsShown parse_logs (ok none) e h = absurd (not-nil h)
events_of-IsShown parse_logs (ok (some tx)) e h = elim (Option-cases tx.meta) [
  | inl none_shown ↦ absurd (not-nil (subst (λ m. Memᴰ e (events_in parse_logs m)) none_shown h))
  | inr (meta, shown) ↦
      let in_meta = subst (λ m. Memᴰ e (events_in parse_logs m)) shown h in
      elim (Option-cases meta.failure) [
        | inr (failure, failed) ↦
            absurd (not-nil (subst (λ f. Memᴰ e (events_with parse_logs meta f)) failed in_meta))
        | inl fine ↦ (
          tx,
          meta,
          refl,
          shown,
          fine,
          subst (λ f. Memᴰ e (events_with parse_logs meta f)) fine in_meta,
        )
      ]
]
