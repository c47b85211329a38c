-- ===== src/Solana.antt =====
-- relayer/src/cea/solana-cea.ts: the Solana adapter. The answers of the node, of the webhook service,
-- of the parser and of the decoder of UTF-8 are parameters; log lines and the HTTP requests of the
-- webhook service are left out. An error that a callback throws, which ends the loop of the webhook,
-- is left out too.
pub mod Burns
mod Tests
use mathlib.Core.List.{reverse}
use soqtec.Base.{
  ℕ, Bool, true, false, Option, none, some, List, [], ◌∷◌, ◌++◌, Text, text, Result, ok, err, ltb,
  ◌===◌, if◌then◌else◌, filter, find,
}
use soqtec.Chain.{BurnConfidence, mempool, confirmed, finalized, ChainId, NormalizedBurnEvent}
use soqtec.Bitcoin.{VerifyResult, invalid}
use soqtec.Watchers.Solana.{LogEvent, Meta, SolanaTx, events_of}

pub record Adapter : Type 0 where
  pub subscribed : Bool
  pub last_signature : Option Text
  pub healthy : Bool
  pub webhook_id : Option Text

-- `shown` is `getTransaction` with the commitment of the connection, `at_commitment` with one that is
-- asked for.
pub record Node : Type 0 where
  pub now : Text → ℕ
  pub slot : Result Text ℕ
  pub signatures : Option Text → ℕ → Result Text (List Text)
  pub shown : Text → Result Text (Option SolanaTx)
  pub at_commitment : BurnConfidence → Text → Result Text (Option SolanaTx)
  pub parse_logs : List Text → List LogEvent
  pub utf8 : List ℕ → Text
  pub register_webhook : Result Text Text

-- An entry of the payload of the webhook.
pub record HookEvent : Type 0 where
  pub kind : Text
  pub signature : Option Text

-- `a || b` on texts that may be missing.
abbrev pub or_else : Option Text → Option Text → Option Text
or_else none b = b
or_else (some []) b = b
or_else (some (c ∷ cs)) b = some (c ∷ cs)

abbrev or_blank : Option Text → Text
or_blank none = []
or_blank (some s) = s

abbrev pub with_event :
    Option NormalizedBurnEvent → List NormalizedBurnEvent → List NormalizedBurnEvent
with_event none es = es
with_event (some e) es = e ∷ es

abbrev first_or : Option Text → List Text → Option Text
first_or old [] = old
first_or old (s ∷ ss) = some s

module _ (env : Node) where
  unfoldable pub event_of : Text → LogEvent → NormalizedBurnEvent
  event_of signature e = record {
    chain = ChainId.solana;
    burn_tx_id = signature;
    gross_amount = e.amount;
    net_amount_soq = e.net_amount;
    fee_amount = e.fee;
    recipient_soq = filter (λ c. ltb 0 c) (env.utf8 e.soq_address);
    nonce = e.nonce;
    confidence = finalized;
    detected_at = env.now signature;
    finalized_at = some (env.now signature);
  }

  abbrev pub is_burn : LogEvent → Bool
  is_burn e = e.name === text "BurnForRedemptionEvent"

  -- The first burn of a transaction.
  unfoldable pub parse_transaction : Text → Option NormalizedBurnEvent
  parse_transaction signature =
      elim (find is_burn (events_of env.parse_logs (env.shown signature))) [
        | none ↦ none
        | some e ↦ some (event_of signature e)
      ]

  unfoldable pub parse_all : List Text → List NormalizedBurnEvent
  parse_all [] = []
  parse_all (s ∷ ss) = with_event (parse_transaction s) (parse_all ss)

  -- The list is reversed in place, so that the next reference, its first element, is the oldest
  -- signature.
  abbrev pub poll_list :
      Option Text → Result Text (List Text) → Adapter → (List NormalizedBurnEvent × Text) × Adapter
  poll_list ref (err message) a = (([], or_blank ref), record a { healthy = false })
  poll_list ref (ok []) a = (([], or_blank ref), a)
  poll_list ref (ok (s ∷ ss)) a =
      let reversed = reverse (s ∷ ss) in
      let new_ref = first_or none reversed in
      ((parse_all reversed, or_blank new_ref), record a { last_signature = new_ref })

  unfoldable pub poll_burns : Option Text → Adapter → (List NormalizedBurnEvent × Text) × Adapter
  poll_burns since_ref a =
      let ref = or_else since_ref a.last_signature in
      poll_list ref (env.signatures (or_else ref none) 20) a

  abbrev pub hook_burn : HookEvent → Option NormalizedBurnEvent
  hook_burn e =
      if e.kind === text "BURN"
      then (elim (or_else e.signature none) [ none ↦ none | some s ↦ parse_transaction s ])
      else none

  abbrev pub hook_burns : List HookEvent → List NormalizedBurnEvent
  hook_burns [] = []
  hook_burns (e ∷ es) = with_event (hook_burn e) (hook_burns es)

  -- The events that are handed to the callback, in order.
  unfoldable pub process_webhook_payload : List HookEvent → Adapter → List NormalizedBurnEvent
  process_webhook_payload payload a = if a.subscribed then hook_burns payload else []

  abbrev pub verify_confirmed : Result Text (Option SolanaTx) → VerifyResult
  verify_confirmed (err message) = invalid message
  verify_confirmed (ok none) = invalid (text "TX not found")
  verify_confirmed (ok (some tx)) = record {
    valid = true;
    confidence = confirmed;
    confirmations = none;
    block_height = some tx.slot;
    error = none;
  }

  abbrev failure_of : Option Meta → Option Text
  failure_of none = none
  failure_of (some meta) = meta.failure

  abbrev verify_final : SolanaTx → Option Text → VerifyResult
  verify_final tx (some failure) = record {
    valid = false;
    confidence = finalized;
    confirmations = none;
    block_height = none;
    error = some (text "TX failed: " ++ failure);
  }
  verify_final tx none = record {
    valid = true;
    confidence = finalized;
    confirmations = none;
    block_height = some tx.slot;
    error = none;
  }

  abbrev pub verify_found : Text → Result Text (Option SolanaTx) → VerifyResult
  verify_found id (err message) = invalid message
  verify_found id (ok none) = verify_confirmed (env.at_commitment confirmed id)
  verify_found id (ok (some tx)) = verify_final tx (failure_of tx.meta)

  unfoldable pub verify_burn : Text → VerifyResult
  verify_burn burn_tx_id = verify_found burn_tx_id (env.at_commitment finalized burn_tx_id)

  abbrev first_signature : Result Text (List Text) → Adapter → Adapter
  first_signature (err message) a = a
  first_signature (ok sigs) a = record a { last_signature = first_or a.last_signature sigs }

  -- `start` throws where the node does not answer.
  unfoldable pub start : Adapter → Result Text Adapter
  start a = elim env.slot [
    | err message ↦ err message
    | ok slot ↦ ok (first_signature (env.signatures none 1) (record a { healthy = true }))
  ]

  unfoldable pub stop : Adapter → Adapter
  stop a = record a { healthy = false }

  abbrev webhook : Result Text Text → Adapter → Adapter
  webhook (err message) a = a
  webhook (ok id) a = record a { webhook_id = some id }

  unfoldable pub subscribe_burns : Adapter → Adapter
  subscribe_burns a = webhook env.register_webhook (record a { subscribed = true })
