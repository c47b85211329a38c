-- ===== src/Gateway/Intents/Opened.antt =====
-- btcsoq/gateway.ts: an intent that is opened is the one that a payment to its address finds.
use soqtec.Base.{
  ℕ, ◌≡◌, refl, ap, ◌∙◌, ◌≢◌, Bool, true, false, ◌&&◌, none, some, List, [], ◌∷◌, ◌++◌, Text, text,
  ok, arith, All, find, values, values-insert_new, Bool-cases, Result-cases, inl, inr, ===_refl,
}
use soqtec.Store.{
  GatewayStore, put_intent, get_intent, find_deposit_intent_by_address, has_text, is_deposit,
}
use soqtec.Store.Records.{BtcIntent, IntentKind, IntentStatus}
use soqtec.Gateway.World.{Answers, BtcsoqConfig, World, new_address, money_loop_enabled}
use soqtec.Gateway.Intents.{
  is_ssq_address, require_valid_ssq, new_intent, store_intent, open_deposit, create_deposit_intent,
}

find-last :
    (p : BtcIntent → Bool) (xs : List BtcIntent) (a : BtcIntent)
    → All (λ x. p x ≡ false) xs
    → p a ≡ true
    → find p (xs ++ (a ∷ [])) ≡ some a
find-last p [] a h e = rw e refl
find-last p (x ∷ xs) a (h, hs) e = rw h (find-last p xs a hs e)

All-weaken :
    (b : BtcIntent → Bool) (p : BtcIntent → Bool) (xs : List BtcIntent)
    → All (λ x. p x ≡ false) xs
    → All (λ x. (b x && p x) ≡ false) xs
All-weaken b p [] h = tt
All-weaken b p (x ∷ xs) (h, hs) = (ground arith, All-weaken b p xs hs)

module _ (env : Answers) (config : BtcsoqConfig) where
  -- What is open after `create_deposit_intent`.
  pub record IsOpened (ssq : Text) (i : BtcIntent) (before after : World) : Type 0 where
    pub shaped : is_ssq_address ssq ≡ true
    pub not_refused :
        money_loop_enabled config ≡ true → env.validate_address before.trace ssq ≢ ok false
    pub recipient : i.ssq_address ≡ ssq
    pub waits : i.status ≡ IntentStatus.awaiting_deposit
    pub is_deposit_kind : i.kind ≡ IntentKind.deposit
    pub address : Text
    pub receives : i.btc_deposit_address ≡ some address
    pub stored : after.store ≡ put_intent i before.store

  require_valid_ssq-ok :
      (ssq : Text) (w : World)
      → (require_valid_ssq env config ssq w).0 ≡ ok tt
      → ((require_valid_ssq env config ssq w).1.store ≡ w.store)
        × (money_loop_enabled config ≡ true → env.validate_address w.trace ssq ≢ ok false)
  unfolding require_valid_ssq
  require_valid_ssq-ok ssq w h = (grind arith, λ on refused. absurd (grind arith))

  open_deposit-IsOpened :
      (ssq : Text) (w : World) (i : BtcIntent)
      → (open_deposit env config ssq w).0 ≡ ok i
      → (address : Text) × (now : ℕ) × (i
          ≡ new_intent env config IntentKind.deposit IntentStatus.awaiting_deposit
              (env.new_uuid w.trace)
              ssq
              (some address)
              none
              now)
        × ((open_deposit env config ssq w).1.store ≡ put_intent i w.store)
  unfolding open_deposit store_intent
  open_deposit-IsOpened ssq w i h =
      let id = env.new_uuid w.trace in
      let label = text "intent:" ++ id in
      elim (Result-cases (env.new_address w.trace label)) [
        | inr (message, e) ↦ absurd (grind arith)
        | inl (address, e) ↦
            let now = env.now (new_address label ∷ w.trace) in
            let same : i
                ≡ new_intent env config IntentKind.deposit IntentStatus.awaiting_deposit id ssq
                    (some address) none now =
              grind arith in
            (address, now, same, rw (e, ← same) refl)
      ]

  create_deposit_intent-IsOpened :
      (ssq : Text) (w : World) (i : BtcIntent)
      → (create_deposit_intent env config ssq w).0 ≡ ok i
      → IsOpened ssq i w (create_deposit_intent env config ssq w).1
  unfolding create_deposit_intent new_intent
  create_deposit_intent-IsOpened ssq w i h = elim (Bool-cases (is_ssq_address ssq)) [
    | inr other ↦ absurd (grind arith)
    | inl shaped ↦ elim (Result-cases (require_valid_ssq env config ssq w).0) [
      | inr (message, e) ↦ absurd (grind arith)
      | inl (done, e) ↦
          let w1 = (require_valid_ssq env config ssq w).1 in
          let (kept, not_refused) = require_valid_ssq-ok ssq w e in
          let opened : (open_deposit env config ssq w1).0 ≡ ok i = grind arith in
          let shown : put_intent i w1.store ≡ put_intent i w.store = ap (put_intent i) kept in
          let (address, now, is, stored) = open_deposit-IsOpened ssq w1 i opened in
          record {
            shaped = shaped;
            not_refused = not_refused;
            recipient = ap (λ j. j.ssq_address) is;
            waits = ap (λ j. j.status) is;
            is_deposit_kind = ap (λ j. j.kind) is;
            address = address;
            receives = ap (λ j. j.btc_deposit_address) is;
            stored = grind (arith, shown, stored);
          }
    ]
  ]

  put_intent-found :
      (i : BtcIntent) (address : Text) (s : GatewayStore)
      → i.kind ≡ IntentKind.deposit
      → i.btc_deposit_address ≡ some address
      → get_intent i.id s ≡ none
      → All (λ j. has_text address j.btc_deposit_address ≡ false) (values s.state.intents)
      → find_deposit_intent_by_address address (put_intent i s) ≡ some i
  unfolding find_deposit_intent_by_address get_intent put_intent
  put_intent-found i address s kind receives new_id unused =
      let matches =
        λ (j : BtcIntent). is_deposit j.kind && has_text address j.btc_deposit_address in
      let hit : matches i ≡ true = rw (kind, receives) (===_refl address) in
      rw (values-insert_new i.id i s.state.intents new_id) (
        find-last matches (values s.state.intents) i
          (All-weaken (λ j. is_deposit j.kind) (λ j. has_text address j.btc_deposit_address)
            (values s.state.intents) unused)
          hit)

  -- If a deposit intent is answered, under an id and with a deposit address that the store does not
  -- have, then its recipient is the address that was given, which has the shape of a Soqucoin address
  -- and which the node, where it is asked, has not refused; the intent waits for a deposit, it is all
  -- that is added to the store, and a payment to its address finds it.
  pub create_deposit_intent-found :
      (ssq : Text) (w : World) (i : BtcIntent) (address : Text)
      → (create_deposit_intent env config ssq w).0 ≡ ok i
      → i.btc_deposit_address ≡ some address
      → get_intent i.id w.store ≡ none
      → All (λ j. has_text address j.btc_deposit_address ≡ false) (values w.store.state.intents)
      → let w' = (create_deposit_intent env config ssq w).1 in
        IsOpened ssq i w w' × (find_deposit_intent_by_address address w'.store ≡ some i)
  create_deposit_intent-found ssq w i address h receives new_id unused =
      let opened = create_deposit_intent-IsOpened ssq w i h in
      (
        opened,
        ap (find_deposit_intent_by_address address) opened.stored
            ∙ put_intent-found i address w.store opened.is_deposit_kind receives new_id unused,
      )
