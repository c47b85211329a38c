-- ===== src/Gateway/Binding.antt =====
-- btcsoq/gateway.ts: which redeem intent a returned receipt binds to.
use soqtec.Base.{
  ◌≡◌, refl, true, ◌&&◌, ◌||◌, Option, none, some, List, [], ◌∷◌, Text, arith, inl, inr,
  Option-cases, find-test, filter-All, All-find, All-filter, sort_desc-All, ◌⊎◌, find, filter,
  ◌===◌, ===_iff, All, sort_desc,
}
use soqtec.Receipt.{BtcsoqTag, payout_commit}
use soqtec.Store.{GatewayStore, list_intents}
use soqtec.Store.Records.{MintRecord, BtcIntent, IntentStatus, IntentKind}
use soqtec.Gateway.World.{Answers, BtcsoqConfig}
use soqtec.Gateway.Redeem.{
  candidates, choose_intent, commitment, commits_to, oldest, head?, is_open, is_expired,
  is_redeem_kind,
}

-- What a redeem intent needs to be bound to the receipt of the record.
pub record IsCandidate (rec : MintRecord) (i : BtcIntent) : Type 0 where
  pub is_redeem : i.kind ≡ IntentKind.redeem
  pub owner : i.ssq_address ≡ rec.ssq_address
  pub open_or_expired :
      (i.status ≡ IntentStatus.awaiting_receipt) ⊎ (i.status ≡ IntentStatus.expired)

redeem_kind : (k : IntentKind) → is_redeem_kind k ≡ true → k ≡ IntentKind.redeem
redeem_kind IntentKind.deposit h = absurd (ground arith)
redeem_kind IntentKind.redeem h = refl

candidate_status :
    (s : IntentStatus)
    → (is_open s || is_expired s) ≡ true
    → (s ≡ IntentStatus.awaiting_receipt) ⊎ (s ≡ IntentStatus.expired)
candidate_status IntentStatus.awaiting_receipt h = inl refl
candidate_status IntentStatus.expired h = inr refl
candidate_status _ h = absurd (ground arith)

candidate_lem :
    (rec : MintRecord) (i : BtcIntent)
    → (is_redeem_kind i.kind
        && ((i.ssq_address === rec.ssq_address) && (is_open i.status || is_expired i.status)))
      ≡ true
    → IsCandidate rec i
candidate_lem rec i h = record {
  is_redeem = redeem_kind i.kind (grind arith);
  owner = (===_iff i.ssq_address rec.ssq_address).0 (grind arith);
  open_or_expired = candidate_status i.status (grind arith);
}

All-map :
    {P Q : BtcIntent → Type 0} (f : (i : BtcIntent) → P i → Q i) (cs : List BtcIntent)
    → All P cs
    → All Q cs
All-map f [] h = tt
All-map f (i ∷ cs) (h, hs) = (f i h, All-map f cs hs)

candidates-IsCandidate :
    (rec : MintRecord) (s : GatewayStore) → All (IsCandidate rec) (candidates rec s)
unfolding candidates
candidates-IsCandidate rec s =
    All-map (candidate_lem rec) (candidates rec s) (filter-All _ (list_intents s))

oldest-All :
    (P : BtcIntent → Type 0) (cs : List BtcIntent) (i : BtcIntent)
    → All P cs
    → oldest cs ≡ some i
    → P i
unfolding oldest
oldest-All P [] i h e = absurd (ground arith)
oldest-All P (c ∷ cs) i (hc, hs) e = elim (Option-cases (oldest cs)) [
  | inl f ↦ grind arith
  | inr (j, f) ↦ let rest = oldest-All P cs j hs f in grind arith
]

head-All :
    (P : BtcIntent → Type 0) (cs : List BtcIntent) (i : BtcIntent)
    → All P cs
    → head? cs ≡ some i
    → P i
head-All P [] i h e = absurd (ground arith)
head-All P (c ∷ cs) i (hc, hs) e = grind arith

module _ (env : Answers) (config : BtcsoqConfig) where
  commits_to-some :
      (commit : Text) (address : Option Text)
      → commits_to env config commit address ≡ true
      → (a : Text) × ((address ≡ some a) × ((payout_commit env.sha256 a === commit) ≡ true))
  commits_to-some commit none h = grind arith
  commits_to-some commit (some a) h = (a, (refl, h))

  -- If the return spend carries a redeem tag with a payout commitment, the intent that is chosen pays
  -- to an address with this commitment.
  pub choose_intent-commitment :
      (tag : Option BtcsoqTag) (cs : List BtcIntent) (commit : Text) (i : BtcIntent)
      → commitment tag ≡ some commit
      → choose_intent env config tag cs ≡ some i
      → (a : Text) × ((i.btc_payout_address ≡ some a) × (payout_commit env.sha256 a ≡ commit))
  unfolding choose_intent
  choose_intent-commitment tag cs commit i t h =
      let found : find (λ j. commits_to env config commit j.btc_payout_address) cs ≡ some i =
        grind arith in
      let test = find-test (λ j. commits_to env config commit j.btc_payout_address) cs i found in
      let (a, (e, same)) = commits_to-some commit i.btc_payout_address test in
      (a, (e, (===_iff (payout_commit env.sha256 a) commit).0 same))

  choose_intent-All :
      (P : BtcIntent → Type 0) (tag : Option BtcsoqTag) (cs : List BtcIntent) (i : BtcIntent)
      → All P cs
      → choose_intent env config tag cs ≡ some i
      → P i
  unfolding choose_intent
  choose_intent-All P tag cs i h e =
      let opened = All-filter P (λ j. is_open j.status) cs h in
      let lapsed =
        sort_desc-All (λ j. j.created_at) P (filter (λ j. is_expired j.status) cs)
          (All-filter P (λ j. is_expired j.status) cs h) in
      elim (Option-cases (commitment tag)) [
        | inr (commit, t) ↦
            All-find P (λ j. commits_to env config commit j.btc_payout_address) cs i h (grind arith)
        | inl t ↦ elim (Option-cases (oldest (filter (λ j. is_open j.status) cs))) [
          | inr (j, f) ↦ oldest-All P (filter (λ j. is_open j.status) cs) i opened (grind arith)
          | inl f ↦
              head-All P (sort_desc (λ j. j.created_at) (filter (λ j. is_expired j.status) cs)) i
                lapsed (grind arith)
        ]
      ]

  -- With or without a tag, the intent that is chosen is a redeem intent of the receipt's own address
  -- that waits for a receipt or has expired.
  pub choose_intent-IsCandidate :
      (tag : Option BtcsoqTag) (rec : MintRecord) (s : GatewayStore) (i : BtcIntent)
      → choose_intent env config tag (candidates rec s) ≡ some i
      → IsCandidate rec i
  choose_intent-IsCandidate tag rec s i e =
      choose_intent-All (IsCandidate rec) tag (candidates rec s) i (candidates-IsCandidate rec s) e
