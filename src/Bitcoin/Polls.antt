-- ===== src/Bitcoin/Polls.antt =====
-- cea/bitcoin-cea.ts: what a poll reports, and what a verification and a proof stand for.
use soqtec.Base.{
  ◌++◌, ℕ, ◌<◌, ◌&&◌, find-test, ◌≡◌, refl, sym, ap, subst, ◌∙◌, Bool, true, inl, inr, Option, none,
  some, List, [], ◌∷◌, Text, Result, ok, err, arith, find, Option-cases, ltb→lt, length, Bool-cases,
  ◌==◌, ==_iff,
}
use soqtec.Base.Int.{ℤ, pos, negsuc}
use soqtec.Store.{split_colon}
use soqtec.Bitcoin.{
  same_vout, WalletEntry, DepositEvent, confirmations_of, is_dropped, event_of, burn_of, burns_of,
  entry_event, WalletDetail, WalletTransaction, verify_burn, verify_tx, verify_confirmed,
  verify_output, verified, height_of, VerifyResult, parse_vout, receive_at, block_ref, cons_some,
}
use soqtec.Attestation.{decimal}
use soqtec.Bitcoin.{outpoint_of}
use soqtec.Bitcoin.Outpoints.{HasNoColon, read_digits-decimal, split_colon-outpoint}
use mathlib.Core.List.{Memᴰ}
use mathlib.Core.List.Memᴰ.{head, tail, not-nil, cases_cons}
use soqtec.Bitcoin.Deposits.{
  IsDeposit, IsConfidence, IsEventOf, confidence_for-IsConfidence, event_of-IsEventOf, kept_deposit,
  kept-IsDeposit,
}

burn_of-IsDeposit :
    (finality_conf now : ℕ) (tx : WalletEntry) (n : ℕ)
    → IsDeposit tx n
    → burn_of finality_conf now tx ≡ some (event_of finality_conf now tx n)
unfolding burn_of
burn_of-IsDeposit finality_conf now tx n d =
    let a = d.receive in let b = kept_deposit tx n d in let c = d.in_chain in rw (a, b, c) refl

entry_event-some :
    (finality_conf now : ℕ) (tx : WalletEntry) (c : ℤ) (e : DepositEvent)
    → entry_event finality_conf now tx c ≡ some e
    → (n : ℕ) × (c ≡ pos n) × (e ≡ event_of finality_conf now tx n)
entry_event-some finality_conf now tx (pos n) e h = (n, refl, grind arith)
entry_event-some finality_conf now tx (negsuc n) e h = absurd (ground arith)

burn_of-some :
    (finality_conf now : ℕ) (tx : WalletEntry) (e : DepositEvent)
    → burn_of finality_conf now tx ≡ some e
    → (n : ℕ) × IsDeposit tx n × (e ≡ event_of finality_conf now tx n)
unfolding burn_of
burn_of-some finality_conf now tx e h = elim (Bool-cases tx.is_receive) [
  | inr other ↦ absurd (grind arith)
  | inl receive ↦ elim (Bool-cases (is_dropped tx)) [
    | inl dropped ↦ absurd (grind arith)
    | inr kept ↦
        let (n, in_chain, same) =
          entry_event-some finality_conf now tx (confirmations_of tx.confirmations) e
            (grind arith) in
        (n, kept-IsDeposit tx n receive kept in_chain, same)
  ]
]

-- A listed deposit with the event that a poll makes of it.
abbrev pub Reported : ℕ → ℕ → List WalletEntry → DepositEvent → Type 0
Reported finality_conf now txs e =
    (tx : WalletEntry) × (n : ℕ) × Memᴰ tx txs
    × IsDeposit tx n
    × (e ≡ event_of finality_conf now tx n)

burns_of-Reported :
    (finality_conf now : ℕ) (txs : List WalletEntry) (e : DepositEvent)
    → Memᴰ e (burns_of finality_conf now txs)
    → Reported finality_conf now txs e
unfolding burns_of
burns_of-Reported finality_conf now [] e m = absurd (not-nil m)
burns_of-Reported finality_conf now (tx ∷ txs) e m =
    let later : Memᴰ e (burns_of finality_conf now txs) → Reported finality_conf now (tx ∷ txs) e =
      λ m'.
        let (t, n, at, d, same) = burns_of-Reported finality_conf now txs e m' in
        (t, n, tail at, d, same) in
    elim (Option-cases (burn_of finality_conf now tx)) [
      | inl f ↦ later (subst (λ o. Memᴰ e (cons_some o (burns_of finality_conf now txs))) f m)
      | inr (b, f) ↦
          elim (cases_cons
            (subst (λ o. Memᴰ e (cons_some o (burns_of finality_conf now txs))) f m)) [
              | inl same ↦
                  let (n, d, is) = burn_of-some finality_conf now tx b f in
                  (tx, n, head refl, d, same ∙ is)
              | inr m' ↦ later m'
            ]
    ]

Reported-burns_of :
    (finality_conf now : ℕ) (txs : List WalletEntry) (e : DepositEvent) (tx : WalletEntry) (n : ℕ)
    → Memᴰ tx txs
    → IsDeposit tx n
    → e ≡ event_of finality_conf now tx n
    → Memᴰ e (burns_of finality_conf now txs)
unfolding burns_of
Reported-burns_of finality_conf now [] e tx n m d same = absurd (not-nil m)
Reported-burns_of finality_conf now (t ∷ txs) e tx n m d same = elim (cases_cons m) [
  | inl here ↦
      let f : burn_of finality_conf now t ≡ some (event_of finality_conf now tx n) =
        subst (λ u. burn_of finality_conf now u ≡ some (event_of finality_conf now tx n)) here
          (burn_of-IsDeposit finality_conf now tx n d) in
      rw f (head same)
  | inr there ↦
      in_tail (burn_of finality_conf now t)
        (Reported-burns_of finality_conf now txs e tx n there d same)
]
  where
    in_tail :
        (o : Option DepositEvent) {es : List DepositEvent} → Memᴰ e es → Memᴰ e (cons_some o es)
    in_tail none m = m
    in_tail (some b) m = tail m

-- A poll reports an event of every deposit that the wallet lists, and no other event; the event tells
-- the outpoint, the amount, the address, the block and the confirmations of the deposit, with the
-- confidence they stand for. A deposit is a receive that is neither abandoned nor, while it is
-- unconfirmed, replaced, with no negative number of confirmations.
pub burns_of-Mem :
    (finality_conf now : ℕ) (txs : List WalletEntry)
    → ((e : DepositEvent)
        → Memᴰ e (burns_of finality_conf now txs)
        → (tx : WalletEntry) × (n : ℕ) × Memᴰ tx txs
          × IsDeposit tx n
          × IsEventOf finality_conf now tx n e)
      × ((tx : WalletEntry) (n : ℕ)
          → Memᴰ tx txs
          → IsDeposit tx n
          → (e : DepositEvent) × Memᴰ e (burns_of finality_conf now txs)
            × IsEventOf finality_conf now tx n e)
burns_of-Mem finality_conf now txs = (
  λ e m.
      let (tx, n, at, d, same) = burns_of-Reported finality_conf now txs e m in
      (
        tx,
        n,
        at,
        d,
        subst (IsEventOf finality_conf now tx n) (sym same)
            (event_of-IsEventOf finality_conf now tx n),
      ),
  λ tx n m d.
      let e = event_of finality_conf now tx n in
      (
        e,
        Reported-burns_of finality_conf now txs e tx n m d refl,
        event_of-IsEventOf finality_conf now tx n,
      ),
)

-- What a valid answer of `verify_burn` stands for.
pub record IsConfirmedReceive (tx : WalletTransaction) (confirmations : ℕ) (vout : Option ℕ)
    : Type 0 where
  pub in_chain : confirmations_of tx.confirmations ≡ pos confirmations
  pub confirmed_once : 0 < confirmations
  pub detail : WalletDetail
  pub listed : Memᴰ detail tx.details
  pub receives : detail.is_receive ≡ true
  pub at_index : vout ≡ some detail.vout

same_vout_lem : (o : Option ℕ) (n : ℕ) → same_vout o n ≡ true → o ≡ some n
same_vout_lem none n h = absurd (ground arith)
same_vout_lem (some m) n h = rw ((==_iff n m).0 h) refl

find-Memᴰ :
    (p : WalletDetail → Bool) (ds : List WalletDetail) (d : WalletDetail)
    → find p ds ≡ some d
    → Memᴰ d ds
find-Memᴰ p [] d h = absurd (ground arith)
find-Memᴰ p (x ∷ ds) d h = elim (Bool-cases (p x)) [
  | inl hit ↦ head (grind arith)
  | inr miss ↦ tail (find-Memᴰ p ds d (grind arith))
]

confirmed_receive :
    (tx : WalletTransaction) (n : ℕ) (vout : Option ℕ) (d : WalletDetail)
    → confirmations_of tx.confirmations ≡ pos n
    → 0 < n
    → receive_at vout tx.details ≡ some d
    → IsConfirmedReceive tx n vout
unfolding receive_at
confirmed_receive tx n vout d in_chain once found =
    let test = λ (x : WalletDetail). x.is_receive && same_vout vout x.vout in
    let passed = find-test test tx.details d found in
    record {
      in_chain = in_chain;
      confirmed_once = once;
      detail = d;
      listed = find-Memᴰ test tx.details d found;
      receives = grind arith;
      at_index = same_vout_lem vout d.vout (grind arith);
    }

verified_lem :
    (finality_conf n : ℕ) (height : Result Text (Option ℕ))
    → (verified finality_conf n height).valid ≡ true
    → (0 < n)
      × ((verified finality_conf n height).confirmations ≡ some n)
      × IsConfidence finality_conf n (verified finality_conf n height).confidence
verified_lem finality_conf n (err message) h = absurd (ground arith)
verified_lem finality_conf n (ok height) h =
    (ltb→lt 0 n h, refl, confidence_for-IsConfidence finality_conf n)

-- An answer that stands on a confirmed receive of the transaction that the wallet answers.
abbrev pub Stands : ℕ → Option ℕ → Result Text WalletTransaction → VerifyResult → Type 0
Stands finality_conf vout transaction answer =
    (tx : WalletTransaction) × (n : ℕ) × (transaction ≡ ok tx)
    × IsConfirmedReceive tx n vout
    × (answer.confirmations ≡ some n)
    × IsConfidence finality_conf n answer.confidence

module _ (id : Text) (finality_conf : ℕ) (header : Text → Result Text ℕ) (tx : WalletTransaction)
    (vout : Option ℕ) where
  verify_output-Stands :
      (detail : Option WalletDetail) (n : ℕ)
      → receive_at vout tx.details ≡ detail
      → confirmations_of tx.confirmations ≡ pos n
      → let answer = verify_output id finality_conf header tx.blockhash detail n in
        answer.valid ≡ true → Stands finality_conf vout (ok tx) answer
  verify_output-Stands none n e f h = absurd (ground arith)
  verify_output-Stands (some detail) n e f h =
      let (confirmed_once, same, confidence) =
        verified_lem finality_conf n (height_of header (block_ref tx.blockhash)) h in
      (tx, n, refl, confirmed_receive tx n vout detail f confirmed_once e, same, confidence)

  verify_confirmed-Stands :
      (c : ℤ)
      → confirmations_of tx.confirmations ≡ c
      → let answer = verify_confirmed id finality_conf header tx (receive_at vout tx.details) c in
        answer.valid ≡ true → Stands finality_conf vout (ok tx) answer
  verify_confirmed-Stands (negsuc n) f h = absurd (ground arith)
  verify_confirmed-Stands (pos n) f h = verify_output-Stands (receive_at vout tx.details) n refl f h

verify_tx-Stands :
    (id : Text) (finality_conf : ℕ) (header : Text → Result Text ℕ) (vout : Option ℕ)
    (transaction : Result Text WalletTransaction)
    → let answer = verify_tx id finality_conf header vout transaction in
      answer.valid ≡ true → Stands finality_conf vout transaction answer
verify_tx-Stands id finality_conf header vout (err message) h = absurd (ground arith)
verify_tx-Stands id finality_conf header vout (ok tx) h =
    verify_confirmed-Stands id finality_conf header tx vout (confirmations_of tx.confirmations) refl
      h

verify_burn-Stands :
    (finality_conf : ℕ) (transaction : Text → Result Text WalletTransaction)
    (header : Text → Result Text ℕ) (id : Text)
    → let answer = verify_burn finality_conf transaction header id in
      let (txid, vout) = split_colon id in
      answer.valid ≡ true
      → (length txid ≡ 64) × Stands finality_conf (parse_vout vout) (transaction txid) answer
unfolding verify_burn
verify_burn-Stands finality_conf transaction header id h =
    let (txid, vout) = split_colon id in
    elim (Bool-cases (length txid == 64)) [
      | inr other ↦ absurd (grind arith)
      | inl long ↦
          let checked = verify_tx id finality_conf header (parse_vout vout) (transaction txid) in
          let same : verify_burn finality_conf transaction header id ≡ checked = rw long refl in
          (
            (==_iff (length txid) 64).0 long,
            subst (Stands finality_conf (parse_vout vout) (transaction txid)) (sym same) (
                verify_tx-Stands id finality_conf header (parse_vout vout) (transaction txid)
                  (ap (λ a. a.valid) (sym same) ∙ h)),
          )
    ]

-- If the id that a poll gives to an output is verified as valid, then the txid has 64 characters, and
-- the transaction of the wallet lists a detail by which it receives, at the index of that output; it
-- has the confirmations that are answered, of which there is at least one, with the confidence they
-- stand for. A txid has no colon.
pub verify_burn-valid :
    (finality_conf : ℕ) (transaction : Text → Result Text WalletTransaction)
    (header : Text → Result Text ℕ) (txid : Text) (vout : ℕ)
    → HasNoColon txid
    → let answer = verify_burn finality_conf transaction header (outpoint_of txid vout) in
      answer.valid ≡ true
      → (length txid ≡ 64) × Stands finality_conf (some vout) (transaction txid) answer
unfolding outpoint_of
verify_burn-valid finality_conf transaction header txid vout plain h =
    let id = txid ++ (b':' ∷ decimal vout) in
    let answer = verify_burn finality_conf transaction header id in
    let (long, stands) = verify_burn-Stands finality_conf transaction header id h in
    let parts = split_colon-outpoint txid vout plain in
    (
      ap length (sym (ap (λ t. t.0) parts)) ∙ long,
      subst (λ i. Stands finality_conf i (transaction txid) answer) (read_digits-decimal vout)
          (subst
            (λ parted. Stands finality_conf (parse_vout parted.1) (transaction parted.0) answer)
            parts stands),
    )
