-- ===== src/Store.antt =====
-- relayer/src/btcsoq/store.ts: the JSON-file store of the gateway. The state in memory and the file
-- are two fields; `persist` writes each field of the first into the second, and a restart reads the
-- file back field by field. That `JSON.parse` gives back what `JSON.stringify` was given is taken for
-- granted.
pub mod Records
pub mod Laws
mod Tests
use soqtec.Base.{
  ℕ, ◌+◌, Bool, true, false, ◌&&◌, not, Option, none, some, List, [], ◌∷◌, Text, text, Dict, lookup,
  insert, values, sort_desc, find, length, take, ltb, ◌==◌, ◌===◌, if◌then◌else◌, is_some,
}
use soqtec.Chain.{BurnConfidence}
use Records.{
  BtcIntent, IntentKind, deposit, redeem, MintRecord, ConvertRecord, Ln402Record, DepositRecord,
  AttestationRecord, AnchorRecord,
}

pub record GatewayState : Type 0 where
  pub intents : Dict BtcIntent
  pub deposits : Dict DepositRecord
  pub mints : Dict MintRecord
  pub converts : Dict ConvertRecord
  pub ln402 : Dict Ln402Record
  pub attestations : Dict AttestationRecord
  pub anchors : List AnchorRecord
  pub poll_cursor : Option Text
  pub soq_scan_height : Option ℕ

abbrev pub empty_state : GatewayState
empty_state = record {
  intents = [];
  deposits = [];
  mints = [];
  converts = [];
  ln402 = [];
  attestations = [];
  anchors = [];
  poll_cursor = none;
  soq_scan_height = none;
}

-- `meta` of the state.
pub record StateMeta : Type 0 where
  pub poll_cursor : Option Text
  pub soq_scan_height : Option ℕ

-- What the JSON file is parsed to; an older file may lack a field.
pub record SavedState : Type 0 where
  pub intents : Option (Dict BtcIntent)
  pub deposits : Option (Dict DepositRecord)
  pub mints : Option (Dict MintRecord)
  pub converts : Option (Dict ConvertRecord)
  pub ln402 : Option (Dict Ln402Record)
  pub attestations : Option (Dict AttestationRecord)
  pub anchors : Option (List AnchorRecord)
  pub meta : Option StateMeta

-- `file` is what the JSON file is parsed to, if it is there.
pub record GatewayStore : Type 0 where
  pub state : GatewayState
  pub file : Option SavedState

abbrev pub new_store : Option SavedState → GatewayStore
new_store file = record { state = empty_state; file = file }

-- `field || {}` and `field || []`
abbrev or_empty {ℓ} : {A : Type ℓ} → Option (List A) → List A
or_empty none = []
or_empty (some xs) = xs

abbrev or_no_meta : Option StateMeta → StateMeta
or_no_meta none = record { poll_cursor = none; soq_scan_height = none }
or_no_meta (some meta) = meta

-- The state of a parsed file.
unfoldable pub parsed_state : SavedState → GatewayState
parsed_state parsed =
    let meta = or_no_meta parsed.meta in
    record {
      intents = or_empty parsed.intents;
      deposits = or_empty parsed.deposits;
      mints = or_empty parsed.mints;
      converts = or_empty parsed.converts;
      ln402 = or_empty parsed.ln402;
      attestations = or_empty parsed.attestations;
      anchors = or_empty parsed.anchors;
      poll_cursor = meta.poll_cursor;
      soq_scan_height = meta.soq_scan_height;
    }

-- A missing file leaves the empty state.
unfoldable pub load : GatewayStore → GatewayStore
unfolding parsed_state
load s = elim s.file [ none ↦ s | some parsed ↦ record s { state = parsed_state parsed } ]

-- Every field of the state is written.
unfoldable pub saved_state : GatewayState → SavedState
saved_state state = record {
  intents = some state.intents;
  deposits = some state.deposits;
  mints = some state.mints;
  converts = some state.converts;
  ln402 = some state.ln402;
  attestations = some state.attestations;
  anchors = some state.anchors;
  meta = some (record { poll_cursor = state.poll_cursor; soq_scan_height = state.soq_scan_height });
}

abbrev pub persist : GatewayState → GatewayStore
persist state = record { state = state; file = some (saved_state state) }

-- A process that stops and starts again: what is left is the file.
unfoldable pub restart : GatewayStore → GatewayStore
unfolding load
restart s = load (new_store s.file)

unfoldable pub put_intent : BtcIntent → GatewayStore → GatewayStore
put_intent i s = persist (record (s.state) { intents = insert i.id i s.state.intents })

unfoldable pub get_intent : Text → GatewayStore → Option BtcIntent
get_intent id s = lookup id s.state.intents

abbrev pub is_deposit : IntentKind → Bool
is_deposit deposit = true
is_deposit redeem = false

abbrev pub has_text : Text → Option Text → Bool
has_text t none = false
has_text t (some u) = u === t

unfoldable pub find_deposit_intent_by_address : Text → GatewayStore → Option BtcIntent
find_deposit_intent_by_address address s =
    find (λ i. is_deposit i.kind && has_text address i.btc_deposit_address) (values s.state.intents)

unfoldable pub list_intents : GatewayStore → List BtcIntent
list_intents s = sort_desc (λ i. i.created_at) (values s.state.intents)

unfoldable pub put_deposit : DepositRecord → GatewayStore → GatewayStore
put_deposit d s = persist (record (s.state) { deposits = insert d.key d s.state.deposits })

unfoldable pub get_deposit : Text → GatewayStore → Option DepositRecord
get_deposit key s = lookup key s.state.deposits

unfoldable pub list_deposits : GatewayStore → List DepositRecord
list_deposits s = sort_desc (λ d. d.first_seen_at) (values s.state.deposits)

-- The claims answer false, and change nothing, if there is any record under the key.
unfoldable pub claim_mint : MintRecord → GatewayStore → Bool × GatewayStore
claim_mint rec s =
    if is_some (lookup rec.key s.state.mints)
    then (false, s)
    else (true, persist (record (s.state) { mints = insert rec.key rec s.state.mints }))

-- `now` is `Date.now()`.
unfoldable pub put_mint : ℕ → MintRecord → GatewayStore → GatewayStore
put_mint now rec s =
    persist
      (record (s.state) { mints = insert rec.key (record rec { updated_at = now }) s.state.mints })

unfoldable pub get_mint : Text → GatewayStore → Option MintRecord
get_mint key s = lookup key s.state.mints

unfoldable pub list_mints : GatewayStore → List MintRecord
list_mints s = sort_desc (λ m. m.created_at) (values s.state.mints)

-- The parts of a text before the first `:`, and between the first and the second.
unfoldable pub split_colon : Text → Text × Option Text
split_colon [] = ([], none)
split_colon (c ∷ s) =
    let (first, second) = split_colon s in
    if c == b':' then ([], some first) else (c ∷ first, second)

-- A carrier is always output 0.
unfoldable pub find_mint_by_carrier : Text → GatewayStore → Option MintRecord
find_mint_by_carrier outpoint s =
    let (txid, vout) = split_colon outpoint in
    if not (has_text (text "0") vout)
    then none
    else find (λ m. has_text txid m.mint_txid) (values s.state.mints)

unfoldable pub claim_convert : ConvertRecord → GatewayStore → Bool × GatewayStore
claim_convert rec s =
    if is_some (lookup rec.key s.state.converts)
    then (false, s)
    else (true, persist (record (s.state) { converts = insert rec.key rec s.state.converts }))

unfoldable pub put_convert : ℕ → ConvertRecord → GatewayStore → GatewayStore
put_convert now rec s = persist (record (s.state) {
  converts = insert rec.key (record rec { updated_at = now }) s.state.converts;
})

unfoldable pub get_convert : Text → GatewayStore → Option ConvertRecord
get_convert key s = lookup key s.state.converts

unfoldable pub list_converts : GatewayStore → List ConvertRecord
list_converts s = sort_desc (λ c. c.created_at) (values s.state.converts)

unfoldable pub claim_ln402 : Ln402Record → GatewayStore → Bool × GatewayStore
claim_ln402 rec s =
    if is_some (lookup rec.key s.state.ln402)
    then (false, s)
    else (true, persist (record (s.state) { ln402 = insert rec.key rec s.state.ln402 }))

unfoldable pub put_ln402 : ℕ → Ln402Record → GatewayStore → GatewayStore
put_ln402 now rec s =
    persist
      (record (s.state) { ln402 = insert rec.key (record rec { updated_at = now }) s.state.ln402 })

unfoldable pub get_ln402 : Text → GatewayStore → Option Ln402Record
get_ln402 key s = lookup key s.state.ln402

unfoldable pub list_ln402 : GatewayStore → List Ln402Record
list_ln402 s = sort_desc (λ r. r.created_at) (values s.state.ln402)

-- `unshift`, then `pop` above 50 entries.
unfoldable pub put_anchor : AnchorRecord → GatewayStore → GatewayStore
put_anchor rec s =
    let anchors = rec ∷ s.state.anchors in
    persist (record (s.state) {
      anchors = if ltb 50 (length anchors) then take (length s.state.anchors) anchors else anchors;
    })

abbrev pub head? {ℓ} : {A : Type ℓ} → List A → Option A
head? [] = none
head? (a ∷ rest) = some a

unfoldable pub last_anchor : GatewayStore → Option AnchorRecord
last_anchor s = head? s.state.anchors

unfoldable pub put_attestation : AttestationRecord → GatewayStore → GatewayStore
put_attestation a s =
    persist (record (s.state) { attestations = insert a.id a s.state.attestations })

unfoldable pub get_attestation : Text → GatewayStore → Option AttestationRecord
get_attestation id s = lookup id s.state.attestations

unfoldable pub list_attestations : GatewayStore → List AttestationRecord
list_attestations s = sort_desc (λ a. a.ts) (values s.state.attestations)

unfoldable pub set_poll_cursor : Text → GatewayStore → GatewayStore
set_poll_cursor cursor s = persist (record (s.state) { poll_cursor = some cursor })

unfoldable pub set_soq_scan_height : ℕ → GatewayStore → GatewayStore
set_soq_scan_height height s = persist (record (s.state) { soq_scan_height = some height })
