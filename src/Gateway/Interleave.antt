-- ===== src/Gateway/Interleave.antt =====
-- btcsoq/gateway.ts, `attemptMint`: several attempts at once. An attempt runs from one await to the
-- next; between two of its steps any other attempt may move. The attestation and the conversion leg
-- that follow a finalized mint are not steps here.
mod Orderly
mod Pools
mod Sound
mod Tests
use soqtec.Base.{
  ℕ, ◌≡◌, ◌+◌, Bool, true, false, Option, none, some, List, [], ◌∷◌, ◌++◌, Text, text, Result, ok,
  err, if◌then◌else◌, is_some,
}
use soqtec.Scan.{FoundMint}
use soqtec.Store.Records.{MintRecord}
use soqtec.Gateway.World.{
  Answers, BtcsoqConfig, World, M, pure, ask, gets, in_set, delete, send_mint, ◌>>=◌, ◌>>◌,
}
use soqtec.Gateway.Breaker.{mint_breaker_reason}
use soqtec.Gateway.Convert.{find_tagged, pays_other}
use soqtec.Gateway.Mint.{save_mint, show_minted, minted_record, mint_request, note_mint_error}

-- Where an attempt stands; `leaving` is the `finally` block.
pub data Phase : Type 0 where
  begins scanning leaving ended : Phase
  settling : Option FoundMint → Phase
  sending : MintRecord → Phase
  replied : MintRecord → Text → Phase
  failing : Text → Phase

pub record Task : Type 0 where
  pub rec : MintRecord
  pub phase : Phase

module _ (env : Answers) (config : BtcsoqConfig) where
  abbrev pub after_scan : Result Text (Option FoundMint) → Phase
  after_scan (ok found) = settling found
  after_scan (err message) = failing message

  abbrev after_send : MintRecord → Result Text Text → Phase
  after_send tried (ok txid) = replied tried txid
  after_send tried (err message) = failing message

  -- The world after the record of a mint is finalized.
  unfoldable pub finalized : MintRecord → Text → World → World
  finalized rec txid w =
      let done = minted_record env config rec txid (env.now w.trace) in
      (show_minted env config done txid (save_mint env config done w).1).1

  abbrev after_found : MintRecord → FoundMint → World → Phase × World
  after_found rec found w =
      if pays_other found.carrier_address rec.ssq_address
      then (
        leaving,
        (save_mint env config
            (record rec {
              last_error = some (text "carrier address mismatch on recovered mint " ++ found.txid);
            })
            w).1,
      )
      else (leaving, finalized rec found.txid w)

  -- One step of an attempt.
  unfoldable pub advance : MintRecord → Phase → World → Phase × World
  advance rec begins w =
      if in_set rec.key w.minting_in_flight
      then (ended, w)
      else if is_some (mint_breaker_reason env config rec.sats w)
      then (ended, w)
      else (scanning, record w { minting_in_flight = rec.key ∷ w.minting_in_flight })
  advance rec scanning w =
      let (r, w') = find_tagged env config rec.op_return_hex rec.claim_height w in
      (after_scan r, w')
  advance rec (settling (some found)) w = after_found rec found w
  advance rec (settling none) w =
      let tried = record rec { attempts = rec.attempts + 1 } in
      (sending tried, (save_mint env config tried w).1)
  advance rec (sending tried) w =
      let req = mint_request env config tried in
      let (r, w') = ask (send_mint req) (λ t. env.send_btcsoq_mint t req) w in
      (after_send tried r, w')
  advance rec (replied tried txid) w = (leaving, finalized tried txid w)
  advance rec (failing message) w = (leaving, (note_mint_error env config rec.key message w).1)
  advance rec leaving w =
      (ended, record w { minting_in_flight = delete rec.key w.minting_in_flight })
  advance rec ended w = (ended, w)

pub record Pool : Type 0 where
  pub tasks : List Task
  pub world : World

-- A new attempt starts, or one of the attempts moves. The tag of a record is a function of its key.
pub data Step (env : Answers) (config : BtcsoqConfig) (tag_of : Text → Text)
    : Pool → Pool → Type 0 where
  starts :
      (rec : MintRecord) (tasks : List Task) (w : World)
      → rec.op_return_hex ≡ tag_of rec.key
      → Step env config tag_of
          (record { tasks = tasks; world = w })
          (record { tasks = record { rec = rec; phase = begins } ∷ tasks; world = w })
  moves :
      (before after : List Task) (t : Task) (w : World)
      → Step env config tag_of
          (record { tasks = before ++ (t ∷ after); world = w })
          (record {
            tasks = before ++ (record t { phase = (advance env config t.rec t.phase w).0 } ∷ after);
            world = (advance env config t.rec t.phase w).1;
          })

pub data Steps (env : Answers) (config : BtcsoqConfig) (tag_of : Text → Text)
    : Pool → Pool → Type 0 where
  here : (p : Pool) → Steps env config tag_of p p
  next :
      (p q r : Pool)
      → Steps env config tag_of p q
      → Step env config tag_of q r
      → Steps env config tag_of p r
