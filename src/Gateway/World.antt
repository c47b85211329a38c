-- ===== src/Gateway/World.antt =====
-- btcsoq/gateway.ts: configuration, state and the calls to the outside. A method takes the world and
-- returns its result, or what it throws, with the world afterwards. Each call is put in front of the
-- trace, and its answer may depend on all calls before it.
use soqtec.Base.{
  ℕ, Bool, true, false, ◌&&◌, Option, List, [], ◌∷◌, Text, Dict, Result, ok, err, ltb, ◌===◌,
  if◌then◌else◌,
}
use soqtec.Chain.{BurnConfidence}
use soqtec.Store.{GatewayStore}
use soqtec.Scan.{ChainView}
use soqtec.Bitcoin.{BitcoinCea, SinceBlock, WalletTransaction}

-- The part of `BtcsoqConfig` that the modelled methods read.
pub record BtcsoqConfig : Type 0 where
  pub network : Text
  pub deposit_wallet : Text
  pub finality_conf : ℕ
  pub intent_ttl_hours : ℕ
  pub mint_signer_url : Text
  pub mint_signer_token : Text
  pub mint_from_address : Text
  pub redemption_address : Text
  pub carrier_shors : ℕ
  pub min_deposit_sats : ℕ
  pub attestation_address : Text
  pub max_daily_mint_sats : ℕ
  pub max_daily_release_sats : ℕ
  pub pause_file : Text
  pub convert_signer_url : Text
  pub convert_signer_token : Text
  pub convert_treasury_address : Text
  pub convert_usdsoq_address : Text
  pub convert_soq_shors : ℕ
  pub max_daily_convert_shors : ℕ
  pub ln402_lsp_url : Text
  pub ln402_seller_url : Text
  pub ln402_question : Text
  pub ln402_channel_address : Text

pub record MintRequest : Type 0 where
  pub recipient_address : Text
  pub amount : ℕ
  pub op_return_hex : Text
  pub from_address : Text

pub record BtcSend : Type 0 where
  pub address : Text
  pub sats : ℕ
  pub comment : Text

pub record WalletTx : Type 0 where
  pub is_send : Bool
  pub comment : Text
  pub txid : Text

pub record ConvertResult : Type 0 where
  pub payout_txid : Text
  pub amount_out : ℕ

pub record Challenge402 : Type 0 where
  pub invoice_id : Text
  pub amount_sat : ℕ
  pub seller_pub : Text

pub record Answer402 : Type 0 where
  pub answer : Text
  pub model : Text
  pub receipt : Text
  pub receipt_verified : Bool
  pub response_sha256 : Text

pub data InvoiceStatus : Type 0 where
  pending paid expired : InvoiceStatus

pub record SignedTx : Type 0 where
  pub complete : Bool
  pub hex : Text

pub record VaultBalance : Type 0 where
  pub confirmed_sats : ℕ
  pub pending_sats : ℕ

-- The calls that change something outside, and the chain scans, which they depend on; every other
-- read is a `query`.
pub data Call : Type 0 where
  query : Call
  scan_mint : Text → ℕ → Call
  send_mint : MintRequest → Call
  list_transactions : Call
  send_btc : BtcSend → Call
  sign_digest : Text → Text → Call
  convert_execute : Text → Text → Call
  ln_challenge : Call
  ln_status : Text → Call
  ln_pay : Text → Call
  ln_redeem : Text → Text → Call
  load_wallet : Text → Call
  new_address : Text → Call
  send_anchor : Text → Call

abbrev pub Trace : Type 0
Trace = List Call

-- What the outside answers: the clock, random ids, the file system, the Bitcoin node, the Soqucoin node, the Bitcoin wallets, the
-- gateway signer, the convert signer and the Lightning rail.
pub record Answers : Type 0 where
  pub now : Trace → ℕ
  pub file_exists : Trace → Text → Bool
  pub sha256 : List ℕ → List ℕ
  pub validate_address : Trace → Text → Result Text Bool
  pub tip_height : Trace → Result Text ℕ
  pub chain_view : Trace → Result Text ChainView
  pub send_btcsoq_mint : Trace → MintRequest → Result Text Text
  pub sign_digest : Trace → Text → Text → Result Text Text
  pub new_uuid : Trace → Text
  pub blockchain_info : Trace → Result Text ℕ
  pub list_wallets : Trace → Result Text (List Text)
  pub load_wallet : Trace → Text → Result Text (Unit {0})
  pub best_block_hash : Trace → Result Text Text
  pub list_since_block : Trace → Text → Result Text SinceBlock
  pub get_transaction : Trace → Text → Result Text WalletTransaction
  pub block_height : Trace → Text → Result Text ℕ
  pub tx_out_proof : Trace → Text → Option Text → Result Text Text
  pub verify_proof : Trace → Text → Result Text (List Text)
  pub new_address : Trace → Text → Result Text Text
  pub create_raw : Trace → Text → Result Text Text
  pub fund_raw : Trace → Text → Result Text Text
  pub sign_raw : Trace → Text → Result Text SignedTx
  pub send_raw : Trace → Text → Result Text Text
  pub vault_balance : Trace → Result Text VaultBalance
  pub list_transactions : Trace → Result Text (List WalletTx)
  pub send_to_address : Trace → BtcSend → Result Text Text
  pub convert_execute : Trace → Text → Text → Result Text ConvertResult
  pub ln_client : Trace → Result Text (Unit {0})
  pub ln_challenge : Trace → Result Text Challenge402
  pub ln_status : Trace → Text → Result Text InvoiceStatus
  pub ln_pay : Trace → Text → Result Text (Unit {0})
  pub ln_redeem : Trace → Text → Text → Result Text Answer402

pub record World : Type 0 where
  pub store : GatewayStore
  pub seen : Dict BurnConfidence
  pub por_halted : Bool
  pub minting_in_flight : List Text
  pub converting_in_flight : List Text
  pub ln402_in_flight : List Text
  pub money_loop_running : Bool
  pub anchoring : Bool
  pub cea : BitcoinCea
  pub trace : Trace

abbrev pub M : Type 0 → Type 0
M A = World → Result Text A × World

abbrev pub pure : {A : Type 0} → A → M A
pure a w = (ok a, w)

abbrev pub throw : {A : Type 0} → Text → M A
throw message w = (err message, w)

infixl 5 ◌>>=◌ ◌>>◌
abbrev pub ◌>>=◌ : {A B : Type 0} → M A → (A → M B) → M B
◌>>=◌ m f w = let (r, w') = m w in elim r [ ok a ↦ f a w' | err e ↦ (err e, w') ]

abbrev pub ◌>>◌ : {A B : Type 0} → M A → M B → M B
m >> k = m >>= λ _. k

-- `try { m } catch (err) { handler(err) }`; what was written before the throw stays.
abbrev pub catch : {A : Type 0} → M A → (Text → M A) → M A
catch m handler w = let (r, w') = m w in elim r [ ok a ↦ (ok a, w') | err e ↦ handler e w' ]

-- `try { m } finally { last }`, for a `last` that does not throw.
abbrev pub finally : {A : Type 0} → M A → (World → World) → M A
finally m last w = let (r, w') = m w in (r, last w')

abbrev pub gets : {A : Type 0} → (World → A) → M A
gets f w = (ok (f w), w)

abbrev pub modify : (World → World) → M (Unit {0})
modify f w = (ok tt, f w)

abbrev pub on_store : (GatewayStore → GatewayStore) → M (Unit {0})
on_store f w = (ok tt, record w { store = f w.store })

-- Make a call: its answer depends on the trace before it.
abbrev pub ask : {A : Type 0} → Call → (Trace → Result Text A) → M A
ask c f w = (f w.trace, record w { trace = c ∷ w.trace })

abbrev pub when : Bool → M (Unit {0}) → M (Unit {0})
when b m w = let (r, w') = m w in if b then (r, w') else (ok tt, w)

-- `for (const x of xs) await body(x)`
abbrev pub for_each : {A : Type 0} → List A → (A → M (Unit {0})) → M (Unit {0})
for_each [] body = pure tt
for_each (x ∷ xs) body = body x >> for_each xs body

unfoldable pub in_set : Text → List Text → Bool
in_set k [] = false
in_set k (j ∷ js) = let rest = in_set k js in if j === k then true else rest

-- `Set.delete`
unfoldable pub delete : Text → List Text → List Text
delete k [] = []
delete k (j ∷ js) = let rest = delete k js in if j === k then rest else j ∷ rest

-- `!!s` for a string.
abbrev pub truthy : Text → Bool
truthy [] = false
truthy (c ∷ s) = true

unfoldable pub money_loop_enabled : BtcsoqConfig → Bool
money_loop_enabled c =
    truthy c.mint_signer_url
    && (truthy c.mint_signer_token && (truthy c.mint_from_address && truthy c.redemption_address))

unfoldable pub convert_enabled : BtcsoqConfig → Bool
convert_enabled c =
    truthy c.convert_signer_url
    && (truthy c.convert_signer_token
        && (truthy c.convert_treasury_address
            && (truthy c.convert_usdsoq_address && ltb 0 c.convert_soq_shors)))

unfoldable pub ln402_enabled : BtcsoqConfig → Bool
ln402_enabled c =
    truthy c.ln402_lsp_url
    && (truthy c.ln402_seller_url && (truthy c.ln402_question && truthy c.ln402_channel_address))
