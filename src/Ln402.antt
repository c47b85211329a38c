-- ===== src/Ln402.antt =====
-- relayer/src/btcsoq/ln402.ts: the client of the Lightning provider (LSP) and of the sellers. The
-- answers of both, the file system and the clock are parameters; an answer may depend on every call
-- made before it. An answer that is no JSON, or has an error status, is a throw.
pub mod Receipt
pub mod Calls
mod Pays
pub mod Race
mod View
mod Tests
use soqtec.Base.{
  ℕ, ◌+◌, ◌-◌, Bool, true, false, ◌&&◌, ◌||◌, not, Option, none, some, List, [], ◌∷◌, ◌++◌, Text,
  text, Result, ok, err, ltb, leb, ◌==◌, ◌===◌, if◌then◌else◌,
}
use soqtec.Base.Int.{ℤ, pos, negsuc}
use soqtec.Base.Effects.{Effect, pure, throw, catch, gets, modify, ◌>>=◌, ◌>>◌}
use Receipt.{SignedReceipt, verify_receipt, Crypto}

pub record Ln402Config : Type 0 where
  pub question : Text
  pub seller_url : Text
  pub channel_address : Text
  pub channel_pubkey_hex : Text
  pub channel_capacity_shors : ℕ

pub record LnChannelState : Type 0 where
  pub channel_id : Text
  pub address : Text
  pub created_at : ℕ

pub record Invoice : Type 0 where
  pub status : Text
  pub amount_sat : ℕ

pub record Channel : Type 0 where
  pub state : Text
  pub state_index : ℕ
  pub initiator_balance_sat : ℕ
  pub peer_balance_sat : ℕ

pub record PayRequest : Type 0 where
  pub invoice_id : Text
  pub channel_id : Text
  pub state_index : ℕ
  pub initiator_balance_sat : ℤ
  pub peer_balance_sat : ℕ

-- `accepted` or `success`, with the id of the channel and the reason of a refusal.
pub record LspAnswer : Type 0 where
  pub accepted : Bool
  pub channel_id : Option Text
  pub reject_reason : Text

pub record Challenge402 : Type 0 where
  pub invoice_id : Text
  pub amount_sat : ℕ
  pub seller_pub : Text

pub record SellerAnswer : Type 0 where
  pub status : ℕ
  pub payment : Option Challenge402
  pub answer : Text
  pub model : Option Text
  pub receipt : Option SignedReceipt

pub record Answer402 : Type 0 where
  pub answer : Text
  pub model : Text
  pub receipt : SignedReceipt
  pub receipt_verified : Bool
  pub response_sha256 : Text

pub data LspCall : Type 0 where
  get_invoice : Text → LspCall
  get_channel : Text → LspCall
  faucet : LspCall
  open_channel : Text → Text → ℕ → LspCall
  create_invoice : Text → ℕ → LspCall
  pay : PayRequest → LspCall
  ask_seller : Option Text → Text → Text → LspCall
  write_file : LnChannelState → LspCall

abbrev pub Calls : Type 0
Calls = List LspCall

pub record Lsp : Type 0 where
  pub crypto : Crypto
  pub now : Calls → ℕ
  pub get_invoice : Calls → Text → Result Text Invoice
  pub get_channel : Calls → Text → Result Text Channel
  pub faucet : Calls → Result Text LspAnswer
  pub open_channel : Calls → Text → Text → ℕ → Result Text LspAnswer
  pub create_invoice : Calls → Text → ℕ → Result Text (Option Text)
  pub pay : Calls → PayRequest → Result Text LspAnswer
  pub seller : Calls → Option Text → Text → Text → Result Text SellerAnswer
  pub write_file : Calls → LnChannelState → Result Text (Unit {0})

-- `channel` and `payeeChannel` with the contents of their files, which may be unreadable.
pub record Client : Type 0 where
  pub channel : Option LnChannelState
  pub channel_file : Result Text LnChannelState
  pub payee : Option LnChannelState
  pub payee_file : Result Text LnChannelState
  pub calls : Calls

abbrev pub C : Type 0 → Type 0
C A = Effect Client A

abbrev pub call : {A : Type 0} → LspCall → (Calls → Result Text A) → C A
call c f s = (f s.calls, record s { calls = c ∷ s.calls })

abbrev pub is_open : Channel → Bool
is_open ch = ch.state === text "open"
