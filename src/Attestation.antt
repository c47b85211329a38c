-- ===== src/Attestation.antt =====
-- relayer/src/btcsoq/attestation.ts: the signed string of a money event. `JSON.stringify` is written
-- out for an object of texts, numbers and one inner object.
use soqtec.Base.{
  ℕ, zero, suc, ◌+◌, ◌/◌, ◌%◌, Option, none, some, List, [], ◌∷◌, ◌++◌, Text, text, ltb, ◌==◌,
  if◌then◌else◌,
}
use soqtec.Receipt.Bytes.{to_hex}
use soqtec.Store.Records.{
  AttestedEventKind, deposit_confirmed, receipt_minted, receipt_returned, btc_released,
  converted_usdsoq, lightning_paid,
}

pub data DetailValue : Type 0 where
  word : Text → DetailValue
  number : ℕ → DetailValue

pub record AttestationFields : Type 0 where
  pub kind : AttestedEventKind
  pub network : Text
  pub key : Text
  pub intent_id : Text
  pub ssq_address : Text
  pub sats : ℕ
  pub txid : Text
  pub ts : ℕ
  pub detail : Option (List (Text × DetailValue))

abbrev pub kind_name : AttestedEventKind → Text
kind_name deposit_confirmed = text "deposit-confirmed"
kind_name receipt_minted = text "receipt-minted"
kind_name receipt_returned = text "receipt-returned"
kind_name btc_released = text "btc-released"
kind_name converted_usdsoq = text "converted-usdsoq"
kind_name lightning_paid = text "lightning-paid"

-- The digits of a number; it has at most as many as its value, and one more.
unfoldable pub decimal_fuel : ℕ → ℕ → Text
decimal_fuel zero n = []
decimal_fuel (suc fuel) n =
    let high = decimal_fuel fuel (n / 10) in
    if ltb n 10 then (48 + n) ∷ [] else high ++ ((48 + n % 10) ∷ [])

unfoldable pub decimal : ℕ → Text
unfolding decimal_fuel
decimal n = decimal_fuel (suc n) n

-- One character inside a JSON string.
unfoldable pub json_char : ℕ → Text
json_char c =
    if c == b'"'
    then 92 ∷ b'"' ∷ []
    else if c == 92
    then 92 ∷ 92 ∷ []
    else if c == 8
    then 92 ∷ b'b' ∷ []
    else if c == 9
    then 92 ∷ b't' ∷ []
    else if c == 10
    then 92 ∷ b'n' ∷ []
    else if c == 12
    then 92 ∷ b'f' ∷ []
    else if c == 13
    then 92 ∷ b'r' ∷ []
    else if ltb c 32
    then 92 ∷ b'u' ∷ b'0' ∷ b'0' ∷ to_hex (c ∷ [])
    else c ∷ []

unfoldable pub json_chars : Text → Text
unfolding json_char
json_chars [] = []
json_chars (c ∷ s) = json_char c ++ json_chars s

unfoldable pub json_string : Text → Text
unfolding json_chars
json_string s = b'"' ∷ (json_chars s ++ (b'"' ∷ []))

abbrev pub json_value : DetailValue → Text
json_value (word s) = json_string s
json_value (number n) = decimal n

-- `"name":value`
abbrev pub json_field : Text → Text → Text
json_field name value = json_string name ++ (b':' ∷ value)

abbrev commas : List Text → Text
commas [] = []
commas (x ∷ []) = x
commas (x ∷ y ∷ rest) = x ++ (b',' ∷ commas (y ∷ rest))

abbrev pub json_object : List Text → Text
json_object fields = b'{' ∷ (commas fields ++ (b'}' ∷ []))

abbrev detail_fields : List (Text × DetailValue) → List Text
detail_fields [] = []
detail_fields ((name, v) ∷ rest) = json_field name (json_value v) ∷ detail_fields rest

abbrev detail_part : Option (List (Text × DetailValue)) → List Text
detail_part none = []
detail_part (some d) = json_field (text "detail") (json_object (detail_fields d)) ∷ []

unfoldable pub build_payload : AttestationFields → Text
unfolding json_string decimal
build_payload f = json_object (
    json_field (text "v") (decimal 1)
    ∷ json_field (text "asset") (json_string (text "BTCSOQ"))
    ∷ json_field (text "kind") (json_string (kind_name f.kind))
    ∷ json_field (text "network") (json_string f.network)
    ∷ json_field (text "key") (json_string f.key)
    ∷ json_field (text "intentId") (json_string f.intent_id)
    ∷ json_field (text "ssqAddress") (json_string f.ssq_address)
    ∷ json_field (text "sats") (decimal f.sats)
    ∷ json_field (text "txid") (json_string f.txid)
    ∷ json_field (text "ts") (decimal f.ts)
    ∷ detail_part f.detail)

-- The characters of a payload are ASCII where its fields are, so UTF-8 leaves them as they are.
unfoldable pub sha256_hex : (List ℕ → List ℕ) → Text → Text
sha256_hex sha256 s = to_hex (sha256 s)

-- `${kind}:${key}`
unfoldable pub attestation_id : AttestedEventKind → Text → Text
attestation_id kind key = kind_name kind ++ (b':' ∷ key)
