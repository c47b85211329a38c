-- ===== src/Receipt.antt =====
-- relayer/src/btcsoq/receipt.ts: the OP_RETURN tag of a receipt. A Buffer is a list of bytes, a
-- string the list of its character codes. SHA-256 is node's, an argument where it is used.
pub mod Bytes
pub mod Codec
pub mod Script
mod Tests
use soqtec.Base.{
  ℕ, ◌+◌, ◌*◌, ◌%◌, ◌^◌, Bool, ◌&&◌, ◌||◌, not, Option, none, some, List, [], ◌∷◌, ◌++◌, map, Text,
  length, take, drop, Result, ok, err, ltb, leb, ◌==◌, ◌===◌, if◌then◌else◌,
}
use soqtec.Base.Int.{ℤ, pos, negsuc}
use Bytes.{to_hex, from_hex, le_bytes, of_le, is_lower_hex, digit_value, trim_lower}

pub data BtcsoqTagOp : Type 0 where
  mint redeem convert : BtcsoqTagOp

pub record BtcsoqTag : Type 0 where
  pub op : BtcsoqTagOp
  pub sats : ℕ
  pub btc_txid : Text
  pub vout : ℕ
  pub payout_commit : Option Text

-- What the codec throws: its own errors, and node's RangeError of `writeUInt32LE`.
pub data TagError : Type 0 where
  malformed_txid sats_range vout_range push_too_long : TagError

-- "BSQ1"
abbrev pub bsq_magic : List ℕ
bsq_magic = 0x42 ∷ 0x53 ∷ 0x51 ∷ 0x31 ∷ []

abbrev pub bsq_tag_len : ℕ
bsq_tag_len = 49

abbrev pub bsq_payout_commit_len : ℕ
bsq_payout_commit_len = 20

abbrev pub bsq_tag_len_redeem_bound : ℕ
bsq_tag_len_redeem_bound = bsq_tag_len + bsq_payout_commit_len

abbrev pub op_byte : BtcsoqTagOp → ℕ
op_byte mint = 0x4d
op_byte redeem = 0x52
op_byte convert = 0x43

-- `Object.entries(OP_BYTE).find(([, b]) => b === opByte)`
abbrev pub op_of_byte : ℕ → Option BtcsoqTagOp
op_of_byte b =
    if op_byte mint == b
    then some mint
    else if op_byte redeem == b
    then some redeem
    else if op_byte convert == b
    then some convert
    else none

-- `/^[0-9a-f]{64}$/`
unfoldable pub is_txid : Text → Bool
is_txid s = is_lower_hex s && length s == 64

-- The four writes of `encodeTag` fill the buffer of 49 bytes.
unfoldable pub tag_bytes : BtcsoqTagOp → ℕ → Text → ℕ → List ℕ
tag_bytes op sats btc_txid vout =
    bsq_magic ++ (op_byte op ∷ (le_bytes 8 sats ++ (from_hex btc_txid ++ le_bytes 4 vout)))

-- The range guard of `encodeTag`; `sats` is a bigint.
abbrev pub sats_in_u64 : ℤ → Option ℕ
sats_in_u64 (negsuc n) = none
sats_in_u64 (pos n) = if ltb n (2 ^ 64) then some n else none

unfoldable pub encode_tag : BtcsoqTagOp → ℤ → Text → ℕ → Result TagError (List ℕ)
encode_tag op sats btc_txid vout =
    if not (is_txid btc_txid) then err malformed_txid else elim (sats_in_u64 sats) [
      | none ↦ err sats_range
      | some n ↦ if ltb vout (2 ^ 32) then ok (tag_bytes op n btc_txid vout) else err vout_range
    ]

-- The first 20 bytes of SHA-256 of the address, trimmed and lowercased.
unfoldable pub payout_commit : (List ℕ → List ℕ) → Text → Text
payout_commit sha256 btc_payout_address =
    take (bsq_payout_commit_len * 2) (to_hex (sha256 (trim_lower btc_payout_address)))

unfoldable pub encode_redeem_tag :
    (List ℕ → List ℕ) → ℤ → Text → ℕ → Text → Result TagError (List ℕ)
encode_redeem_tag sha256 sats btc_txid vout btc_payout_address =
    elim (encode_tag redeem sats btc_txid vout) [
      | ok base ↦ ok (base ++ from_hex (payout_commit sha256 btc_payout_address))
      | err e ↦ err e
    ]

-- `buf.toString('ascii', 0, 4)`: node clears the top bit of each byte.
abbrev pub ascii : List ℕ → Text
ascii = map (λ b. b % 128)

abbrev pub read_op : List ℕ → Option BtcsoqTagOp
read_op [] = none
read_op (b ∷ rest) = op_of_byte b

unfoldable pub decode_fields : List ℕ → BtcsoqTagOp → BtcsoqTag
decode_fields buf op = record {
  op = op;
  sats = of_le (take 8 (drop 5 buf));
  btc_txid = to_hex (take 32 (drop 13 buf));
  vout = of_le (take 4 (drop 45 buf));
  payout_commit =
      if length buf == bsq_tag_len_redeem_bound then some (to_hex (drop bsq_tag_len buf)) else none;
}

abbrev pub is_redeem : BtcsoqTagOp → Bool
is_redeem redeem = Bool.true
is_redeem _ = Bool.false

unfoldable pub decode_tag : List ℕ → Option BtcsoqTag
decode_tag buf =
    if not (length buf == bsq_tag_len || length buf == bsq_tag_len_redeem_bound)
    then none
    else if not (ascii (take 4 buf) === bsq_magic)
    then none
    else elim (read_op (drop 4 buf)) [
      | none ↦ none
      | some op ↦
          if length buf == bsq_tag_len_redeem_bound && not (is_redeem op)
          then none
          else some (decode_fields buf op)
    ]

-- OP_RETURN, the length as two hex digits, the payload. The length is below 0x4c, so that
-- `toString(16).padStart(2, '0')` is the hex of one byte.
unfoldable pub tag_script_hex : List ℕ → Result TagError Text
tag_script_hex payload =
    if leb 0x4c (length payload)
    then err push_too_long
    else ok (b'6' ∷ b'a' ∷ (to_hex (length payload ∷ []) ++ to_hex payload))

-- `parseInt` of two characters: a number of two digits, of one, or what is below 16 or NaN, which
-- no test below accepts.
abbrev pub parse_len : Option ℕ → Option ℕ → ℕ
parse_len (some hi) (some lo) = 16 * hi + lo
parse_len (some hi) none = hi
parse_len none lo = 0

unfoldable pub tag_from_script_hex : Text → Option BtcsoqTag
tag_from_script_hex (a ∷ b ∷ c ∷ d ∷ rest) =
    let len_byte = parse_len (digit_value c) (digit_value d) in
    if not (a == b'6' && b == b'a')
    then none
    else if not (len_byte == bsq_tag_len || len_byte == bsq_tag_len_redeem_bound)
    then none
    else decode_tag (from_hex rest)
tag_from_script_hex short = none
