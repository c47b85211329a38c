-- ===== src/Receipt/Tests.antt =====
-- btcsoq/receipt.ts on a deposit of 100000 sats at output 1.
use soqtec.Base.{
  ℕ, ◌<◌, ◌^◌, ◌↔◌, ◌≡◌, refl, inl, true, none, some, List, [], ◌∷◌, ◌++◌, Text, text, length, all,
  ltb, take, All, ok, arith,
}
use soqtec.Base.Int.{pos}
use soqtec.Receipt.{
  mint, redeem, encode_tag, encode_redeem_tag, tag_bytes, decode_tag, payout_commit, is_txid,
  tag_script_hex, tag_from_script_hex,
}
use soqtec.Receipt.Bytes.{
  IsByte, to_hex, from_hex, is_lower_hex, le_bytes, trim_lower, hex_digit, digit_value,
}
use soqtec.Receipt.Codec.{
  IsLowerHex, tag_of, encode_tag_iff, decode_tag-encode_tag, decode_tag-encode_redeem_tag,
}
use soqtec.Receipt.Script.{tag_from_script_hex-tag_script_hex}

abbrev txid : Text
txid = text "00ff00ff00ff00ff00ff00ff00ff00ff00ff00ff00ff00ff00ff00ff00ff00ff"

abbrev address : Text
address = text " bc1QADDRESS "

-- A hash that returns 32 bytes.
abbrev sha256 : List ℕ → List ℕ
sha256 m = take 32 (
    7 ∷ 7 ∷ 7 ∷ 7 ∷ 7 ∷ 7 ∷ 7 ∷ 7 ∷ 1 ∷ 1 ∷ 1 ∷ 1 ∷ 1 ∷ 1 ∷ 1 ∷ 1 ∷ 7 ∷ 7 ∷ 7 ∷ 7 ∷ 7 ∷ 7 ∷ 7 ∷ 7
    ∷ 1 ∷ 1 ∷ 1 ∷ 1 ∷ 1 ∷ 1 ∷ 1 ∷ 1 ∷ [])

abbrev tag : List ℕ
tag = tag_bytes mint 100000 txid 1

all_bytes : (xs : List ℕ) → all (λ b. ltb b 256) xs ≡ true → All IsByte xs
all_bytes [] h = tt
all_bytes (x ∷ xs) h = (ground arith, all_bytes xs (ground arith))

encodes : encode_tag mint (pos 100000) txid 1 ≡ ok tag
unfolding encode_tag is_txid is_lower_hex
encodes = refl

decode_tag-encode_tag_example :
    (n : ℕ) × (pos 100000 ≡ pos n) × (decode_tag tag ≡ some (tag_of mint n txid 1 none))
decode_tag-encode_tag_example = decode_tag-encode_tag mint (pos 100000) txid 1 encodes

encode_tag_iff_example : ((buf : List ℕ) × (encode_tag mint (pos 100000) txid 1 ≡ ok buf)) ↔ (
    (n : ℕ) × (pos 100000 ≡ pos n)
    × (n < 2 ^ 64)
    × (length txid ≡ 64)
    × All IsLowerHex txid
    × (1 < 2 ^ 32))
encode_tag_iff_example = encode_tag_iff mint (pos 100000) txid 1

sha256_digest : (m : List ℕ) → (length (sha256 m) ≡ 32) × All IsByte (sha256 m)
sha256_digest m = ground arith

abbrev bound_tag : List ℕ
bound_tag = tag_bytes redeem 100000 txid 1 ++ from_hex (payout_commit sha256 address)

encodes_bound : encode_redeem_tag sha256 (pos 100000) txid 1 address ≡ ok bound_tag
unfolding encode_redeem_tag encode_tag is_txid is_lower_hex
encodes_bound = refl

decode_tag-encode_redeem_tag_example :
    (n : ℕ) × (pos 100000 ≡ pos n)
    × (length bound_tag ≡ 69)
    × (decode_tag bound_tag ≡ some (tag_of redeem n txid 1 (some (payout_commit sha256 address))))
decode_tag-encode_redeem_tag_example =
    decode_tag-encode_redeem_tag sha256 sha256_digest (pos 100000) txid 1 address encodes_bound

tag_bytes_bytes : All IsByte tag × (length tag ≡ 49)
unfolding tag_bytes le_bytes from_hex digit_value
tag_bytes_bytes = (all_bytes tag refl, refl)

abbrev script : Text
script = b'6' ∷ b'a' ∷ (to_hex (49 ∷ []) ++ to_hex tag)

makes_script : tag_script_hex tag ≡ ok script
unfolding tag_script_hex tag_bytes le_bytes from_hex digit_value
makes_script = refl

tag_from_script_hex-tag_script_hex_example : tag_from_script_hex script ≡ decode_tag tag
tag_from_script_hex-tag_script_hex_example =
    tag_from_script_hex-tag_script_hex tag tag_bytes_bytes.0 (inl tag_bytes_bytes.1) makes_script

-- A push that announces 49 bytes and carries the 69 of a bound tag.
bound_bytes : All IsByte bound_tag
unfolding tag_bytes le_bytes from_hex digit_value payout_commit to_hex hex_digit trim_lower
bound_bytes = all_bytes bound_tag refl
