-- ===== src/Receipt/Script.antt =====
-- btcsoq/receipt.ts: tags inside the OP_RETURN scripts of the chain, as the scanner matches them.
use soqtec.Base.{
  ℕ, ◌<◌, ◌≡◌, refl, ap, ◌⊎◌, inl, inr, List, [], ◌∷◌, ◌++◌, Text, length, All, ok, arith,
}
use soqtec.Receipt.{decode_tag, tag_script_hex, tag_from_script_hex}
use soqtec.Receipt.Bytes.{IsByte, to_hex, from_hex-to_hex, hex_digit, digit_value}

script_text :
    (payload : List ℕ) {script : Text} (n : ℕ)
    → n < 0x4c
    → length payload ≡ n
    → tag_script_hex payload ≡ ok script
    → script ≡ b'6' ∷ b'a' ∷ (to_hex (n ∷ []) ++ to_hex payload)
unfolding tag_script_hex
script_text payload n small len e = ground arith

-- A script in which a push of 49 or 69 bytes is announced and any payload follows. The scan decodes
-- the payload whether or not it has the announced length.
pub tag_from_script_hex-push :
    (n : ℕ) (payload : List ℕ)
    → (n ≡ 49) ⊎ (n ≡ 69)
    → All IsByte payload
    → tag_from_script_hex (b'6' ∷ b'a' ∷ (to_hex (n ∷ []) ++ to_hex payload)) ≡ decode_tag payload
unfolding tag_from_script_hex to_hex hex_digit digit_value
tag_from_script_hex-push n payload (inl e) bytes =
    rw e (ap decode_tag (from_hex-to_hex payload bytes))
tag_from_script_hex-push n payload (inr e) bytes =
    rw e (ap decode_tag (from_hex-to_hex payload bytes))

-- A payload of 49 or 69 bytes is found again in the script that carries it: the scanner decodes
-- from the script what `decodeTag` decodes from the payload.
pub tag_from_script_hex-tag_script_hex :
    (payload : List ℕ) {script : Text}
    → All IsByte payload
    → (length payload ≡ 49) ⊎ (length payload ≡ 69)
    → tag_script_hex payload ≡ ok script
    → tag_from_script_hex script ≡ decode_tag payload
tag_from_script_hex-tag_script_hex payload bytes (inl len) e =
    rw (script_text payload 49 (omega arith) len e)
      (tag_from_script_hex-push 49 payload (inl refl) bytes)
tag_from_script_hex-tag_script_hex payload bytes (inr len) e =
    rw (script_text payload 69 (omega arith) len e)
      (tag_from_script_hex-push 69 payload (inr refl) bytes)
