-- ===== src/Receipt/Codec.antt =====
-- btcsoq/receipt.ts: what `encodeTag` writes, `decodeTag` reads back, and what else it accepts.
use mathlib.Core.List.{append_assoc, append-nil}
use soqtec.Base.{
  ℕ, zero, suc, ◌≤◌, ◌&&◌, leb, Bool-cases, ◌⊎◌, ◌↔◌, ◌/◌, ◌+◌, ◌^◌, ◌<◌, ◌≡◌, refl, ap, ◌∙◌, true,
  Option, none, some, List, [], ◌∷◌, ◌++◌, Text, length, take, All, All-take, length-take_le, ok,
  ◌==◌, ◌===◌, if◌then◌else◌, arith, inl, inr, length-append, take_of_length, drop_of_length,
  drop-append_more,
}
use soqtec.Base.Int.{ℤ, pos, negsuc}
use soqtec.Receipt.{
  BtcsoqTagOp, mint, redeem, convert, BtcsoqTag, bsq_magic, bsq_tag_len, is_txid, tag_bytes,
  encode_tag, payout_commit, encode_redeem_tag, decode_tag, decode_fields, is_redeem, op_byte,
  op_of_byte,
}
use soqtec.Receipt.Bytes.{
  is_lower_hex, IsByte, to_hex, from_hex, le_bytes, of_le, from_hex-to_hex, from_hex-lower,
  of_le-le_bytes, take-to_hex, trim_lower,
}

-- What the arguments of a tag must satisfy.
pub record IsEncodable (sats : ℕ) (btc_txid : Text) (vout : ℕ) : Type 0 where
  pub txid : is_txid btc_txid ≡ true
  pub sats_u64 : sats < 2 ^ 64
  pub vout_u32 : vout < 2 ^ 32

txid-bytes :
    (s : Text)
    → is_txid s ≡ true
    → (to_hex (from_hex s) ≡ s) × (length (from_hex s) ≡ 32) × All IsByte (from_hex s)
unfolding is_txid
txid-bytes s h = from_hex-lower 32 s (ground arith) (ground arith)

-- A buffer in the layout of a tag: magic, op, 8 bytes, 32 bytes, 4 bytes, and what follows.
abbrev layout : ℕ → List ℕ → List ℕ → List ℕ → List ℕ → List ℕ
layout o a b c extra = bsq_magic ++ (o ∷ (a ++ (b ++ (c ++ extra))))

module _ (a b c extra : List ℕ) (la : length a ≡ 8) (lb : length b ≡ 32) (lc : length c ≡ 4) where
  length-layout : (o : ℕ) → length (layout o a b c extra) ≡ 49 + length extra
  length-layout o = omega (
    arith,
    length-append a (b ++ (c ++ extra)),
    length-append b (c ++ extra),
    length-append c extra,
  )

  -- `decodeTag` reads each part at its place.
  decode_fields-layout :
      (o : ℕ) (op : BtcsoqTagOp)
      → decode_fields (layout o a b c extra) op ≡ record {
        op = op;
        sats = of_le a;
        btc_txid = to_hex b;
        vout = of_le c;
        payout_commit = if 49 + length extra == 69 then some (to_hex extra) else none;
      }
  unfolding decode_fields
  decode_fields-layout o op = rw (
    length-layout o,
    take_of_length a (b ++ (c ++ extra)) la,
    drop_of_length a (b ++ (c ++ extra)) la,
    take_of_length b (c ++ extra) lb,
    drop-append_more 8 32 a (b ++ (c ++ extra)) la,
    drop_of_length b (c ++ extra) lb,
    take_of_length c extra lc,
    drop-append_more 8 36 a (b ++ (c ++ extra)) la,
    drop-append_more 32 4 b (c ++ extra) lb,
    drop_of_length c extra lc,
  )

  decode_tag-layout :
      (o : ℕ) (op : BtcsoqTagOp)
      → op_of_byte o ≡ some op
      → (length extra ≡ 0) ⊎ ((length extra ≡ 20) × (is_redeem op ≡ true))
      → decode_tag (layout o a b c extra) ≡ some (decode_fields (layout o a b c extra) op)
  unfolding decode_tag ◌===◌
  decode_tag-layout o op known len = ground (arith, length-layout o)

op_of_byte-op_byte : (op : BtcsoqTagOp) → op_of_byte (op_byte op) ≡ some op
op_of_byte-op_byte mint = refl
op_of_byte-op_byte redeem = refl
op_of_byte-op_byte convert = refl

length-le_bytes : (n v : ℕ) → length (le_bytes n v) ≡ n
unfolding le_bytes
length-le_bytes zero v = refl
length-le_bytes (suc n) v = ap suc (length-le_bytes n (v / 256))

-- The tag with the given parts.
abbrev pub tag_of : BtcsoqTagOp → ℕ → Text → ℕ → Option Text → BtcsoqTag
tag_of op sats txid vout commit = record {
  op = op;
  sats = sats;
  btc_txid = txid;
  vout = vout;
  payout_commit = commit;
}

pub length-tag_bytes :
    (op : BtcsoqTagOp) (n : ℕ) (txid : Text) (vout : ℕ)
    → is_txid txid ≡ true
    → length (tag_bytes op n txid vout) ≡ bsq_tag_len
unfolding tag_bytes
length-tag_bytes op n txid vout h = omega (
  arith,
  (txid-bytes txid h).1,
  length-append (le_bytes 8 n) (from_hex txid ++ le_bytes 4 vout),
  length-append (from_hex txid) (le_bytes 4 vout),
  length-le_bytes 8 n,
  length-le_bytes 4 vout,
)

encode_tag-ok :
    (op : BtcsoqTagOp) (sats : ℤ) (txid : Text) (vout : ℕ) {buf : List ℕ}
    → encode_tag op sats txid vout ≡ ok buf
    → (n : ℕ) × (sats ≡ pos n) × IsEncodable n txid vout × (buf ≡ tag_bytes op n txid vout)
unfolding encode_tag
encode_tag-ok op (negsuc n) txid vout h = absurd (ground arith)
encode_tag-ok op (pos n) txid vout h = (n, refl, ground arith, ground arith)

-- A digit, or a letter from a to f.
abbrev pub IsLowerHex : ℕ → Type 0
IsLowerHex c = ((48 ≤ c) × (c ≤ 57)) ⊎ ((97 ≤ c) × (c ≤ 102))

is_lower_hex-All : (s : Text) → is_lower_hex s ≡ true → All IsLowerHex s
unfolding is_lower_hex
is_lower_hex-All [] h = tt
is_lower_hex-All (c ∷ s) h = (
  elim (Bool-cases (leb 48 c && leb c 57)) [
    | inl digit ↦ inl (grind arith)
    | inr letter ↦ inr (grind arith)
  ],
  is_lower_hex-All s (grind arith),
)

All-is_lower_hex : (s : Text) → All IsLowerHex s → is_lower_hex s ≡ true
unfolding is_lower_hex
All-is_lower_hex [] h = refl
All-is_lower_hex (c ∷ s) (inl digit, hs) = let rest = All-is_lower_hex s hs in grind arith
All-is_lower_hex (c ∷ s) (inr letter, hs) = let rest = All-is_lower_hex s hs in grind arith

encode_tag-encodable :
    (op : BtcsoqTagOp) (n : ℕ) (txid : Text) (vout : ℕ)
    → IsEncodable n txid vout
    → encode_tag op (pos n) txid vout ≡ ok (tag_bytes op n txid vout)
unfolding encode_tag
encode_tag-encodable op n txid vout h = ground arith

-- `encodeTag` answers exactly if the amount is not negative and below 2^64, the txid has 64
-- characters, each a digit or a letter from a to f, and the output index is below 2^32.
pub encode_tag_iff :
    (op : BtcsoqTagOp) (sats : ℤ) (txid : Text) (vout : ℕ)
    → ((buf : List ℕ) × (encode_tag op sats txid vout ≡ ok buf)) ↔ (
        (n : ℕ) × (sats ≡ pos n)
        × (n < 2 ^ 64)
        × (length txid ≡ 64)
        × All IsLowerHex txid
        × (vout < 2 ^ 32))
unfolding is_txid
encode_tag_iff op sats txid vout = (
  λ (buf, e).
      let (n, same, h, _) = encode_tag-ok op sats txid vout e in
      let is = h.txid in
      (n, same, h.sats_u64, grind arith, is_lower_hex-All txid (grind arith), h.vout_u32),
  λ (n, same, small, long, hex, low).
      let lower = All-is_lower_hex txid hex in
      let h : IsEncodable n txid vout = record {
        txid = grind arith;
        sats_u64 = small;
        vout_u32 = low;
      } in
      (tag_bytes op n txid vout, rw same (encode_tag-encodable op n txid vout h)),
)

module _ (op : BtcsoqTagOp) (n : ℕ) (txid : Text) (vout : ℕ) (h : IsEncodable n txid vout) where
  decode_tag-bytes :
      (extra : List ℕ) {commit : Option Text}
      → (length extra ≡ 0) ⊎ ((length extra ≡ 20) × (is_redeem op ≡ true))
      → (if 49 + length extra == 69 then some (to_hex extra) else none) ≡ commit
      → decode_tag (tag_bytes op n txid vout ++ extra) ≡ some (tag_of op n txid vout commit)
  unfolding tag_bytes
  decode_tag-bytes extra len c =
      let (hex, l, _) = txid-bytes txid h.txid in
      let l8 = length-le_bytes 8 n in
      let l4 = length-le_bytes 4 vout in
      simp append_assoc (
        decode_tag-layout (le_bytes 8 n) (from_hex txid) (le_bytes 4 vout) extra l8 l l4
          (op_byte op) op (op_of_byte-op_byte op) len
        ∙ ap some (
            decode_fields-layout (le_bytes 8 n) (from_hex txid) (le_bytes 4 vout) extra l8 l l4
              (op_byte op) op
            ∙ cc (hex, c, of_le-le_bytes 8 n h.sats_u64, of_le-le_bytes 4 vout h.vout_u32)))

-- If `encodeTag` does not throw, the amount is not negative and `decodeTag` reads the arguments back
-- from the bytes, with no payout commitment.
pub decode_tag-encode_tag :
    (op : BtcsoqTagOp) (sats : ℤ) (txid : Text) (vout : ℕ) {buf : List ℕ}
    → encode_tag op sats txid vout ≡ ok buf
    → (n : ℕ) × (sats ≡ pos n) × (decode_tag buf ≡ some (tag_of op n txid vout none))
decode_tag-encode_tag op sats txid vout e =
    let (n, s, h, b) = encode_tag-ok op sats txid vout e in
    let read = decode_tag-bytes op n txid vout h [] (inl refl) refl in
    (n, s, rw (append-nil, ← b) at read)

redeem_base :
    (sha256 : List ℕ → List ℕ) (sats : ℤ) (txid : Text) (vout : ℕ) (addr : Text) {buf : List ℕ}
    → encode_redeem_tag sha256 sats txid vout addr ≡ ok buf
    → (base : List ℕ) × (encode_tag redeem sats txid vout ≡ ok base)
      × (buf ≡ base ++ from_hex (payout_commit sha256 addr))
unfolding encode_redeem_tag
redeem_base sha256 sats txid vout addr e = ground arith

-- The bytes of a redeem tag that is bound to a payout address decode to a redeem tag that carries
-- the commitment to this address, for a hash that returns 32 bytes.
pub decode_tag-encode_redeem_tag :
    (sha256 : List ℕ → List ℕ)
    → ((m : List ℕ) → (length (sha256 m) ≡ 32) × All IsByte (sha256 m))
    → (sats : ℤ) (txid : Text) (vout : ℕ) (addr : Text) {buf : List ℕ}
    → encode_redeem_tag sha256 sats txid vout addr ≡ ok buf
    → (n : ℕ) × (sats ≡ pos n)
      × (length buf ≡ 69)
      × (decode_tag buf ≡ some (tag_of redeem n txid vout (some (payout_commit sha256 addr))))
unfolding encode_redeem_tag payout_commit
decode_tag-encode_redeem_tag sha256 digest sats txid vout addr {buf} e =
    let d = sha256 (trim_lower addr) in
    let (l, bytes) = digest (trim_lower addr) in
    let commit = take-to_hex 20 40 d refl in
    let back = from_hex-to_hex (take 20 d) (All-take IsByte 20 d bytes) in
    let l20 = length-take_le 20 d (omega arith) in
    let (base, eb, same) = redeem_base sha256 sats txid vout addr e in
    let (n, s, h, b) = encode_tag-ok redeem sats txid vout eb in
    let c : payout_commit sha256 addr ≡ to_hex (take 20 d) = commit in
    let whole : buf ≡ tag_bytes redeem n txid vout ++ take 20 d = same ∙ rw (b, c, back) in
    let read =
      decode_tag-bytes redeem n txid vout h (take 20 d) {commit = some (payout_commit sha256 addr)}
        (inr (l20, refl)) (rw (l20, c)) in
    (
      n,
      s,
      rw (whole, length-append, l20, length-tag_bytes redeem n txid vout h.txid),
      rw whole read,
    )
