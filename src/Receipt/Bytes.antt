-- ===== src/Receipt/Bytes.antt =====
-- What btcsoq/receipt.ts uses of node's Buffer and String: hex, little-endian integers, ASCII text.
use native.Mathlib.Nat.{pow-suc}
use mathlib.Core.List.{reverse}
use soqtec.Base.{
  ℕ, zero, suc, ◌+◌, ◌-◌, ◌*◌, ◌/◌, ◌%◌, ◌^◌, ◌<◌, ◌≡◌, refl, ◌∙◌, Bool, true, ◌&&◌, ◌||◌, Option,
  none, some, List, [], ◌∷◌, Text, length, All, take, ap, map, ◌==◌, ltb, leb, if◌then◌else◌, arith,
  Bool-cases, inl, inr,
}

abbrev pub IsByte : ℕ → Type 0
IsByte b = b < 256

-- The digit of `toString('hex')`: '0' to '9', 'a' to 'f'.
unfoldable pub hex_digit : ℕ → ℕ
hex_digit d = if ltb d 10 then 48 + d else 87 + d

-- A hex digit of either case, as `Buffer.from(s, 'hex')` and `parseInt(s, 16)` read it.
unfoldable pub digit_value : ℕ → Option ℕ
digit_value c =
    if leb 48 c && leb c 57
    then some (c - 48)
    else if leb 97 c && leb c 102
    then some (c - 87)
    else if leb 65 c && leb c 70
    then some (c - 55)
    else none

-- `buf.toString('hex')`
unfoldable pub to_hex : List ℕ → Text
to_hex [] = []
to_hex (b ∷ bs) = hex_digit (b / 16) ∷ hex_digit (b % 16) ∷ to_hex bs

-- One pair of digits in front of what the rest of the text decodes to; decoding stops at a pair
-- that is no hex.
abbrev pub cons_pair : Option ℕ → Option ℕ → List ℕ → List ℕ
cons_pair (some hi) (some lo) rest = (16 * hi + lo) ∷ rest
cons_pair (some hi) none rest = []
cons_pair none lo rest = []

-- `Buffer.from(s, 'hex')`; an odd last digit is dropped.
unfoldable pub from_hex : Text → List ℕ
from_hex [] = []
from_hex (c ∷ []) = []
from_hex (c ∷ d ∷ s) = cons_pair (digit_value c) (digit_value d) (from_hex s)

-- `/^[0-9a-f]*$/`
unfoldable pub is_lower_hex : Text → Bool
is_lower_hex [] = true
is_lower_hex (c ∷ s) = (leb 48 c && leb c 57 || leb 97 c && leb c 102) && is_lower_hex s

-- `writeBigUInt64LE` and `writeUInt32LE`, by the number of bytes.
unfoldable pub le_bytes : ℕ → ℕ → List ℕ
le_bytes zero v = []
le_bytes (suc n) v = (v % 256) ∷ le_bytes n (v / 256)

-- `readBigUInt64LE` and `readUInt32LE`
unfoldable pub of_le : List ℕ → ℕ
of_le [] = 0
of_le (b ∷ bs) = b + 256 * of_le bs

-- White space and capital letters of ASCII, which is all that an address holds.
abbrev is_space : ℕ → Bool
is_space c = leb 9 c && leb c 13 || c == 32

trim_start : Text → Text
trim_start [] = []
trim_start (c ∷ s) = let rest = trim_start s in if is_space c then rest else c ∷ s

abbrev to_lower : ℕ → ℕ
to_lower c = if leb 65 c && leb c 90 then c + 32 else c

-- `s.trim().toLowerCase()`
unfoldable pub trim_lower : Text → Text
unfolding trim_start
trim_lower s = map to_lower (reverse (trim_start (reverse (trim_start s))))

digit_value-hex_digit : (d : ℕ) → d < 16 → digit_value (hex_digit d) ≡ some d
unfolding digit_value hex_digit
digit_value-hex_digit d h = ground arith

pub from_hex-to_hex : (bs : List ℕ) → All IsByte bs → from_hex (to_hex bs) ≡ bs
unfolding to_hex from_hex
from_hex-to_hex [] h = refl
from_hex-to_hex (b ∷ bs) h =
    ground (
      arith,
      digit_value-hex_digit (b / 16),
      digit_value-hex_digit (b % 16),
      from_hex-to_hex bs h.1,
    )

pub length-to_hex : (bs : List ℕ) → length (to_hex bs) ≡ 2 * length bs
unfolding to_hex
length-to_hex [] = refl
length-to_hex (b ∷ bs) = omega (arith, length-to_hex bs)

abbrev IsLowerHexDigit : ℕ → Type 0
IsLowerHexDigit c = (leb 48 c && leb c 57 || leb 97 c && leb c 102) ≡ true

-- A lower-case digit has a value, below 16, that prints as the digit.
digit_value-lower :
    (c : ℕ) → IsLowerHexDigit c → (d : ℕ) × (digit_value c ≡ some d) × (hex_digit d ≡ c) × (d < 16)
unfolding digit_value hex_digit
digit_value-lower c h = elim (Bool-cases (leb 48 c && leb c 57)) [
  | inl e ↦ (c - 48, ground arith, ground arith, ground arith)
  | inr e ↦ (c - 87, ground arith, ground arith, ground arith)
]

to_hex-pair :
    (hi lo : ℕ) (bs : List ℕ)
    → hi < 16
    → lo < 16
    → to_hex ((16 * hi + lo) ∷ bs) ≡ hex_digit hi ∷ hex_digit lo ∷ to_hex bs
unfolding to_hex
to_hex-pair hi lo bs h k =
    let a : (16 * hi + lo) / 16 ≡ hi = omega arith in
    let b : (16 * hi + lo) % 16 ≡ lo = omega arith in rw (a, b)

-- What a lower-case hex text of 2n digits decodes to: n bytes, which print as the text.
pub from_hex-lower :
    (n : ℕ) (s : Text)
    → is_lower_hex s ≡ true
    → length s ≡ 2 * n
    → (to_hex (from_hex s) ≡ s) × (length (from_hex s) ≡ n) × All IsByte (from_hex s)
unfolding is_lower_hex from_hex
from_hex-lower zero [] h e = (unfold to_hex in refl, refl, tt)
from_hex-lower (suc n) [] h e = absurd (omega arith)
from_hex-lower n (c ∷ []) h e = absurd (omega arith)
from_hex-lower zero (c ∷ d ∷ s) h e = absurd (omega arith)
from_hex-lower (suc n) (c ∷ d ∷ s) h e =
    let (x, vx, px, bx) = digit_value-lower c (ground arith) in
    let (y, vy, py, by) = digit_value-lower d (ground arith) in
    let (i, j, k) = from_hex-lower n s (ground arith) (omega arith) in
    rw (vx, vy) (to_hex-pair x y (from_hex s) bx by ∙ cc, omega arith, (omega arith, k))

pub of_le-le_bytes : (n v : ℕ) → v < 256 ^ n → of_le (le_bytes n v) ≡ v
unfolding of_le le_bytes
of_le-le_bytes zero v h = omega arith
of_le-le_bytes (suc n) v h =
    let p : v < 256 ^ n * 256 = rw pow-suc at h in
    omega (arith, of_le-le_bytes n (v / 256) (omega arith))

pub le_bytes-of_le : (bs : List ℕ) → All IsByte bs → le_bytes (length bs) (of_le bs) ≡ bs
unfolding of_le le_bytes
le_bytes-of_le [] h = refl
le_bytes-of_le (b ∷ bs) h =
    let lo : (b + 256 * of_le bs) % 256 ≡ b = omega arith in
    let hi : (b + 256 * of_le bs) / 256 ≡ of_le bs = omega arith in
    rw (lo, hi, le_bytes-of_le bs h.1)

pub le_bytes-IsByte : (n v : ℕ) → All IsByte (le_bytes n v)
unfolding le_bytes
le_bytes-IsByte zero v = tt
le_bytes-IsByte (suc n) v = (omega arith, le_bytes-IsByte n (v / 256))

pub of_le-lt : (bs : List ℕ) → All IsByte bs → of_le bs < 256 ^ length bs
unfolding of_le
of_le-lt [] h = omega arith
of_le-lt (b ∷ bs) h = rw pow-suc (omega (arith, of_le-lt bs h.1))

pub take-to_hex : (n m : ℕ) (bs : List ℕ) → m ≡ n + n → take m (to_hex bs) ≡ to_hex (take n bs)
unfolding to_hex
take-to_hex zero zero bs e = refl
take-to_hex zero (suc m) bs e = absurd (omega arith)
take-to_hex (suc n) zero bs e = absurd (omega arith)
take-to_hex (suc n) (suc zero) bs e = absurd (omega arith)
take-to_hex (suc n) (suc (suc m)) [] e = refl
take-to_hex (suc n) (suc (suc m)) (b ∷ bs) e =
    ap (λ t. hex_digit (b / 16) ∷ hex_digit (b % 16) ∷ t) (take-to_hex n m bs (omega arith))
