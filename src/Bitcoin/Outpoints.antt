-- ===== src/Bitcoin/Outpoints.antt =====
-- cea/bitcoin-cea.ts: the id `txid:vout` of a deposit, as it is written and as it is read back.
use soqtec.Base.{
  ℕ, zero, suc, ◌+◌, ◌-◌, ◌*◌, ◌/◌, ◌%◌, ◌≤◌, ◌<◌, ◌≡◌, ◌≢◌, refl, ap, ◌∙◌, Option, none, some, [],
  ◌∷◌, ◌++◌, Text, All, All-append, arith, ltb, inl, inr, Bool-cases,
}
use soqtec.Attestation.{decimal, decimal_fuel}
use soqtec.Store.{split_colon}
use soqtec.Bitcoin.{read_digits}

abbrev IsDigit : ℕ → Type 0
IsDigit c = (48 ≤ c) × (c ≤ 57)

read_digits-append :
    (acc : Option ℕ) (s : Text) (c v : ℕ)
    → All IsDigit s
    → IsDigit c
    → read_digits acc s ≡ some v
    → read_digits acc (s ++ (c ∷ [])) ≡ some (v * 10 + (c - 48))
unfolding read_digits
read_digits-append none [] c v hs h e = absurd (ground arith)
read_digits-append (some a) [] c v hs h e = grind arith
read_digits-append none (x ∷ s) c v (hx, hs) h e =
    let rest = read_digits-append (some (x - 48)) s c v hs h (grind arith) in grind arith
read_digits-append (some a) (x ∷ s) c v (hx, hs) h e =
    let rest = read_digits-append (some (a * 10 + (x - 48))) s c v hs h (grind arith) in grind arith

read_digits-decimal_fuel :
    (fuel n : ℕ)
    → n < fuel
    → All IsDigit (decimal_fuel fuel n) × (read_digits none (decimal_fuel fuel n) ≡ some n)
unfolding decimal_fuel read_digits
read_digits-decimal_fuel zero n h = absurd (omega arith)
read_digits-decimal_fuel (suc fuel) n h = elim (Bool-cases (ltb n 10)) [
  | inl small ↦ rw small (((grind arith, grind arith), tt), grind arith)
  | inr large ↦
      let smaller : n / 10 < fuel = grind arith in
      let (digits, reads) = read_digits-decimal_fuel fuel (n / 10) smaller in
      let last : IsDigit (48 + n % 10) = (omega arith, omega arith) in
      let all =
        read_digits-append none (decimal_fuel fuel (n / 10)) (48 + n % 10) (n / 10) digits last
          reads in
      let sum : n / 10 * 10 + (48 + n % 10 - 48) ≡ n = omega arith in
      rw large (
        All-append IsDigit (decimal_fuel fuel (n / 10)) ((48 + n % 10) ∷ []) digits (last, tt),
        all ∙ ap some sum,
      )
]

abbrev pub HasNoColon : Text → Type 0
HasNoColon = All (λ c. c ≢ b':')

split_colon-plain : (s : Text) → HasNoColon s → split_colon s ≡ (s, none)
unfolding split_colon
split_colon-plain [] h = refl
split_colon-plain (c ∷ s) h = ground (arith, split_colon-plain s h.1)

split_colon-append :
    (s t : Text) → HasNoColon s → HasNoColon t → split_colon (s ++ (b':' ∷ t)) ≡ (s, some t)
unfolding split_colon
split_colon-append [] t h k = ground (arith, split_colon-plain t k)
split_colon-append (c ∷ s) t h k = ground (arith, split_colon-append s t h.1 k)

digits-HasNoColon : (s : Text) → All IsDigit s → HasNoColon s
digits-HasNoColon [] h = tt
digits-HasNoColon (c ∷ s) (h, hs) = (λ e. absurd (omega arith), digits-HasNoColon s hs)

-- The number that is written is read.
pub read_digits-decimal : (n : ℕ) → read_digits none (decimal n) ≡ some n
unfolding decimal
read_digits-decimal n = (read_digits-decimal_fuel (suc n) n (omega arith)).1

pub split_colon-outpoint :
    (txid : Text) (n : ℕ)
    → HasNoColon txid
    → split_colon (txid ++ (b':' ∷ decimal n)) ≡ (txid, some (decimal n))
unfolding decimal
split_colon-outpoint txid n h =
    split_colon-append txid (decimal n) h
      (digits-HasNoColon (decimal n) (read_digits-decimal_fuel (suc n) n (omega arith)).0)
