-- ===== src/Gateway/Anchor/Tree.antt =====
-- btcsoq/gateway.ts, `computeLedgerRoot`: what the root says of the leaves.
use soqtec.Base.{
  ℕ, zero, suc, ◌≡◌, refl, sym, ap, ◌∙◌, ◌≢◌, ◌⊎◌, inl, inr, List, [], ◌∷◌, ◌++◌, arith, length,
  All, take, drop, take_of_length, drop_of_length, ◌===◌, ===_iff, Bool-cases, subst,
}
use mathlib.Core.List.{Memᴰ}
use mathlib.Core.List.Memᴰ.{head, tail, append_left, append_right}
use soqtec.Receipt.Bytes.{from_hex, IsByte, from_hex-to_hex}
use soqtec.Gateway.Anchor.{Digest, level_up, climb, root_text}
use soqtec.Gateway.Anchor.Levels.{length-level_up, climb-one}

-- A message of one list and a different one of another, with the same hash.
abbrev pub Collision : (List ℕ → Digest) → List (List ℕ) → List (List ℕ) → Type 0
Collision sha256 ms ns =
    (m m' : List ℕ) × Memᴰ m ms × Memᴰ m' ns × (sha256 m ≡ sha256 m') × (m ≢ m')

-- The messages that a level of the tree hashes.
abbrev pub level_messages : List Digest → List (List ℕ)
level_messages [] = []
level_messages (x ∷ []) = (x ++ x) ∷ []
level_messages (x ∷ y ∷ rest) = (x ++ y) ∷ level_messages rest

-- The messages that the levels up to the root hash.
abbrev pub climb_messages : (List ℕ → Digest) → List Digest → ℕ → List (List ℕ)
climb_messages sha256 [] fuel = []
climb_messages sha256 (x ∷ []) fuel = []
climb_messages sha256 (x ∷ y ∷ rest) zero = []
climb_messages sha256 (x ∷ y ∷ rest) (suc fuel) =
    level_messages (x ∷ y ∷ rest) ++ climb_messages sha256 (level_up sha256 (x ∷ y ∷ rest)) fuel

-- A 32-byte value.
abbrev pub IsDigest : Digest → Type 0
IsDigest d = (length d ≡ 32) × All IsByte d

pub widen :
    (sha256 : List ℕ → Digest) (ms ms' ns ns' : List (List ℕ))
    → ((m : List ℕ) → Memᴰ m ms → Memᴰ m ms')
    → ((m : List ℕ) → Memᴰ m ns → Memᴰ m ns')
    → Collision sha256 ms ns
    → Collision sha256 ms' ns'
widen sha256 ms ms' ns ns' f g (m, m', at, at', e, ne) = (m, m', f m at, g m' at', e, ne)

pub append-halves :
    (x y x' y' : Digest) → length x ≡ 32 → length x' ≡ 32 → x ++ y ≡ x' ++ y' → (x ≡ x') × (y ≡ y')
append-halves x y x' y' h h' e = (
  sym (take_of_length x y h) ∙ (ap (take 32) e ∙ take_of_length x' y' h'),
  sym (drop_of_length x y h) ∙ (ap (drop 32) e ∙ drop_of_length x' y' h'),
)

module _ (sha256 : List ℕ → Digest) (outputs : (m : List ℕ) → IsDigest (sha256 m)) where
  pub same_message :
      (m m' : List ℕ) (ms ns : List (List ℕ))
      → Memᴰ m ms
      → Memᴰ m' ns
      → sha256 m ≡ sha256 m'
      → (m ≡ m') ⊎ Collision sha256 ms ns
  same_message m m' ms ns at at' e = elim (Bool-cases (m === m')) [
    | inl same ↦ inl ((===_iff m m').0 same)
    | inr other ↦ inr (m, m', at, at', e, λ q. absurd (grind (arith, ===_iff m m')))
  ]

  level_up-IsDigest : (xs : List Digest) → All IsDigest (level_up sha256 xs)
  unfolding level_up
  level_up-IsDigest [] = tt
  level_up-IsDigest (x ∷ []) = (outputs (x ++ x), tt)
  level_up-IsDigest (x ∷ y ∷ rest) = (outputs (x ++ y), level_up-IsDigest rest)

  pub climb-IsDigest :
      (xs : List Digest) (fuel : ℕ) → All IsDigest xs → All IsDigest (climb sha256 xs fuel)
  unfolding climb
  climb-IsDigest [] fuel h = tt
  climb-IsDigest (x ∷ []) fuel h = h
  climb-IsDigest (x ∷ y ∷ rest) zero h = h
  climb-IsDigest (x ∷ y ∷ rest) (suc fuel) h =
      climb-IsDigest (level_up sha256 (x ∷ y ∷ rest)) fuel (level_up-IsDigest (x ∷ y ∷ rest))

  abbrev pub IsBound : List Digest → List Digest → List (List ℕ) → List (List ℕ) → Type 0
  IsBound xs ys ms ns = (xs ≡ ys) ⊎ Collision sha256 ms ns

  same_pair :
      (x y x' y' : Digest) (rest rest' : List Digest)
      → IsDigest x
      → IsDigest x'
      → sha256 (x ++ y) ≡ sha256 (x' ++ y')
      → IsBound rest rest' (level_messages rest) (level_messages rest')
      → IsBound
          (x ∷ y ∷ rest)
          (x' ∷ y' ∷ rest')
          (level_messages (x ∷ y ∷ rest))
          (level_messages (x' ∷ y' ∷ rest'))
  same_pair x y x' y' rest rest' (h, b) (h', b') e (inr c) = inr (
      widen sha256 (level_messages rest) (level_messages (x ∷ y ∷ rest)) (level_messages rest')
        (level_messages (x' ∷ y' ∷ rest')) (λ m at. tail at) (λ m at. tail at) c)
  same_pair x y x' y' rest rest' (h, b) (h', b') e (inl q) =
      elim (same_message (x ++ y) (x' ++ y') (level_messages (x ∷ y ∷ rest))
        (level_messages (x' ∷ y' ∷ rest')) (head refl) (head refl) e) [
          | inl m ↦ inl (let (ex, ey) = append-halves x y x' y' h h' m in rw (ex, ey, q) refl)
          | inr c ↦ inr c
        ]

  level_up-IsBound :
      (xs ys : List Digest)
      → length xs ≡ length ys
      → All IsDigest xs
      → All IsDigest ys
      → level_up sha256 xs ≡ level_up sha256 ys
      → IsBound xs ys (level_messages xs) (level_messages ys)
  unfolding level_up
  level_up-IsBound [] [] n hx hy e = inl refl
  level_up-IsBound (x ∷ []) (y ∷ []) n ((h, b), hx) ((h', b'), hy) e =
      elim (same_message (x ++ x) (y ++ y) (level_messages (x ∷ [])) (level_messages (y ∷ []))
        (head refl) (head refl) (grind arith)) [
          | inl m ↦ inl (let (same, again) = append-halves x x y y h h' m in rw same refl)
          | inr c ↦ inr c
        ]
  level_up-IsBound (x ∷ y ∷ xs) (x' ∷ y' ∷ ys) n (dx, (dy, hx)) (dx', (dy', hy)) e =
      same_pair x y x' y' xs ys dx dx' (grind arith)
        (level_up-IsBound xs ys (omega arith) hx hy (grind arith))
  level_up-IsBound [] (y ∷ ys) n hx hy e = absurd (omega arith)
  level_up-IsBound (x ∷ xs) [] n hx hy e = absurd (omega arith)
  level_up-IsBound (x ∷ []) (y ∷ y' ∷ ys) n hx hy e = absurd (omega arith)
  level_up-IsBound (x ∷ x' ∷ xs) (y ∷ []) n hx hy e = absurd (omega arith)

  level_up-length :
      (xs ys : List Digest)
      → length xs ≡ length ys
      → length (level_up sha256 xs) ≡ length (level_up sha256 ys)
  level_up-length xs ys n =
      let (low, high) = length-level_up sha256 xs in
      let (low', high') = length-level_up sha256 ys in omega arith

  climb-IsBound :
      (fuel : ℕ) (xs ys : List Digest)
      → length xs ≡ length ys
      → All IsDigest xs
      → All IsDigest ys
      → climb sha256 xs fuel ≡ climb sha256 ys fuel
      → IsBound xs ys (climb_messages sha256 xs fuel) (climb_messages sha256 ys fuel)
  unfolding climb
  climb-IsBound zero (x ∷ y ∷ xs) (x' ∷ y' ∷ ys) n hx hy e = inl e
  climb-IsBound (suc fuel) (x ∷ y ∷ xs) (x' ∷ y' ∷ ys) n hx hy e =
      let us = x ∷ y ∷ xs in
      let vs = x' ∷ y' ∷ ys in
      let above = climb_messages sha256 (level_up sha256 us) fuel in
      let above' = climb_messages sha256 (level_up sha256 vs) fuel in
      elim (climb-IsBound fuel (level_up sha256 us) (level_up sha256 vs) (level_up-length us vs n)
        (level_up-IsDigest us) (level_up-IsDigest vs) e) [
          | inl same ↦ elim (level_up-IsBound us vs n hx hy same) [
            | inl leaves_same ↦ inl leaves_same
            | inr c ↦ inr (
                widen sha256 (level_messages us) (level_messages us ++ above) (level_messages vs)
                  (level_messages vs ++ above') (λ m at. append_left above at)
                  (λ m at. append_left above' at) c)
          ]
          | inr c ↦ inr (
              widen sha256 above (level_messages us ++ above) above' (level_messages vs ++ above')
                (λ m at. append_right (level_messages us) at)
                (λ m at. append_right (level_messages vs) at) c)
        ]
  climb-IsBound fuel [] [] n hx hy e = inl refl
  climb-IsBound fuel (x ∷ []) (y ∷ []) n hx hy e = inl e
  climb-IsBound fuel [] (y ∷ ys) n hx hy e = absurd (omega arith)
  climb-IsBound fuel (x ∷ xs) [] n hx hy e = absurd (omega arith)
  climb-IsBound fuel (x ∷ []) (y ∷ y' ∷ ys) n hx hy e = absurd (omega arith)
  climb-IsBound fuel (x ∷ x' ∷ xs) (y ∷ []) n hx hy e = absurd (omega arith)

  one_root :
      (xs ys : List Digest)
      → length xs ≡ 1
      → length ys ≡ 1
      → All IsDigest xs
      → All IsDigest ys
      → root_text xs ≡ root_text ys
      → xs ≡ ys
  one_root (x ∷ []) (y ∷ []) n m ((h, b), hx) ((h', b'), hy) e =
      let same : x ≡ y = sym (from_hex-to_hex x b) ∙ (ap from_hex e ∙ from_hex-to_hex y b') in
      ap (λ d. d ∷ []) same
  one_root [] ys n m hx hy e = absurd (omega arith)
  one_root (x ∷ x' ∷ xs) ys n m hx hy e = absurd (omega arith)
  one_root (x ∷ []) [] n m hx hy e = absurd (omega arith)
  one_root (x ∷ []) (y ∷ y' ∷ ys) n m hx hy e = absurd (omega arith)

  pub same_root :
      (xs ys : List Digest)
      → length xs ≡ length ys
      → All IsDigest xs
      → All IsDigest ys
      → root_text (climb sha256 xs (length xs)) ≡ root_text (climb sha256 ys (length ys))
      → IsBound xs ys (climb_messages sha256 xs (length xs)) (climb_messages sha256 ys (length ys))
  same_root [] [] n hx hy e = inl refl
  same_root [] (y ∷ ys) n hx hy e = absurd (omega arith)
  same_root (x ∷ xs) [] n hx hy e = absurd (omega arith)
  same_root (x ∷ xs) (y ∷ ys) n hx hy e =
      let fuel = length (y ∷ ys) in
      let roots : climb sha256 (x ∷ xs) fuel ≡ climb sha256 (y ∷ ys) fuel =
        one_root (climb sha256 (x ∷ xs) fuel) (climb sha256 (y ∷ ys) fuel)
          (climb-one sha256 fuel x xs (omega arith)) (climb-one sha256 fuel y ys (omega arith))
          (climb-IsDigest (x ∷ xs) fuel hx) (climb-IsDigest (y ∷ ys) fuel hy)
          (subst (λ k. root_text (climb sha256 (x ∷ xs) k) ≡ root_text (climb sha256 (y ∷ ys) fuel))
            n e) in
      subst
        (λ k.
          IsBound (x ∷ xs) (y ∷ ys) (climb_messages sha256 (x ∷ xs) k)
            (climb_messages sha256 (y ∷ ys) fuel))
        (sym n) (climb-IsBound fuel (x ∷ xs) (y ∷ ys) n hx hy roots)
