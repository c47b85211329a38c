-- ===== src/Gateway/Anchor/Levels.antt =====
-- btcsoq/gateway.ts, `computeLedgerRoot`: the loop over the levels comes to its end.
use soqtec.Base.{ℕ, zero, suc, ◌+◌, ◌≤◌, ◌≡◌, refl, List, [], ◌∷◌, arith, length}
use soqtec.Gateway.Anchor.{Digest, level_up, climb}

module _ (sha256 : List ℕ → Digest) where
  -- A level has half as many nodes as the one below, rounded up.
  pub length-level_up :
      (xs : List Digest)
      → (length xs ≤ length (level_up sha256 xs) + length (level_up sha256 xs))
        × (length (level_up sha256 xs) + length (level_up sha256 xs) ≤ suc (length xs))
  unfolding level_up
  length-level_up [] = omega arith
  length-level_up (x ∷ []) = omega arith
  length-level_up (x ∷ y ∷ rest) = let (low, high) = length-level_up rest in omega arith

  -- With as much fuel as there are leaves, the loop ends on one node.
  pub climb-one :
      (fuel : ℕ) (x : Digest) (xs : List Digest)
      → suc (length xs) ≤ fuel
      → length (climb sha256 (x ∷ xs) fuel) ≡ 1
  unfolding climb
  climb-one zero x xs h = absurd (omega arith)
  climb-one (suc fuel) x [] h = refl
  climb-one (suc fuel) x (y ∷ rest) h =
      next (climb-one fuel) (level_up sha256 (x ∷ y ∷ rest)) (length-level_up (x ∷ y ∷ rest))
    where
      next :
          ((u : Digest) (us : List Digest)
            → suc (length us) ≤ fuel
            → length (climb sha256 (u ∷ us) fuel) ≡ 1)
          → (up : List Digest)
          → (length (x ∷ y ∷ rest) ≤ length up + length up)
            × (length up + length up ≤ suc (length (x ∷ y ∷ rest)))
          → length (climb sha256 up fuel) ≡ 1
      next again [] (low, high) = absurd (omega arith)
      next again (u ∷ us) (low, high) = again u us (omega arith)
