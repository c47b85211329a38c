-- ===== src/Limiter.antt =====
-- The sliding window that btcsoq/api.ts (`rateLimited`) and btcsoq/theater.ts (`retryAfterSec`) keep
-- for each key: the times of the requests that were let through, oldest first, in milliseconds.
pub mod Window
use soqtec.Base.{
  ℕ, ◌+◌, ◌-◌, Bool, true, false, ◌&&◌, Option, none, some, List, [], ◌∷◌, ◌++◌, Text, Dict, lookup,
  insert, ltb, leb, ◌===◌, if◌then◌else◌, filter, length,
}

-- `(hits.get(key) || [])`
abbrev pub hits_of : Text → Dict (List ℕ) → List ℕ
hits_of key d = elim (lookup key d) [ none ↦ [] | some hits ↦ hits ]

-- `.filter((t) => now - t < window)`; a time ahead of the clock is kept.
unfoldable pub recent : ℕ → ℕ → List ℕ → List ℕ
recent window now hits = filter (λ t. ltb (now - t) window) hits

-- Whether the request is let through, and the times to keep.
unfoldable pub admit : ℕ → ℕ → ℕ → List ℕ → Bool × List ℕ
unfolding recent
admit window max now hits =
    let kept = recent window now hits in
    if leb max (length kept) then (false, kept) else (true, kept ++ (now ∷ []))

abbrev pub Request : Type 0
Request = Text × ℕ

unfoldable pub admit_key : ℕ → ℕ → Request → Dict (List ℕ) → Bool × Dict (List ℕ)
unfolding admit
admit_key window max (key, now) d =
    let (passed, hits) = admit window max now (hits_of key d) in (passed, insert key hits d)

-- The times at which the requests of a key are let through.
abbrev pub admitted : ℕ → ℕ → Text → List Request → Dict (List ℕ) → List ℕ
admitted window max key [] d = []
admitted window max key ((k, now) ∷ requests) d =
    let (passed, d') = admit_key window max (k, now) d in
    let rest = admitted window max key requests d' in
    if passed && (k === key) then now ∷ rest else rest
