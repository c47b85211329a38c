-- ===== src/Gateway/Limits/Totals.antt =====
-- btcsoq/gateway.ts: the sums that the circuit breaker compares, over all records of the store.
use soqtec.Base.{
  ℕ, ◌+◌, ◌<◌, ◌≡◌, ◌⊎◌, ◌↔◌, refl, sym, ◌∙◌, Bool, true, Option, none, some, List, [], ◌∷◌, arith,
  filter, values, Bool-cases, inl, inr, if◌then◌else◌, sort_desc, total, sort_desc-total,
}
use soqtec.Store.{GatewayStore, list_mints}
use soqtec.Store.Records.{MintRecord, MintStatus, minting, minted, redeeming, redeemed}
use soqtec.Gateway.Breaker.{
  since_cutoff, sum_of, daily_minted_sats, daily_released_sats, outstanding_sats, is_outstanding,
}

-- The sats of the records of a kind, each counted once.
pub data IsTotal (P : MintRecord → Type 0) : List MintRecord → ℕ → Type 0 where
  nothing : IsTotal P [] 0
  counts :
      (m : MintRecord) (ms : List MintRecord) (n : ℕ)
      → P m
      → IsTotal P ms n
      → IsTotal P (m ∷ ms) (m.sats + n)
  skips :
      (m : MintRecord) (ms : List MintRecord) (n : ℕ)
      → ¬ P m
      → IsTotal P ms n
      → IsTotal P (m ∷ ms) n

-- A time less than 24 hours ago.
abbrev pub IsRecent : ℕ → Option ℕ → Type 0
IsRecent now at = (t : ℕ) × (at ≡ some t) × (0 < t) × (now < t + 86400000)

abbrev pub IsOutstanding : MintRecord → Type 0
IsOutstanding m = (m.status ≡ minting) ⊎ (m.status ≡ minted)

sum_filter :
    (p : MintRecord → Bool) (ms : List MintRecord)
    → sum_of (λ m. m.sats) (filter p ms) ≡ total (λ m. if p m then m.sats else 0) ms
sum_filter p [] = refl
sum_filter p (m ∷ ms) = let rest = sum_filter p ms in grind arith

sum_filter-sort_desc :
    (p : MintRecord → Bool) (ms : List MintRecord)
    → sum_of (λ m. m.sats) (filter p (sort_desc (λ m. m.created_at) ms))
      ≡ sum_of (λ m. m.sats) (filter p ms)
sum_filter-sort_desc p ms =
    sum_filter p (sort_desc (λ m. m.created_at) ms)
    ∙ (sort_desc-total (λ m. m.created_at) (λ m. if p m then m.sats else 0) ms
        ∙ sym (sum_filter p ms))

filter-IsTotal :
    (p : MintRecord → Bool) (P : MintRecord → Type 0)
    → ((m : MintRecord) → (p m ≡ true) ↔ P m)
    → (ms : List MintRecord) → IsTotal P ms (sum_of (λ m. m.sats) (filter p ms))
filter-IsTotal p P is [] = nothing
filter-IsTotal p P is (m ∷ ms) =
    let rest = filter-IsTotal p P is ms in
    elim (Bool-cases (p m)) [
      | inl hit ↦ rw hit (counts m ms _ ((is m).0 hit) rest)
      | inr miss ↦ rw miss (skips m ms _ (λ h. let hit = (is m).1 h in absurd (grind arith)) rest)
    ]

list_mints-IsTotal :
    (p : MintRecord → Bool) (P : MintRecord → Type 0)
    → ((m : MintRecord) → (p m ≡ true) ↔ P m)
    → (s : GatewayStore)
    → IsTotal P (values s.state.mints) (sum_of (λ m. m.sats) (filter p (list_mints s)))
unfolding list_mints
list_mints-IsTotal p P is s =
    let ms = values s.state.mints in rw (sum_filter-sort_desc p ms) (filter-IsTotal p P is ms)

since_cutoff_iff : (now : ℕ) (at : Option ℕ) → (since_cutoff now at ≡ true) ↔ IsRecent now at
since_cutoff_iff now none = (λ h. absurd (ground arith), λ (t, e, _, _). absurd (ground arith))
since_cutoff_iff now (some t) = (
  λ h. (t, refl, ground arith, ground arith),
  λ (u, e, some_time, recent). let same : t ≡ u = ground arith in ground arith,
)

is_outstanding_iff : (m : MintRecord) → (is_outstanding m.status ≡ true) ↔ IsOutstanding m
is_outstanding_iff m = (outstanding m.status, λ h. elim h [ inl e ↦ rw e refl | inr e ↦ rw e refl ])
  where
    outstanding :
        (status : MintStatus)
        → is_outstanding status ≡ true
        → (status ≡ minting) ⊎ (status ≡ minted)
    outstanding minting h = inl refl
    outstanding minted h = inr refl
    outstanding redeeming h = absurd (ground arith)
    outstanding redeemed h = absurd (ground arith)

pub daily_minted_sats-IsTotal :
    (now : ℕ) (s : GatewayStore)
    → IsTotal (λ m. IsRecent now m.minted_at) (values s.state.mints) (daily_minted_sats now s)
unfolding daily_minted_sats
daily_minted_sats-IsTotal now s =
    list_mints-IsTotal (λ m. since_cutoff now m.minted_at) (λ m. IsRecent now m.minted_at)
      (λ m. since_cutoff_iff now m.minted_at) s

pub daily_released_sats-IsTotal :
    (now : ℕ) (s : GatewayStore)
    → IsTotal (λ m. IsRecent now m.released_at) (values s.state.mints) (daily_released_sats now s)
unfolding daily_released_sats
daily_released_sats-IsTotal now s =
    list_mints-IsTotal (λ m. since_cutoff now m.released_at) (λ m. IsRecent now m.released_at)
      (λ m. since_cutoff_iff now m.released_at) s

pub outstanding_sats-IsTotal :
    (s : GatewayStore) → IsTotal IsOutstanding (values s.state.mints) (outstanding_sats s)
unfolding outstanding_sats
outstanding_sats-IsTotal s =
    list_mints-IsTotal (λ m. is_outstanding m.status) IsOutstanding is_outstanding_iff s
