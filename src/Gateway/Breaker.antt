-- ===== src/Gateway/Breaker.antt =====
-- btcsoq/gateway.ts: the circuit breaker. Daily windows, the pause file, and the proof of reserves.
use soqtec.Base.{
  ℕ, ◌+◌, Bool, true, false, ◌&&◌, not, Option, none, some, List, [], ◌∷◌, ltb, leb, if◌then◌else◌,
  filter, ok, err,
}
use soqtec.Store.{GatewayStore, list_mints, list_converts}
use soqtec.Store.Records.{MintStatus, minting, minted, redeeming, redeemed}
use soqtec.Gateway.World.{Answers, BtcsoqConfig, World, query, truthy}

-- `Date.now() - 24 * 3600_000`
abbrev pub day_ms : ℕ
day_ms = 86400000

-- `m.mintedAt && m.mintedAt > cutoff`, with `cutoff = now - day`.
abbrev pub since_cutoff : ℕ → Option ℕ → Bool
since_cutoff now none = false
since_cutoff now (some t) = ltb 0 t && ltb now (t + day_ms)

abbrev pub sum_of {ℓ} : {A : Type ℓ} → (A → ℕ) → List A → ℕ
sum_of f [] = 0
sum_of f (x ∷ xs) = f x + sum_of f xs

unfoldable pub daily_minted_sats : ℕ → GatewayStore → ℕ
daily_minted_sats now s =
    sum_of (λ m. m.sats) (filter (λ m. since_cutoff now m.minted_at) (list_mints s))

unfoldable pub daily_released_sats : ℕ → GatewayStore → ℕ
daily_released_sats now s =
    sum_of (λ m. m.sats) (filter (λ m. since_cutoff now m.released_at) (list_mints s))

unfoldable pub daily_converted_shors : ℕ → GatewayStore → ℕ
daily_converted_shors now s =
    sum_of (λ c. c.soq_in_shors) (filter (λ c. ltb now (c.created_at + day_ms)) (list_converts s))

-- Why a payment is deferred.
pub data Deferral : Type 0 where
  paused por_halt daily_cap : Deferral

unfoldable pub over_cap : ℕ → ℕ → ℕ → Bool
over_cap cap used amount = ltb 0 cap && ltb cap (used + amount)

module _ (env : Answers) (config : BtcsoqConfig) where
  unfoldable pub is_paused : World → Bool
  is_paused w = truthy config.pause_file && env.file_exists w.trace config.pause_file

  unfoldable pub mint_breaker_reason : ℕ → World → Option Deferral
  unfolding is_paused over_cap
  mint_breaker_reason sats w =
      if is_paused w
      then some paused
      else if w.por_halted
      then some por_halt
      else if over_cap config.max_daily_mint_sats (daily_minted_sats (env.now w.trace) w.store) sats
      then some daily_cap
      else none

  unfoldable pub release_breaker_reason : ℕ → World → Option Deferral
  unfolding is_paused over_cap
  release_breaker_reason sats w =
      if is_paused w
      then some paused
      else if over_cap config.max_daily_release_sats (daily_released_sats (env.now w.trace) w.store)
          sats
      then some daily_cap
      else none

  unfoldable pub convert_breaker_reason : ℕ → World → Option Deferral
  unfolding is_paused over_cap
  convert_breaker_reason shors w =
      if is_paused w
      then some paused
      else if over_cap config.max_daily_convert_shors
          (daily_converted_shors (env.now w.trace) w.store) shors
      then some daily_cap
      else none

abbrev pub is_outstanding : MintStatus → Bool
is_outstanding minting = true
is_outstanding minted = true
is_outstanding redeeming = false
is_outstanding redeemed = false

-- What the receipts that are issued and not yet returned are backed by.
unfoldable pub outstanding_sats : GatewayStore → ℕ
outstanding_sats s = sum_of (λ m. m.sats) (filter (λ m. is_outstanding m.status) (list_mints s))

-- An unreadable vault keeps the state.
unfoldable pub check_por_invariant : Answers → World → World
check_por_invariant env w =
    let w' = record w { trace = query ∷ w.trace } in
    elim (env.vault_balance w.trace) [
      | err message ↦ w'
      | ok vault ↦
          let covered =
            leb (outstanding_sats w.store) (vault.confirmed_sats + vault.pending_sats) in
          if not covered && not w.por_halted
          then record w' { por_halted = true }
          else if covered && w.por_halted
          then record w' { por_halted = false }
          else w'
    ]
