-- ===== src/Gateway/Limits.antt =====
-- btcsoq/gateway.ts: which deposits are minted for, and what the circuit breaker lets through.
pub mod Totals
use soqtec.Base.{
  ℕ, ◌≡◌, false, not, none, some, Text, ok, arith, ltb, leb, ◌≤◌, ◌+◌, inl, inr, Bool-cases,
  Option-cases, ◌⊎◌, ◌<◌, ◌↔◌, refl, true, [], ◌∷◌, values,
}
use soqtec.Chain.{is_mempool}
use soqtec.Store.{get_deposit, get_mint}
use soqtec.Store.Records.{MintRecord, DepositRecord}
use soqtec.Gateway.World.{Answers, BtcsoqConfig, World, VaultBalance, truthy}
use soqtec.Gateway.Breaker.{
  is_paused, mint_breaker_reason, release_breaker_reason, daily_minted_sats, daily_released_sats,
  over_cap, check_por_invariant, outstanding_sats,
}
use soqtec.Gateway.Limits.Totals.{
  IsTotal, IsRecent, IsOutstanding, daily_minted_sats-IsTotal, daily_released_sats-IsTotal,
  outstanding_sats-IsTotal,
}
use soqtec.Gateway.Mint.{attempt_mint, mint_for_deposit_key, hold}
use soqtec.Gateway.Redeem.{attempt_release}

truthy_lem : (s : Text) → truthy s ≡ false → s ≡ []
truthy_lem [] h = refl
truthy_lem (c ∷ s) h = absurd (ground arith)

-- A daily cap of 0 is none.
abbrev pub IsWithin : ℕ → ℕ → Type 0
IsWithin cap total = (cap ≡ 0) ⊎ (total ≤ cap)

-- A deposit that may be minted for.
pub record IsEligible (config : BtcsoqConfig) (key : Text) (w : World) : Type 0 where
  pub dep : DepositRecord
  pub recorded : get_deposit key w.store ≡ some dep
  pub unclaimed : get_mint key w.store ≡ none
  pub mined : is_mempool dep.confidence ≡ false
  pub paid_enough : config.min_deposit_sats ≤ dep.sats

module _ (env : Answers) (config : BtcsoqConfig) where
  -- The operator has no pause file, or it is not there.
  abbrev pub IsRunning : World → Type 0
  IsRunning w = (config.pause_file ≡ []) ⊎ (env.file_exists w.trace config.pause_file ≡ false)

  is_paused-IsRunning : (w : World) → is_paused env config w ≡ false → IsRunning w
  unfolding is_paused
  is_paused-IsRunning w h = elim (Bool-cases (truthy config.pause_file)) [
    | inl named ↦ inr (grind arith)
    | inr unnamed ↦ inl (truthy_lem config.pause_file unnamed)
  ]

  mint_breaker_reason-none :
      (sats : ℕ) (w : World)
      → mint_breaker_reason env config sats w ≡ none
      → (is_paused env config w ≡ false)
        × (w.por_halted ≡ false)
        × IsWithin config.max_daily_mint_sats (daily_minted_sats (env.now w.trace) w.store + sats)
  unfolding mint_breaker_reason over_cap
  mint_breaker_reason-none sats w h = (grind arith, grind arith, grind arith)

  release_breaker_reason-none :
      (sats : ℕ) (w : World)
      → release_breaker_reason env config sats w ≡ none
      → (is_paused env config w ≡ false)
        × IsWithin config.max_daily_release_sats
            (daily_released_sats (env.now w.trace) w.store + sats)
  unfolding release_breaker_reason over_cap
  release_breaker_reason-none sats w h = grind arith

  -- An attempt to mint changes nothing and calls nobody, unless there is no pause file, the reserves
  -- are in order, and the sats of all records that were minted less than 24 hours ago stay, with this
  -- mint, within the daily cap, if there is one.
  pub attempt_mint-IsWithin :
      (rec : MintRecord) (w : World)
      → (attempt_mint env config rec w ≡ (ok none, w))
        ⊎ (IsRunning w
            × (w.por_halted ≡ false)
            × (total : ℕ) × IsTotal
                (λ m. IsRecent (env.now w.trace) m.minted_at)
                (values w.store.state.mints)
                total
            × IsWithin config.max_daily_mint_sats (total + rec.sats))
  unfolding attempt_mint
  attempt_mint-IsWithin rec w = elim (Option-cases (mint_breaker_reason env config rec.sats w)) [
    | inl free ↦
        let (running, in_order, within) = mint_breaker_reason-none rec.sats w free in
        inr (
          is_paused-IsRunning w running,
          in_order,
          daily_minted_sats (env.now w.trace) w.store,
          daily_minted_sats-IsTotal (env.now w.trace) w.store,
          within,
        )
    | inr (reason, e) ↦ inl (grind arith)
  ]

  -- An attempt to release changes nothing and calls nobody, unless there is no pause file and the sats
  -- of all records that were released less than 24 hours ago stay, with this release, within the daily
  -- cap, if there is one.
  pub attempt_release-IsWithin :
      (rec : MintRecord) (w : World)
      → (attempt_release env config rec w ≡ (ok tt, w))
        ⊎ (IsRunning w
            × (total : ℕ) × IsTotal
                (λ m. IsRecent (env.now w.trace) m.released_at)
                (values w.store.state.mints)
                total
            × IsWithin config.max_daily_release_sats (total + rec.sats))
  unfolding attempt_release
  attempt_release-IsWithin rec w =
      elim (Option-cases (release_breaker_reason env config rec.sats w)) [
        | inl free ↦
            let (running, within) = release_breaker_reason-none rec.sats w free in
            inr (
              is_paused-IsRunning w running,
              daily_released_sats (env.now w.trace) w.store,
              daily_released_sats-IsTotal (env.now w.trace) w.store,
              within,
            )
        | inr (reason, e) ↦ inl (grind arith)
      ]

  -- `mintForDepositKey` calls nobody, not even to validate an address, unless the deposit is recorded,
  -- seen in a block, large enough, and not claimed before.
  pub mint_for_deposit_key-IsEligible :
      (key : Text) (w : World)
      → ((mint_for_deposit_key env config key w).1.trace ≡ w.trace) ⊎ IsEligible config key w
  unfolding mint_for_deposit_key hold
  mint_for_deposit_key-IsEligible key w = elim (Option-cases (get_deposit key w.store)) [
    | inl f ↦ inl (grind arith)
    | inr (dep, f) ↦ elim (Bool-cases (is_mempool dep.confidence)) [
      | inl pool ↦ inl (grind arith)
      | inr mined ↦ elim (Bool-cases (ltb dep.sats config.min_deposit_sats)) [
        | inl low ↦ inl (grind arith)
        | inr enough ↦ elim (Option-cases (get_mint key w.store)) [
          | inl free ↦ inr (record {
            dep = dep;
            recorded = f;
            unclaimed = free;
            mined = mined;
            paid_enough = grind arith;
          })
          | inr (m, g) ↦ inl (grind arith)
        ]
      ]
    ]
  ]

-- After a check with a readable vault, minting is halted exactly if the sats of all records that are
-- being minted, or minted and not on their way back, exceed what the vault holds, confirmed and
-- pending, whether it was halted before or not.
pub check_por_invariant-halted :
    (env : Answers) (w : World) (v : VaultBalance)
    → env.vault_balance w.trace ≡ ok v
    → (total : ℕ) × IsTotal IsOutstanding (values w.store.state.mints) total
      × ((check_por_invariant env w).por_halted ≡ true ↔ v.confirmed_sats + v.pending_sats < total)
unfolding check_por_invariant
check_por_invariant-halted env w v h = (
  outstanding_sats w.store,
  outstanding_sats-IsTotal w.store,
  (λ halted. ground arith, λ more. ground arith),
)
