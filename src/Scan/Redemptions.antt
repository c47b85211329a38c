-- ===== src/Scan/Redemptions.antt =====
-- btcsoq/soq-scan.ts: the redemption scan and its cursor.
use Prim.Native.Nat.add
use mathlib.Core.List.{append_assoc}
use soqtec.Base.{ℕ, zero, suc, ◌+◌, ◌-◌, ◌≤◌, ◌<◌, ◌≡◌, ◌∙◌, Bool, ◌++◌, Text, arith}
use soqtec.Scan.{Block, RedemptionSpend, scan_blocks, scan_redemptions}

module _ (address : Text) (is_carrier : Text → Bool) (block : ℕ → Block) where
  scan_blocks-append :
      (h m n : ℕ)
      → scan_blocks address is_carrier block h (m + n)
        ≡ scan_blocks address is_carrier block h m ++ scan_blocks address is_carrier block (h + m) n
  unfolding scan_blocks
  scan_blocks-append h zero n = let e : h + 0 ≡ h = omega arith in rw (add.zero n, e)
  scan_blocks-append h (suc m) n =
      let e : h + suc m ≡ h + 1 + m = omega arith in
      rw (add.suc m n, e, scan_blocks-append (h + 1) m n, append_assoc)

  -- Scanning up to a cursor, and later on from there, finds what one scan finds: no block is
  -- skipped and none is scanned twice.
  pub scan_redemptions-append :
      (a b c : ℕ)
      → a ≤ b
      → b ≤ c
      → scan_redemptions address a c is_carrier block
        ≡ scan_redemptions address a b is_carrier block
          ++ scan_redemptions address b c is_carrier block
  unfolding scan_redemptions
  scan_redemptions-append a b c h k =
      let total : c - a ≡ (b - a) + (c - b) = omega arith in
      let next : a + 1 + (b - a) ≡ b + 1 = omega arith in
      rw total (scan_blocks-append (a + 1) (b - a) (c - b) ∙ rw next)

  abbrev InRange : ℕ → ℕ → RedemptionSpend → Type 0
  InRange lo hi s = (lo < s.height) × (s.height ≤ hi) × (0 < s.paid_shors)
