-- ===== src/Prelude/Bits.antt =====
-- Masks of a byte as arithmetic, by comparing all the bytes.
use Prim.Native.Nat.{ℕ, zero, suc, ◌*◌, ◌/◌, ◌<◌, bit_and}
use mathlib.Core.Path.{◌≡◌, refl}
use mathlib.Core.Bool.{Bool, true, ◌&&◌}
use native.Mathlib.Omega.{arith}
use zanarkand.Prelude.Tests.{◌==◌, ==_iff}

same_below : (ℕ → ℕ) → (ℕ → ℕ) → ℕ → Bool
same_below f g zero = true
same_below f g (suc n) = same_below f g n && f n == g n

module _ (f g : ℕ → ℕ) where
  same_at : (k : ℕ) {b : ℕ} → b < k → same_below f g k ≡ true → (f b == g b) ≡ true
  unfolding same_below
  same_at zero lt e = absurd (omega arith)
  same_at (suc k) {b} lt e = ground (arith, same_at k {b = b})

  by_table : same_below f g 256 ≡ true → {b : ℕ} → b < 256 → f b ≡ g b
  by_table e {b} lt = (==_iff (f b) (g b)).0 (same_at 256 lt e)

pub mask_255 : (b : ℕ) → b < 256 → bit_and b 255 ≡ b
unfolding same_below
mask_255 b = by_table (λ n. bit_and n 255) (λ n. n) refl

pub mask_240 : (b : ℕ) → b < 256 → bit_and b 240 ≡ b / 16 * 16
unfolding same_below
mask_240 b = by_table (λ n. bit_and n 240) (λ n. n / 16 * 16) refl

pub mask_0 : (b : ℕ) → b < 256 → bit_and b 0 ≡ 0
unfolding same_below
mask_0 b = by_table (λ n. bit_and n 0) (λ n. 0) refl
