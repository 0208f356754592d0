-- ===== src/Base/Size.antt =====
-- The size of a bitmap that the codecs take.
use Prim.Native.Nat.{ℕ, zero, suc, ◌*◌, ◌≤◌, ◌<◌}
use native.Mathlib.Omega.{arith}

pub record IsSize (width height : ℕ) : Type 0 where
  pub wide : 0 < width
  pub high : 0 < height
  pub narrow : width ≤ 64
  pub low : height ≤ 64

pub mul_le : (height width : ℕ) → width ≤ 64 → height * width ≤ height * 64
mul_le zero width h = omega arith
mul_le (suc n) width h = omega (arith, mul_le n width h)

pub area_le : (width height : ℕ) → IsSize width height → height * width ≤ 4096
area_le width height s = omega (arith, mul_le height width s.narrow, s.low)
