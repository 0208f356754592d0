-- ===== src/Base/Bits.antt =====
-- Masks on one byte as arithmetic, each a table checked by evaluation.
use Prim.Native.Nat.{ℕ, zero, suc, ◌+◌, ◌*◌, ◌/◌, ◌%◌, ◌<◌, bit_and, bit_or}
use mathlib.Core.Path.{◌≡◌, refl, sym, ap, ◌∙◌}
use mathlib.Core.Bool.{Bool, true, false}
use native.Mathlib.Decide.{ℕ_discrete}
use native.Mathlib.Omega.{arith}
use rdpserver.Base.Tests.{◌==◌, ==_iff, if◌then◌else◌}

-- Whether `f` and `g` have the same values on 0, 1, ..., `n - 1`.
agrees : (ℕ → ℕ) → (ℕ → ℕ) → ℕ → Bool
agrees f g zero = true
agrees f g (suc k) = if f k == g k then agrees f g k else false

agree : (n : ℕ) (f g : ℕ → ℕ) → agrees f g n ≡ true → (b : ℕ) → b < n → f b ≡ g b
unfolding agrees
agree zero f g t b h = absurd (omega arith)
agree (suc k) f g t b h = elim (ℕ_discrete b k) [
  | yes e ↦ ap f e ∙ (==_iff (f k) (g k)).0 (ground arith) ∙ sym (ap g e)
  | no ne ↦ agree k f g (ground arith) b (omega arith)
]

pub and_0x80 : (b : ℕ) → b < 256 → bit_and b 0x80 ≡ b / 128 * 128
unfolding agrees
and_0x80 = agree 256 _ _ refl

pub and_0xc0 : (b : ℕ) → b < 256 → bit_and b 0xc0 ≡ b / 64 * 64
unfolding agrees
and_0xc0 = agree 256 _ _ refl

pub and_0xe0 : (b : ℕ) → b < 256 → bit_and b 0xe0 ≡ b / 32 * 32
unfolding agrees
and_0xe0 = agree 256 _ _ refl

pub and_0xf0 : (b : ℕ) → b < 256 → bit_and b 0xf0 ≡ b / 16 * 16
unfolding agrees
and_0xf0 = agree 256 _ _ refl

pub and_0xf8 : (b : ℕ) → b < 256 → bit_and b 0xf8 ≡ b / 8 * 8
unfolding agrees
and_0xf8 = agree 256 _ _ refl

pub and_0x07 : (b : ℕ) → b < 256 → bit_and b 0x07 ≡ b % 8
unfolding agrees
and_0x07 = agree 256 _ _ refl

pub and_0x0f : (b : ℕ) → b < 256 → bit_and b 0x0f ≡ b % 16
unfolding agrees
and_0x0f = agree 256 _ _ refl

pub and_0x1f : (b : ℕ) → b < 256 → bit_and b 0x1f ≡ b % 32
unfolding agrees
and_0x1f = agree 256 _ _ refl

pub and_0x3f : (b : ℕ) → b < 256 → bit_and b 0x3f ≡ b % 64
unfolding agrees
and_0x3f = agree 256 _ _ refl

pub and_0x7f : (b : ℕ) → b < 256 → bit_and b 0x7f ≡ b % 128
unfolding agrees
and_0x7f = agree 256 _ _ refl

pub or_0x80 : (b : ℕ) → b < 128 → bit_or 0x80 b ≡ 128 + b
unfolding agrees
or_0x80 = agree 128 _ _ refl
