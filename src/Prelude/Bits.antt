-- ===== src/Prelude/Bits.antt =====
-- Masks and shifts on one byte as arithmetic, by tables that evaluation checks.
use Prim.Native.Nat.{ℕ, zero, suc, ◌+◌, ◌*◌, ◌/◌, ◌%◌, ◌<◌, bit_and, bit_or}
use mathlib.Core.Path.{◌≡◌, refl}
use mathlib.Core.Bool.{Bool, true, false}
use felica_rs.Prelude.Tests.{◌==◌, ==→eq, Bool-cases, if◌then◌else◌}
use mathlib.Core.Logic.{inl, inr}
use native.Mathlib.Omega.{arith}

-- Whether two functions answer the same on each number below `count`.
unfoldable pub agree : (f g : ℕ → ℕ) → ℕ → Bool
agree f g zero = true
agree f g (suc count) = if f count == g count then agree f g count else false

-- Two functions that agree below `count` by a table are equal there.
pub table : (count : ℕ) (f g : ℕ → ℕ) → agree f g count ≡ true → (x : ℕ) → x < count → f x ≡ g x
unfolding agree
table zero f g h x below = absurd (omega arith)
table (suc count) f g h x below = elim (Bool-cases (f count == g count)) [
  | inr differs ↦ let wrong : false ≡ true = rw differs at h in cc
  | inl same ↦ elim (Bool-cases (x == count)) [
    | inl last ↦ rw (==→eq x count last) (==→eq (f count) (g count) same)
    | inr before ↦ table count f g (rw same at h) x (ground arith)
  ]
]

pub low_nibble : (b : ℕ) → b < 256 → bit_and b 0x0f ≡ b % 16
unfolding agree
low_nibble = table 256 _ _ refl

pub low_three : (b : ℕ) → b < 256 → bit_and b 0x07 ≡ b % 8
unfolding agree
low_three = table 256 _ _ refl

pub top_bit : (b : ℕ) → b < 256 → bit_and b 0x80 ≡ b / 128 * 128
unfolding agree
top_bit = table 256 _ _ refl

pub set_top_bit : (b : ℕ) → b < 128 → bit_or 0x80 b ≡ 128 + b
unfolding agree
set_top_bit = table 128 _ _ refl
