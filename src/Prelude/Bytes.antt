-- ===== src/Prelude/Bytes.antt =====
-- Bytes and 16-bit words as numbers, and their little- and big-endian encodings.
use Prim.Native.Nat.{ℕ, ◌+◌, ◌*◌, ◌/◌, ◌%◌, ◌<◌}
use mathlib.Core.Path.{◌≡◌}
use mathlib.Core.List.{List, [], ◌∷◌}
use native.Mathlib.Omega.{arith}

abbrev pub IsByte : ℕ → Type 0
IsByte b = b < 256

abbrev pub IsWord : ℕ → Type 0
IsWord v = v < 65536

-- `u16::to_le_bytes` and `u16::to_be_bytes`.
abbrev pub to_le_bytes : ℕ → List ℕ
to_le_bytes v = (v % 256) ∷ (v / 256) ∷ []

abbrev pub to_be_bytes : ℕ → List ℕ
to_be_bytes v = (v / 256) ∷ (v % 256) ∷ []

-- `u16::from_le_bytes([a, b])` and `u16::from_be_bytes([a, b])`.
abbrev pub from_le_bytes : ℕ → ℕ → ℕ
from_le_bytes a b = a + 256 * b

abbrev pub from_be_bytes : ℕ → ℕ → ℕ
from_be_bytes a b = 256 * a + b

pub from_le_bytes-to_le_bytes : (v : ℕ) → from_le_bytes (v % 256) (v / 256) ≡ v
from_le_bytes-to_le_bytes v = omega arith

pub from_be_bytes-to_be_bytes : (v : ℕ) → from_be_bytes (v / 256) (v % 256) ≡ v
from_be_bytes-to_be_bytes v = omega arith

pub from_le_bytes-IsWord : (a b : ℕ) → IsByte a → IsByte b → IsWord (from_le_bytes a b)
from_le_bytes-IsWord a b ha hb = omega arith

pub from_be_bytes-IsWord : (a b : ℕ) → IsByte a → IsByte b → IsWord (from_be_bytes a b)
from_be_bytes-IsWord a b ha hb = omega arith
