-- ===== src/Felica/Emulator/Blocks/Words.antt =====
-- The four-byte fields: what is written is read back.
use felica_rs.Prelude.{
  ℕ, ◌<◌, ◌≡◌, refl, Bool, true, false, List, [], ◌∷◌, ◌++◌, length, All, arith,
}
use felica_rs.Prelude.Bytes.{IsByte}
use felica_rs.Prelude.Int.{ℤ, pos, negsuc, ◌≤ℤ◌}
use felica_rs.Felica.Emulator.Blocks.{
  Block, u32_of, as_i32, as_u32, read_value, u32_bytes, write_value,
}

-- The values of a field, read with or without a sign.
abbrev pub Fits32 : Bool → ℤ → Type 0
Fits32 true v = (negsuc 0x7fff_ffff ≤ℤ v) × (v ≤ℤ pos 0x7fff_ffff)
Fits32 false v = (pos 0 ≤ℤ v) × (v ≤ℤ pos 0xffff_ffff)

abbrev pub IsBlock : Block → Type 0
IsBlock b = (length b ≡ 16) × All IsByte b

as_u32-lt : (v : ℤ) → as_u32 v < 0x1_0000_0000
unfolding as_u32
as_u32-lt (pos n) = omega arith
as_u32-lt (negsuc n) = omega arith

u32_of-bytes :
    (raw : ℕ) (rest : List ℕ) → raw < 0x1_0000_0000 → u32_of (u32_bytes raw ++ rest) ≡ raw
unfolding u32_of u32_bytes
u32_of-bytes raw rest h = omega arith

as_i32-as_u32 : (v : ℤ) → Fits32 true v → as_i32 (as_u32 v) ≡ v
unfolding as_i32 as_u32
as_i32-as_u32 (pos n) h = ground arith
as_i32-as_u32 (negsuc n) h = ground arith

as_u32-pos : (v : ℤ) → Fits32 false v → pos (as_u32 v) ≡ v
unfolding as_u32
as_u32-pos (pos n) h = ground arith
as_u32-pos (negsuc n) h = ground arith

pub read_value-write_value :
    (signed : Bool) (v : ℤ) (rest : List ℕ)
    → Fits32 signed v
    → read_value (write_value v ++ rest) signed ≡ v
unfolding read_value write_value
read_value-write_value true v rest h =
    rw (u32_of-bytes (as_u32 v) rest (as_u32-lt v)) (as_i32-as_u32 v h)
read_value-write_value false v rest h =
    rw (u32_of-bytes (as_u32 v) rest (as_u32-lt v)) (as_u32-pos v h)

pub write_value-IsByte : (v : ℤ) → All IsByte (write_value v)
unfolding write_value u32_bytes
write_value-IsByte v =
    let h : as_u32 v < 0x1_0000_0000 = as_u32-lt v in
    (omega arith, (omega arith, (omega arith, (omega arith, tt))))

pub length-write_value : (v : ℤ) → length (write_value v) ≡ 4
unfolding write_value u32_bytes
length-write_value v = refl

u32_of_bound : (bs : List ℕ) → All IsByte bs → u32_of bs < 0x1_0000_0000
unfolding u32_of
u32_of_bound [] h = omega arith
u32_of_bound (a ∷ []) h = omega arith
u32_of_bound (a ∷ b ∷ []) h = omega arith
u32_of_bound (a ∷ b ∷ c ∷ []) h = omega arith
u32_of_bound (a ∷ b ∷ c ∷ d ∷ bs) h = omega arith

pub read_value-Fits32 :
    (signed : Bool) (bs : List ℕ) → All IsByte bs → Fits32 signed (read_value bs signed)
unfolding read_value as_i32
read_value-Fits32 true bs h = ground (arith, u32_of_bound bs h)
read_value-Fits32 false bs h = ground (arith, u32_of_bound bs h)

pub zero-Fits32 : (signed : Bool) → Fits32 signed (pos 0)
zero-Fits32 true = (omega arith, omega arith)
zero-Fits32 false = (omega arith, omega arith)
