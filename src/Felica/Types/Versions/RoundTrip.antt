-- ===== src/Felica/Types/Versions/RoundTrip.antt =====
-- Packed versions: what is written is read back, and what is read is written back.
use Prim.Native.Nat.{bit_and, bit_or}
use felica_rs.Prelude.{
  ℕ, ◌+◌, ◌*◌, ◌/◌, ◌%◌, ◌≤◌, ◌<◌, ◌≡◌, refl, ◌∙◌, some, le→leb, [], ◌∷◌, arith,
}
use felica_rs.Prelude.Bytes.{IsByte}
use felica_rs.Prelude.Bits.{agree, table, low_nibble, set_top_bit}
use felica_rs.Felica.Types.Versions.{OptionVersion, is_valid_bcd, version_of, version_bytes}

-- Three digits.
abbrev pub IsVersion : OptionVersion → Type 0
IsVersion v = (v.major ≤ 9) × (v.minor ≤ 9) × (v.patch ≤ 9)

join_nibbles : (x : ℕ) → x < 256 → bit_or (x / 16 * 16) (x % 16) ≡ x
unfolding agree
join_nibbles = table 256 _ (λ x. x) refl

high_nibble : (b : ℕ) → b < 256 → bit_and b 0xf0 ≡ b / 16 * 16
unfolding agree
high_nibble = table 256 _ _ refl

pair_of_nibbles :
    (m p : ℕ) → m < 16 → p < 16 → bit_or (bit_and m 0x0f * 16) (bit_and p 0x0f) ≡ 16 * m + p
pair_of_nibbles m p hm hp =
    let x : ℕ = 16 * m + p in
    let high : x / 16 ≡ m = omega arith in
    let low : x % 16 ≡ p = omega arith in
    let joined : bit_or (m * 16) p ≡ x = rw (high, low) at (join_nibbles x (omega arith)) in
    rw
      (
        low_nibble m (omega arith),
        low_nibble p (omega arith),
        (let same : m % 16 ≡ m = omega arith in same),
        (let same : p % 16 ≡ p = omega arith in same),
      )
      joined

-- A version of three decimal digits is written as two bytes, and those bytes are read as the same
-- version.
pub version_bytes_lem :
    (v : OptionVersion)
    → IsVersion v
    → version_bytes v ≡ (16 * v.minor + v.patch) ∷ (128 + v.major) ∷ []
unfolding version_bytes
version_bytes_lem v h = rw (
  pair_of_nibbles v.minor v.patch (omega (arith, h.1)) (omega (arith, h.2)),
  low_nibble v.major (omega (arith, h.0)),
  (let same : v.major % 16 ≡ v.major = omega (arith, h.0) in same),
  set_top_bit v.major (omega (arith, h.0)),
)

pub version_of-digits :
    (v : OptionVersion) → IsVersion v → version_of (16 * v.minor + v.patch) (128 + v.major) ≡ some v
unfolding version_of is_valid_bcd
version_of-digits v h = rw (
  high_nibble (128 + v.major) (omega (arith, h.0)),
  low_nibble (128 + v.major) (omega (arith, h.0)),
  low_nibble ((16 * v.minor + v.patch) / 16) (omega (arith, h.1, h.2)),
  low_nibble (16 * v.minor + v.patch) (omega (arith, h.1, h.2)),
  (let same : (128 + v.major) / 16 * 16 ≡ 0x80 = omega (arith, h.0) in same),
  (let same : (128 + v.major) % 16 ≡ v.major = omega (arith, h.0) in same),
  (let same : (16 * v.minor + v.patch) / 16 % 16 ≡ v.minor = omega (arith, h.1, h.2) in same),
  (let same : (16 * v.minor + v.patch) % 16 ≡ v.patch = omega (arith, h.1, h.2) in same),
  le→leb v.major 9 h.0,
  le→leb v.minor 9 h.1,
  le→leb v.patch 9 h.2,
)

-- What a version that is read says of the two bytes.
version_of-digits_of :
    (low high : ℕ) (v : OptionVersion)
    → IsByte low
    → IsByte high
    → version_of low high ≡ some v
    → IsVersion v × (low ≡ 16 * v.minor + v.patch) × (high ≡ 128 + v.major)
unfolding version_of is_valid_bcd
version_of-digits_of low high v hl hh e = ground (
  arith,
  high_nibble high hh,
  low_nibble high hh,
  low_nibble (low / 16) (omega arith),
  low_nibble low hl,
)

-- Two bytes that are read as a version are the bytes that this version of three digits is written
-- as.
pub version_bytes-version_of :
    (low high : ℕ) (v : OptionVersion)
    → IsByte low
    → IsByte high
    → version_of low high ≡ some v
    → IsVersion v × (version_bytes v ≡ low ∷ high ∷ [])
version_bytes-version_of low high v hl hh e =
    let (digits, l, h) = version_of-digits_of low high v hl hh e in
    (digits, version_bytes_lem v digits ∙ rw (← l, ← h) refl)
