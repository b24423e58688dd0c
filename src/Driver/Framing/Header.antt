-- ===== src/Driver/Framing/Header.antt =====
-- The header that `build` writes is the header that `parse_layout` reads.
use felica_rs.Prelude.{
  ℕ, ◌+◌, ◌/◌, ◌%◌, ◌≤◌, ◌<◌, ◌≡◌, refl, ap, ◌∙◌, true, false, List, [], ◌∷◌, ◌++◌, length, ltb,
  ◌==◌, eq→==, list_eq, if◌then◌else◌, Bool-cases, inl, inr, arith,
}
use felica_rs.Prelude.Outcome.{ok, ok_or}
use felica_rs.Driver.Framing.{
  Profile, LengthEncoding, normal, extended_little_endian, normal_or_extended_big_endian,
  FrameLayout, sof, is_extended, length_of_pair, parse_layout,
}
use felica_rs.Driver.Framing.Sums.{sum, Fits, Fits-small}
use felica_rs.Driver.Framing.Written.{
  complement, short_length, long_length, length_field, length_limit,
}
use felica_rs.Driver.Framing.Ranges.{get_range_at}

abbrev pub short_layout : ℕ → FrameLayout
short_layout n = record {
  payload_length = n;
  length_bytes = n ∷ [];
  lcs = complement n;
  data_start = 5;
}

abbrev pub long_layout : ℕ → ℕ → ℕ → FrameLayout
long_layout n a b = record {
  payload_length = n;
  length_bytes = a ∷ b ∷ [];
  lcs = complement (a + b);
  data_start = 8;
}

abbrev pub layout_of : LengthEncoding → ℕ → FrameLayout
layout_of normal n = short_layout n
layout_of extended_little_endian n = long_layout n (n % 256) (n / 256)
layout_of normal_or_extended_big_endian n =
    if ltb n 256 then short_layout n else long_layout n (n / 256) (n % 256)

pub not_marker : (n : ℕ) → n < 256 → list_eq (short_length n) (0xff ∷ 0xff ∷ []) ≡ false
unfolding list_eq
not_marker n h = ground arith

pub short_layout_read :
    (encoding : LengthEncoding) (n : ℕ) (tail : List ℕ)
    → n < 256
    → parse_layout encoding (sof ++ (short_length n ++ tail)) ≡ ok (short_layout n)
unfolding parse_layout ok_or
short_layout_read normal n tail h =
    rw (get_range_at sof (n ∷ []) (complement n ∷ tail) 3 4 refl refl)
short_layout_read encoding n tail h = rw (
  get_range_at sof (short_length n) tail 3 5 refl refl,
  not_marker n h,
  get_range_at sof (n ∷ []) (complement n ∷ tail) 3 4 refl refl,
)

pub long_layout_read :
    (encoding : LengthEncoding) (a b : ℕ) (tail : List ℕ)
    → is_extended encoding (sof ++ (long_length a b ++ tail)) ≡ true
    → parse_layout encoding (sof ++ (long_length a b ++ tail))
      ≡ ok (long_layout (length_of_pair encoding (a ∷ b ∷ [])) a b)
unfolding parse_layout ok_or
long_layout_read encoding a b tail h = rw (
  h,
  get_range_at (sof ++ (0xff ∷ 0xff ∷ [])) (a ∷ b ∷ []) (complement (a + b) ∷ tail) 5 7 refl refl,
)

pub is_extended_le :
    (a b : ℕ) (tail : List ℕ)
    → is_extended extended_little_endian (sof ++ (long_length a b ++ tail)) ≡ true
unfolding is_extended list_eq
is_extended_le a b tail =
    rw (get_range_at sof (0xff ∷ 0xff ∷ []) (a ∷ b ∷ complement (a + b) ∷ tail) 3 5 refl refl)

pub is_extended_be :
    (a b : ℕ) (tail : List ℕ)
    → is_extended normal_or_extended_big_endian (sof ++ (long_length a b ++ tail)) ≡ true
unfolding is_extended list_eq
is_extended_be a b tail =
    rw (get_range_at sof (0xff ∷ 0xff ∷ []) (a ∷ b ∷ complement (a + b) ∷ tail) 3 5 refl refl)

pub layout_read :
    (encoding : LengthEncoding) (n : ℕ) (tail : List ℕ)
    → n < length_limit encoding
    → parse_layout encoding (sof ++ (length_field encoding n ++ tail)) ≡ ok (layout_of encoding n)
unfolding length_of_pair
layout_read normal n tail h = short_layout_read normal n tail h
layout_read extended_little_endian n tail h =
    long_layout_read extended_little_endian (n % 256) (n / 256) tail (is_extended_le _ _ tail)
    ∙ ap (λ t. ok (long_layout t (n % 256) (n / 256))) (omega arith)
layout_read normal_or_extended_big_endian n tail h = elim (Bool-cases (ltb n 256)) [
  | inl short ↦ rw short (short_layout_read normal_or_extended_big_endian n tail (ground arith))
  | inr long ↦ rw long (
      long_layout_read normal_or_extended_big_endian (n / 256) (n % 256) tail
        (is_extended_be _ _ tail)
      ∙ ap (λ t. ok (long_layout t (n / 256) (n % 256))) (omega arith))
]

-- What the stated length and its checksum are, for every layout.
pub layout_facts :
    (p : Profile) (encoding : LengthEncoding) (n : ℕ)
    → n < length_limit encoding
    → (length (sof ++ length_field encoding n) ≡ (layout_of encoding n).data_start)
      × ((layout_of encoding n).payload_length ≡ n)
      × Fits p (sum (layout_of encoding n).length_bytes + (layout_of encoding n).lcs)
      × (((sum (layout_of encoding n).length_bytes + (layout_of encoding n).lcs) % 256 == 0) ≡ true)
unfolding sum
layout_facts p normal n h = (refl, refl, Fits-small p _ (omega arith), eq→== _ _ (omega arith))
layout_facts p extended_little_endian n h =
    (refl, refl, Fits-small p _ (omega arith), eq→== _ _ (omega arith))
layout_facts p normal_or_extended_big_endian n h = elim (Bool-cases (ltb n 256)) [
  | inl short ↦ rw short (refl, refl, Fits-small p _ (ground arith), eq→== _ _ (omega arith))
  | inr long ↦ rw long (refl, refl, Fits-small p _ (omega arith), eq→== _ _ (omega arith))
]

pub header_room : (encoding : LengthEncoding) (n : ℕ) → 5 ≤ (layout_of encoding n).data_start
header_room normal n = omega arith
header_room extended_little_endian n = omega arith
header_room normal_or_extended_big_endian n = ground arith
