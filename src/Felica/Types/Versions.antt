-- ===== src/Felica/Types/Versions.antt =====
-- src/felica_standard/types.rs: versions of keys and of the card's specification.
pub mod RoundTrip
use felica_rs.Prelude.{
  if◌then◌else◌, ℕ, ◌*◌, ◌/◌, ◌%◌, ◌^◌, Bool, ◌&&◌, List, [], ◌∷◌, ◌++◌, Option, some, none, ◌==◌,
  leb, length, bit_and, bit_or, get_elem?,
}

pub record OptionVersion : Type 0 where
  pub major : ℕ
  pub minor : ℕ
  pub patch : ℕ

-- `new`: the low four bits of each component.
unfoldable pub new : ℕ → ℕ → ℕ → OptionVersion
new major minor patch = record {
  major = bit_and major 0x0f;
  minor = bit_and minor 0x0f;
  patch = bit_and patch 0x0f;
}

unfoldable pub is_valid_bcd : OptionVersion → Bool
is_valid_bcd v = leb v.major 9 && (leb v.minor 9 && leb v.patch 9)

-- `from_le_bytes([low, high])`
unfoldable pub version_of : ℕ → ℕ → Option OptionVersion
version_of low high =
    let version : OptionVersion = record {
      major = bit_and high 0x0f;
      minor = bit_and (low / 2 ^ 4) 0x0f;
      patch = bit_and low 0x0f;
    } in
    if (bit_and high 0xf0 == 0x80) && is_valid_bcd version then some version else none

unfoldable pub version_bytes : OptionVersion → List ℕ
version_bytes v =
    bit_or (bit_and v.minor 0x0f * 2 ^ 4) (bit_and v.patch 0x0f)
    ∷ bit_or 0x80 (bit_and v.major 0x0f)
    ∷ []

pub record SpecificationVersion : Type 0 where
  pub format_version : ℕ
  pub basic_version : OptionVersion
  pub option_versions : List OptionVersion

unfoldable pub des_option_version : SpecificationVersion → Option OptionVersion
des_option_version s = get_elem? s.option_versions 0

unfoldable pub special_option_version : SpecificationVersion → Option OptionVersion
special_option_version s = get_elem? s.option_versions 1

unfoldable pub extended_overlap_option_version : SpecificationVersion → Option OptionVersion
extended_overlap_option_version s = get_elem? s.option_versions 2

unfoldable pub value_limited_purse_service_option_version :
    SpecificationVersion → Option OptionVersion
value_limited_purse_service_option_version s = get_elem? s.option_versions 3

unfoldable pub communication_with_mac_option_version : SpecificationVersion → Option OptionVersion
communication_with_mac_option_version s = get_elem? s.option_versions 4

unfoldable pub random_id_option_version : SpecificationVersion → Option OptionVersion
random_id_option_version s = get_elem? s.option_versions 5

unfoldable pub options_bytes : List OptionVersion → List ℕ
options_bytes [] = []
options_bytes (v ∷ vs) = version_bytes v ++ options_bytes vs

-- `to_bytes`; the length is written with `as u8`.
unfoldable pub specification_bytes : SpecificationVersion → List ℕ
specification_bytes s =
    s.format_version
    ∷ (version_bytes s.basic_version
        ++ ((length s.option_versions % 256) ∷ options_bytes s.option_versions))

pub data RequestServiceV2KeyVersion : Type 0 where
  single : ℕ → RequestServiceV2KeyVersion
  dual : (aes : ℕ) (des : ℕ) → RequestServiceV2KeyVersion

pub record RequestServiceV2Result : Type 0 where
  pub crypto_id : ℕ
  pub key_versions : List RequestServiceV2KeyVersion

unfoldable pub primary_raw : RequestServiceV2KeyVersion → ℕ
primary_raw (single value) = value
primary_raw (dual aes des) = aes

unfoldable pub secondary_raw : RequestServiceV2KeyVersion → Option ℕ
secondary_raw (single value) = none
secondary_raw (dual aes des) = some des

abbrev pub no_key_version : ℕ
no_key_version = 0xffff

unfoldable pub normalize_key_version : ℕ → Option ℕ
normalize_key_version value = if value == no_key_version then none else some value

unfoldable pub primary : RequestServiceV2KeyVersion → Option ℕ
primary (single value) = normalize_key_version value
primary (dual aes des) = normalize_key_version aes

unfoldable pub secondary : RequestServiceV2KeyVersion → Option ℕ
secondary (single value) = none
secondary (dual aes des) = normalize_key_version des
