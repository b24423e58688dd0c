-- ===== src/Response/Write.antt =====
-- src/felica_standard/response/serialize.rs: the parts of a response, as the writer appends them.
pub mod Layout
use felica_rs.Prelude.{
  if◌then◌else◌, ℕ, Bool, false, not, ◌||◌, Option, none, some, List, [], ◌∷◌, ◌==◌, length, String,
  map,
}
use felica_rs.Prelude.Outcome.{Outcome, ok, err, ◌>>=◌, ◌>>◌, ensure, ok_or}
use felica_rs.Prelude.Slices.{index}
use felica_rs.Felica.Constants
use felica_rs.Felica.Constants.{
  max_service_codes, max_block_count, max_node_codes, max_node_property_codes,
}
use felica_rs.Felica.Error.{ProtocolError, protocol}
use felica_rs.Felica.Types.Selectors.{NodePropertyType}
use felica_rs.Felica.Types.Results.{
  SearchServiceCodeResult, service, area, AreaCodeRange, NodeProperty, property_type, same_type,
  property_bytes, RequestCodeListResult, RequestBlockInformationExResult, GetAreaInformationResult,
  GetNodePropertyResult,
}
use felica_rs.Felica.Types.Versions.{
  OptionVersion, SpecificationVersion, is_valid_bcd, specification_bytes,
  RequestServiceV2KeyVersion, RequestServiceV2Result, primary_raw, secondary_raw,
}
use felica_rs.Felica.Payload.{
  PayloadWriter, with_capacity, response, status_flags, push_u8, push_flag, push_count,
  extend_bytes, extend_u16_le, extend_u16_list_le, finish, for_success, ensure_count_in_range,
  ensure_fits_in_count,
}

abbrev pub Written : Type 0 → Type 0
Written A = Outcome ProtocolError A

-- `if let Some(result) = for_success(what, noun, status_flag1, result)? { … }`
unfoldable pub on_success :
    {R : Type 0}
    → String
    → String
    → ℕ
    → Option R
    → (R → PayloadWriter → Written PayloadWriter)
    → PayloadWriter
    → Written PayloadWriter
on_success what noun status_flag1 result write_result w = do
  success ← for_success what noun status_flag1 result
  elim success [ none ↦ ok w | some r ↦ write_result r w ]

unfoldable pub finished : Written PayloadWriter → Written (List ℕ)
finished written = written >>= λ w. ok (finish w)

unfoldable pub status_only : ℕ → List ℕ → ℕ → ℕ → List ℕ
status_only code idm status_flag1 status_flag2 =
    finish (status_flags status_flag1 status_flag2 (response code idm))

unfoldable pub secure_status_only : ℕ → ℕ → PayloadWriter
secure_status_only status_flag1 status_flag2 =
    status_flags status_flag1 status_flag2 (with_capacity 4)

unfoldable pub extend_blocks : List (List ℕ) → PayloadWriter → PayloadWriter
extend_blocks [] w = w
extend_blocks (b ∷ bs) w = extend_blocks bs (extend_bytes b w)

-- The count of blocks and the blocks.
unfoldable pub write_blocks : String → List (List ℕ) → PayloadWriter → Written PayloadWriter
write_blocks what blocks w = do
  ensure_count_in_range what (length blocks) max_block_count
  w ← push_count (length blocks) w
  ok (extend_blocks blocks w)

unfoldable pub extend_areas : List AreaCodeRange → PayloadWriter → PayloadWriter
extend_areas [] w = w
extend_areas (a ∷ rest) w =
    extend_areas rest (extend_u16_le a.end_service_code (extend_u16_le a.area_code w))

unfoldable pub write_code_list : RequestCodeListResult → PayloadWriter → Written PayloadWriter
write_code_list result w = do
  ensure_fits_in_count "request code list area count" (length result.areas)
  ensure_fits_in_count "request code list service count" (length result.services)
  w ← push_count (length result.areas) (push_flag result.continue_flag w)
  w ← push_count (length result.services) (extend_areas result.areas w)
  ok (extend_u16_list_le (map (λ c. c.raw) result.services) w)

-- `assigned.iter().zip(free.iter())`: the shorter list ends the run.
unfoldable pub extend_pairs : List ℕ → List ℕ → PayloadWriter → PayloadWriter
extend_pairs (a ∷ rest) (f ∷ fs) w = extend_pairs rest fs (extend_u16_le f (extend_u16_le a w))
extend_pairs _ _ w = w

unfoldable pub write_block_information_ex :
    RequestBlockInformationExResult → PayloadWriter → Written PayloadWriter
write_block_information_ex result w = do
  ensure_count_in_range "request block information ex count" (length result.assigned_block_counts)
      max_node_codes
  ensure (length result.assigned_block_counts == length result.free_block_counts)
      (protocol "request block information ex assigned/free length mismatch")
  w ← push_count (length result.assigned_block_counts) w
  ok (extend_pairs result.assigned_block_counts result.free_block_counts w)

unfoldable pub write_area_information :
    GetAreaInformationResult → PayloadWriter → Written PayloadWriter
write_area_information result w =
    ok (extend_bytes result.area_data (extend_u16_le result.node_code w))

-- `properties.iter().any(|property| property.property_type() != property_type)`
unfoldable pub any_other_type : NodePropertyType → List NodeProperty → Bool
any_other_type type [] = false
any_other_type type (p ∷ ps) = not (same_type (property_type p) type) || any_other_type type ps

unfoldable pub extend_properties : List NodeProperty → PayloadWriter → PayloadWriter
extend_properties [] w = w
extend_properties (p ∷ ps) w = extend_properties ps (extend_bytes (property_bytes p) w)

unfoldable pub write_node_properties : GetNodePropertyResult → PayloadWriter → Written PayloadWriter
write_node_properties result w = do
  ensure_count_in_range "get node property count" (length result.node_properties)
      max_node_property_codes
  first ← index result.node_properties 0
  ensure (not (any_other_type (property_type first) result.node_properties))
      (protocol "get node property response cannot mix property types")
  w ← push_count (length result.node_properties) w
  ok (extend_properties result.node_properties w)

-- The loop of a card with one version for each key.
unfoldable pub write_single_versions :
    List RequestServiceV2KeyVersion → PayloadWriter → Written PayloadWriter
write_single_versions [] w = ok w
write_single_versions (v ∷ vs) w = elim (secondary_raw v) [
  | some secondary ↦ err (protocol "request service v2 single crypto requires single key versions")
  | none ↦ write_single_versions vs (extend_u16_le (primary_raw v) w)
]

-- The loop of a card with two: the primary versions are written, the secondary ones collected.
unfoldable pub write_primary_versions :
    List RequestServiceV2KeyVersion → PayloadWriter → Written (PayloadWriter × List ℕ)
write_primary_versions [] w = ok (w, [])
write_primary_versions (v ∷ vs) w = do
  secondary ←
      ok_or (secondary_raw v) (protocol "request service v2 dual crypto requires dual key versions")
  (w, secondaries) ← write_primary_versions vs (extend_u16_le (primary_raw v) w)
  ok (w, secondary ∷ secondaries)

abbrev pub is_crypto_id : ℕ → Bool
is_crypto_id id = (id == 0x4f) || ((id == 0x41) || (id == 0x43))

unfoldable pub write_service_v2_key_versions :
    RequestServiceV2Result → PayloadWriter → Written PayloadWriter
write_service_v2_key_versions result w = do
  ensure_count_in_range "request service v2 key version count" (length result.key_versions)
      max_service_codes
  ensure (is_crypto_id result.crypto_id)
      (protocol "request service v2 crypto identifier must be 0x4F, 0x41 or 0x43")
  w ← push_count (length result.key_versions) (push_u8 result.crypto_id w)
  if result.crypto_id == 0x4f then write_single_versions result.key_versions w else (do
    (w, secondaries) ← write_primary_versions result.key_versions w
    ok (extend_u16_list_le secondaries w))

-- A byte count and the bytes.
unfoldable pub write_counted_bytes : String → List ℕ → PayloadWriter → Written PayloadWriter
write_counted_bytes what bytes w = do
  ensure_fits_in_count what (length bytes)
  w ← push_count (length bytes) w
  ok (extend_bytes bytes w)

unfoldable pub any_invalid : List OptionVersion → Bool
any_invalid [] = false
any_invalid (v ∷ vs) = not (is_valid_bcd v) || any_invalid vs

unfoldable pub write_specification : SpecificationVersion → PayloadWriter → Written PayloadWriter
write_specification version w = do
  ensure (version.format_version == 0x00)
      (protocol "request specification version format version must be 0x00")
  ensure (not (not (is_valid_bcd version.basic_version) || any_invalid version.option_versions))
      (protocol "request specification version contains a non-BCD version digit")
  ensure_fits_in_count "request specification version option count" (length version.option_versions)
  ok (extend_bytes (specification_bytes version) w)

unfoldable pub write_search_result : Option SearchServiceCodeResult → PayloadWriter → PayloadWriter
write_search_result none w = extend_bytes (0xff ∷ 0xff ∷ []) w
write_search_result (some (service code)) w = extend_u16_le code.raw w
write_search_result (some (area area_code end_service_code)) w =
    extend_u16_le end_service_code (extend_u16_le area_code w)
