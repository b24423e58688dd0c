-- ===== src/Response/Valid.antt =====
-- The ranges of the responses' fields, and the command that a session's response answers.
use felica_rs.Prelude.{
  ℕ, ◌≤◌, ◌≡◌, ◌≢◌, ◌⊎◌, Bool, true, false, Option, none, some, List, length, All,
}
use felica_rs.Prelude.Bytes.{IsByte, IsWord}
use felica_rs.Felica.Constants
use felica_rs.Felica.Constants.{
  max_service_codes, max_block_count, max_node_codes, max_node_property_codes, block_size,
}
use felica_rs.Felica.Emulator.Blocks.Words.{Fits32}
use felica_rs.Felica.Types.Results.{
  SearchServiceCodeResult, service, area, AreaCodeRange, NodeProperty, value_limited_purse_service,
  mac_communication, RequestCodeListResult, RequestBlockInformationExResult,
  GetAreaInformationResult,
}
use felica_rs.Felica.Types.Versions.{
  SpecificationVersion, RequestServiceV2KeyVersion, single, dual, RequestServiceV2Result,
}
use felica_rs.Felica.Types.Versions.RoundTrip.{IsVersion}
use felica_rs.Command.Wire.{IsBytes, IsCode, Counted}
use felica_rs.Response.{
  FelicaStandardResponse, polling, request_service, request_response, read_without_encryption,
  write_without_encryption, search_service_code, request_system_code, request_block_information,
  authentication1, authentication2, request_code_list, request_block_information_ex, set_parameter,
  get_container_issue_information, get_area_information, get_node_property, get_container_property,
  request_service_v2, get_system_status, request_product_information, request_specification_version,
  reset_mode, authentication1_v2, authentication2_v2, get_container_id, read, write, read_v2,
  write_v2, register_issue_id, register_area, register_service, change_system_block, unknown,
}

-- The responses that travel encrypted inside a session.
unfoldable pub is_secure : FelicaStandardResponse → Bool
is_secure (read _ _ _) = true
is_secure (write _ _) = true
is_secure (read_v2 _ _ _) = true
is_secure (write_v2 _ _) = true
is_secure (register_issue_id _ _ _) = true
is_secure (register_area _ _) = true
is_secure (register_service _ _ _) = true
is_secure (change_system_block _ _) = true
is_secure _ = false

-- The command whose response it is.
unfoldable pub session_command : FelicaStandardResponse → ℕ
session_command (read _ _ _) = Constants.read_command_code
session_command (write _ _) = Constants.write_command_code
session_command (read_v2 _ _ _) = Constants.read_v2_command_code
session_command (write_v2 _ _) = Constants.write_v2_command_code
session_command (register_issue_id _ _ _) = Constants.register_issue_id_command_code
session_command (register_area _ _) = Constants.register_area_command_code
session_command (register_service _ _ _) = Constants.register_service_command_code
session_command (change_system_block _ _) = Constants.change_system_block_command_code
session_command _ = 0

abbrev pub Flags : ℕ → ℕ → Type 0
Flags status_flag1 status_flag2 = IsByte status_flag1 × IsByte status_flag2

-- A result exactly when status flag 1 is zero.
abbrev pub Paired : {R : Type 0} → (R → Type 0) → ℕ → Option R → Type 0
Paired P status_flag1 none = 1 ≤ status_flag1
Paired P status_flag1 (some r) = (status_flag1 ≡ 0) × P r

abbrev pub IsBlocks : List (List ℕ) → Type 0
IsBlocks = Counted (IsBytes block_size) 1 max_block_count

abbrev pub IsSearchResult : Option SearchServiceCodeResult → Type 0
IsSearchResult none = Unit
IsSearchResult (some (service c)) = IsCode c × (c.raw ≢ 0xffff)
IsSearchResult (some (area area_code end_service_code)) = IsWord area_code × IsWord end_service_code

abbrev pub IsArea : AreaCodeRange → Type 0
IsArea a = IsWord a.area_code × IsWord a.end_service_code

abbrev pub IsCodeList : RequestCodeListResult → Type 0
IsCodeList r = Counted IsArea 0 255 r.areas × Counted IsCode 0 255 r.services

abbrev pub IsInformationEx : RequestBlockInformationExResult → Type 0
IsInformationEx r =
    Counted IsWord 1 max_node_codes r.assigned_block_counts
    × All IsWord r.free_block_counts
    × (length r.free_block_counts ≡ length r.assigned_block_counts)

abbrev pub IsAreaInformation : GetAreaInformationResult → Type 0
IsAreaInformation r = IsWord r.node_code × IsBytes 2 r.area_data

abbrev pub IsPurseProperty : NodeProperty → Type 0
IsPurseProperty (value_limited_purse_service enabled upper_limit lower_limit generation_number) =
    Fits32 true upper_limit × Fits32 true lower_limit × IsByte generation_number
IsPurseProperty (mac_communication enabled) = ⊥

abbrev pub IsMacProperty : NodeProperty → Type 0
IsMacProperty (value_limited_purse_service _ _ _ _) = ⊥
IsMacProperty (mac_communication enabled) = Unit

abbrev pub IsProperties : List NodeProperty → Type 0
IsProperties ps =
    (1 ≤ length ps)
    × (length ps ≤ max_node_property_codes)
    × (All IsPurseProperty ps ⊎ All IsMacProperty ps)

abbrev pub IsSingle : RequestServiceV2KeyVersion → Type 0
IsSingle (single v) = IsWord v
IsSingle (dual aes des) = ⊥

abbrev pub IsDual : RequestServiceV2KeyVersion → Type 0
IsDual (single v) = ⊥
IsDual (dual aes des) = IsWord aes × IsWord des

abbrev pub IsKeyVersions : RequestServiceV2Result → Type 0
IsKeyVersions r =
    (1 ≤ length r.key_versions)
    × (length r.key_versions ≤ max_service_codes)
    × (((r.crypto_id ≡ 0x4f) × All IsSingle r.key_versions)
        ⊎ (((r.crypto_id ≡ 0x41) ⊎ (r.crypto_id ≡ 0x43)) × All IsDual r.key_versions))

abbrev pub IsSpecification : SpecificationVersion → Type 0
IsSpecification s =
    (s.format_version ≡ 0) × IsVersion s.basic_version × Counted IsVersion 0 255 s.option_versions

abbrev pub IsData : List ℕ → Type 0
IsData = Counted IsByte 0 255

-- The ranges of each response's fields; `Unknown` has no wire form.
abbrev pub IsValid : FelicaStandardResponse → Type 0
IsValid (polling idm pmm optional) =
    IsBytes 8 idm × IsBytes 8 pmm × (IsBytes 0 optional ⊎ IsBytes 2 optional)
IsValid (request_service idm key_versions) =
    IsBytes 8 idm × Counted IsWord 1 max_service_codes key_versions
IsValid (request_response idm mode) = IsBytes 8 idm × IsByte mode
IsValid (read_without_encryption idm status_flag1 status_flag2 result) =
    IsBytes 8 idm
    × Flags status_flag1 status_flag2
    × Paired (λ r. IsBlocks r.blocks) status_flag1 result
IsValid (write_without_encryption idm status_flag1 status_flag2) =
    IsBytes 8 idm × Flags status_flag1 status_flag2
IsValid (search_service_code idm result) = IsBytes 8 idm × IsSearchResult result
IsValid (request_system_code idm system_codes) = IsBytes 8 idm × Counted IsWord 1 255 system_codes
IsValid (request_block_information idm block_counts) =
    IsBytes 8 idm × Counted IsWord 1 max_node_codes block_counts
IsValid (authentication1 idm challenge_1b challenge_2a) =
    IsBytes 8 idm × IsBytes 8 challenge_1b × IsBytes 8 challenge_2a
IsValid (authentication2 encrypted_payload) = IsBytes 32 encrypted_payload
IsValid (request_code_list idm status_flag1 status_flag2 result) =
    IsBytes 8 idm × Flags status_flag1 status_flag2 × Paired IsCodeList status_flag1 result
IsValid (request_block_information_ex idm status_flag1 status_flag2 result) =
    IsBytes 8 idm × Flags status_flag1 status_flag2 × Paired IsInformationEx status_flag1 result
IsValid (set_parameter idm status_flag1 status_flag2) =
    IsBytes 8 idm × Flags status_flag1 status_flag2
IsValid (get_container_issue_information idm c) =
    IsBytes 8 idm
    × IsBytes 5 c.format_version_carrier_information
    × IsBytes 11 c.mobile_phone_model_information
IsValid (get_area_information idm status_flag1 status_flag2 result) =
    IsBytes 8 idm × Flags status_flag1 status_flag2 × Paired IsAreaInformation status_flag1 result
IsValid (get_node_property idm status_flag1 status_flag2 result) =
    IsBytes 8 idm
    × Flags status_flag1 status_flag2
    × Paired (λ r. IsProperties r.node_properties) status_flag1 result
IsValid (get_container_property property_data) =
    (1 ≤ length property_data) × All IsByte property_data
IsValid (request_service_v2 idm status_flag1 status_flag2 result) =
    IsBytes 8 idm × Flags status_flag1 status_flag2 × Paired IsKeyVersions status_flag1 result
IsValid (get_system_status idm status_flag1 status_flag2 result) =
    IsBytes 8 idm
    × Flags status_flag1 status_flag2
    × (IsByte result.flag × IsData result.status_data)
IsValid (request_product_information idm status_flag1 status_flag2 result) =
    IsBytes 8 idm × Flags status_flag1 status_flag2 × Paired IsData status_flag1 result
IsValid (request_specification_version idm status_flag1 status_flag2 result) =
    IsBytes 8 idm × Flags status_flag1 status_flag2 × Paired IsSpecification status_flag1 result
IsValid (reset_mode idm status_flag1 status_flag2) = IsBytes 8 idm × Flags status_flag1 status_flag2
IsValid (authentication1_v2 idm challenge_1b challenge_2a challenge_3c) =
    IsBytes 8 idm × IsBytes 16 challenge_1b × IsBytes 16 challenge_2a × IsBytes 4 challenge_3c
IsValid (authentication2_v2 encrypted_payload) = IsBytes 26 encrypted_payload
IsValid (get_container_id container_idm) = IsBytes 8 container_idm
IsValid (read status_flag1 status_flag2 result) =
    Flags status_flag1 status_flag2 × Paired (λ r. IsBlocks r.blocks) status_flag1 result
IsValid (write status_flag1 status_flag2) = Flags status_flag1 status_flag2
IsValid (read_v2 status_flag1 status_flag2 result) =
    Flags status_flag1 status_flag2 × Paired (λ r. IsBlocks r.blocks) status_flag1 result
IsValid (write_v2 status_flag1 status_flag2) = Flags status_flag1 status_flag2
IsValid (register_issue_id status_flag1 status_flag2 result) =
    Flags status_flag1 status_flag2 × Paired (λ r. IsWord r.remaining_blocks) status_flag1 result
IsValid (register_area status_flag1 status_flag2) = Flags status_flag1 status_flag2
IsValid (register_service status_flag1 status_flag2 result) =
    Flags status_flag1 status_flag2 × Paired (λ r. IsWord r.remaining_blocks) status_flag1 result
IsValid (change_system_block status_flag1 status_flag2) = Flags status_flag1 status_flag2
IsValid unknown = ⊥
