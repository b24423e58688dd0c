-- ===== src/Felica/Types/Results.antt =====
-- src/felica_standard/types.rs: what the responses of a card carry.
use felica_rs.Prelude.{ℕ, Bool, true, false, if◌then◌else◌, List, [], ◌∷◌, ◌++◌}
use felica_rs.Prelude.Int.{ℤ}
use felica_rs.Felica.Types.Service.{ServiceCode}
use felica_rs.Felica.Types.Selectors.{NodePropertyType}
use felica_rs.Felica.Types.Selectors
use felica_rs.Felica.Emulator.Blocks.{as_u32, u32_bytes}

pub data SearchServiceCodeResult : Type 0 where
  service : ServiceCode → SearchServiceCodeResult
  area : (area_code : ℕ) (end_service_code : ℕ) → SearchServiceCodeResult

pub record AreaCodeRange : Type 0 where
  pub area_code : ℕ
  pub end_service_code : ℕ

pub record ContainerInformation : Type 0 where
  pub format_version_carrier_information : List ℕ
  pub mobile_phone_model_information : List ℕ

pub data NodeProperty : Type 0 where
  value_limited_purse_service :
      (enabled : Bool) (upper_limit : ℤ) (lower_limit : ℤ) (generation_number : ℕ) → NodeProperty
  mac_communication : (enabled : Bool) → NodeProperty

unfoldable pub property_type : NodeProperty → NodePropertyType
property_type (value_limited_purse_service _ _ _ _) = Selectors.value_limited_purse_service
property_type (mac_communication _) = Selectors.mac_communication

-- `self == other` on the property types, which is derived.
unfoldable pub same_type : NodePropertyType → NodePropertyType → Bool
same_type Selectors.value_limited_purse_service Selectors.value_limited_purse_service = true
same_type Selectors.mac_communication Selectors.mac_communication = true
same_type _ _ = false

abbrev pub enabled_byte : Bool → ℕ
enabled_byte enabled = if enabled then 0x01 else 0x00

-- `upper_limit.to_le_bytes()` of an `i32`.
abbrev pub i32_bytes : ℤ → List ℕ
i32_bytes value = u32_bytes (as_u32 value)

unfoldable pub property_bytes : NodeProperty → List ℕ
property_bytes (value_limited_purse_service enabled upper_limit lower_limit generation_number) =
    enabled_byte enabled
    ∷ (i32_bytes upper_limit ++ (i32_bytes lower_limit ++ (generation_number ∷ [])))
property_bytes (mac_communication enabled) = enabled_byte enabled ∷ []

pub record RequestCodeListResult : Type 0 where
  pub continue_flag : Bool
  pub areas : List AreaCodeRange
  pub services : List ServiceCode

pub record RequestBlockInformationExResult : Type 0 where
  pub assigned_block_counts : List ℕ
  pub free_block_counts : List ℕ

pub record GetAreaInformationResult : Type 0 where
  pub node_code : ℕ
  pub area_data : List ℕ

pub record GetNodePropertyResult : Type 0 where
  pub node_properties : List NodeProperty

pub record GetSystemStatusResult : Type 0 where
  pub flag : ℕ
  pub status_data : List ℕ

pub record ReadWithoutEncryptionResult : Type 0 where
  pub blocks : List (List ℕ)

pub record ReadResult : Type 0 where
  pub blocks : List (List ℕ)

pub record RegisterIssueIdResult : Type 0 where
  pub remaining_blocks : ℕ

pub record RegisterServiceResult : Type 0 where
  pub remaining_blocks : ℕ
