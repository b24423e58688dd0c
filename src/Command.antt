-- ===== src/Command.antt =====
-- src/felica_standard/command/mod.rs: the commands. An array such as `[u8; 8]` is a list of bytes,
-- and `IsValid` of Command/Wire says how long it is.
pub mod Wire
pub mod Serialize
pub mod Parse
pub mod RoundTrip
use felica_rs.Prelude.{ℕ, List}
use felica_rs.Felica.Types.Service.{ServiceCode}
use felica_rs.Felica.Types.Block.{BlockListElement}
use felica_rs.Felica.Types.Selectors.{
  ContainerProperty, NodePropertyType, SetParameterEncryptionType, SetParameterPacketType,
}

pub data FelicaStandardCommand : Type 0 where
  polling : (system_code : ℕ) (request_code : ℕ) (time_slots : ℕ) → FelicaStandardCommand
  request_service : (idm : List ℕ) (service_codes : List ServiceCode) → FelicaStandardCommand
  request_response : (idm : List ℕ) → FelicaStandardCommand
  read_without_encryption :
      (idm : List ℕ) (service_codes : List ServiceCode) (block_list : List BlockListElement)
      → FelicaStandardCommand
  write_without_encryption :
      (idm : List ℕ) (service_codes : List ServiceCode) (block_list : List BlockListElement)
      (block_data : List ℕ)
      → FelicaStandardCommand
  search_service_code : (idm : List ℕ) (service_index : ℕ) → FelicaStandardCommand
  request_system_code : (idm : List ℕ) → FelicaStandardCommand
  request_block_information : (idm : List ℕ) (node_codes : List ℕ) → FelicaStandardCommand
  authentication1 :
      (idm : List ℕ) (areas : List ℕ) (services : List ℕ) (challenge_1a : List ℕ)
      → FelicaStandardCommand
  authentication2 : (idm : List ℕ) (challenge_2b : List ℕ) → FelicaStandardCommand
  read : (block_list : List BlockListElement) → FelicaStandardCommand
  write : (block_list : List BlockListElement) (block_data : List ℕ) → FelicaStandardCommand
  read_v2 : (block_list : List BlockListElement) → FelicaStandardCommand
  write_v2 : (block_list : List BlockListElement) (block_data : List ℕ) → FelicaStandardCommand
  request_code_list : (idm : List ℕ) (parent_node_code : ℕ) (index : ℕ) → FelicaStandardCommand
  request_block_information_ex : (idm : List ℕ) (node_codes : List ℕ) → FelicaStandardCommand
  set_parameter :
      (idm : List ℕ) (encryption_type : SetParameterEncryptionType)
      (packet_type : SetParameterPacketType)
      → FelicaStandardCommand
  get_container_issue_information : (idm : List ℕ) → FelicaStandardCommand
  get_area_information : (idm : List ℕ) (node_code : ℕ) → FelicaStandardCommand
  get_node_property :
      (idm : List ℕ) (node_property_type : NodePropertyType) (node_codes : List ℕ)
      → FelicaStandardCommand
  get_container_property : (property : ContainerProperty) → FelicaStandardCommand
  request_service_v2 : (idm : List ℕ) (service_codes : List ServiceCode) → FelicaStandardCommand
  get_system_status : (idm : List ℕ) → FelicaStandardCommand
  request_product_information : (idm : List ℕ) → FelicaStandardCommand
  request_specification_version : (idm : List ℕ) → FelicaStandardCommand
  reset_mode : (idm : List ℕ) → FelicaStandardCommand
  authentication1_v2 :
      (idm : List ℕ) (operation_parameter : ℕ) (nodes : List ℕ) (challenge_1a : List ℕ)
      → FelicaStandardCommand
  authentication2_v2 : (idm : List ℕ) (challenge_2b : List ℕ) → FelicaStandardCommand
  get_container_id : FelicaStandardCommand
  register_issue_id :
      (issue_id : List ℕ) (issue_parameter : List ℕ) (issue_package : List ℕ)
      → FelicaStandardCommand
  register_area : (area_code : ℕ) (issue_package : List ℕ) → FelicaStandardCommand
  register_service : (service_code : ℕ) (issue_package : List ℕ) → FelicaStandardCommand
  change_system_block : FelicaStandardCommand

-- What `encoding` answers: a frame, or the plaintext of a secure command.
pub data CommandEncoding : Type 0 where
  plain : List ℕ → CommandEncoding
  secure : ℕ → List ℕ → CommandEncoding
