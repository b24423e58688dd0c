-- ===== src/Response.antt =====
-- src/felica_standard/response/mod.rs: the responses. An array such as `[u8; 8]` is a list of
-- bytes, and `IsValid` of Response/Wire says how long it is.
pub mod Valid
pub mod Wire
pub mod Write
pub mod Serialize
pub mod Parse
pub mod RoundTrip
use felica_rs.Prelude.{ℕ, List, Option}
use felica_rs.Felica.Types.Results.{
  SearchServiceCodeResult, ContainerInformation, RequestCodeListResult,
  RequestBlockInformationExResult, GetAreaInformationResult, GetNodePropertyResult,
  GetSystemStatusResult, ReadWithoutEncryptionResult, ReadResult, RegisterIssueIdResult,
  RegisterServiceResult,
}
use felica_rs.Felica.Types.Versions.{SpecificationVersion, RequestServiceV2Result}

pub data FelicaStandardResponse : Type 0 where
  polling : (idm : List ℕ) (pmm : List ℕ) (optional : List ℕ) → FelicaStandardResponse
  request_service : (idm : List ℕ) (key_versions : List ℕ) → FelicaStandardResponse
  request_response : (idm : List ℕ) (mode : ℕ) → FelicaStandardResponse
  read_without_encryption :
      (idm : List ℕ) (status_flag1 : ℕ) (status_flag2 : ℕ)
      (result : Option ReadWithoutEncryptionResult)
      → FelicaStandardResponse
  write_without_encryption :
      (idm : List ℕ) (status_flag1 : ℕ) (status_flag2 : ℕ) → FelicaStandardResponse
  search_service_code :
      (idm : List ℕ) (result : Option SearchServiceCodeResult) → FelicaStandardResponse
  request_system_code : (idm : List ℕ) (system_codes : List ℕ) → FelicaStandardResponse
  request_block_information : (idm : List ℕ) (block_counts : List ℕ) → FelicaStandardResponse
  authentication1 :
      (idm : List ℕ) (challenge_1b : List ℕ) (challenge_2a : List ℕ) → FelicaStandardResponse
  authentication2 : (encrypted_payload : List ℕ) → FelicaStandardResponse
  request_code_list :
      (idm : List ℕ) (status_flag1 : ℕ) (status_flag2 : ℕ) (result : Option RequestCodeListResult)
      → FelicaStandardResponse
  request_block_information_ex :
      (idm : List ℕ) (status_flag1 : ℕ) (status_flag2 : ℕ)
      (result : Option RequestBlockInformationExResult)
      → FelicaStandardResponse
  set_parameter : (idm : List ℕ) (status_flag1 : ℕ) (status_flag2 : ℕ) → FelicaStandardResponse
  get_container_issue_information :
      (idm : List ℕ) (container_information : ContainerInformation) → FelicaStandardResponse
  get_area_information :
      (idm : List ℕ) (status_flag1 : ℕ) (status_flag2 : ℕ)
      (result : Option GetAreaInformationResult)
      → FelicaStandardResponse
  get_node_property :
      (idm : List ℕ) (status_flag1 : ℕ) (status_flag2 : ℕ) (result : Option GetNodePropertyResult)
      → FelicaStandardResponse
  get_container_property : (property_data : List ℕ) → FelicaStandardResponse
  request_service_v2 :
      (idm : List ℕ) (status_flag1 : ℕ) (status_flag2 : ℕ) (result : Option RequestServiceV2Result)
      → FelicaStandardResponse
  get_system_status :
      (idm : List ℕ) (status_flag1 : ℕ) (status_flag2 : ℕ) (result : GetSystemStatusResult)
      → FelicaStandardResponse
  request_product_information :
      (idm : List ℕ) (status_flag1 : ℕ) (status_flag2 : ℕ) (result : Option (List ℕ))
      → FelicaStandardResponse
  request_specification_version :
      (idm : List ℕ) (status_flag1 : ℕ) (status_flag2 : ℕ)
      (specification_version : Option SpecificationVersion)
      → FelicaStandardResponse
  reset_mode : (idm : List ℕ) (status_flag1 : ℕ) (status_flag2 : ℕ) → FelicaStandardResponse
  authentication1_v2 :
      (idm : List ℕ) (challenge_1b : List ℕ) (challenge_2a : List ℕ) (challenge_3c : List ℕ)
      → FelicaStandardResponse
  authentication2_v2 : (encrypted_payload : List ℕ) → FelicaStandardResponse
  get_container_id : (container_idm : List ℕ) → FelicaStandardResponse
  read : (status_flag1 : ℕ) (status_flag2 : ℕ) (result : Option ReadResult) → FelicaStandardResponse
  write : (status_flag1 : ℕ) (status_flag2 : ℕ) → FelicaStandardResponse
  read_v2 :
      (status_flag1 : ℕ) (status_flag2 : ℕ) (result : Option ReadResult) → FelicaStandardResponse
  write_v2 : (status_flag1 : ℕ) (status_flag2 : ℕ) → FelicaStandardResponse
  register_issue_id :
      (status_flag1 : ℕ) (status_flag2 : ℕ) (result : Option RegisterIssueIdResult)
      → FelicaStandardResponse
  register_area : (status_flag1 : ℕ) (status_flag2 : ℕ) → FelicaStandardResponse
  register_service :
      (status_flag1 : ℕ) (status_flag2 : ℕ) (result : Option RegisterServiceResult)
      → FelicaStandardResponse
  change_system_block : (status_flag1 : ℕ) (status_flag2 : ℕ) → FelicaStandardResponse
  unknown : FelicaStandardResponse
