-- ===== src/Response/Serialize/Pairing.antt =====
-- src/felica_standard/response/serialize.rs: a result that does not go with status flag 1.
use felica_rs.Prelude.{ℕ, ◌≤◌, ◌≡◌, Option, none, some, [], ◌∷◌, String, text}
use felica_rs.Felica.Error.{ProtocolError, protocol}
use felica_rs.Response.{
  FelicaStandardResponse, read_without_encryption, request_code_list, request_block_information_ex,
  get_area_information, get_node_property, request_service_v2, request_product_information,
  request_specification_version, read, read_v2, register_issue_id, register_service,
}

-- A result beside a failure, or a success without a result.
abbrev pub IsUnpaired : {R : Type 0} → ℕ → Option R → Type 0
IsUnpaired status_flag1 none = status_flag1 ≡ 0
IsUnpaired status_flag1 (some r) = 1 ≤ status_flag1

-- The responses with a result that status flag 1 announces. The data of Get System Status goes with
-- any status.
abbrev pub IsMispaired : FelicaStandardResponse → Type 0
IsMispaired (read_without_encryption idm status_flag1 status_flag2 result) =
    IsUnpaired status_flag1 result
IsMispaired (request_code_list idm status_flag1 status_flag2 result) =
    IsUnpaired status_flag1 result
IsMispaired (request_block_information_ex idm status_flag1 status_flag2 result) =
    IsUnpaired status_flag1 result
IsMispaired (get_area_information idm status_flag1 status_flag2 result) =
    IsUnpaired status_flag1 result
IsMispaired (get_node_property idm status_flag1 status_flag2 result) =
    IsUnpaired status_flag1 result
IsMispaired (request_service_v2 idm status_flag1 status_flag2 result) =
    IsUnpaired status_flag1 result
IsMispaired (request_product_information idm status_flag1 status_flag2 result) =
    IsUnpaired status_flag1 result
IsMispaired (request_specification_version idm status_flag1 status_flag2 result) =
    IsUnpaired status_flag1 result
IsMispaired (read status_flag1 status_flag2 result) = IsUnpaired status_flag1 result
IsMispaired (read_v2 status_flag1 status_flag2 result) = IsUnpaired status_flag1 result
IsMispaired (register_issue_id status_flag1 status_flag2 result) = IsUnpaired status_flag1 result
IsMispaired (register_service status_flag1 status_flag2 result) = IsUnpaired status_flag1 result
IsMispaired _ = ⊥

-- What is said of such a result.
abbrev refusal : {R : Type 0} → String → String → Option R → ProtocolError
refusal what noun none = protocol (text (what ∷ " " ∷ noun ∷ " is missing on success" ∷ []))
refusal what noun (some r) = protocol (text (what ∷ " " ∷ noun ∷ " must be omitted on error" ∷ []))

abbrev pub complaint : FelicaStandardResponse → Option ProtocolError
complaint (read_without_encryption idm status_flag1 status_flag2 result) =
    some (refusal "read without encryption" "result" result)
complaint (request_code_list idm status_flag1 status_flag2 result) =
    some (refusal "request code list" "result" result)
complaint (request_block_information_ex idm status_flag1 status_flag2 result) =
    some (refusal "request block information ex" "result" result)
complaint (get_area_information idm status_flag1 status_flag2 result) =
    some (refusal "get area information" "result" result)
complaint (get_node_property idm status_flag1 status_flag2 result) =
    some (refusal "get node property" "result" result)
complaint (request_service_v2 idm status_flag1 status_flag2 result) =
    some (refusal "request service v2" "result" result)
complaint (request_product_information idm status_flag1 status_flag2 result) =
    some (refusal "request product information" "result" result)
complaint (request_specification_version idm status_flag1 status_flag2 result) =
    some (refusal "request specification version" "payload" result)
complaint (read status_flag1 status_flag2 result) = some (refusal "secure read" "result" result)
complaint (read_v2 status_flag1 status_flag2 result) = some (refusal "secure read" "result" result)
complaint (register_issue_id status_flag1 status_flag2 result) =
    some (refusal "register issue id" "result" result)
complaint (register_service status_flag1 status_flag2 result) =
    some (refusal "register service" "result" result)
complaint _ = none
