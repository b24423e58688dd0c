-- ===== src/Response/Wire.antt =====
-- The packet layouts of the responses as one table, and the ranges that the protocol sets.
-- This is the independent description that the serializer and the parser are held to.
pub mod Lengths
pub mod Returned
use felica_rs.Prelude.{if◌then◌else◌, ℕ, ◌/◌, ◌%◌, Option, none, some, List, [], ◌∷◌, ◌++◌, length}
use felica_rs.Felica.Constants
use felica_rs.Felica.Types.Results.{
  SearchServiceCodeResult, service, area, AreaCodeRange, NodeProperty, property_bytes,
  RequestCodeListResult, RequestBlockInformationExResult, GetAreaInformationResult,
  GetNodePropertyResult,
}
use felica_rs.Felica.Types.Versions.{
  version_bytes, SpecificationVersion, options_bytes, RequestServiceV2KeyVersion, single, dual,
  RequestServiceV2Result,
}
use felica_rs.Felica.Payload.Layout.{words_bytes, counted_words, counted_codes}
use felica_rs.Command.Wire.{word}
use felica_rs.Response.{
  FelicaStandardResponse, polling, request_service, request_response, read_without_encryption,
  write_without_encryption, search_service_code, request_system_code, request_block_information,
  authentication1, authentication2, request_code_list, request_block_information_ex, set_parameter,
  get_container_issue_information, get_area_information, get_node_property, get_container_property,
  request_service_v2, get_system_status, request_product_information, request_specification_version,
  reset_mode, authentication1_v2, authentication2_v2, get_container_id, read, write, read_v2,
  write_v2, register_issue_id, register_area, register_service, change_system_block, unknown,
}

-- The response code; the responses of a session have none of their own.
unfoldable pub code : FelicaStandardResponse → ℕ
code (polling _ _ _) = Constants.polling_response_code
code (request_service _ _) = Constants.request_service_response_code
code (request_response _ _) = Constants.request_response_response_code
code (read_without_encryption _ _ _ _) = Constants.read_without_encryption_response_code
code (write_without_encryption _ _ _) = Constants.write_without_encryption_response_code
code (search_service_code _ _) = Constants.search_service_code_response_code
code (request_system_code _ _) = Constants.request_system_code_response_code
code (request_block_information _ _) = Constants.request_block_information_response_code
code (authentication1 _ _ _) = Constants.authentication1_response_code
code (authentication2 _) = Constants.authentication2_response_code
code (request_code_list _ _ _ _) = Constants.request_code_list_response_code
code (request_block_information_ex _ _ _ _) = Constants.request_block_information_ex_response_code
code (set_parameter _ _ _) = Constants.set_parameter_response_code
code (get_container_issue_information _ _) = Constants.get_container_issue_information_response_code
code (get_area_information _ _ _ _) = Constants.get_area_information_response_code
code (get_node_property _ _ _ _) = Constants.get_node_property_response_code
code (get_container_property _) = Constants.get_container_property_response_code
code (request_service_v2 _ _ _ _) = Constants.request_service_v2_response_code
code (get_system_status _ _ _ _) = Constants.get_system_status_response_code
code (request_product_information _ _ _ _) = Constants.request_product_information_response_code
code (request_specification_version _ _ _ _) = Constants.request_specification_version_response_code
code (reset_mode _ _ _) = Constants.reset_mode_response_code
code (authentication1_v2 _ _ _ _) = Constants.authentication1_v2_response_code
code (authentication2_v2 _) = Constants.authentication2_v2_response_code
code (get_container_id _) = Constants.get_container_id_response_code
code _ = 0

unfoldable pub concat_bytes : List (List ℕ) → List ℕ
concat_bytes [] = []
concat_bytes (b ∷ bs) = b ++ concat_bytes bs

-- A list of big-endian words.
unfoldable pub words_be_bytes : List ℕ → List ℕ
words_be_bytes [] = []
words_be_bytes (v ∷ vs) = (v / 256) ∷ (v % 256) ∷ words_be_bytes vs

unfoldable pub areas_bytes : List AreaCodeRange → List ℕ
areas_bytes [] = []
areas_bytes (a ∷ rest) = word a.area_code ++ (word a.end_service_code ++ areas_bytes rest)

unfoldable pub pairs_bytes : List ℕ → List ℕ → List ℕ
pairs_bytes (a ∷ rest) (f ∷ fs) = word a ++ (word f ++ pairs_bytes rest fs)
pairs_bytes _ _ = []

unfoldable pub properties_bytes : List NodeProperty → List ℕ
properties_bytes [] = []
properties_bytes (p ∷ ps) = property_bytes p ++ properties_bytes ps

-- The versions of a card with one key for each node, and the two runs of a card with two.
unfoldable pub aes_versions : List RequestServiceV2KeyVersion → List ℕ
aes_versions [] = []
aes_versions (single v ∷ vs) = v ∷ aes_versions vs
aes_versions (dual aes des ∷ vs) = aes ∷ aes_versions vs

unfoldable pub des_versions : List RequestServiceV2KeyVersion → List ℕ
des_versions [] = []
des_versions (single v ∷ vs) = des_versions vs
des_versions (dual aes des ∷ vs) = des ∷ des_versions vs

abbrev pub blocks_field : List (List ℕ) → List ℕ
blocks_field blocks = length blocks ∷ concat_bytes blocks

abbrev pub code_list_field : RequestCodeListResult → List ℕ
code_list_field r =
    (if r.continue_flag then 1 else 0)
    ∷ length r.areas
    ∷ (areas_bytes r.areas ++ counted_codes r.services)

abbrev pub information_ex_field : RequestBlockInformationExResult → List ℕ
information_ex_field r =
    length r.assigned_block_counts ∷ pairs_bytes r.assigned_block_counts r.free_block_counts

abbrev pub area_field : GetAreaInformationResult → List ℕ
area_field r = word r.node_code ++ r.area_data

abbrev pub properties_field : GetNodePropertyResult → List ℕ
properties_field r = length r.node_properties ∷ properties_bytes r.node_properties

abbrev pub versions_field : RequestServiceV2Result → List ℕ
versions_field r =
    r.crypto_id
    ∷ length r.key_versions
    ∷ (words_bytes (aes_versions r.key_versions) ++ words_bytes (des_versions r.key_versions))

abbrev pub counted_bytes : List ℕ → List ℕ
counted_bytes bytes = length bytes ∷ bytes

abbrev pub specification_field : SpecificationVersion → List ℕ
specification_field s =
    s.format_version
    ∷ (version_bytes s.basic_version
        ++ (length s.option_versions ∷ options_bytes s.option_versions))

abbrev pub search_field : Option SearchServiceCodeResult → List ℕ
search_field none = 0xff ∷ 0xff ∷ []
search_field (some (service c)) = word c.raw
search_field (some (area area_code end_service_code)) = word area_code ++ word end_service_code

abbrev pub on_result : {R : Type 0} → (R → List ℕ) → Option R → List ℕ
on_result field none = []
on_result field (some r) = field r

-- The status flags and the result behind them.
abbrev pub outcome : {R : Type 0} → ℕ → ℕ → (R → List ℕ) → Option R → List ℕ
outcome status_flag1 status_flag2 field result =
    status_flag1 ∷ status_flag2 ∷ on_result field result

-- What stands behind the response code, or in a session what is encrypted.
unfoldable pub fields : FelicaStandardResponse → List ℕ
fields (polling idm pmm optional) = idm ++ (pmm ++ optional)
fields (request_service idm key_versions) = idm ++ counted_words key_versions
fields (request_response idm mode) = idm ++ (mode ∷ [])
fields (read_without_encryption idm status_flag1 status_flag2 result) =
    idm ++ outcome status_flag1 status_flag2 (λ r. blocks_field r.blocks) result
fields (write_without_encryption idm status_flag1 status_flag2) =
    idm ++ (status_flag1 ∷ status_flag2 ∷ [])
fields (search_service_code idm result) = idm ++ search_field result
fields (request_system_code idm system_codes) =
    idm ++ (length system_codes ∷ words_be_bytes system_codes)
fields (request_block_information idm block_counts) = idm ++ counted_words block_counts
fields (authentication1 idm challenge_1b challenge_2a) = idm ++ (challenge_1b ++ challenge_2a)
fields (authentication2 encrypted_payload) = encrypted_payload
fields (request_code_list idm status_flag1 status_flag2 result) =
    idm ++ outcome status_flag1 status_flag2 code_list_field result
fields (request_block_information_ex idm status_flag1 status_flag2 result) =
    idm ++ outcome status_flag1 status_flag2 information_ex_field result
fields (set_parameter idm status_flag1 status_flag2) = idm ++ (status_flag1 ∷ status_flag2 ∷ [])
fields (get_container_issue_information idm c) =
    idm ++ (c.format_version_carrier_information ++ c.mobile_phone_model_information)
fields (get_area_information idm status_flag1 status_flag2 result) =
    idm ++ outcome status_flag1 status_flag2 area_field result
fields (get_node_property idm status_flag1 status_flag2 result) =
    idm ++ outcome status_flag1 status_flag2 properties_field result
fields (get_container_property property_data) = property_data
fields (request_service_v2 idm status_flag1 status_flag2 result) =
    idm ++ outcome status_flag1 status_flag2 versions_field result
fields (get_system_status idm status_flag1 status_flag2 result) =
    idm ++ (status_flag1 ∷ status_flag2 ∷ result.flag ∷ counted_bytes result.status_data)
fields (request_product_information idm status_flag1 status_flag2 result) =
    idm ++ outcome status_flag1 status_flag2 counted_bytes result
fields (request_specification_version idm status_flag1 status_flag2 result) =
    idm ++ outcome status_flag1 status_flag2 specification_field result
fields (reset_mode idm status_flag1 status_flag2) = idm ++ (status_flag1 ∷ status_flag2 ∷ [])
fields (authentication1_v2 idm challenge_1b challenge_2a challenge_3c) =
    idm ++ (challenge_1b ++ (challenge_2a ++ challenge_3c))
fields (authentication2_v2 encrypted_payload) = encrypted_payload
fields (get_container_id container_idm) = container_idm
fields (read status_flag1 status_flag2 result) =
    outcome status_flag1 status_flag2 (λ r. blocks_field r.blocks) result
fields (write status_flag1 status_flag2) = status_flag1 ∷ status_flag2 ∷ []
fields (read_v2 status_flag1 status_flag2 result) =
    outcome status_flag1 status_flag2 (λ r. blocks_field r.blocks) result
fields (write_v2 status_flag1 status_flag2) = status_flag1 ∷ status_flag2 ∷ []
fields (register_issue_id status_flag1 status_flag2 result) =
    outcome status_flag1 status_flag2 (λ r. word r.remaining_blocks) result
fields (register_area status_flag1 status_flag2) = status_flag1 ∷ status_flag2 ∷ []
fields (register_service status_flag1 status_flag2 result) =
    outcome status_flag1 status_flag2 (λ r. word r.remaining_blocks) result
fields (change_system_block status_flag1 status_flag2) = status_flag1 ∷ status_flag2 ∷ []
fields unknown = []

unfoldable pub wire : FelicaStandardResponse → List ℕ
wire r = code r ∷ fields r
