-- ===== src/Response/Parse/Dispatch.antt =====
-- src/felica_standard/response/parse.rs: reading a whole frame.
pub mod Reads
pub mod Sound
use felica_rs.Prelude.{if◌then◌else◌, ℕ, ◌==◌, List, length}
use felica_rs.Prelude.Slices.{index, slice_from}
use felica_rs.Prelude.Outcome.{◌>>◌, ◌>>=◌, ok, ensure}
use felica_rs.Felica.Constants
use felica_rs.Felica.Error.{other}
use felica_rs.Response.{FelicaStandardResponse, unknown}
use felica_rs.Response.Parse.Fields.{
  Read, idm_offset, payload_offset, ensure_response_len, parse_idm,
}
use felica_rs.Response.Parse.Queries.{
  parse_authentication2, parse_authentication2_v2, parse_polling, parse_request_response,
  parse_write_without_encryption, parse_set_parameter, parse_reset_mode, parse_search_service_code,
  parse_get_container_issue_information, parse_get_container_property, parse_get_container_id,
  parse_get_area_information, parse_authentication1, parse_authentication1_v2,
}
use felica_rs.Response.Parse.Lists.{
  parse_request_service, parse_read_without_encryption, parse_request_system_code,
  parse_request_block_information, parse_request_code_list, parse_request_block_information_ex,
}
use felica_rs.Response.Parse.Settings.{
  parse_get_node_property, parse_request_service_v2, parse_get_system_status,
  parse_request_product_information, parse_request_specification_version,
}

-- The `match code` on the responses that carry an IDm.
unfoldable pub parse_addressed : ℕ → List ℕ → List ℕ → Read FelicaStandardResponse
parse_addressed code idm bytes =
    if code == Constants.polling_response_code
    then parse_polling idm bytes
    else if code == Constants.request_service_response_code
    then parse_request_service idm bytes
    else if code == Constants.request_response_response_code
    then parse_request_response idm bytes
    else if code == Constants.read_without_encryption_response_code
    then parse_read_without_encryption idm bytes
    else if code == Constants.write_without_encryption_response_code
    then parse_write_without_encryption idm bytes
    else if code == Constants.search_service_code_response_code
    then parse_search_service_code idm bytes
    else if code == Constants.request_system_code_response_code
    then parse_request_system_code idm bytes
    else if code == Constants.request_block_information_response_code
    then parse_request_block_information idm bytes
    else if code == Constants.authentication1_response_code
    then parse_authentication1 idm bytes
    else if code == Constants.request_code_list_response_code
    then parse_request_code_list idm bytes
    else if code == Constants.request_block_information_ex_response_code
    then parse_request_block_information_ex idm bytes
    else if code == Constants.set_parameter_response_code
    then parse_set_parameter idm bytes
    else if code == Constants.get_container_issue_information_response_code
    then parse_get_container_issue_information idm bytes
    else if code == Constants.get_area_information_response_code
    then parse_get_area_information idm bytes
    else if code == Constants.get_node_property_response_code
    then parse_get_node_property idm bytes
    else if code == Constants.request_service_v2_response_code
    then parse_request_service_v2 idm bytes
    else if code == Constants.get_system_status_response_code
    then parse_get_system_status idm bytes
    else if code == Constants.request_product_information_response_code
    then parse_request_product_information idm bytes
    else if code == Constants.request_specification_version_response_code
    then parse_request_specification_version idm bytes
    else if code == Constants.reset_mode_response_code
    then parse_reset_mode idm bytes
    else if code == Constants.authentication1_v2_response_code
    then parse_authentication1_v2 idm bytes
    else if code == Constants.get_container_id_response_code
    then parse_get_container_id idm bytes
    else ok unknown

unfoldable pub from_bytes : List ℕ → Read FelicaStandardResponse
from_bytes bytes = do
  ensure_response_len bytes 2 "short Felica response"
  expected_len ← index bytes 0
  ensure (expected_len == length bytes) (other "length byte does not match response length")
  code ← index bytes 1
  if code == Constants.authentication2_response_code
      then parse_authentication2 bytes
      else if code == Constants.get_container_property_response_code
      then parse_get_container_property bytes
      else if code == Constants.authentication2_v2_response_code
      then parse_authentication2_v2 bytes
      else (do
        ensure_response_len bytes payload_offset "short Felica response"
        behind ← slice_from idm_offset bytes
        (idm, rest) ← parse_idm behind
        parse_addressed code idm bytes)
