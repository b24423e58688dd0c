-- ===== src/Command/Parse/Dispatch.antt =====
-- src/felica_standard/command/parse.rs: the frame, the dispatch on the command code, and the
-- payload of a secure command.
pub mod Reads
pub mod Sound
use felica_rs.Prelude.{
  ℕ, ◌+◌, ◌*◌, Bool, ◌||◌, List, [], ◌∷◌, not, length, ltb, ◌==◌, if◌then◌else◌, String,
}
use felica_rs.Prelude.Bytes.{from_le_bytes}
use felica_rs.Prelude.Slices.{index, slice_to, slice_from, get_to}
use felica_rs.Prelude.Outcome.{ok, err, ◌>>=◌, ◌>>◌, ensure, ok_or}
use felica_rs.Felica.Constants
use felica_rs.Felica.Constants.{max_block_count, block_size}
use felica_rs.Felica.Error.{protocol, protocol_value}
use felica_rs.Felica.Types.Block.{BlockListElement}
use felica_rs.Command.{
  FelicaStandardCommand, read, write, read_v2, write_v2, register_issue_id, register_area,
  register_service, change_system_block,
}
use felica_rs.Command.Parse.Fields.{Parsed, fail, take_count, take_block_list, is_empty}
use felica_rs.Command.Parse.Queries.{
  parse_polling, parse_request_service, parse_request_response, parse_search_service_code,
  parse_request_system_code, parse_request_block_information, parse_request_code_list,
  parse_request_block_information_ex, parse_get_area_information, parse_request_service_v2,
}
use felica_rs.Command.Parse.Access.{
  parse_read_without_encryption, parse_write_without_encryption, parse_authentication1,
  parse_authentication2, parse_authentication1_v2, parse_authentication2_v2,
}
use felica_rs.Command.Parse.Settings.{
  parse_set_parameter, parse_get_container_issue_information, parse_get_node_property,
  parse_get_container_property, parse_get_system_status, parse_request_product_information,
  parse_request_specification_version, parse_reset_mode, parse_get_container_id,
}

unfoldable pub is_secure_command_code : ℕ → Bool
is_secure_command_code c =
    (c == Constants.read_command_code)
    || (c == Constants.write_command_code)
    || (c == Constants.read_v2_command_code)
    || (c == Constants.write_v2_command_code)
    || (c == Constants.register_issue_id_command_code)
    || (c == Constants.register_area_command_code)
    || (c == Constants.register_service_command_code)
    || (c == Constants.change_system_block_command_code)

unfoldable pub is_register_command : ℕ → Bool
is_register_command c =
    (c == Constants.register_issue_id_command_code)
    || (c == Constants.register_area_command_code)
    || (c == Constants.register_service_command_code)
    || (c == Constants.change_system_block_command_code)

-- The arms of the `match` in their order, as tests.
unfoldable pub parse_command : ℕ → List ℕ → Parsed FelicaStandardCommand
unfolding is_secure_command_code
parse_command command body =
    if command == Constants.polling_command_code
    then parse_polling body
    else if command == Constants.request_service_command_code
    then parse_request_service body
    else if command == Constants.request_response_command_code
    then parse_request_response body
    else if command == Constants.read_without_encryption_command_code
    then parse_read_without_encryption body
    else if command == Constants.write_without_encryption_command_code
    then parse_write_without_encryption body
    else if command == Constants.search_service_code_command_code
    then parse_search_service_code body
    else if command == Constants.request_system_code_command_code
    then parse_request_system_code body
    else if command == Constants.request_block_information_command_code
    then parse_request_block_information body
    else if command == Constants.authentication1_command_code
    then parse_authentication1 body
    else if command == Constants.authentication2_command_code
    then parse_authentication2 body
    else if command == Constants.authentication1_v2_command_code
    then parse_authentication1_v2 body
    else if command == Constants.authentication2_v2_command_code
    then parse_authentication2_v2 body
    else if command == Constants.request_code_list_command_code
    then parse_request_code_list body
    else if command == Constants.request_block_information_ex_command_code
    then parse_request_block_information_ex body
    else if command == Constants.set_parameter_command_code
    then parse_set_parameter body
    else if command == Constants.get_container_issue_information_command_code
    then parse_get_container_issue_information body
    else if command == Constants.get_area_information_command_code
    then parse_get_area_information body
    else if command == Constants.get_node_property_command_code
    then parse_get_node_property body
    else if command == Constants.get_container_property_command_code
    then parse_get_container_property body
    else if command == Constants.request_service_v2_command_code
    then parse_request_service_v2 body
    else if command == Constants.get_system_status_command_code
    then parse_get_system_status body
    else if command == Constants.request_product_information_command_code
    then parse_request_product_information body
    else if command == Constants.request_specification_version_command_code
    then parse_request_specification_version body
    else if command == Constants.reset_mode_command_code
    then parse_reset_mode body
    else if command == Constants.get_container_id_command_code
    then parse_get_container_id body
    else if is_secure_command_code command
    then fail "secure command payload requires decryption"
    else err (protocol_value "unsupported command code: 0x{command:02X}" command)

unfoldable pub parse_payload : List ℕ → Parsed FelicaStandardCommand
parse_payload [] = fail "empty command payload"
parse_payload (command ∷ body) = parse_command command body

unfoldable pub parse_frame : List ℕ → Parsed FelicaStandardCommand
unfolding parse_payload
parse_frame [] = fail "empty Felica frame"
parse_frame (expected_len ∷ payload) = do
  ensure (expected_len == length payload + 1) (protocol "length byte does not match frame length")
  parse_payload payload

unfoldable pub parse_secure_read :
    (List BlockListElement → FelicaStandardCommand) → List ℕ → Parsed FelicaStandardCommand
parse_secure_read command payload = do
  (block_count, payload) ← take_count payload 1 max_block_count "secure read" "block"
  (block_list, rest) ← take_block_list payload block_count
  ok (command block_list)

unfoldable pub parse_secure_write :
    (List BlockListElement → List ℕ → FelicaStandardCommand) → List ℕ → Parsed FelicaStandardCommand
parse_secure_write command payload = do
  (block_count, payload) ← take_count payload 1 max_block_count "secure write" "block"
  (block_list, payload) ← take_block_list payload block_count
  written ←
      ok_or (get_to (block_count * block_size) payload) (protocol "secure write data truncated")
  ok (command block_list written)

unfoldable pub parse_register_issue_id : List ℕ → Parsed FelicaStandardCommand
parse_register_issue_id payload = do
  ensure (not (ltb (length payload) 16)) (protocol "register issue id payload too short")
  issue_id ← slice_to 8 payload
  rest ← slice_from 8 payload
  issue_parameter ← slice_to 8 rest
  issue_package ← slice_from 16 payload
  ok (register_issue_id issue_id issue_parameter issue_package)

unfoldable pub parse_register_node :
    (ℕ → List ℕ → FelicaStandardCommand) → String → List ℕ → Parsed FelicaStandardCommand
parse_register_node command message payload = do
  ensure (not (ltb (length payload) 2)) (protocol message)
  b0 ← index payload 0
  b1 ← index payload 1
  issue_package ← slice_from 2 payload
  ok (command (from_le_bytes b0 b1) issue_package)

unfoldable pub parse_secure_payload : ℕ → List ℕ → Parsed FelicaStandardCommand
unfolding parse_secure_read parse_secure_write parse_register_issue_id parse_register_node
parse_secure_payload command_code payload =
    if command_code == Constants.read_command_code
    then parse_secure_read read payload
    else if command_code == Constants.read_v2_command_code
    then parse_secure_read read_v2 payload
    else if command_code == Constants.write_command_code
    then parse_secure_write write payload
    else if command_code == Constants.write_v2_command_code
    then parse_secure_write write_v2 payload
    else if command_code == Constants.register_issue_id_command_code
    then parse_register_issue_id payload
    else if command_code == Constants.register_area_command_code
    then parse_register_node register_area "register area payload too short" payload
    else if command_code == Constants.register_service_command_code
    then parse_register_node register_service "register service payload too short" payload
    else if command_code == Constants.change_system_block_command_code
    then (do
      ensure (is_empty payload) (protocol "change system block payload must be empty")
      ok change_system_block)
    else err (protocol_value "unsupported secure command code: 0x{command_code:02X}" command_code)
