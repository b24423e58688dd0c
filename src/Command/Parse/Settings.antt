-- ===== src/Command/Parse/Settings.antt =====
-- src/felica_standard/command/parse.rs: settings, properties and the container.
pub mod Sound
use felica_rs.Prelude.{ℕ, List, not, length, ltb}
use felica_rs.Prelude.Bytes.{from_le_bytes}
use felica_rs.Prelude.Slices.{index, slice_to, slice_from, split_first}
use felica_rs.Prelude.Outcome.{ok, ◌>>=◌, ◌>>◌, ensure, ok_or}
use felica_rs.Felica.Constants.{max_node_property_codes}
use felica_rs.Felica.Error.{protocol}
use felica_rs.Felica.Types.Selectors.{
  from_index, node_property_from_byte, encryption_from_byte, packet_from_byte,
}
use felica_rs.Command.{
  FelicaStandardCommand, set_parameter, get_container_issue_information, get_node_property,
  get_container_property, get_system_status, request_product_information,
  request_specification_version, reset_mode, get_container_id,
}
use felica_rs.Command.Parse.Fields.{
  Parsed, parse_idm, ensure_no_trailing_bytes, take_u16_list, is_empty, all_zero,
}

unfoldable pub parse_set_parameter : List ℕ → Parsed FelicaStandardCommand
parse_set_parameter body = do
  (idm, rest) ← parse_idm body
  ensure (not (ltb (length rest) 8)) (protocol "set parameter payload too short")
  ensure (not (ltb 8 (length rest))) (protocol "set parameter payload has trailing bytes")
  front ← slice_to 4 rest
  ensure (all_zero front) (protocol "set parameter reserved bytes D0-D3 must be 0x00")
  back ← slice_from 6 rest
  ensure (all_zero back) (protocol "set parameter reserved bytes D6-D7 must be 0x00")
  b4 ← index rest 4
  encryption_type ←
      ok_or (encryption_from_byte b4) (protocol "set parameter encryption type out of range")
  b5 ← index rest 5
  packet_type ← ok_or (packet_from_byte b5) (protocol "set parameter packet type out of range")
  ok (set_parameter idm encryption_type packet_type)

unfoldable pub parse_get_container_issue_information : List ℕ → Parsed FelicaStandardCommand
parse_get_container_issue_information body = do
  (idm, rest) ← parse_idm body
  ensure (not (ltb (length rest) 2)) (protocol "get container issue information payload too short")
  ensure (not (ltb 2 (length rest)))
      (protocol "get container issue information payload has trailing bytes")
  ensure (all_zero rest) (protocol "get container issue information reserved bytes must be 0x00")
  ok (get_container_issue_information idm)

unfoldable pub parse_get_node_property : List ℕ → Parsed FelicaStandardCommand
parse_get_node_property body = do
  (idm, rest) ← parse_idm body
  (type_byte, rest) ← ok_or (split_first rest) (protocol "get node property payload too short")
  node_property_type ←
      ok_or (node_property_from_byte type_byte) (protocol "get node property type out of range")
  (node_codes, rest) ← take_u16_list rest 1 max_node_property_codes "get node property" "node"
  ensure_no_trailing_bytes rest "get node property"
  ok (get_node_property idm node_property_type node_codes)

unfoldable pub parse_get_container_property : List ℕ → Parsed FelicaStandardCommand
parse_get_container_property body = do
  ensure (not (ltb (length body) 2)) (protocol "get container property payload too short")
  ensure (not (ltb 2 (length body))) (protocol "get container property payload has trailing bytes")
  b0 ← index body 0
  b1 ← index body 1
  ok (get_container_property (from_index (from_le_bytes b0 b1)))

unfoldable pub parse_get_system_status : List ℕ → Parsed FelicaStandardCommand
parse_get_system_status body = do
  (idm, rest) ← parse_idm body
  ensure (not (ltb (length rest) 2)) (protocol "get system status payload too short")
  ensure (not (ltb 2 (length rest))) (protocol "get system status payload has trailing bytes")
  ensure (all_zero rest) (protocol "get system status reserved bytes must be 0x00")
  ok (get_system_status idm)

unfoldable pub parse_request_product_information : List ℕ → Parsed FelicaStandardCommand
parse_request_product_information body = do
  (idm, rest) ← parse_idm body
  ensure (is_empty rest) (protocol "request product information payload has trailing bytes")
  ok (request_product_information idm)

unfoldable pub parse_request_specification_version : List ℕ → Parsed FelicaStandardCommand
parse_request_specification_version body = do
  (idm, rest) ← parse_idm body
  ensure (not (ltb (length rest) 2)) (protocol "request specification version payload too short")
  ensure (not (ltb 2 (length rest)))
      (protocol "request specification version payload has trailing bytes")
  ensure (all_zero rest) (protocol "request specification version reserved bytes must be 0x00")
  ok (request_specification_version idm)

unfoldable pub parse_reset_mode : List ℕ → Parsed FelicaStandardCommand
parse_reset_mode body = do
  (idm, rest) ← parse_idm body
  ensure (not (ltb (length rest) 2)) (protocol "reset mode payload too short")
  ensure (not (ltb 2 (length rest))) (protocol "reset mode payload has trailing bytes")
  ensure (all_zero rest) (protocol "reset mode reserved bytes must be 0x00")
  ok (reset_mode idm)

unfoldable pub parse_get_container_id : List ℕ → Parsed FelicaStandardCommand
parse_get_container_id body = do
  ensure (not (ltb (length body) 2)) (protocol "get container id payload too short")
  ensure (not (ltb 2 (length body))) (protocol "get container id payload has trailing bytes")
  ensure (all_zero body) (protocol "get container id reserved bytes must be 0x00")
  ok get_container_id
