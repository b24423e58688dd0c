-- ===== src/Command/Parse/Queries.antt =====
-- src/felica_standard/command/parse.rs: commands that only query a card.
pub mod Sound
use felica_rs.Prelude.{ℕ, List, not, length, ltb, contains}
use felica_rs.Prelude.Bytes.{from_le_bytes, from_be_bytes}
use felica_rs.Prelude.Slices.{index}
use felica_rs.Prelude.Outcome.{ok, ◌>>=◌, ◌>>◌, ensure}
use felica_rs.Felica.Constants.{
  max_service_codes, max_node_codes, polling_request_codes, polling_time_slots,
}
use felica_rs.Felica.Error.{protocol, protocol_value}
use felica_rs.Command.{
  FelicaStandardCommand, polling, request_service, request_response, search_service_code,
  request_system_code, request_block_information, request_code_list, request_block_information_ex,
  get_area_information, request_service_v2,
}
use felica_rs.Command.Parse.Fields.{
  Parsed, parse_idm, ensure_no_trailing_bytes, take_u16_list, take_service_code_list, is_empty,
}

unfoldable pub parse_polling : List ℕ → Parsed FelicaStandardCommand
parse_polling body = do
  ensure (not (ltb (length body) 4)) (protocol "polling payload too short")
  ensure (not (ltb 4 (length body))) (protocol "polling payload has trailing bytes")
  request_code ← index body 2
  ensure (contains polling_request_codes request_code)
      (protocol_value "polling request code {:#04X} is reserved" request_code)
  time_slots ← index body 3
  ensure (contains polling_time_slots time_slots)
      (protocol_value "polling time slot value {:#04X} is not defined" time_slots)
  b0 ← index body 0
  b1 ← index body 1
  ok (polling (from_be_bytes b0 b1) request_code time_slots)

unfoldable pub parse_request_service : List ℕ → Parsed FelicaStandardCommand
parse_request_service body = do
  (idm, rest) ← parse_idm body
  (service_codes, rest) ← take_service_code_list rest max_service_codes "request service"
  ensure_no_trailing_bytes rest "request service"
  ok (request_service idm service_codes)

unfoldable pub parse_request_response : List ℕ → Parsed FelicaStandardCommand
parse_request_response body = do
  (idm, rest) ← parse_idm body
  ensure (is_empty rest) (protocol "request response payload has trailing bytes")
  ok (request_response idm)

unfoldable pub parse_search_service_code : List ℕ → Parsed FelicaStandardCommand
parse_search_service_code body = do
  (idm, rest) ← parse_idm body
  ensure (not (ltb (length rest) 2)) (protocol "search service code payload too short")
  ensure (not (ltb 2 (length rest))) (protocol "search service code payload has trailing bytes")
  b0 ← index rest 0
  b1 ← index rest 1
  ok (search_service_code idm (from_le_bytes b0 b1))

unfoldable pub parse_request_system_code : List ℕ → Parsed FelicaStandardCommand
parse_request_system_code body = do
  (idm, rest) ← parse_idm body
  ensure (is_empty rest) (protocol "request system code payload has trailing bytes")
  ok (request_system_code idm)

unfoldable pub parse_request_block_information : List ℕ → Parsed FelicaStandardCommand
parse_request_block_information body = do
  (idm, rest) ← parse_idm body
  (node_codes, rest) ← take_u16_list rest 1 max_node_codes "request block information" "node"
  ensure_no_trailing_bytes rest "request block information"
  ok (request_block_information idm node_codes)

unfoldable pub parse_request_code_list : List ℕ → Parsed FelicaStandardCommand
parse_request_code_list body = do
  (idm, rest) ← parse_idm body
  ensure (not (ltb (length rest) 4)) (protocol "request code list payload too short")
  ensure (not (ltb 4 (length rest))) (protocol "request code list payload has trailing bytes")
  b0 ← index rest 0
  b1 ← index rest 1
  b2 ← index rest 2
  b3 ← index rest 3
  ok (request_code_list idm (from_le_bytes b0 b1) (from_le_bytes b2 b3))

unfoldable pub parse_request_block_information_ex : List ℕ → Parsed FelicaStandardCommand
parse_request_block_information_ex body = do
  (idm, rest) ← parse_idm body
  (node_codes, rest) ← take_u16_list rest 1 max_node_codes "request block information ex" "node"
  ensure_no_trailing_bytes rest "request block information ex"
  ok (request_block_information_ex idm node_codes)

unfoldable pub parse_get_area_information : List ℕ → Parsed FelicaStandardCommand
parse_get_area_information body = do
  (idm, rest) ← parse_idm body
  ensure (not (ltb (length rest) 2)) (protocol "get area information payload too short")
  ensure (not (ltb 2 (length rest))) (protocol "get area information payload has trailing bytes")
  b0 ← index rest 0
  b1 ← index rest 1
  ok (get_area_information idm (from_le_bytes b0 b1))

unfoldable pub parse_request_service_v2 : List ℕ → Parsed FelicaStandardCommand
parse_request_service_v2 body = do
  (idm, rest) ← parse_idm body
  (service_codes, rest) ← take_service_code_list rest max_service_codes "request service v2"
  ensure_no_trailing_bytes rest "request service v2"
  ok (request_service_v2 idm service_codes)
