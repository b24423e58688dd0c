-- ===== src/Command/Parse/Dispatch/Reads.antt =====
-- The parser reads back the packet of every valid command.
use felica_rs.Prelude.{
  ℕ, ◌*◌, ◌≡◌, refl, true, false, List, ◌++◌, length, length-append, eq→==, le→leb, le→ltb_false,
  arith, append_assoc, String,
}
use felica_rs.Prelude.Bytes.{from_le_bytes-to_le_bytes, from_be_bytes-to_be_bytes}
use felica_rs.Prelude.Outcome.{ok, ensure, ok_or}
use felica_rs.Prelude.Slices.{slice_to-append, slice_from-append}
use felica_rs.Felica.Constants.{
  max_service_codes, max_rw_service_codes, max_block_count, max_node_codes, max_node_property_codes,
}
use felica_rs.Felica.Types.Selectors.{to_index}
use felica_rs.Felica.Types.Selectors.RoundTrip.{
  from_index-to_index, node_property_from_byte-byte, encryption_from_byte-byte,
  packet_from_byte-byte,
}
use felica_rs.Felica.Payload.Layout.{words_bytes, length-words_bytes}
use felica_rs.Command.{
  FelicaStandardCommand, polling, request_service, request_response, read_without_encryption,
  write_without_encryption, search_service_code, request_system_code, request_block_information,
  authentication1, authentication2, read, write, read_v2, write_v2, request_code_list,
  request_block_information_ex, set_parameter, get_container_issue_information,
  get_area_information, get_node_property, get_container_property, request_service_v2,
  get_system_status, request_product_information, request_specification_version, reset_mode,
  authentication1_v2, authentication2_v2, get_container_id, register_issue_id, register_area,
  register_service, change_system_block,
}
use felica_rs.Command.Wire.{opcode, fields, word, wire, is_secure, IsValid}
use felica_rs.Command.Parse.Fields.{ensure_no_trailing_bytes}
use felica_rs.Command.Parse.Fields.Reads.{
  parse_idm_reads, parse_idm_reads_all, take_count_reads, parse_u16_list_le_reads,
  take_u16_list_reads, take_u16_list_reads_all, take_service_code_list_reads,
  take_service_code_list_reads_all, take_block_list_reads, take_block_list_reads_all, get_to_all,
}
use felica_rs.Command.Parse.Queries.{
  parse_polling, parse_request_service, parse_request_response, parse_search_service_code,
  parse_request_system_code, parse_request_block_information, parse_request_code_list,
  parse_request_block_information_ex, parse_get_area_information, parse_request_service_v2,
}
use felica_rs.Command.Parse.Access.{
  parse_read_without_encryption, parse_write_without_encryption, parse_authentication1,
  parse_authentication2, parse_authentication1_v2, parse_authentication2_v2,
}
use felica_rs.Command.Parse.Settings.{
  parse_set_parameter, parse_get_container_issue_information, parse_get_node_property,
  parse_get_container_property, parse_get_system_status, parse_request_product_information,
  parse_request_specification_version, parse_reset_mode, parse_get_container_id,
}
use felica_rs.Command.Parse.Dispatch.{
  parse_command, parse_payload, parse_secure_payload, parse_register_issue_id, parse_register_node,
}

pub parse_payload-wire :
    (c : FelicaStandardCommand) → IsValid c → is_secure c ≡ false → parse_payload (wire c) ≡ ok c
unfolding parse_payload parse_command ensure ok_or wire fields opcode is_secure
    ensure_no_trailing_bytes parse_polling parse_request_service parse_request_response
    parse_search_service_code parse_request_system_code parse_request_block_information
    parse_request_code_list parse_request_block_information_ex parse_get_area_information
    parse_request_service_v2 parse_read_without_encryption parse_write_without_encryption
    parse_authentication1 parse_authentication2 parse_authentication1_v2 parse_authentication2_v2
    parse_set_parameter parse_get_container_issue_information parse_get_node_property
    parse_get_container_property parse_get_system_status parse_request_product_information
    parse_request_specification_version parse_reset_mode parse_get_container_id
parse_payload-wire (polling system_code request_code time_slots) h s =
    rw (h.1, h.2, from_be_bytes-to_be_bytes system_code)
parse_payload-wire (request_service idm service_codes) h s = rw (
  parse_idm_reads idm _ h.0.0,
  take_service_code_list_reads_all service_codes max_service_codes _ h.1.0 h.1.1,
)
parse_payload-wire (request_response idm) h s = rw (parse_idm_reads_all idm h.0)
parse_payload-wire (read_without_encryption idm service_codes block_list) h s = rw (
  parse_idm_reads idm _ h.0.0,
  take_service_code_list_reads service_codes _ max_rw_service_codes _ h.1.0 h.1.1,
  take_count_reads (length block_list) 1 max_block_count _ _ _ h.2.0 h.2.1,
  take_block_list_reads_all block_list h.2.2,
)
parse_payload-wire (write_without_encryption idm service_codes block_list block_data) h s = rw (
  parse_idm_reads idm _ h.0.0,
  take_service_code_list_reads service_codes _ max_rw_service_codes _ h.1.0 h.1.1,
  take_count_reads (length block_list) 1 max_block_count _ _ _ h.2.0 h.2.1,
  take_block_list_reads block_list _ h.2.2,
  le→ltb_false (length block_data) (length block_list * 16) (omega (arith, h.3.0)),
  le→ltb_false (length block_list * 16) (length block_data) (omega (arith, h.3.0)),
)
parse_payload-wire (search_service_code idm service_index) h s =
    rw (parse_idm_reads idm _ h.0.0, from_le_bytes-to_le_bytes service_index)
parse_payload-wire (request_system_code idm) h s = rw (parse_idm_reads_all idm h.0)
parse_payload-wire (request_block_information idm node_codes) h s = rw (
  parse_idm_reads idm _ h.0.0,
  take_u16_list_reads_all node_codes 1 max_node_codes _ _ h.1.0 h.1.1,
)
parse_payload-wire (authentication1 idm areas services challenge_1a) h s = rw (
  parse_idm_reads idm _ h.0.0,
  le→leb (length areas) max_service_codes h.1.1,
  parse_u16_list_le_reads areas _,
  slice_from-append (length areas * 2) (words_bytes areas) _ (length-words_bytes areas),
  le→leb (length services) max_service_codes h.2.1,
  parse_u16_list_le_reads services _,
  slice_from-append (length services * 2) (words_bytes services) _ (length-words_bytes services),
  get_to_all 8 challenge_1a h.3.0,
  eq→== (length challenge_1a) 8 h.3.0,
)
parse_payload-wire (authentication2 idm challenge_2b) h s = rw (parse_idm_reads idm _ h.0.0, h.1.0)
parse_payload-wire (read block_list) h s = cc
parse_payload-wire (write block_list block_data) h s = cc
parse_payload-wire (read_v2 block_list) h s = cc
parse_payload-wire (write_v2 block_list block_data) h s = cc
parse_payload-wire (request_code_list idm parent_node_code index) h s = rw (
  parse_idm_reads idm _ h.0.0,
  from_le_bytes-to_le_bytes parent_node_code,
  from_le_bytes-to_le_bytes index,
)
parse_payload-wire (request_block_information_ex idm node_codes) h s = rw (
  parse_idm_reads idm _ h.0.0,
  take_u16_list_reads_all node_codes 1 max_node_codes _ _ h.1.0 h.1.1,
)
parse_payload-wire (set_parameter idm encryption_type packet_type) h s = rw (
  parse_idm_reads idm _ h.0,
  encryption_from_byte-byte encryption_type,
  packet_from_byte-byte packet_type,
)
parse_payload-wire (get_container_issue_information idm) h s = rw (parse_idm_reads idm _ h.0)
parse_payload-wire (get_area_information idm node_code) h s =
    rw (parse_idm_reads idm _ h.0.0, from_le_bytes-to_le_bytes node_code)
parse_payload-wire (get_node_property idm node_property_type node_codes) h s = rw (
  parse_idm_reads idm _ h.0.0,
  node_property_from_byte-byte node_property_type,
  take_u16_list_reads_all node_codes 1 max_node_property_codes _ _ h.1.0 h.1.1,
)
parse_payload-wire (get_container_property property) h s =
    rw (from_le_bytes-to_le_bytes (to_index property), from_index-to_index property h)
parse_payload-wire (request_service_v2 idm service_codes) h s = rw (
  parse_idm_reads idm _ h.0.0,
  take_service_code_list_reads_all service_codes max_service_codes _ h.1.0 h.1.1,
)
parse_payload-wire (get_system_status idm) h s = rw (parse_idm_reads idm _ h.0)
parse_payload-wire (request_product_information idm) h s = rw (parse_idm_reads_all idm h.0)
parse_payload-wire (request_specification_version idm) h s = rw (parse_idm_reads idm _ h.0)
parse_payload-wire (reset_mode idm) h s = rw (parse_idm_reads idm _ h.0)
parse_payload-wire (authentication1_v2 idm operation_parameter nodes challenge_1a) h s = rw (
  parse_idm_reads idm _ h.0.0,
  take_u16_list_reads nodes _ 1 max_service_codes _ _ h.2.0 h.2.1,
  h.3.0,
)
parse_payload-wire (authentication2_v2 idm challenge_2b) h s =
    rw (parse_idm_reads idm _ h.0.0, h.1.0)
parse_payload-wire get_container_id h s = refl
parse_payload-wire (register_issue_id issue_id issue_parameter issue_package) h s = cc
parse_payload-wire (register_area area_code issue_package) h s = cc
parse_payload-wire (register_service service_code issue_package) h s = cc
parse_payload-wire change_system_block h s = cc

register_issue_id_reads :
    (issue_id issue_parameter issue_package : List ℕ)
    → length issue_id ≡ 8
    → length issue_parameter ≡ 8
    → parse_register_issue_id (issue_id ++ (issue_parameter ++ issue_package))
      ≡ ok (register_issue_id issue_id issue_parameter issue_package)
unfolding parse_register_issue_id ensure
register_issue_id_reads issue_id issue_parameter issue_package p q =
    let whole = issue_id ++ (issue_parameter ++ issue_package) in
    rw (
      le→ltb_false (length whole) 16 (
          omega (
            arith,
            length-append issue_id (issue_parameter ++ issue_package),
            length-append issue_parameter issue_package,
          )),
      slice_to-append 8 issue_id (issue_parameter ++ issue_package) p,
      slice_from-append 8 issue_id (issue_parameter ++ issue_package) p,
      slice_to-append 8 issue_parameter issue_package q,
      ← append_assoc issue_id issue_parameter issue_package,
      slice_from-append 16 (issue_id ++ issue_parameter) issue_package
          (omega (arith, length-append issue_id issue_parameter)),
    )

register_node_reads :
    (command : ℕ → List ℕ → FelicaStandardCommand) (message : String) (code : ℕ)
    (issue_package : List ℕ)
    → parse_register_node command message (word code ++ issue_package)
      ≡ ok (command code issue_package)
unfolding parse_register_node ensure
register_node_reads command message code issue_package = rw (
  le→ltb_false (length (word code ++ issue_package)) 2 (omega arith),
  from_le_bytes-to_le_bytes code,
  slice_from-append 2 (word code) issue_package refl,
)

pub parse_secure_payload-wire :
    (c : FelicaStandardCommand)
    → IsValid c
    → is_secure c ≡ true
    → parse_secure_payload (opcode c) (fields c) ≡ ok c
unfolding parse_secure_payload ensure ok_or fields opcode is_secure
parse_secure_payload-wire (polling system_code request_code time_slots) h s = cc
parse_secure_payload-wire (request_service idm service_codes) h s = cc
parse_secure_payload-wire (request_response idm) h s = cc
parse_secure_payload-wire (read_without_encryption idm service_codes block_list) h s = cc
parse_secure_payload-wire (write_without_encryption idm service_codes block_list block_data) h s =
    cc
parse_secure_payload-wire (search_service_code idm service_index) h s = cc
parse_secure_payload-wire (request_system_code idm) h s = cc
parse_secure_payload-wire (request_block_information idm node_codes) h s = cc
parse_secure_payload-wire (authentication1 idm areas services challenge_1a) h s = cc
parse_secure_payload-wire (authentication2 idm challenge_2b) h s = cc
parse_secure_payload-wire (read block_list) h s = rw (
  take_count_reads (length block_list) 1 max_block_count _ _ _ h.0 h.1,
  take_block_list_reads_all block_list h.2,
)
parse_secure_payload-wire (write block_list block_data) h s = rw (
  take_count_reads (length block_list) 1 max_block_count _ _ _ h.0.0 h.0.1,
  take_block_list_reads block_list _ h.0.2,
  get_to_all (length block_list * 16) block_data h.1.0,
)
parse_secure_payload-wire (read_v2 block_list) h s = rw (
  take_count_reads (length block_list) 1 max_block_count _ _ _ h.0 h.1,
  take_block_list_reads_all block_list h.2,
)
parse_secure_payload-wire (write_v2 block_list block_data) h s = rw (
  take_count_reads (length block_list) 1 max_block_count _ _ _ h.0.0 h.0.1,
  take_block_list_reads block_list _ h.0.2,
  get_to_all (length block_list * 16) block_data h.1.0,
)
parse_secure_payload-wire (request_code_list idm parent_node_code index) h s = cc
parse_secure_payload-wire (request_block_information_ex idm node_codes) h s = cc
parse_secure_payload-wire (set_parameter idm encryption_type packet_type) h s = cc
parse_secure_payload-wire (get_container_issue_information idm) h s = cc
parse_secure_payload-wire (get_area_information idm node_code) h s = cc
parse_secure_payload-wire (get_node_property idm node_property_type node_codes) h s = cc
parse_secure_payload-wire (get_container_property property) h s = cc
parse_secure_payload-wire (request_service_v2 idm service_codes) h s = cc
parse_secure_payload-wire (get_system_status idm) h s = cc
parse_secure_payload-wire (request_product_information idm) h s = cc
parse_secure_payload-wire (request_specification_version idm) h s = cc
parse_secure_payload-wire (reset_mode idm) h s = cc
parse_secure_payload-wire (authentication1_v2 idm operation_parameter nodes challenge_1a) h s = cc
parse_secure_payload-wire (authentication2_v2 idm challenge_2b) h s = cc
parse_secure_payload-wire get_container_id h s = cc
parse_secure_payload-wire (register_issue_id issue_id issue_parameter issue_package) h s =
    register_issue_id_reads issue_id issue_parameter issue_package h.0.0 h.1.0
parse_secure_payload-wire (register_area area_code issue_package) h s =
    register_node_reads register_area _ area_code issue_package
parse_secure_payload-wire (register_service service_code issue_package) h s =
    register_node_reads register_service _ service_code issue_package
parse_secure_payload-wire change_system_block h s = refl
