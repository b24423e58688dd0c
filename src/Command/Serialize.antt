-- ===== src/Command/Serialize.antt =====
-- src/felica_standard/command/serialize.rs: the wire form of each command. `debug_assert!` is read
-- as in a debug build, where a failure panics.
pub mod Layout
use felica_rs.Prelude.{
  ℕ, ◌+◌, ◌*◌, ◌%◌, Bool, not, ◌&&◌, List, [], ◌∷◌, leb, ◌==◌, length, contains,
}
use felica_rs.Prelude.Outcome.{Outcome, ok, err, ◌>>=◌, ◌>>◌, ensure, assert}
use felica_rs.Felica.Constants
use felica_rs.Felica.Constants.{
  polling_request_codes, polling_time_slots, max_service_codes, max_rw_service_codes,
  max_block_count, max_node_codes, max_node_property_codes, block_size,
}
use felica_rs.Felica.Error.{ProtocolError, protocol, protocol_value}
use felica_rs.Felica.Types.Selectors.{to_index, node_property_byte, encryption_byte, packet_byte}
use felica_rs.Felica.Payload.{
  PayloadWriter, new, with_capacity, push_u8, push_idm, extend_bytes, extend_u16_le, extend_u16_be,
  extend_u16_list_le, extend_counted_u16_le, extend_counted_service_codes,
  extend_counted_block_list, finish, finish_frame,
}
use felica_rs.Command.{FelicaStandardCommand, CommandEncoding, plain, secure}
use felica_rs.Command.{
  polling, request_service, request_response, read_without_encryption, write_without_encryption,
  search_service_code, request_system_code, request_block_information, authentication1,
  authentication2, read, write, read_v2, write_v2, request_code_list, request_block_information_ex,
  set_parameter, get_container_issue_information, get_area_information, get_node_property,
  get_container_property, request_service_v2, get_system_status, request_product_information,
  request_specification_version, reset_mode, authentication1_v2, authentication2_v2,
  get_container_id, register_issue_id, register_area, register_service, change_system_block,
}

-- `!list.is_empty() && list.len() <= max`
abbrev pub counted_within {ℓ} : {A : Type ℓ} → ℕ → List A → Bool
counted_within max xs = not (length xs == 0) && leb (length xs) max

-- `Ok(CommandEncoding::Plain(payload.finish_frame()?))`
abbrev pub framed : PayloadWriter → Outcome ProtocolError CommandEncoding
framed w = finish_frame w >>= λ frame. ok (plain frame)

unfoldable pub encoding : FelicaStandardCommand → Outcome ProtocolError CommandEncoding
encoding (polling system_code request_code time_slots) = do
  ensure (contains polling_request_codes request_code)
      (protocol_value "polling request code {request_code:#04X} is reserved" request_code)
  ensure (contains polling_time_slots time_slots) (
      protocol_value
        "polling time slot value {time_slots:#04X} is not defined; use 0x00, 0x01, 0x03, 0x07 or 0x0F"
        time_slots)
  framed (
      push_u8 time_slots
        (push_u8 request_code (extend_u16_be system_code (new Constants.polling_command_code))))
encoding (request_service idm service_codes) = do
  assert (counted_within max_service_codes service_codes)
  w ←
      extend_counted_service_codes service_codes
        (push_idm idm (new Constants.request_service_command_code))
  framed w
encoding (request_response idm) = do
  framed (push_idm idm (new Constants.request_response_command_code))
encoding (read_without_encryption idm service_codes block_list) = do
  assert (counted_within max_rw_service_codes service_codes)
  assert (counted_within max_block_count block_list)
  w ←
      extend_counted_service_codes service_codes
        (push_idm idm (new Constants.read_without_encryption_command_code))
  w ← extend_counted_block_list block_list w
  framed w
encoding (write_without_encryption idm service_codes block_list block_data) = do
  assert (counted_within max_rw_service_codes service_codes)
  assert (counted_within max_block_count block_list)
  assert (length block_data == length block_list * block_size)
  w ←
      extend_counted_service_codes service_codes
        (push_idm idm (new Constants.write_without_encryption_command_code))
  w ← extend_counted_block_list block_list w
  framed (extend_bytes block_data (w))
encoding (search_service_code idm service_index) = do
  framed
      (extend_u16_le service_index (push_idm idm (new Constants.search_service_code_command_code)))
encoding (request_system_code idm) = do
  framed (push_idm idm (new Constants.request_system_code_command_code))
encoding (request_block_information idm node_codes) = do
  assert (counted_within max_node_codes node_codes)
  w ←
      extend_counted_u16_le node_codes
        (push_idm idm (new Constants.request_block_information_command_code))
  framed w
encoding (authentication1 idm areas services challenge_1a) = do
  framed (
      extend_bytes challenge_1a (
        extend_u16_list_le services (
          push_u8 (length services % 256) (
            extend_u16_list_le areas (
              push_u8 (length areas % 256)
                (push_idm idm (new Constants.authentication1_command_code)))))))
encoding (authentication2 idm challenge_2b) = do
  framed (extend_bytes challenge_2b (push_idm idm (new Constants.authentication2_command_code)))
encoding (read block_list) = do
  assert (counted_within max_block_count block_list)
  w ← extend_counted_block_list block_list (with_capacity (1 + length block_list * 3))
  ok (secure Constants.read_command_code (finish w))
encoding (write block_list block_data) = do
  assert (counted_within max_block_count block_list)
  assert (length block_data == length block_list * block_size)
  w ←
      extend_counted_block_list block_list
        (with_capacity (1 + length block_list * 3 + length block_data))
  ok (secure Constants.write_command_code (finish (extend_bytes block_data (w))))
encoding (read_v2 block_list) = do
  assert (counted_within max_block_count block_list)
  w ← extend_counted_block_list block_list (with_capacity (1 + length block_list * 3))
  ok (secure Constants.read_v2_command_code (finish w))
encoding (write_v2 block_list block_data) = do
  assert (counted_within max_block_count block_list)
  assert (length block_data == length block_list * block_size)
  w ←
      extend_counted_block_list block_list
        (with_capacity (1 + length block_list * 3 + length block_data))
  ok (secure Constants.write_v2_command_code (finish (extend_bytes block_data (w))))
encoding (request_code_list idm parent_node_code index) = do
  framed (
      extend_u16_le index (
        extend_u16_le parent_node_code
          (push_idm idm (new Constants.request_code_list_command_code))))
encoding (request_block_information_ex idm node_codes) = do
  assert (counted_within max_node_codes node_codes)
  w ←
      extend_counted_u16_le node_codes
        (push_idm idm (new Constants.request_block_information_ex_command_code))
  framed w
encoding (set_parameter idm encryption_type packet_type) = do
  framed (
      extend_bytes (0x00 ∷ 0x00 ∷ []) (
        push_u8 (packet_byte packet_type) (
          push_u8 (encryption_byte encryption_type) (
            extend_bytes (0x00 ∷ 0x00 ∷ 0x00 ∷ 0x00 ∷ [])
              (push_idm idm (new Constants.set_parameter_command_code))))))
encoding (get_container_issue_information idm) = do
  framed (
      extend_bytes (0x00 ∷ 0x00 ∷ [])
        (push_idm idm (new Constants.get_container_issue_information_command_code)))
encoding (get_area_information idm node_code) = do
  framed (extend_u16_le node_code (push_idm idm (new Constants.get_area_information_command_code)))
encoding (get_node_property idm node_property_type node_codes) = do
  assert (counted_within max_node_property_codes node_codes)
  w ← extend_counted_u16_le node_codes (
      push_u8 (node_property_byte node_property_type)
        (push_idm idm (new Constants.get_node_property_command_code)))
  framed w
encoding (get_container_property property) = do
  framed (extend_u16_le (to_index property) (new Constants.get_container_property_command_code))
encoding (request_service_v2 idm service_codes) = do
  assert (counted_within max_service_codes service_codes)
  w ←
      extend_counted_service_codes service_codes
        (push_idm idm (new Constants.request_service_v2_command_code))
  framed w
encoding (get_system_status idm) = do
  framed (
      extend_bytes (0x00 ∷ 0x00 ∷ []) (push_idm idm (new Constants.get_system_status_command_code)))
encoding (request_product_information idm) = do
  framed (push_idm idm (new Constants.request_product_information_command_code))
encoding (request_specification_version idm) = do
  framed (
      extend_bytes (0x00 ∷ 0x00 ∷ [])
        (push_idm idm (new Constants.request_specification_version_command_code)))
encoding (reset_mode idm) = do
  framed (extend_bytes (0x00 ∷ 0x00 ∷ []) (push_idm idm (new Constants.reset_mode_command_code)))
encoding (authentication1_v2 idm operation_parameter nodes challenge_1a) = do
  framed (
      extend_bytes challenge_1a (
        extend_u16_list_le nodes (
          push_u8 (length nodes % 256) (
            push_u8 operation_parameter
              (push_idm idm (new Constants.authentication1_v2_command_code))))))
encoding (authentication2_v2 idm challenge_2b) = do
  framed (extend_bytes challenge_2b (push_idm idm (new Constants.authentication2_v2_command_code)))
encoding get_container_id = do
  framed (extend_bytes (0x00 ∷ 0x00 ∷ []) (new Constants.get_container_id_command_code))
encoding (register_issue_id issue_id issue_parameter issue_package) = do
  ok (
      secure Constants.register_issue_id_command_code (
        finish (
          extend_bytes issue_package (
            extend_bytes issue_parameter
              (extend_bytes issue_id (with_capacity (16 + length issue_package)))))))
encoding (register_area area_code issue_package) = do
  ok (
      secure Constants.register_area_command_code (
        finish (
          extend_bytes issue_package
            (extend_u16_le area_code (with_capacity (2 + length issue_package))))))
encoding (register_service service_code issue_package) = do
  ok (
      secure Constants.register_service_command_code (
        finish (
          extend_bytes issue_package
            (extend_u16_le service_code (with_capacity (2 + length issue_package))))))
encoding change_system_block = ok (secure Constants.change_system_block_command_code [])

unfoldable pub to_frame : FelicaStandardCommand → Outcome ProtocolError (List ℕ)
to_frame c = do e ← encoding c; frame_of e
  where
    frame_of : CommandEncoding → Outcome ProtocolError (List ℕ)
    frame_of (plain frame) = ok frame
    frame_of (secure opcode payload) =
        err (protocol "secure commands must be encrypted by a secure session, not framed directly")
