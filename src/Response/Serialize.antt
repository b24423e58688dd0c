-- ===== src/Response/Serialize.antt =====
-- src/felica_standard/response/serialize.rs: the wire form of each response.
pub mod Layout
pub mod Pairing
use felica_rs.Prelude.{ℕ, not, ◌||◌, Option, List, [], ◌∷◌, ◌==◌, length, String}
use felica_rs.Prelude.Outcome.{ok, err, ◌>>=◌, ◌>>◌, ensure}
use felica_rs.Felica.Constants
use felica_rs.Felica.Constants.{max_service_codes, max_node_codes}
use felica_rs.Felica.Error.{protocol}
use felica_rs.Felica.Types.Results.{ReadResult}
use felica_rs.Felica.Payload.{
  PayloadWriter, new, response, status_flags, push_u8, extend_bytes, extend_u16_le,
  extend_counted_u16_le, extend_counted_u16_be, finish, ensure_count_in_range,
  frame_with_length_prefix,
}
use felica_rs.Response.{
  FelicaStandardResponse, polling, request_service, request_response, read_without_encryption,
  write_without_encryption, search_service_code, request_system_code, request_block_information,
  authentication1, authentication2, request_code_list, request_block_information_ex, set_parameter,
  get_container_issue_information, get_area_information, get_node_property, get_container_property,
  request_service_v2, get_system_status, request_product_information, request_specification_version,
  reset_mode, authentication1_v2, authentication2_v2, get_container_id, read, write, read_v2,
  write_v2, register_issue_id, register_area, register_service, change_system_block, unknown,
}
use felica_rs.Response.Write.{
  Written, on_success, finished, status_only, secure_status_only, write_blocks, write_code_list,
  write_block_information_ex, write_area_information, write_node_properties,
  write_service_v2_key_versions, write_counted_bytes, write_specification, write_search_result,
}

-- The arm of `Read` and `ReadV2`.
unfoldable pub secure_read_payload : ℕ → ℕ → Option ReadResult → Written (List ℕ)
unfolding finished
secure_read_payload status_flag1 status_flag2 result = finished (
    on_success "secure read" "result" status_flag1 result
      (λ r. write_blocks "secure read block count" r.blocks)
      (secure_status_only status_flag1 status_flag2))

-- The arms of `RegisterIssueId` and `RegisterService`.
unfoldable pub secure_remaining_payload :
    {R : Type 0} (what : String) (remaining_blocks : R → ℕ) → ℕ → ℕ → Option R → Written (List ℕ)
secure_remaining_payload what remaining_blocks status_flag1 status_flag2 result = finished (
    on_success what "result" status_flag1 result (λ r w. ok (extend_u16_le (remaining_blocks r) w))
      (secure_status_only status_flag1 status_flag2))

unfoldable pub to_secure_payload : FelicaStandardResponse → Written (List ℕ)
to_secure_payload (read status_flag1 status_flag2 result) =
    secure_read_payload status_flag1 status_flag2 result
to_secure_payload (read_v2 status_flag1 status_flag2 result) =
    secure_read_payload status_flag1 status_flag2 result
to_secure_payload (register_issue_id status_flag1 status_flag2 result) =
    secure_remaining_payload "register issue id" (λ r. r.remaining_blocks) status_flag1 status_flag2
      result
to_secure_payload (register_service status_flag1 status_flag2 result) =
    secure_remaining_payload "register service" (λ r. r.remaining_blocks) status_flag1 status_flag2
      result
to_secure_payload (write status_flag1 status_flag2) = ok (status_flag1 ∷ status_flag2 ∷ [])
to_secure_payload (write_v2 status_flag1 status_flag2) = ok (status_flag1 ∷ status_flag2 ∷ [])
to_secure_payload (register_area status_flag1 status_flag2) = ok (status_flag1 ∷ status_flag2 ∷ [])
to_secure_payload (change_system_block status_flag1 status_flag2) =
    ok (status_flag1 ∷ status_flag2 ∷ [])
to_secure_payload _ = err (protocol "plain response cannot be encoded as secure payload")

-- The lines that each arm of `to_payload` with a result repeats: the header with its status flags,
-- and what a success adds.
unfoldable pub success_payload :
    {R : Type 0}
    → ℕ
    → List ℕ
    → String
    → String
    → ℕ
    → ℕ
    → Option R
    → (R → PayloadWriter → Written PayloadWriter)
    → Written (List ℕ)
success_payload code idm what noun status_flag1 status_flag2 result write_result = finished (
    on_success what noun status_flag1 result write_result
      (status_flags status_flag1 status_flag2 (response code idm)))

unfoldable pub to_payload : FelicaStandardResponse → Written (List ℕ)
to_payload (polling idm pmm optional) = do
  ensure ((length optional == 0) || (length optional == 2))
      (protocol "polling response optional data must contain 0 or 2 bytes")
  ok (
      finish
        (extend_bytes optional (extend_bytes pmm (response Constants.polling_response_code idm))))
to_payload (request_service idm key_versions) = do
  ensure_count_in_range "request service key version count" (length key_versions) max_service_codes
  finished
      (extend_counted_u16_le key_versions (response Constants.request_service_response_code idm))
to_payload (request_response idm mode) =
    ok (finish (push_u8 mode (response Constants.request_response_response_code idm)))
to_payload (read_without_encryption idm status_flag1 status_flag2 result) =
    success_payload Constants.read_without_encryption_response_code idm "read without encryption"
      "result" status_flag1 status_flag2 result
      (λ r. write_blocks "read without encryption block count" r.blocks)
to_payload (write_without_encryption idm status_flag1 status_flag2) =
    ok (status_only Constants.write_without_encryption_response_code idm status_flag1 status_flag2)
to_payload (search_service_code idm result) =
    ok (
      finish
        (write_search_result result (response Constants.search_service_code_response_code idm)))
to_payload (request_system_code idm system_codes) = do
  ensure (not (length system_codes == 0))
      (protocol "request system code must include at least one entry")
  finished (
      extend_counted_u16_be system_codes (response Constants.request_system_code_response_code idm))
to_payload (request_block_information idm block_counts) = do
  ensure_count_in_range "request block information count" (length block_counts) max_node_codes
  finished (
      extend_counted_u16_le block_counts
        (response Constants.request_block_information_response_code idm))
to_payload (authentication1 idm challenge_1b challenge_2a) = ok (
    finish (
      extend_bytes challenge_2a
        (extend_bytes challenge_1b (response Constants.authentication1_response_code idm))))
to_payload (authentication2 encrypted_payload) = do
  ensure (length encrypted_payload == 32)
      (protocol "authentication2 response encrypted payload must contain 32 bytes")
  ok (finish (extend_bytes encrypted_payload (new Constants.authentication2_response_code)))
to_payload (request_code_list idm status_flag1 status_flag2 result) =
    success_payload Constants.request_code_list_response_code idm "request code list" "result"
      status_flag1 status_flag2 result write_code_list
to_payload (request_block_information_ex idm status_flag1 status_flag2 result) =
    success_payload Constants.request_block_information_ex_response_code idm
      "request block information ex" "result" status_flag1 status_flag2 result
      write_block_information_ex
to_payload (set_parameter idm status_flag1 status_flag2) =
    ok (status_only Constants.set_parameter_response_code idm status_flag1 status_flag2)
to_payload (get_container_issue_information idm container_information) = ok (
    finish (
      extend_bytes container_information.mobile_phone_model_information (
        extend_bytes container_information.format_version_carrier_information
          (response Constants.get_container_issue_information_response_code idm))))
to_payload (get_area_information idm status_flag1 status_flag2 result) =
    success_payload Constants.get_area_information_response_code idm "get area information" "result"
      status_flag1 status_flag2 result write_area_information
to_payload (get_node_property idm status_flag1 status_flag2 result) =
    success_payload Constants.get_node_property_response_code idm "get node property" "result"
      status_flag1 status_flag2 result write_node_properties
to_payload (get_container_property property_data) = do
  ensure (not (length property_data == 0))
      (protocol "get container property response data must contain at least one byte")
  ok (finish (extend_bytes property_data (new Constants.get_container_property_response_code)))
to_payload (request_service_v2 idm status_flag1 status_flag2 result) =
    success_payload Constants.request_service_v2_response_code idm "request service v2" "result"
      status_flag1 status_flag2 result write_service_v2_key_versions
to_payload (get_system_status idm status_flag1 status_flag2 result) = finished (
    write_counted_bytes "get system status response data length" result.status_data (
      push_u8 result.flag (
        status_flags status_flag1 status_flag2
          (response Constants.get_system_status_response_code idm))))
to_payload (request_product_information idm status_flag1 status_flag2 result) =
    success_payload Constants.request_product_information_response_code idm
      "request product information" "result" status_flag1 status_flag2 result
      (write_counted_bytes "request product information response data length")
to_payload (request_specification_version idm status_flag1 status_flag2 specification_version) =
    success_payload Constants.request_specification_version_response_code idm
      "request specification version" "payload" status_flag1 status_flag2 specification_version
      write_specification
to_payload (reset_mode idm status_flag1 status_flag2) =
    ok (status_only Constants.reset_mode_response_code idm status_flag1 status_flag2)
to_payload (authentication1_v2 idm challenge_1b challenge_2a challenge_3c) = ok (
    finish (
      extend_bytes challenge_3c (
        extend_bytes challenge_2a
          (extend_bytes challenge_1b (response Constants.authentication1_v2_response_code idm)))))
to_payload (authentication2_v2 encrypted_payload) = do
  ensure (length encrypted_payload == 26)
      (protocol "authentication2 v2 response encrypted payload must contain 26 bytes")
  ok (finish (extend_bytes encrypted_payload (new Constants.authentication2_v2_response_code)))
to_payload (get_container_id container_idm) =
    ok (finish (response Constants.get_container_id_response_code container_idm))
to_payload unknown = err (protocol "cannot encode unknown response")
to_payload secure = to_secure_payload secure

unfoldable pub to_frame : FelicaStandardResponse → Written (List ℕ)
to_frame (read _ _ _) = err (protocol "secure response requires encryption")
to_frame (write _ _) = err (protocol "secure response requires encryption")
to_frame (read_v2 _ _ _) = err (protocol "secure response requires encryption")
to_frame (write_v2 _ _) = err (protocol "secure response requires encryption")
to_frame (register_issue_id _ _ _) = err (protocol "secure response requires encryption")
to_frame (register_area _ _) = err (protocol "secure response requires encryption")
to_frame (register_service _ _ _) = err (protocol "secure response requires encryption")
to_frame (change_system_block _ _) = err (protocol "secure response requires encryption")
to_frame plain = to_payload plain >>= frame_with_length_prefix
