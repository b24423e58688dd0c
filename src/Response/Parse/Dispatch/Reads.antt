-- ===== src/Response/Parse/Dispatch/Reads.antt =====
-- The parser reads back the frame of every response in range that is sent outside a session.
use felica_rs.Prelude.{
  ℕ, ◌+◌, ◌≡◌, refl, false, List, [], ◌∷◌, ◌++◌, length, length-append, arith, eq→==, le→ltb_false,
  ◌==◌, ne→==_false,
}
use felica_rs.Prelude.Slices.{slice_from, slice_from-append}
use felica_rs.Prelude.Outcome.{ok, ensure, ◌>>=◌}
use felica_rs.Felica.Constants
use felica_rs.Response.{
  FelicaStandardResponse, polling, request_service, request_response, read_without_encryption,
  write_without_encryption, search_service_code, request_system_code, request_block_information,
  authentication1, authentication2, request_code_list, request_block_information_ex, set_parameter,
  get_container_issue_information, get_area_information, get_node_property, get_container_property,
  request_service_v2, get_system_status, request_product_information, request_specification_version,
  reset_mode, authentication1_v2, authentication2_v2, get_container_id, read, write, read_v2,
  write_v2, register_issue_id, register_area, register_service, change_system_block, unknown,
}
use felica_rs.Response.Valid.{IsValid, is_secure}
use felica_rs.Response.Wire.{
  code, fields, wire, blocks_field, code_list_field, information_ex_field, area_field,
  properties_field, versions_field, counted_bytes, specification_field,
}
use felica_rs.Response.Parse.Fields.{parse_fixed}
use felica_rs.Response.Parse.Fields.Reads.{at_length, parse_fixed_reads, parse_outcome_reads}
use felica_rs.Response.Parse.Queries.{
  parse_authentication2, parse_authentication2_v2, parse_write_without_encryption,
  parse_set_parameter, parse_reset_mode, parse_get_container_property, parse_get_container_id,
  parse_get_area_information, area_information,
}
use felica_rs.Response.Parse.Lists.{
  parse_read_without_encryption, parse_request_code_list, parse_request_block_information_ex,
  read_blocks, block_information_ex, code_list,
}
use felica_rs.Response.Parse.Settings.{
  parse_get_node_property, parse_request_service_v2, parse_request_product_information,
  parse_request_specification_version, node_properties_of, key_versions_of, product_information_of,
  parse_specification_version_data,
}
use felica_rs.Response.Parse.Queries.Reads.{
  parse_status_only_reads, parse_request_response_reads, area_information_reads,
  parse_polling_reads, parse_search_service_code_reads, parse_authentication1_reads,
  parse_get_container_issue_information_reads, parse_authentication1_v2_reads,
}
use felica_rs.Response.Parse.Lists.Reads.{
  read_blocks_reads, block_information_ex_reads, code_list_reads, parse_request_service_reads,
  parse_request_block_information_reads, parse_request_system_code_reads,
}
use felica_rs.Response.Parse.Settings.Reads.{
  node_properties_of_reads, key_versions_of_reads, parse_get_system_status_reads,
  product_information_of_reads, parse_specification_version_data_reads,
}
use felica_rs.Response.Parse.Dispatch.{parse_addressed, from_bytes}

-- A frame with an IDm, under a code that is none of the three without one.
from_bytes_addressed :
    (opcode : ℕ) (idm body : List ℕ) (r : FelicaStandardResponse)
    → length idm ≡ 8
    → (opcode == Constants.authentication2_response_code) ≡ false
    → (opcode == Constants.get_container_property_response_code) ≡ false
    → (opcode == Constants.authentication2_v2_response_code) ≡ false
    → ((n : ℕ) → parse_addressed opcode idm (n ∷ opcode ∷ (idm ++ body)) ≡ ok r)
    → from_bytes ((length (opcode ∷ (idm ++ body)) + 1) ∷ opcode ∷ (idm ++ body)) ≡ ok r
unfolding from_bytes ensure
from_bytes_addressed opcode idm body r h a b c k =
    let n : ℕ = length (opcode ∷ (idm ++ body)) + 1 in
    let bytes = n ∷ opcode ∷ (idm ++ body) in
    rw (
      le→ltb_false (length bytes) 2 (omega arith),
      eq→== n (length bytes) (omega arith),
      a,
      b,
      c,
      le→ltb_false (length bytes) 10 (omega (arith, length-append idm body, h)),
      slice_from-append 2 (n ∷ opcode ∷ []) (idm ++ body) refl,
      parse_fixed_reads 8 idm body "IDm" h,
      k n,
    )

-- The frame of every response in range outside a session parses to the same response.
pub from_bytes-wire :
    (r : FelicaStandardResponse)
    → IsValid r
    → is_secure r ≡ false
    → from_bytes ((length (wire r) + 1) ∷ wire r) ≡ ok r
unfolding wire code fields is_secure from_bytes ensure parse_fixed parse_addressed
    parse_write_without_encryption parse_set_parameter parse_reset_mode parse_get_container_id
    parse_authentication2 parse_authentication2_v2 parse_get_container_property
    parse_read_without_encryption parse_request_code_list parse_request_block_information_ex
    parse_get_area_information parse_get_node_property parse_request_service_v2
    parse_request_product_information parse_request_specification_version
from_bytes-wire (polling idm pmm optional) h s =
    from_bytes_addressed Constants.polling_response_code idm _ _ h.0.0 refl refl refl λ n.
      parse_polling_reads idm (n ∷ Constants.polling_response_code ∷ idm) pmm optional
        (omega (arith, h.0.0)) h.1.0 h.2
from_bytes-wire (request_service idm key_versions) h s =
    from_bytes_addressed Constants.request_service_response_code idm _ _ h.0.0 refl refl refl λ n.
      parse_request_service_reads idm (n ∷ Constants.request_service_response_code ∷ idm)
        key_versions (omega (arith, h.0.0)) h.1.0 h.1.1
from_bytes-wire (request_response idm mode) h s =
    from_bytes_addressed Constants.request_response_response_code idm _ _ h.0.0 refl refl refl λ n.
      parse_request_response_reads idm (n ∷ Constants.request_response_response_code ∷ idm) mode
        (omega (arith, h.0.0))
from_bytes-wire (read_without_encryption idm status_flag1 status_flag2 result) h s =
    from_bytes_addressed Constants.read_without_encryption_response_code idm _ _ h.0.0 refl refl
      refl
      λ n.
        parse_outcome_reads (λ r. blocks_field r.blocks) read_blocks (read_without_encryption idm) _
          _ status_flag1 status_flag2 result
          (n ∷ Constants.read_without_encryption_response_code ∷ idm) (omega (arith, h.0.0)) h.2
          read_blocks_reads
from_bytes-wire (write_without_encryption idm status_flag1 status_flag2) h s =
    from_bytes_addressed Constants.write_without_encryption_response_code idm _ _ h.0.0 refl refl
      refl
      λ n.
        parse_status_only_reads (write_without_encryption idm) _ _
          (n ∷ Constants.write_without_encryption_response_code ∷ idm) status_flag1 status_flag2
          (omega (arith, h.0.0))
from_bytes-wire (search_service_code idm result) h s =
    from_bytes_addressed Constants.search_service_code_response_code idm _ _ h.0.0 refl refl refl
      λ n.
        parse_search_service_code_reads idm (n ∷ Constants.search_service_code_response_code ∷ idm)
          result (omega (arith, h.0.0)) h.1
from_bytes-wire (request_system_code idm system_codes) h s =
    from_bytes_addressed Constants.request_system_code_response_code idm _ _ h.0.0 refl refl refl
      λ n.
        parse_request_system_code_reads idm (n ∷ Constants.request_system_code_response_code ∷ idm)
          system_codes (omega (arith, h.0.0)) h.1.0
from_bytes-wire (request_block_information idm block_counts) h s =
    from_bytes_addressed Constants.request_block_information_response_code idm _ _ h.0.0 refl refl
      refl
      λ n.
        parse_request_block_information_reads idm
          (n ∷ Constants.request_block_information_response_code ∷ idm) block_counts
          (omega (arith, h.0.0)) h.1.0
from_bytes-wire (authentication1 idm challenge_1b challenge_2a) h s =
    from_bytes_addressed Constants.authentication1_response_code idm _ _ h.0.0 refl refl refl λ n.
      parse_authentication1_reads idm (n ∷ Constants.authentication1_response_code ∷ idm)
        challenge_1b challenge_2a (omega (arith, h.0.0)) h.1.0 h.2.0
from_bytes-wire (authentication2 encrypted_payload) h s =
    let opcode = Constants.authentication2_response_code in
    let n : ℕ = length (opcode ∷ encrypted_payload) + 1 in
    let bytes = n ∷ opcode ∷ encrypted_payload in
    rw (
      le→ltb_false (length bytes) 2 (omega arith),
      eq→== n (length bytes) (omega arith),
      eq→== (length bytes) 34 (omega (arith, h.0)),
      slice_from-append 2 (n ∷ opcode ∷ []) encrypted_payload refl,
    )
from_bytes-wire (request_code_list idm status_flag1 status_flag2 result) h s =
    from_bytes_addressed Constants.request_code_list_response_code idm _ _ h.0.0 refl refl refl λ n.
      parse_outcome_reads code_list_field code_list (request_code_list idm) _ _ status_flag1
        status_flag2 result (n ∷ Constants.request_code_list_response_code ∷ idm)
        (omega (arith, h.0.0)) h.2 code_list_reads
from_bytes-wire (request_block_information_ex idm status_flag1 status_flag2 result) h s =
    from_bytes_addressed Constants.request_block_information_ex_response_code idm _ _ h.0.0 refl
      refl refl
      λ n.
        parse_outcome_reads information_ex_field block_information_ex
          (request_block_information_ex idm) _ _ status_flag1 status_flag2 result
          (n ∷ Constants.request_block_information_ex_response_code ∷ idm) (omega (arith, h.0.0))
          h.2 block_information_ex_reads
from_bytes-wire (set_parameter idm status_flag1 status_flag2) h s =
    from_bytes_addressed Constants.set_parameter_response_code idm _ _ h.0.0 refl refl refl λ n.
      parse_status_only_reads (set_parameter idm) _ _
        (n ∷ Constants.set_parameter_response_code ∷ idm) status_flag1 status_flag2
        (omega (arith, h.0.0))
from_bytes-wire (get_container_issue_information idm container_information) h s =
    from_bytes_addressed Constants.get_container_issue_information_response_code idm _ _ h.0.0 refl
      refl refl
      λ n.
        parse_get_container_issue_information_reads idm
          (n ∷ Constants.get_container_issue_information_response_code ∷ idm) container_information
          (omega (arith, h.0.0)) h.1.0 h.2.0
from_bytes-wire (get_area_information idm status_flag1 status_flag2 result) h s =
    from_bytes_addressed Constants.get_area_information_response_code idm _ _ h.0.0 refl refl refl
      λ n.
        parse_outcome_reads area_field area_information (get_area_information idm) _ _ status_flag1
          status_flag2 result (n ∷ Constants.get_area_information_response_code ∷ idm)
          (omega (arith, h.0.0)) h.2 area_information_reads
from_bytes-wire (get_node_property idm status_flag1 status_flag2 result) h s =
    from_bytes_addressed Constants.get_node_property_response_code idm _ _ h.0.0 refl refl refl λ n.
      parse_outcome_reads properties_field node_properties_of (get_node_property idm) _ _
        status_flag1 status_flag2 result (n ∷ Constants.get_node_property_response_code ∷ idm)
        (omega (arith, h.0.0)) h.2 node_properties_of_reads
from_bytes-wire (get_container_property property_data) h s =
    let opcode = Constants.get_container_property_response_code in
    let n : ℕ = length (opcode ∷ property_data) + 1 in
    let bytes = n ∷ opcode ∷ property_data in
    rw (
      le→ltb_false (length bytes) 2 (omega arith),
      eq→== n (length bytes) (omega arith),
      le→ltb_false (length bytes) 3 (omega (arith, h.0)),
      slice_from-append 2 (n ∷ opcode ∷ []) property_data refl,
      ne→==_false (length property_data) 0 (λ e. absurd (omega (arith, e, h.0))),
    )
from_bytes-wire (request_service_v2 idm status_flag1 status_flag2 result) h s =
    from_bytes_addressed Constants.request_service_v2_response_code idm _ _ h.0.0 refl refl refl
      λ n.
        parse_outcome_reads versions_field key_versions_of (request_service_v2 idm) _ _ status_flag1
          status_flag2 result (n ∷ Constants.request_service_v2_response_code ∷ idm)
          (omega (arith, h.0.0)) h.2 key_versions_of_reads
from_bytes-wire (get_system_status idm status_flag1 status_flag2 result) h s =
    from_bytes_addressed Constants.get_system_status_response_code idm _ _ h.0.0 refl refl refl λ n.
      parse_get_system_status_reads idm (n ∷ Constants.get_system_status_response_code ∷ idm)
        status_flag1 status_flag2 result (omega (arith, h.0.0))
from_bytes-wire (request_product_information idm status_flag1 status_flag2 result) h s =
    from_bytes_addressed Constants.request_product_information_response_code idm _ _ h.0.0 refl refl
      refl
      λ n.
        parse_outcome_reads counted_bytes product_information_of (request_product_information idm) _
          _ status_flag1 status_flag2 result
          (n ∷ Constants.request_product_information_response_code ∷ idm) (omega (arith, h.0.0)) h.2
          product_information_of_reads
from_bytes-wire (request_specification_version idm status_flag1 status_flag2 specification_version)
      h s =
    from_bytes_addressed Constants.request_specification_version_response_code idm _ _ h.0.0 refl
      refl refl
      λ n.
        parse_outcome_reads specification_field
          (λ bytes. slice_from 12 bytes >>= parse_specification_version_data)
          (request_specification_version idm) _ _ status_flag1 status_flag2 specification_version
          (n ∷ Constants.request_specification_version_response_code ∷ idm) (omega (arith, h.0.0))
          h.2 parse_specification_version_data_reads
from_bytes-wire (reset_mode idm status_flag1 status_flag2) h s =
    from_bytes_addressed Constants.reset_mode_response_code idm _ _ h.0.0 refl refl refl λ n.
      parse_status_only_reads (reset_mode idm) _ _ (n ∷ Constants.reset_mode_response_code ∷ idm)
        status_flag1 status_flag2 (omega (arith, h.0.0))
from_bytes-wire (authentication1_v2 idm challenge_1b challenge_2a challenge_3c) h s =
    from_bytes_addressed Constants.authentication1_v2_response_code idm _ _ h.0.0 refl refl refl
      λ n.
        parse_authentication1_v2_reads idm (n ∷ Constants.authentication1_v2_response_code ∷ idm)
          challenge_1b challenge_2a challenge_3c (omega (arith, h.0.0)) h.1.0 h.2.0 h.3.0
from_bytes-wire (authentication2_v2 encrypted_payload) h s =
    let opcode = Constants.authentication2_v2_response_code in
    let n : ℕ = length (opcode ∷ encrypted_payload) + 1 in
    let bytes = n ∷ opcode ∷ encrypted_payload in
    rw (
      le→ltb_false (length bytes) 2 (omega arith),
      eq→== n (length bytes) (omega arith),
      eq→== (length bytes) 28 (omega (arith, h.0)),
      slice_from-append 2 (n ∷ opcode ∷ []) encrypted_payload refl,
    )
from_bytes-wire (get_container_id container_idm) h s =
    at_length 8
      (λ idm.
        from_bytes ((length (wire (get_container_id idm)) + 1) ∷ wire (get_container_id idm))
        ≡ ok (get_container_id idm))
      (λ a0 a1 a2 a3 a4 a5 a6 a7. refl) container_idm h.0
from_bytes-wire (read status_flag1 status_flag2 result) h s = cc
from_bytes-wire (write status_flag1 status_flag2) h s = cc
from_bytes-wire (read_v2 status_flag1 status_flag2 result) h s = cc
from_bytes-wire (write_v2 status_flag1 status_flag2) h s = cc
from_bytes-wire (register_issue_id status_flag1 status_flag2 result) h s = cc
from_bytes-wire (register_area status_flag1 status_flag2) h s = cc
from_bytes-wire (register_service status_flag1 status_flag2 result) h s = cc
from_bytes-wire (change_system_block status_flag1 status_flag2) h s = cc
from_bytes-wire unknown h s = absurd h
