-- ===== src/Response/Serialize/Layout.antt =====
-- The serializer of a response in range writes the table's packet layout.
use felica_rs.Prelude.{
  ℕ, ◌≤◌, ◌≡◌, ◌⊎◌, ◌||◌, not, refl, true, false, inl, inr, Option, List, ◌∷◌, ◌++◌, String,
  append_assoc, length, eq→==, arith, ◌==◌,
}
use felica_rs.Prelude.Outcome.{ok, ensure}
use felica_rs.Felica.Constants.{max_service_codes, max_node_codes}
use felica_rs.Felica.Payload.{
  PayloadWriter, new, with_capacity, push_u8, push_idm, response, status_flags, extend_u16_le,
  finish,
}
use felica_rs.Prelude.Bytes.{IsWord}
use felica_rs.Command.Wire.{IsBytes, word}
use felica_rs.Felica.Payload.Layout.{extend_counted_u16_le_lem}
use felica_rs.Response.{
  FelicaStandardResponse, polling, request_service, request_response, read_without_encryption,
  write_without_encryption, search_service_code, request_system_code, request_block_information,
  authentication1, authentication2, request_code_list, request_block_information_ex, set_parameter,
  get_container_issue_information, get_area_information, get_node_property, get_container_property,
  request_service_v2, get_system_status, request_product_information, request_specification_version,
  reset_mode, authentication1_v2, authentication2_v2, get_container_id, read, write, read_v2,
  write_v2, register_issue_id, register_area, register_service, change_system_block, unknown,
}
use felica_rs.Response.Valid.{is_secure, IsValid, Paired, IsBlocks}
use felica_rs.Response.Wire.{code, fields, wire, outcome, blocks_field}
use felica_rs.Response.Write.{
  Written, on_success, write_blocks, finished, status_only, secure_status_only,
}
use felica_rs.Response.Write.Layout.{
  Appends, on_success_lem, count_in_range, write_blocks_lem, write_code_list_lem,
  write_block_information_ex_lem, write_area_information_lem, write_node_properties_lem,
  write_service_v2_key_versions_lem, write_counted_bytes_lem, write_specification_lem,
  write_search_result_lem, extend_counted_u16_be_lem,
}
use felica_rs.Response.Serialize.{
  success_payload, to_payload, to_secure_payload, secure_read_payload, secure_remaining_payload,
}

success_payload_lem :
    {R : Type 0} {P : R → Type 0} {field : R → List ℕ}
    {write_result : R → PayloadWriter → Written PayloadWriter} (opcode : ℕ) (idm : List ℕ)
    (what noun : String) (status_flag1 status_flag2 : ℕ) (result : Option R)
    → Paired P status_flag1 result
    → Appends P field write_result
    → success_payload opcode idm what noun status_flag1 status_flag2 result write_result
      ≡ ok (opcode ∷ (idm ++ outcome status_flag1 status_flag2 field result))
unfolding success_payload finished finish response status_flags push_u8 push_idm with_capacity
success_payload_lem opcode idm what noun status_flag1 status_flag2 result h k =
    rw (on_success_lem what noun status_flag1 result _ h k) (simp append_assoc)

secure_payload_lem :
    {R : Type 0} {P : R → Type 0} {field : R → List ℕ}
    {write_result : R → PayloadWriter → Written PayloadWriter} (what : String)
    (status_flag1 status_flag2 : ℕ) (result : Option R)
    → Paired P status_flag1 result
    → Appends P field write_result
    → finished (
        on_success what "result" status_flag1 result write_result
          (secure_status_only status_flag1 status_flag2))
      ≡ ok (outcome status_flag1 status_flag2 field result)
unfolding finished finish secure_status_only status_flags push_u8 with_capacity
secure_payload_lem what status_flag1 status_flag2 result h k =
    rw (on_success_lem what "result" status_flag1 result _ h k) refl

write_blocks_on :
    {R : Type 0} (what : String) (blocks : R → List (List ℕ))
    → Appends
        (λ r. IsBlocks (blocks r))
        (λ r. blocks_field (blocks r))
        (λ r. write_blocks what (blocks r))
write_blocks_on what blocks r w h = write_blocks_lem what (blocks r) w h

remaining_on :
    {R : Type 0} (remaining_blocks : R → ℕ)
    → Appends
        (λ r. IsWord (remaining_blocks r))
        (λ r. word (remaining_blocks r))
        (λ r w. ok (extend_u16_le (remaining_blocks r) w))
unfolding extend_u16_le
remaining_on remaining_blocks r w h = refl

lengths_of :
    (optional : List ℕ)
    → IsBytes 0 optional ⊎ IsBytes 2 optional
    → ((length optional == 0) || (length optional == 2)) ≡ true
lengths_of optional (inl h) = ground (arith, h.0)
lengths_of optional (inr h) = ground (arith, h.0)

not_empty : (n : ℕ) → 1 ≤ n → not (n == 0) ≡ true
not_empty n h = ground arith

pub to_payload-wire :
    (r : FelicaStandardResponse) → IsValid r → is_secure r ≡ false → to_payload r ≡ ok (wire r)
unfolding to_payload ensure wire fields code is_secure new push_u8 push_idm extend_u16_le finish
    response finished status_only status_flags with_capacity
to_payload-wire (polling idm pmm optional) h s = rw (lengths_of optional h.2) (simp append_assoc)
to_payload-wire (request_service idm key_versions) h s = rw (
  count_in_range "request service key version count" (length key_versions) max_service_codes h.1.0
      h.1.1,
  extend_counted_u16_le_lem key_versions _ (omega (arith, h.1.1)),
)
to_payload-wire (request_response idm mode) h s = simp append_assoc
to_payload-wire (read_without_encryption idm status_flag1 status_flag2 result) h s =
    success_payload_lem _ idm _ _ status_flag1 status_flag2 result h.2
      (write_blocks_on _ (λ r. r.blocks))
to_payload-wire (write_without_encryption idm status_flag1 status_flag2) h s = simp append_assoc
to_payload-wire (search_service_code idm result) h s = rw (write_search_result_lem result)
to_payload-wire (request_system_code idm system_codes) h s =
    rw (not_empty (length system_codes) h.1.0, extend_counted_u16_be_lem system_codes _ h.1.1)
to_payload-wire (request_block_information idm block_counts) h s = rw (
  count_in_range "request block information count" (length block_counts) max_node_codes h.1.0 h.1.1,
  extend_counted_u16_le_lem block_counts _ (omega (arith, h.1.1)),
)
to_payload-wire (authentication1 idm challenge_1b challenge_2a) h s = simp append_assoc
to_payload-wire (authentication2 encrypted_payload) h s = rw (eq→== _ _ h.0)
to_payload-wire (request_code_list idm status_flag1 status_flag2 result) h s =
    success_payload_lem _ idm _ _ status_flag1 status_flag2 result h.2 write_code_list_lem
to_payload-wire (request_block_information_ex idm status_flag1 status_flag2 result) h s =
    success_payload_lem _ idm _ _ status_flag1 status_flag2 result h.2
      write_block_information_ex_lem
to_payload-wire (set_parameter idm status_flag1 status_flag2) h s = simp append_assoc
to_payload-wire (get_container_issue_information idm container_information) h s = simp append_assoc
to_payload-wire (get_area_information idm status_flag1 status_flag2 result) h s =
    success_payload_lem _ idm _ _ status_flag1 status_flag2 result h.2 write_area_information_lem
to_payload-wire (get_node_property idm status_flag1 status_flag2 result) h s =
    success_payload_lem _ idm _ _ status_flag1 status_flag2 result h.2 write_node_properties_lem
to_payload-wire (get_container_property property_data) h s =
    rw (not_empty (length property_data) h.0)
to_payload-wire (request_service_v2 idm status_flag1 status_flag2 result) h s =
    success_payload_lem _ idm _ _ status_flag1 status_flag2 result h.2
      write_service_v2_key_versions_lem
to_payload-wire (get_system_status idm status_flag1 status_flag2 result) h s =
    rw (write_counted_bytes_lem _ result.status_data _ h.2.1) (simp append_assoc)
to_payload-wire (request_product_information idm status_flag1 status_flag2 result) h s =
    success_payload_lem _ idm _ _ status_flag1 status_flag2 result h.2 (write_counted_bytes_lem _)
to_payload-wire (request_specification_version idm status_flag1 status_flag2 specification_version)
      h s =
    success_payload_lem _ idm _ _ status_flag1 status_flag2 specification_version h.2
      write_specification_lem
to_payload-wire (reset_mode idm status_flag1 status_flag2) h s = simp append_assoc
to_payload-wire (authentication1_v2 idm challenge_1b challenge_2a challenge_3c) h s =
    simp append_assoc
to_payload-wire (authentication2_v2 encrypted_payload) h s = rw (eq→== _ _ h.0)
to_payload-wire (get_container_id container_idm) h s = simp append_assoc
to_payload-wire (read status_flag1 status_flag2 result) h s = cc
to_payload-wire (write status_flag1 status_flag2) h s = cc
to_payload-wire (read_v2 status_flag1 status_flag2 result) h s = cc
to_payload-wire (write_v2 status_flag1 status_flag2) h s = cc
to_payload-wire (register_issue_id status_flag1 status_flag2 result) h s = cc
to_payload-wire (register_area status_flag1 status_flag2) h s = cc
to_payload-wire (register_service status_flag1 status_flag2 result) h s = cc
to_payload-wire (change_system_block status_flag1 status_flag2) h s = cc
to_payload-wire unknown h s = absurd h

pub to_secure_payload-fields :
    (r : FelicaStandardResponse)
    → IsValid r
    → is_secure r ≡ true
    → to_secure_payload r ≡ ok (fields r)
unfolding to_secure_payload secure_read_payload secure_remaining_payload fields is_secure
to_secure_payload-fields (polling idm pmm optional) h s = cc
to_secure_payload-fields (request_service idm key_versions) h s = cc
to_secure_payload-fields (request_response idm mode) h s = cc
to_secure_payload-fields (read_without_encryption idm status_flag1 status_flag2 result) h s = cc
to_secure_payload-fields (write_without_encryption idm status_flag1 status_flag2) h s = cc
to_secure_payload-fields (search_service_code idm result) h s = cc
to_secure_payload-fields (request_system_code idm system_codes) h s = cc
to_secure_payload-fields (request_block_information idm block_counts) h s = cc
to_secure_payload-fields (authentication1 idm challenge_1b challenge_2a) h s = cc
to_secure_payload-fields (authentication2 encrypted_payload) h s = cc
to_secure_payload-fields (request_code_list idm status_flag1 status_flag2 result) h s = cc
to_secure_payload-fields (request_block_information_ex idm status_flag1 status_flag2 result) h s =
    cc
to_secure_payload-fields (set_parameter idm status_flag1 status_flag2) h s = cc
to_secure_payload-fields (get_container_issue_information idm container_information) h s = cc
to_secure_payload-fields (get_area_information idm status_flag1 status_flag2 result) h s = cc
to_secure_payload-fields (get_node_property idm status_flag1 status_flag2 result) h s = cc
to_secure_payload-fields (get_container_property property_data) h s = cc
to_secure_payload-fields (request_service_v2 idm status_flag1 status_flag2 result) h s = cc
to_secure_payload-fields (get_system_status idm status_flag1 status_flag2 result) h s = cc
to_secure_payload-fields (request_product_information idm status_flag1 status_flag2 result) h s = cc
to_secure_payload-fields
      (request_specification_version idm status_flag1 status_flag2 specification_version) h s =
    cc
to_secure_payload-fields (reset_mode idm status_flag1 status_flag2) h s = cc
to_secure_payload-fields (authentication1_v2 idm challenge_1b challenge_2a challenge_3c) h s = cc
to_secure_payload-fields (authentication2_v2 encrypted_payload) h s = cc
to_secure_payload-fields (get_container_id container_idm) h s = cc
to_secure_payload-fields (read status_flag1 status_flag2 result) h s =
    secure_payload_lem _ status_flag1 status_flag2 result h.1 (write_blocks_on _ (λ r. r.blocks))
to_secure_payload-fields (write status_flag1 status_flag2) h s = refl
to_secure_payload-fields (read_v2 status_flag1 status_flag2 result) h s =
    secure_payload_lem _ status_flag1 status_flag2 result h.1 (write_blocks_on _ (λ r. r.blocks))
to_secure_payload-fields (write_v2 status_flag1 status_flag2) h s = refl
to_secure_payload-fields (register_issue_id status_flag1 status_flag2 result) h s =
    secure_payload_lem _ status_flag1 status_flag2 result h.1
      (remaining_on (λ r. r.remaining_blocks))
to_secure_payload-fields (register_area status_flag1 status_flag2) h s = refl
to_secure_payload-fields (register_service status_flag1 status_flag2 result) h s =
    secure_payload_lem _ status_flag1 status_flag2 result h.1
      (remaining_on (λ r. r.remaining_blocks))
to_secure_payload-fields (change_system_block status_flag1 status_flag2) h s = refl
to_secure_payload-fields unknown h s = cc
