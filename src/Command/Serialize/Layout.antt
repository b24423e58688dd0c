-- ===== src/Command/Serialize/Layout.antt =====
-- The encoder of a valid command writes the table's packet layout.
use felica_rs.Prelude.{
  ℕ, ◌%◌, ◌≤◌, ◌<◌, ◌≡◌, refl, true, false, List, [], ◌∷◌, append_assoc, length, eq→==, arith,
}
use felica_rs.Prelude.Outcome.{ok, ensure}
use felica_rs.Felica.Constants.{
  max_service_codes, max_rw_service_codes, max_block_count, max_node_codes, max_node_property_codes,
}
use felica_rs.Felica.Payload.{
  new, with_capacity, push_u8, push_idm, extend_u16_le, extend_u16_be, finish,
}
use felica_rs.Felica.Payload.Layout.{
  extend_u16_list_le_lem, extend_counted_u16_le_lem, extend_counted_service_codes_lem,
  extend_counted_block_list_lem,
}
use felica_rs.Command.{
  FelicaStandardCommand, secure, polling, request_service, request_response,
  read_without_encryption, write_without_encryption, search_service_code, request_system_code,
  request_block_information, authentication1, authentication2, read, write, read_v2, write_v2,
  request_code_list, request_block_information_ex, set_parameter, get_container_issue_information,
  get_area_information, get_node_property, get_container_property, request_service_v2,
  get_system_status, request_product_information, request_specification_version, reset_mode,
  authentication1_v2, authentication2_v2, get_container_id, register_issue_id, register_area,
  register_service, change_system_block,
}
use felica_rs.Command.Serialize.{encoding, counted_within, framed}
use felica_rs.Command.Wire.{opcode, fields, wire, is_secure, IsValid}

counted_within_lem :
    {A : Type 0} (max : ℕ) (xs : List A)
    → 1 ≤ length xs
    → length xs ≤ max
    → counted_within max xs ≡ true
counted_within_lem max [] p q = absurd (omega arith)
counted_within_lem max (x ∷ xs) p q = ground arith

count_byte : (n : ℕ) → n < 256 → n % 256 ≡ n
count_byte n h = omega arith

-- A command outside a session is framed; the checks of its lists pass.
pub encoding-wire_plain :
    (c : FelicaStandardCommand)
    → IsValid c
    → is_secure c ≡ false
    → encoding c ≡ framed (record { buf = wire c })
unfolding encoding ensure wire fields opcode is_secure new push_u8 push_idm extend_u16_le
    extend_u16_be
encoding-wire_plain (polling system_code request_code time_slots) h s = rw (h.1, h.2)
encoding-wire_plain (request_service idm service_codes) h s = rw (
  counted_within_lem max_service_codes service_codes h.1.0 h.1.1,
  extend_counted_service_codes_lem service_codes _ (omega arith),
)
encoding-wire_plain (request_response idm) h s = refl
encoding-wire_plain (read_without_encryption idm service_codes block_list) h s =
    rw
      (
        counted_within_lem max_rw_service_codes service_codes h.1.0 h.1.1,
        counted_within_lem max_block_count block_list h.2.0 h.2.1,
        extend_counted_service_codes_lem service_codes _ (omega arith),
        extend_counted_block_list_lem block_list _ (omega arith) h.2.2,
      )
      (simp append_assoc)
encoding-wire_plain (write_without_encryption idm service_codes block_list block_data) h s =
    rw
      (
        counted_within_lem max_rw_service_codes service_codes h.1.0 h.1.1,
        counted_within_lem max_block_count block_list h.2.0 h.2.1,
        eq→== _ _ h.3.0,
        extend_counted_service_codes_lem service_codes _ (omega arith),
        extend_counted_block_list_lem block_list _ (omega arith) h.2.2,
      )
      (simp append_assoc)
encoding-wire_plain (search_service_code idm service_index) h s = refl
encoding-wire_plain (request_system_code idm) h s = refl
encoding-wire_plain (request_block_information idm node_codes) h s = rw (
  counted_within_lem max_node_codes node_codes h.1.0 h.1.1,
  extend_counted_u16_le_lem node_codes _ (omega arith),
)
encoding-wire_plain (authentication1 idm areas services challenge_1a) h s =
    rw
      (
        count_byte (length areas) (omega arith),
        count_byte (length services) (omega arith),
        extend_u16_list_le_lem areas,
        extend_u16_list_le_lem services,
      )
      (simp append_assoc)
encoding-wire_plain (authentication2 idm challenge_2b) h s = refl
encoding-wire_plain (read block_list) h s = cc
encoding-wire_plain (write block_list block_data) h s = cc
encoding-wire_plain (read_v2 block_list) h s = cc
encoding-wire_plain (write_v2 block_list block_data) h s = cc
encoding-wire_plain (request_code_list idm parent_node_code index) h s = simp append_assoc
encoding-wire_plain (request_block_information_ex idm node_codes) h s = rw (
  counted_within_lem max_node_codes node_codes h.1.0 h.1.1,
  extend_counted_u16_le_lem node_codes _ (omega arith),
)
encoding-wire_plain (set_parameter idm encryption_type packet_type) h s = simp append_assoc
encoding-wire_plain (get_container_issue_information idm) h s = refl
encoding-wire_plain (get_area_information idm node_code) h s = refl
encoding-wire_plain (get_node_property idm node_property_type node_codes) h s =
    rw
      (
        counted_within_lem max_node_property_codes node_codes h.1.0 h.1.1,
        extend_counted_u16_le_lem node_codes _ (omega arith),
      )
      (simp append_assoc)
encoding-wire_plain (get_container_property property) h s = refl
encoding-wire_plain (request_service_v2 idm service_codes) h s = rw (
  counted_within_lem max_service_codes service_codes h.1.0 h.1.1,
  extend_counted_service_codes_lem service_codes _ (omega arith),
)
encoding-wire_plain (get_system_status idm) h s = refl
encoding-wire_plain (request_product_information idm) h s = refl
encoding-wire_plain (request_specification_version idm) h s = refl
encoding-wire_plain (reset_mode idm) h s = refl
encoding-wire_plain (authentication1_v2 idm operation_parameter nodes challenge_1a) h s =
    rw (count_byte (length nodes) (omega arith), extend_u16_list_le_lem nodes) (simp append_assoc)
encoding-wire_plain (authentication2_v2 idm challenge_2b) h s = refl
encoding-wire_plain get_container_id h s = refl
encoding-wire_plain (register_issue_id issue_id issue_parameter issue_package) h s = cc
encoding-wire_plain (register_area area_code issue_package) h s = cc
encoding-wire_plain (register_service service_code issue_package) h s = cc
encoding-wire_plain change_system_block h s = cc

-- A command of a session is its command code and the bytes behind it.
pub encoding-wire_secure :
    (c : FelicaStandardCommand)
    → IsValid c
    → is_secure c ≡ true
    → encoding c ≡ ok (secure (opcode c) (fields c))
unfolding encoding fields opcode is_secure with_capacity finish extend_u16_le
encoding-wire_secure (polling system_code request_code time_slots) h s = cc
encoding-wire_secure (request_service idm service_codes) h s = cc
encoding-wire_secure (request_response idm) h s = cc
encoding-wire_secure (read_without_encryption idm service_codes block_list) h s = cc
encoding-wire_secure (write_without_encryption idm service_codes block_list block_data) h s = cc
encoding-wire_secure (search_service_code idm service_index) h s = cc
encoding-wire_secure (request_system_code idm) h s = cc
encoding-wire_secure (request_block_information idm node_codes) h s = cc
encoding-wire_secure (authentication1 idm areas services challenge_1a) h s = cc
encoding-wire_secure (authentication2 idm challenge_2b) h s = cc
encoding-wire_secure (read block_list) h s = rw (
  counted_within_lem max_block_count block_list h.0 h.1,
  extend_counted_block_list_lem block_list _ (omega arith) h.2,
)
encoding-wire_secure (write block_list block_data) h s = rw (
  counted_within_lem max_block_count block_list h.0.0 h.0.1,
  eq→== _ _ h.1.0,
  extend_counted_block_list_lem block_list _ (omega arith) h.0.2,
)
encoding-wire_secure (read_v2 block_list) h s = rw (
  counted_within_lem max_block_count block_list h.0 h.1,
  extend_counted_block_list_lem block_list _ (omega arith) h.2,
)
encoding-wire_secure (write_v2 block_list block_data) h s = rw (
  counted_within_lem max_block_count block_list h.0.0 h.0.1,
  eq→== _ _ h.1.0,
  extend_counted_block_list_lem block_list _ (omega arith) h.0.2,
)
encoding-wire_secure (request_code_list idm parent_node_code index) h s = cc
encoding-wire_secure (request_block_information_ex idm node_codes) h s = cc
encoding-wire_secure (set_parameter idm encryption_type packet_type) h s = cc
encoding-wire_secure (get_container_issue_information idm) h s = cc
encoding-wire_secure (get_area_information idm node_code) h s = cc
encoding-wire_secure (get_node_property idm node_property_type node_codes) h s = cc
encoding-wire_secure (get_container_property property) h s = cc
encoding-wire_secure (request_service_v2 idm service_codes) h s = cc
encoding-wire_secure (get_system_status idm) h s = cc
encoding-wire_secure (request_product_information idm) h s = cc
encoding-wire_secure (request_specification_version idm) h s = cc
encoding-wire_secure (reset_mode idm) h s = cc
encoding-wire_secure (authentication1_v2 idm operation_parameter nodes challenge_1a) h s = cc
encoding-wire_secure (authentication2_v2 idm challenge_2b) h s = cc
encoding-wire_secure get_container_id h s = cc
encoding-wire_secure (register_issue_id issue_id issue_parameter issue_package) h s =
    simp append_assoc
encoding-wire_secure (register_area area_code issue_package) h s = refl
encoding-wire_secure (register_service service_code issue_package) h s = refl
encoding-wire_secure change_system_block h s = refl
