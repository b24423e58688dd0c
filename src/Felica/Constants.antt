-- ===== src/Felica/Constants.antt =====
-- src/felica_standard/constants.rs: sizes, limits, command codes and response codes.
use felica_rs.Prelude.{ℕ, List, [], ◌∷◌}

abbrev pub idm_len : ℕ
idm_len = 8

abbrev pub max_service_codes : ℕ
max_service_codes = 0x20

abbrev pub max_rw_service_codes : ℕ
max_rw_service_codes = 0x10

abbrev pub max_block_count : ℕ
max_block_count = 0xff

abbrev pub max_packet_len : ℕ
max_packet_len = 0xff

abbrev pub polling_request_codes : List ℕ
polling_request_codes = 0x00 ∷ 0x01 ∷ 0x02 ∷ []

abbrev pub polling_time_slots : List ℕ
polling_time_slots = 0x00 ∷ 0x01 ∷ 0x03 ∷ 0x07 ∷ 0x0f ∷ []

abbrev pub max_node_codes : ℕ
max_node_codes = 0x20

abbrev pub max_node_property_codes : ℕ
max_node_property_codes = 0x10

abbrev pub block_size : ℕ
block_size = 16

abbrev pub polling_command_code : ℕ
polling_command_code = 0x00

abbrev pub request_service_command_code : ℕ
request_service_command_code = 0x02

abbrev pub request_response_command_code : ℕ
request_response_command_code = 0x04

abbrev pub read_without_encryption_command_code : ℕ
read_without_encryption_command_code = 0x06

abbrev pub write_without_encryption_command_code : ℕ
write_without_encryption_command_code = 0x08

abbrev pub search_service_code_command_code : ℕ
search_service_code_command_code = 0x0a

abbrev pub request_system_code_command_code : ℕ
request_system_code_command_code = 0x0c

abbrev pub request_block_information_command_code : ℕ
request_block_information_command_code = 0x0e

abbrev pub authentication1_command_code : ℕ
authentication1_command_code = 0x10

abbrev pub authentication2_command_code : ℕ
authentication2_command_code = 0x12

abbrev pub request_code_list_command_code : ℕ
request_code_list_command_code = 0x1a

abbrev pub request_block_information_ex_command_code : ℕ
request_block_information_ex_command_code = 0x1e

abbrev pub set_parameter_command_code : ℕ
set_parameter_command_code = 0x20

abbrev pub get_container_issue_information_command_code : ℕ
get_container_issue_information_command_code = 0x22

abbrev pub get_area_information_command_code : ℕ
get_area_information_command_code = 0x24

abbrev pub get_node_property_command_code : ℕ
get_node_property_command_code = 0x28

abbrev pub get_container_property_command_code : ℕ
get_container_property_command_code = 0x2e

abbrev pub request_service_v2_command_code : ℕ
request_service_v2_command_code = 0x32

abbrev pub get_system_status_command_code : ℕ
get_system_status_command_code = 0x38

abbrev pub request_product_information_command_code : ℕ
request_product_information_command_code = 0x3a

abbrev pub request_specification_version_command_code : ℕ
request_specification_version_command_code = 0x3c

abbrev pub reset_mode_command_code : ℕ
reset_mode_command_code = 0x3e

abbrev pub authentication1_v2_command_code : ℕ
authentication1_v2_command_code = 0x40

abbrev pub authentication2_v2_command_code : ℕ
authentication2_v2_command_code = 0x42

abbrev pub read_v2_command_code : ℕ
read_v2_command_code = 0x44

abbrev pub write_v2_command_code : ℕ
write_v2_command_code = 0x46

abbrev pub get_container_id_command_code : ℕ
get_container_id_command_code = 0x70

abbrev pub read_command_code : ℕ
read_command_code = 0x14

abbrev pub write_command_code : ℕ
write_command_code = 0x16

abbrev pub register_issue_id_command_code : ℕ
register_issue_id_command_code = 0x80

abbrev pub register_area_command_code : ℕ
register_area_command_code = 0x82

abbrev pub register_service_command_code : ℕ
register_service_command_code = 0x84

abbrev pub change_system_block_command_code : ℕ
change_system_block_command_code = 0x8e

abbrev pub polling_response_code : ℕ
polling_response_code = 0x01

abbrev pub request_service_response_code : ℕ
request_service_response_code = 0x03

abbrev pub request_response_response_code : ℕ
request_response_response_code = 0x05

abbrev pub read_without_encryption_response_code : ℕ
read_without_encryption_response_code = 0x07

abbrev pub write_without_encryption_response_code : ℕ
write_without_encryption_response_code = 0x09

abbrev pub search_service_code_response_code : ℕ
search_service_code_response_code = 0x0b

abbrev pub request_system_code_response_code : ℕ
request_system_code_response_code = 0x0d

abbrev pub request_block_information_response_code : ℕ
request_block_information_response_code = 0x0f

abbrev pub authentication1_response_code : ℕ
authentication1_response_code = 0x11

abbrev pub authentication2_response_code : ℕ
authentication2_response_code = 0x13

abbrev pub request_code_list_response_code : ℕ
request_code_list_response_code = 0x1b

abbrev pub request_block_information_ex_response_code : ℕ
request_block_information_ex_response_code = 0x1f

abbrev pub set_parameter_response_code : ℕ
set_parameter_response_code = 0x21

abbrev pub get_container_issue_information_response_code : ℕ
get_container_issue_information_response_code = 0x23

abbrev pub get_area_information_response_code : ℕ
get_area_information_response_code = 0x25

abbrev pub get_node_property_response_code : ℕ
get_node_property_response_code = 0x29

abbrev pub get_container_property_response_code : ℕ
get_container_property_response_code = 0x2f

abbrev pub request_service_v2_response_code : ℕ
request_service_v2_response_code = 0x33

abbrev pub get_system_status_response_code : ℕ
get_system_status_response_code = 0x39

abbrev pub request_product_information_response_code : ℕ
request_product_information_response_code = 0x3b

abbrev pub request_specification_version_response_code : ℕ
request_specification_version_response_code = 0x3d

abbrev pub reset_mode_response_code : ℕ
reset_mode_response_code = 0x3f

abbrev pub authentication1_v2_response_code : ℕ
authentication1_v2_response_code = 0x41

abbrev pub authentication2_v2_response_code : ℕ
authentication2_v2_response_code = 0x43

abbrev pub get_container_id_response_code : ℕ
get_container_id_response_code = 0x71
