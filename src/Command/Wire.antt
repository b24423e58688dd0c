-- ===== src/Command/Wire.antt =====
-- The packet layouts of the commands as one table, and the ranges that the protocol sets.
-- This is the independent description that the encoder and the parser are held to.
use felica_rs.Prelude.{
  ℕ, ◌*◌, ◌/◌, ◌%◌, ◌≤◌, ◌≡◌, Bool, true, false, List, [], ◌∷◌, ◌++◌, length, All, contains,
}
use felica_rs.Prelude.Bytes.{IsByte, IsWord}
use felica_rs.Felica.Constants
use felica_rs.Felica.Constants.{
  max_service_codes, max_rw_service_codes, max_block_count, max_node_codes, max_node_property_codes,
  block_size, polling_request_codes, polling_time_slots,
}
use felica_rs.Felica.Types.Service.{ServiceCode}
use felica_rs.Felica.Types.Block.{IsElement}
use felica_rs.Felica.Types.Selectors.{
  IsCanonical, to_index, node_property_byte, encryption_byte, packet_byte,
}
use felica_rs.Felica.Payload.Layout.{counted_words, counted_codes, counted_blocks}
use felica_rs.Command.{
  FelicaStandardCommand, polling, request_service, request_response, read_without_encryption,
  write_without_encryption, search_service_code, request_system_code, request_block_information,
  authentication1, authentication2, read, write, read_v2, write_v2, request_code_list,
  request_block_information_ex, set_parameter, get_container_issue_information,
  get_area_information, get_node_property, get_container_property, request_service_v2,
  get_system_status, request_product_information, request_specification_version, reset_mode,
  authentication1_v2, authentication2_v2, get_container_id, register_issue_id, register_area,
  register_service, change_system_block,
}

abbrev pub word : ℕ → List ℕ
word v = (v % 256) ∷ (v / 256) ∷ []

-- The command code.
unfoldable pub opcode : FelicaStandardCommand → ℕ
opcode (polling _ _ _) = Constants.polling_command_code
opcode (request_service _ _) = Constants.request_service_command_code
opcode (request_response _) = Constants.request_response_command_code
opcode (read_without_encryption _ _ _) = Constants.read_without_encryption_command_code
opcode (write_without_encryption _ _ _ _) = Constants.write_without_encryption_command_code
opcode (search_service_code _ _) = Constants.search_service_code_command_code
opcode (request_system_code _) = Constants.request_system_code_command_code
opcode (request_block_information _ _) = Constants.request_block_information_command_code
opcode (authentication1 _ _ _ _) = Constants.authentication1_command_code
opcode (authentication2 _ _) = Constants.authentication2_command_code
opcode (read _) = Constants.read_command_code
opcode (write _ _) = Constants.write_command_code
opcode (read_v2 _) = Constants.read_v2_command_code
opcode (write_v2 _ _) = Constants.write_v2_command_code
opcode (request_code_list _ _ _) = Constants.request_code_list_command_code
opcode (request_block_information_ex _ _) = Constants.request_block_information_ex_command_code
opcode (set_parameter _ _ _) = Constants.set_parameter_command_code
opcode (get_container_issue_information _) = Constants.get_container_issue_information_command_code
opcode (get_area_information _ _) = Constants.get_area_information_command_code
opcode (get_node_property _ _ _) = Constants.get_node_property_command_code
opcode (get_container_property _) = Constants.get_container_property_command_code
opcode (request_service_v2 _ _) = Constants.request_service_v2_command_code
opcode (get_system_status _) = Constants.get_system_status_command_code
opcode (request_product_information _) = Constants.request_product_information_command_code
opcode (request_specification_version _) = Constants.request_specification_version_command_code
opcode (reset_mode _) = Constants.reset_mode_command_code
opcode (authentication1_v2 _ _ _ _) = Constants.authentication1_v2_command_code
opcode (authentication2_v2 _ _) = Constants.authentication2_v2_command_code
opcode get_container_id = Constants.get_container_id_command_code
opcode (register_issue_id _ _ _) = Constants.register_issue_id_command_code
opcode (register_area _ _) = Constants.register_area_command_code
opcode (register_service _ _) = Constants.register_service_command_code
opcode change_system_block = Constants.change_system_block_command_code

-- What stands behind the command code.
unfoldable pub fields : FelicaStandardCommand → List ℕ
fields (polling system_code request_code time_slots) =
    (system_code / 256) ∷ (system_code % 256) ∷ request_code ∷ time_slots ∷ []
fields (request_service idm service_codes) = idm ++ counted_codes service_codes
fields (request_response idm) = idm
fields (read_without_encryption idm service_codes block_list) =
    idm ++ (counted_codes service_codes ++ counted_blocks block_list)
fields (write_without_encryption idm service_codes block_list block_data) =
    idm ++ (counted_codes service_codes ++ (counted_blocks block_list ++ block_data))
fields (search_service_code idm service_index) = idm ++ word service_index
fields (request_system_code idm) = idm
fields (request_block_information idm node_codes) = idm ++ counted_words node_codes
fields (authentication1 idm areas services challenge_1a) =
    idm ++ (counted_words areas ++ (counted_words services ++ challenge_1a))
fields (authentication2 idm challenge_2b) = idm ++ challenge_2b
fields (read block_list) = counted_blocks block_list
fields (write block_list block_data) = counted_blocks block_list ++ block_data
fields (read_v2 block_list) = counted_blocks block_list
fields (write_v2 block_list block_data) = counted_blocks block_list ++ block_data
fields (request_code_list idm parent_node_code index) = idm ++ (word parent_node_code ++ word index)
fields (request_block_information_ex idm node_codes) = idm ++ counted_words node_codes
fields (set_parameter idm encryption_type packet_type) =
    idm ++ (0 ∷ 0 ∷ 0 ∷ 0 ∷ encryption_byte encryption_type ∷ packet_byte packet_type ∷ 0 ∷ 0 ∷ [])
fields (get_container_issue_information idm) = idm ++ (0 ∷ 0 ∷ [])
fields (get_area_information idm node_code) = idm ++ word node_code
fields (get_node_property idm node_property_type node_codes) =
    idm ++ (node_property_byte node_property_type ∷ counted_words node_codes)
fields (get_container_property property) = word (to_index property)
fields (request_service_v2 idm service_codes) = idm ++ counted_codes service_codes
fields (get_system_status idm) = idm ++ (0 ∷ 0 ∷ [])
fields (request_product_information idm) = idm
fields (request_specification_version idm) = idm ++ (0 ∷ 0 ∷ [])
fields (reset_mode idm) = idm ++ (0 ∷ 0 ∷ [])
fields (authentication1_v2 idm operation_parameter nodes challenge_1a) =
    idm ++ (operation_parameter ∷ (counted_words nodes ++ challenge_1a))
fields (authentication2_v2 idm challenge_2b) = idm ++ challenge_2b
fields get_container_id = 0 ∷ 0 ∷ []
fields (register_issue_id issue_id issue_parameter issue_package) =
    issue_id ++ (issue_parameter ++ issue_package)
fields (register_area area_code issue_package) = word area_code ++ issue_package
fields (register_service service_code issue_package) = word service_code ++ issue_package
fields change_system_block = []

unfoldable pub wire : FelicaStandardCommand → List ℕ
wire c = opcode c ∷ fields c

-- The commands that travel encrypted inside a session.
unfoldable pub is_secure : FelicaStandardCommand → Bool
is_secure (read _) = true
is_secure (write _ _) = true
is_secure (read_v2 _) = true
is_secure (write_v2 _ _) = true
is_secure (register_issue_id _ _ _) = true
is_secure (register_area _ _) = true
is_secure (register_service _ _) = true
is_secure change_system_block = true
is_secure _ = false

abbrev pub IsBytes : ℕ → List ℕ → Type 0
IsBytes n xs = (length xs ≡ n) × All IsByte xs

abbrev pub IsCode : ServiceCode → Type 0
IsCode c = IsWord c.raw

abbrev pub Counted : {A : Type 0} → (A → Type 0) → ℕ → ℕ → List A → Type 0
Counted P lo hi xs = (lo ≤ length xs) × (length xs ≤ hi) × All P xs

-- The ranges of each command's fields.
abbrev pub IsValid : FelicaStandardCommand → Type 0
IsValid (polling system_code request_code time_slots) =
    IsWord system_code
    × (contains polling_request_codes request_code ≡ true)
    × (contains polling_time_slots time_slots ≡ true)
IsValid (request_service idm service_codes) =
    IsBytes 8 idm × Counted IsCode 1 max_service_codes service_codes
IsValid (request_response idm) = IsBytes 8 idm
IsValid (read_without_encryption idm service_codes block_list) =
    IsBytes 8 idm
    × Counted IsCode 1 max_rw_service_codes service_codes
    × Counted IsElement 1 max_block_count block_list
IsValid (write_without_encryption idm service_codes block_list block_data) =
    IsBytes 8 idm
    × Counted IsCode 1 max_rw_service_codes service_codes
    × Counted IsElement 1 max_block_count block_list
    × IsBytes (length block_list * block_size) block_data
IsValid (search_service_code idm service_index) = IsBytes 8 idm × IsWord service_index
IsValid (request_system_code idm) = IsBytes 8 idm
IsValid (request_block_information idm node_codes) =
    IsBytes 8 idm × Counted IsWord 1 max_node_codes node_codes
IsValid (authentication1 idm areas services challenge_1a) =
    IsBytes 8 idm
    × Counted IsWord 0 max_service_codes areas
    × Counted IsWord 0 max_service_codes services
    × IsBytes 8 challenge_1a
IsValid (authentication2 idm challenge_2b) = IsBytes 8 idm × IsBytes 8 challenge_2b
IsValid (read block_list) = Counted IsElement 1 max_block_count block_list
IsValid (write block_list block_data) =
    Counted IsElement 1 max_block_count block_list
    × IsBytes (length block_list * block_size) block_data
IsValid (read_v2 block_list) = Counted IsElement 1 max_block_count block_list
IsValid (write_v2 block_list block_data) =
    Counted IsElement 1 max_block_count block_list
    × IsBytes (length block_list * block_size) block_data
IsValid (request_code_list idm parent_node_code index) =
    IsBytes 8 idm × IsWord parent_node_code × IsWord index
IsValid (request_block_information_ex idm node_codes) =
    IsBytes 8 idm × Counted IsWord 1 max_node_codes node_codes
IsValid (set_parameter idm _ _) = IsBytes 8 idm
IsValid (get_container_issue_information idm) = IsBytes 8 idm
IsValid (get_area_information idm node_code) = IsBytes 8 idm × IsWord node_code
IsValid (get_node_property idm _ node_codes) =
    IsBytes 8 idm × Counted IsWord 1 max_node_property_codes node_codes
IsValid (get_container_property property) = IsCanonical property
IsValid (request_service_v2 idm service_codes) =
    IsBytes 8 idm × Counted IsCode 1 max_service_codes service_codes
IsValid (get_system_status idm) = IsBytes 8 idm
IsValid (request_product_information idm) = IsBytes 8 idm
IsValid (request_specification_version idm) = IsBytes 8 idm
IsValid (reset_mode idm) = IsBytes 8 idm
IsValid (authentication1_v2 idm operation_parameter nodes challenge_1a) =
    IsBytes 8 idm
    × IsByte operation_parameter
    × Counted IsWord 1 max_service_codes nodes
    × IsBytes 16 challenge_1a
IsValid (authentication2_v2 idm challenge_2b) = IsBytes 8 idm × IsBytes 16 challenge_2b
IsValid get_container_id = Unit
IsValid (register_issue_id issue_id issue_parameter issue_package) =
    IsBytes 8 issue_id × IsBytes 8 issue_parameter × All IsByte issue_package
IsValid (register_area area_code issue_package) = IsWord area_code × All IsByte issue_package
IsValid (register_service service_code issue_package) =
    IsWord service_code × All IsByte issue_package
IsValid change_system_block = Unit

-- What parsing `n` bytes behind a command code may return.
abbrev pub IsParsed : ℕ → FelicaStandardCommand → Type 0
IsParsed n c = IsValid c × (is_secure c ≡ false) × (length (fields c) ≤ n)
