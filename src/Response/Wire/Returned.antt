-- ===== src/Response/Wire/Returned.antt =====
-- What reading a frame of `n` bytes may return.
use felica_rs.Prelude.{ℕ, ◌+◌, ◌≡◌, ◌≤◌, ◌⊎◌, Bool, false, List, [], ◌∷◌, ◌==◌, ◌||◌, length}
use felica_rs.Felica.Constants
use felica_rs.Prelude.Bytes.{IsWord}
use felica_rs.Command.Wire.{IsBytes, Counted}
use felica_rs.Response.{FelicaStandardResponse, request_block_information, unknown}
use felica_rs.Response.Valid.{IsValid, is_secure}
use felica_rs.Response.Wire.{fields}

-- A response in range that is sent outside a session and whose layout takes exactly the bytes of
-- the frame. Block counts are read without the limit of 32 that the serializer sets.
abbrev pub IsReturned : ℕ → FelicaStandardResponse → Type 0
IsReturned n unknown = ⊥
IsReturned n (request_block_information idm block_counts) =
    IsBytes 8 idm
    × Counted IsWord 1 255 block_counts
    × (2 + length (fields (request_block_information idm block_counts)) ≡ n)
IsReturned n r = IsValid r × (is_secure r ≡ false) × (2 + length (fields r) ≡ n)

-- The response codes whose packet carries an IDm, and all that are read.
abbrev pub addressed_codes : List ℕ
addressed_codes =
    Constants.polling_response_code ∷ Constants.request_service_response_code
    ∷ Constants.request_response_response_code ∷ Constants.read_without_encryption_response_code
    ∷ Constants.write_without_encryption_response_code ∷ Constants.search_service_code_response_code
    ∷ Constants.request_system_code_response_code
    ∷ Constants.request_block_information_response_code ∷ Constants.authentication1_response_code
    ∷ Constants.request_code_list_response_code
    ∷ Constants.request_block_information_ex_response_code ∷ Constants.set_parameter_response_code
    ∷ Constants.get_container_issue_information_response_code
    ∷ Constants.get_area_information_response_code ∷ Constants.get_node_property_response_code
    ∷ Constants.request_service_v2_response_code ∷ Constants.get_system_status_response_code
    ∷ Constants.request_product_information_response_code
    ∷ Constants.request_specification_version_response_code ∷ Constants.reset_mode_response_code
    ∷ Constants.authentication1_v2_response_code ∷ Constants.get_container_id_response_code ∷ []

abbrev pub response_codes : List ℕ
response_codes =
    Constants.authentication2_response_code ∷ Constants.get_container_property_response_code
    ∷ Constants.authentication2_v2_response_code ∷ addressed_codes

abbrev pub is_any_of : List ℕ → ℕ → Bool
is_any_of [] code = false
is_any_of (c ∷ cs) code = (code == c) || is_any_of cs code

-- A frame with its length in front and an IDm, under a code that no response has.
abbrev pub IsUnread : List ℕ → Type 0
IsUnread (size ∷ code ∷ rest) =
    (size ≡ length (size ∷ code ∷ rest))
    × (10 ≤ length (size ∷ code ∷ rest))
    × (is_any_of response_codes code ≡ false)
IsUnread _ = ⊥

-- What reading these bytes may return: `Unknown` just for a frame that no response has the code of.
abbrev pub IsRead : List ℕ → FelicaStandardResponse → Type 0
IsRead bytes r = IsReturned (length bytes) r ⊎ ((r ≡ unknown) × IsUnread bytes)
