-- ===== src/Response/Parse/Queries.antt =====
-- src/felica_standard/response/parse.rs: the responses of fixed form, and the one of a search.
pub mod Reads
pub mod Sound
use felica_rs.Prelude.{
  if◌then◌else◌, ℕ, ◌||◌, ◌==◌, not, String, Option, none, some, List, [], ◌∷◌, length, list_eq,
}
use felica_rs.Prelude.Slices.{index, slice_from, slice_range}
use felica_rs.Prelude.Outcome.{◌>>◌, ◌>>=◌, ok, ensure}
use felica_rs.Felica.Error.{other}
use felica_rs.Felica.Types.Results.{
  SearchServiceCodeResult, service, area, GetAreaInformationResult,
}
use felica_rs.Response.{
  FelicaStandardResponse, polling, request_response, write_without_encryption, search_service_code,
  authentication1, authentication2, set_parameter, get_container_issue_information,
  get_area_information, get_container_property, reset_mode, authentication1_v2, authentication2_v2,
  get_container_id,
}
use felica_rs.Response.Parse.Fields.{
  Read, fail, idm_offset, payload_offset, ensure_response_len, ensure_exact_response_len,
  status_flags, parse_pmm, word_at, parse_outcome,
}

unfoldable pub parse_authentication2 : List ℕ → Read FelicaStandardResponse
parse_authentication2 bytes = do
  ensure_exact_response_len bytes 34
      "authentication2 response must contain exactly 32 encrypted bytes"
  encrypted_payload ← slice_from idm_offset bytes
  ok (authentication2 encrypted_payload)

unfoldable pub parse_authentication2_v2 : List ℕ → Read FelicaStandardResponse
parse_authentication2_v2 bytes = do
  ensure_exact_response_len bytes 28
      "authentication2 v2 response must contain a transaction number, 16 encrypted bytes and an 8-byte MAC"
  encrypted_payload ← slice_from idm_offset bytes
  ok (authentication2_v2 encrypted_payload)

-- Once the length is 18 or 20, `data.get(18..)` is the rest from 18.
unfoldable pub parse_polling : List ℕ → List ℕ → Read FelicaStandardResponse
parse_polling idm bytes = do
  ensure_response_len bytes 18 "short polling response"
  ensure ((length bytes == 18) || (length bytes == 20))
      (other "polling response optional data must contain 0 or 2 bytes")
  behind ← slice_from 10 bytes
  (pmm, rest) ← parse_pmm behind
  optional ← slice_from 18 bytes
  ok (polling idm pmm optional)

unfoldable pub parse_request_response : List ℕ → List ℕ → Read FelicaStandardResponse
parse_request_response idm bytes = do
  ensure_exact_response_len bytes 11 "request response must contain exactly one mode byte"
  mode ← index bytes 10
  ok (request_response idm mode)

-- The responses with status flags alone, which differ in their messages.
unfoldable pub parse_status_only :
    (ℕ → ℕ → FelicaStandardResponse) → String → String → List ℕ → Read FelicaStandardResponse
parse_status_only answer short_message long_message bytes = do
  (status_flag1, status_flag2) ← status_flags bytes short_message
  ensure_exact_response_len bytes 12 long_message
  ok (answer status_flag1 status_flag2)

unfoldable pub parse_write_without_encryption : List ℕ → List ℕ → Read FelicaStandardResponse
parse_write_without_encryption idm =
    parse_status_only (write_without_encryption idm) "short write without encryption response"
      "write without encryption response must contain only status flags"

unfoldable pub parse_set_parameter : List ℕ → List ℕ → Read FelicaStandardResponse
parse_set_parameter idm =
    parse_status_only (set_parameter idm) "short set parameter response"
      "set parameter response must contain only status flags"

unfoldable pub parse_reset_mode : List ℕ → List ℕ → Read FelicaStandardResponse
parse_reset_mode idm =
    parse_status_only (reset_mode idm) "short reset mode response"
      "reset mode response must contain only status flags"

unfoldable pub search_result : List ℕ → Read (Option SearchServiceCodeResult)
search_result payload =
    if list_eq payload (0xff ∷ 0xff ∷ [])
    then ok none
    else if length payload == 2
    then (do code ← word_at payload 0; ok (some (service (record { raw = code }))))
    else if length payload == 4
    then (do
      area_code ← word_at payload 0
      end_service_code ← word_at payload 2
      ok (some (area area_code end_service_code)))
    else fail "search service code response must contain 2 or 4 bytes"

unfoldable pub parse_search_service_code : List ℕ → List ℕ → Read FelicaStandardResponse
parse_search_service_code idm bytes = do
  ensure_response_len bytes 12 "short search service code response"
  payload ← slice_from 10 bytes
  result ← search_result payload
  ok (search_service_code idm result)

unfoldable pub parse_get_container_issue_information : List ℕ → List ℕ → Read FelicaStandardResponse
parse_get_container_issue_information idm bytes = do
  ensure_exact_response_len bytes 26
      "get container issue information response must contain exactly 16 data bytes"
  carrier ← slice_range 10 15 bytes
  model ← slice_range 15 26 bytes
  ok (
      get_container_issue_information idm (record {
        format_version_carrier_information = carrier;
        mobile_phone_model_information = model;
      }))

unfoldable pub parse_get_container_property : List ℕ → Read FelicaStandardResponse
parse_get_container_property bytes = do
  ensure_response_len bytes 3 "short get container property response"
  payload ← slice_from idm_offset bytes
  ensure (not (length payload == 0))
      (other "get container property response data must contain at least one byte")
  ok (get_container_property payload)

unfoldable pub parse_get_container_id : List ℕ → List ℕ → Read FelicaStandardResponse
parse_get_container_id container_idm bytes = do
  ensure_exact_response_len bytes payload_offset
      "get container id response must contain exactly one IDm"
  ok (get_container_id container_idm)

unfoldable pub area_information : List ℕ → Read GetAreaInformationResult
area_information bytes = do
  ensure_exact_response_len bytes 16
      "get area information success response must contain exactly four result bytes"
  node_code ← word_at bytes 12
  first ← index bytes 14
  second ← index bytes 15
  ok (record { node_code = node_code; area_data = first ∷ second ∷ [] })

unfoldable pub parse_get_area_information : List ℕ → List ℕ → Read FelicaStandardResponse
parse_get_area_information idm =
    parse_outcome (get_area_information idm) "short get area information response"
      "get area information error response must contain only status flags" area_information

unfoldable pub parse_authentication1 : List ℕ → List ℕ → Read FelicaStandardResponse
parse_authentication1 idm bytes = do
  ensure_exact_response_len bytes 26
      "authentication1 response must contain exactly two 8-byte challenges"
  challenge_1b ← slice_range 10 18 bytes
  challenge_2a ← slice_range 18 26 bytes
  ok (authentication1 idm challenge_1b challenge_2a)

unfoldable pub parse_authentication1_v2 : List ℕ → List ℕ → Read FelicaStandardResponse
parse_authentication1_v2 idm bytes = do
  ensure_exact_response_len bytes 46
      "authentication1 v2 response must contain exactly two 16-byte challenges and challenge3c"
  challenge_1b ← slice_range 10 26 bytes
  challenge_2a ← slice_range 26 42 bytes
  challenge_3c ← slice_range 42 46 bytes
  ok (authentication1_v2 idm challenge_1b challenge_2a challenge_3c)
