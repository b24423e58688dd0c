-- ===== src/Response/Parse/Lists.antt =====
-- src/felica_standard/response/parse.rs: the responses that list words, blocks or nodes.
pub mod Reads
pub mod Sound
use felica_rs.Prelude.{ℕ, ◌+◌, ◌*◌, not, ◌==◌, List, [], ◌∷◌, map}
use felica_rs.Prelude.Bytes.{from_le_bytes}
use felica_rs.Prelude.Slices.{index, slice_range}
use felica_rs.Prelude.Outcome.{◌>>◌, ◌>>=◌, ok, ensure}
use felica_rs.Felica.Constants.{max_service_codes, max_block_count, max_node_codes, block_size}
use felica_rs.Felica.Error.{other}
use felica_rs.Felica.Types.Results.{
  AreaCodeRange, ReadWithoutEncryptionResult, RequestBlockInformationExResult,
  RequestCodeListResult,
}
use felica_rs.Command.Parse.Fields.{words_le, service_code}
use felica_rs.Response.{
  FelicaStandardResponse, request_service, read_without_encryption, request_system_code,
  request_block_information, request_code_list, request_block_information_ex,
}
use felica_rs.Response.Parse.Fields.{
  Read, ensure_response_len, ensure_exact_response_len, words_be, collect_blocks, out_of_count,
  parse_outcome,
}

unfoldable pub parse_request_service : List ℕ → List ℕ → Read FelicaStandardResponse
parse_request_service idm bytes = do
  ensure_response_len bytes 11 "short request service response"
  node_count ← index bytes 10
  ensure (not (out_of_count max_service_codes node_count))
      (other "request service node count must be between 1 and 32")
  ensure_exact_response_len bytes (11 + node_count * 2)
      "request service response length does not match node count"
  chunk ← slice_range 11 (11 + node_count * 2) bytes
  ok (request_service idm (words_le chunk))

unfoldable pub read_blocks : List ℕ → Read ReadWithoutEncryptionResult
read_blocks bytes = do
  ensure_response_len bytes 13 "short read without encryption success response"
  block_count ← index bytes 12
  ensure (not (out_of_count max_block_count block_count))
      (other "read without encryption block count must be between 1 and 255")
  ensure_exact_response_len bytes (13 + block_count * block_size)
      "read without encryption response length does not match block count"
  slice ← slice_range 13 (13 + block_count * block_size) bytes
  blocks ← collect_blocks slice block_count
  ok (record { blocks = blocks })

unfoldable pub parse_read_without_encryption : List ℕ → List ℕ → Read FelicaStandardResponse
parse_read_without_encryption idm =
    parse_outcome (read_without_encryption idm) "short read without encryption response"
      "read without encryption error response must contain only status flags" read_blocks

unfoldable pub parse_request_system_code : List ℕ → List ℕ → Read FelicaStandardResponse
parse_request_system_code idm bytes = do
  ensure_response_len bytes 12 "short request system code response"
  count ← index bytes 10
  ensure (not (count == 0)) (other "request system code response count must be at least 1")
  ensure_exact_response_len bytes (11 + count * 2)
      "request system code response length does not match count"
  chunk ← slice_range 11 (11 + count * 2) bytes
  ok (request_system_code idm (words_be chunk))

unfoldable pub parse_request_block_information : List ℕ → List ℕ → Read FelicaStandardResponse
parse_request_block_information idm bytes = do
  ensure_response_len bytes 12 "short request block information response"
  count ← index bytes 10
  ensure (not (count == 0)) (other "request block information count must be at least 1")
  ensure_exact_response_len bytes (11 + count * 2)
      "request block information response length does not match count"
  chunk ← slice_range 11 (11 + count * 2) bytes
  ok (request_block_information idm (words_le chunk))

-- Chunks of four bytes: the first word and the second word of each.
unfoldable pub first_words : List ℕ → List ℕ
first_words (a ∷ b ∷ c ∷ d ∷ bs) = from_le_bytes a b ∷ first_words bs
first_words _ = []

unfoldable pub second_words : List ℕ → List ℕ
second_words (a ∷ b ∷ c ∷ d ∷ bs) = from_le_bytes c d ∷ second_words bs
second_words _ = []

unfoldable pub block_information_ex : List ℕ → Read RequestBlockInformationExResult
block_information_ex bytes = do
  ensure_response_len bytes 13 "short request block information ex success response"
  count ← index bytes 12
  ensure (not (out_of_count max_node_codes count))
      (other "request block information ex count must be between 1 and 32")
  ensure_exact_response_len bytes (13 + count * 4)
      "request block information ex response length does not match count"
  chunk ← slice_range 13 (13 + count * 4) bytes
  ok (record { assigned_block_counts = first_words chunk; free_block_counts = second_words chunk })

unfoldable pub parse_request_block_information_ex : List ℕ → List ℕ → Read FelicaStandardResponse
parse_request_block_information_ex idm =
    parse_outcome (request_block_information_ex idm) "short request block information ex response"
      "request block information ex error response must contain only status flags"
      block_information_ex

unfoldable pub areas_of : List ℕ → List AreaCodeRange
areas_of (a ∷ b ∷ c ∷ d ∷ bs) =
    record { area_code = from_le_bytes a b; end_service_code = from_le_bytes c d } ∷ areas_of bs
areas_of _ = []

-- `checked_mul` cannot overflow: the counts are bytes.
unfoldable pub code_list : List ℕ → Read RequestCodeListResult
code_list bytes = do
  ensure_response_len bytes 15 "short request code list success response"
  flag ← index bytes 12
  area_count ← index bytes 13
  ensure_response_len bytes (14 + area_count * 4 + 1) "short request code list area payload"
  area_chunk ← slice_range 14 (14 + area_count * 4) bytes
  service_count ← index bytes (14 + area_count * 4)
  ensure_response_len bytes (14 + area_count * 4 + 1 + service_count * 2)
      "short request code list service payload"
  ensure_exact_response_len bytes (14 + area_count * 4 + 1 + service_count * 2)
      "request code list response length does not match its counts"
  service_chunk ←
      slice_range (14 + area_count * 4 + 1) (14 + area_count * 4 + 1 + service_count * 2) bytes
  ok (record {
    continue_flag = not (flag == 0);
    areas = areas_of area_chunk;
    services = map service_code (words_le service_chunk);
  })

unfoldable pub parse_request_code_list : List ℕ → List ℕ → Read FelicaStandardResponse
parse_request_code_list idm =
    parse_outcome (request_code_list idm) "short request code list response"
      "request code list error response must contain only status flags" code_list
