-- ===== src/Command/Parse/Access.antt =====
-- src/felica_standard/command/parse.rs: block access and authentication.
pub mod Sound
use felica_rs.Prelude.{ℕ, ◌*◌, List, not, length, ltb, leb, ◌==◌}
use felica_rs.Prelude.Slices.{slice_from, split_first, get_to}
use felica_rs.Prelude.Outcome.{ok, ◌>>=◌, ◌>>◌, ensure, ok_or}
use felica_rs.Felica.Constants.{
  max_service_codes, max_rw_service_codes, max_block_count, block_size,
}
use felica_rs.Felica.Error.{protocol}
use felica_rs.Command.{
  FelicaStandardCommand, read_without_encryption, write_without_encryption, authentication1,
  authentication2, authentication1_v2, authentication2_v2,
}
use felica_rs.Command.Parse.Fields.{
  Parsed, parse_idm, ensure_no_trailing_bytes, take_count, parse_u16_list_le, take_u16_list,
  take_service_code_list, take_block_list,
}

unfoldable pub parse_read_without_encryption : List ℕ → Parsed FelicaStandardCommand
parse_read_without_encryption body = do
  (idm, rest) ← parse_idm body
  (service_codes, rest) ← take_service_code_list rest max_rw_service_codes "read without encryption"
  (block_count, rest) ← take_count rest 1 max_block_count "read without encryption" "block"
  (block_list, rest) ← take_block_list rest block_count
  ensure_no_trailing_bytes rest "read without encryption"
  ok (read_without_encryption idm service_codes block_list)

unfoldable pub parse_write_without_encryption : List ℕ → Parsed FelicaStandardCommand
parse_write_without_encryption body = do
  (idm, rest) ← parse_idm body
  (service_codes, rest) ←
      take_service_code_list rest max_rw_service_codes "write without encryption"
  (block_count, rest) ← take_count rest 1 max_block_count "write without encryption" "block"
  (block_list, rest) ← take_block_list rest block_count
  let expected_len = block_count * block_size
  ensure (not (ltb (length rest) expected_len)) (protocol "write without encryption data truncated")
  ensure (not (ltb expected_len (length rest)))
      (protocol "write without encryption payload has trailing bytes")
  ok (write_without_encryption idm service_codes block_list rest)

-- The cursor into `rest` is the suffix that is left.
unfoldable pub parse_authentication1 : List ℕ → Parsed FelicaStandardCommand
parse_authentication1 body = do
  (idm, rest) ← parse_idm body
  (area_count, rest) ← ok_or (split_first rest) (protocol "authentication1 missing area count")
  ensure (leb area_count max_service_codes) (protocol "authentication1 area count out of range")
  areas ← parse_u16_list_le rest area_count
  rest ← slice_from (area_count * 2) rest
  (service_count, rest) ←
      ok_or (split_first rest) (protocol "authentication1 missing service count")
  ensure (leb service_count max_service_codes)
      (protocol "authentication1 service count out of range")
  services ← parse_u16_list_le rest service_count
  rest ← slice_from (service_count * 2) rest
  challenge_1a ← ok_or (get_to 8 rest) (protocol "authentication1 missing challenge1a")
  ensure (length rest == 8) (protocol "authentication1 payload has trailing bytes")
  ok (authentication1 idm areas services challenge_1a)

unfoldable pub parse_authentication2 : List ℕ → Parsed FelicaStandardCommand
parse_authentication2 body = do
  (idm, rest) ← parse_idm body
  ensure (not (ltb (length rest) 8)) (protocol "authentication2 missing challenge2b")
  ensure (not (ltb 8 (length rest))) (protocol "authentication2 payload has trailing bytes")
  ok (authentication2 idm rest)

unfoldable pub parse_authentication1_v2 : List ℕ → Parsed FelicaStandardCommand
parse_authentication1_v2 body = do
  (idm, rest) ← parse_idm body
  (operation_parameter, rest) ←
      ok_or (split_first rest) (protocol "authentication1 v2 missing operation parameter")
  (nodes, rest) ← take_u16_list rest 1 max_service_codes "authentication1 v2" "node"
  ensure (not (ltb (length rest) 16)) (protocol "authentication1 v2 missing challenge1a")
  ensure (not (ltb 16 (length rest))) (protocol "authentication1 v2 payload has trailing bytes")
  ok (authentication1_v2 idm operation_parameter nodes rest)

unfoldable pub parse_authentication2_v2 : List ℕ → Parsed FelicaStandardCommand
parse_authentication2_v2 body = do
  (idm, rest) ← parse_idm body
  ensure (not (ltb (length rest) 16)) (protocol "authentication2 v2 missing challenge2b")
  ensure (not (ltb 16 (length rest))) (protocol "authentication2 v2 payload has trailing bytes")
  ok (authentication2_v2 idm rest)
