-- ===== src/Response/Parse/Secure.antt =====
-- src/felica_standard/response/parse.rs: the decrypted responses of a session. They begin at status
-- flag 1, and bytes behind the fields are let pass.
pub mod Reads
pub mod Sound
use felica_rs.Prelude.{
  if◌then◌else◌, ℕ, ◌+◌, ◌*◌, not, ◌==◌, Bool, Option, none, some, List, String,
}
use felica_rs.Prelude.Slices.{index, slice_range}
use felica_rs.Prelude.Outcome.{◌>>◌, ◌>>=◌, ok, ensure}
use felica_rs.Felica.Constants
use felica_rs.Felica.Constants.{max_block_count, block_size}
use felica_rs.Felica.Error.{other}
use felica_rs.Felica.Types.Results.{ReadResult}
use felica_rs.Response.{
  FelicaStandardResponse, read, write, read_v2, write_v2, register_issue_id, register_area,
  register_service, change_system_block,
}
use felica_rs.Response.Parse.Fields.{
  Read, fail, ensure_response_len, word_at, collect_blocks, out_of_count,
}

unfoldable pub secure_flags : List ℕ → String → Read (ℕ × ℕ)
secure_flags bytes message = do
  ensure_response_len bytes 2 message
  status_flag1 ← index bytes 0
  status_flag2 ← index bytes 1
  ok (status_flag1, status_flag2)

-- The result behind the flags of a success.
unfoldable pub parse_secure_outcome :
    {R : Type 0} (answer : ℕ → ℕ → Option R → FelicaStandardResponse)
    → String
    → (List ℕ → Read R)
    → List ℕ
    → Read FelicaStandardResponse
parse_secure_outcome answer short_message success bytes = do
  (status_flag1, status_flag2) ← secure_flags bytes short_message
  if not (status_flag1 == 0)
      then ok (answer status_flag1 status_flag2 none)
      else (do result ← success bytes; ok (answer status_flag1 status_flag2 (some result)))

unfoldable pub secure_blocks : List ℕ → Read ReadResult
secure_blocks bytes = do
  ensure_response_len bytes 3 "successful encrypted read response missing block count"
  block_count ← index bytes 2
  ensure (not (out_of_count max_block_count block_count))
      (other "encrypted read response block count must be between 1 and 255")
  ensure_response_len bytes (3 + block_count * block_size)
      "encrypted read response truncated before block data"
  slice ← slice_range 3 (3 + block_count * block_size) bytes
  blocks ← collect_blocks slice block_count
  ok (record { blocks = blocks })

unfoldable pub parse_secure_read : List ℕ → (v2 : Bool) → Read FelicaStandardResponse
parse_secure_read bytes v2 =
    parse_secure_outcome (if v2 then read_v2 else read)
      "encrypted read response shorter than status flags" secure_blocks bytes

unfoldable pub parse_secure_write : List ℕ → (v2 : Bool) → Read FelicaStandardResponse
parse_secure_write bytes v2 = do
  (status_flag1, status_flag2) ←
      secure_flags bytes "encrypted write response shorter than status flags"
  ok (if v2 then write_v2 status_flag1 status_flag2 else write status_flag1 status_flag2)

unfoldable pub parse_register_issue_id : List ℕ → Read FelicaStandardResponse
parse_register_issue_id =
    parse_secure_outcome register_issue_id "register issue id response shorter than status flags"
      λ bytes. do
        ensure_response_len bytes 4 "register issue id response missing remaining block count"
        remaining ← word_at bytes 2
        ok (record { remaining_blocks = remaining })

unfoldable pub parse_register_area : List ℕ → Read FelicaStandardResponse
parse_register_area bytes = do
  (status_flag1, status_flag2) ←
      secure_flags bytes "register area response shorter than status flags"
  ok (register_area status_flag1 status_flag2)

unfoldable pub parse_register_service : List ℕ → Read FelicaStandardResponse
parse_register_service =
    parse_secure_outcome register_service "register service response shorter than status flags"
      λ bytes. do
        ensure_response_len bytes 4 "register service response missing remaining block count"
        remaining ← word_at bytes 2
        ok (record { remaining_blocks = remaining })

unfoldable pub parse_change_system_block : List ℕ → Read FelicaStandardResponse
parse_change_system_block bytes = do
  (status_flag1, status_flag2) ←
      secure_flags bytes "commit registration response shorter than status flags"
  ok (change_system_block status_flag1 status_flag2)

unfoldable pub from_secure_bytes : ℕ → List ℕ → Read FelicaStandardResponse
from_secure_bytes command_code bytes =
    if command_code == Constants.read_command_code
    then parse_secure_read bytes Bool.false
    else if command_code == Constants.read_v2_command_code
    then parse_secure_read bytes Bool.true
    else if command_code == Constants.write_command_code
    then parse_secure_write bytes Bool.false
    else if command_code == Constants.write_v2_command_code
    then parse_secure_write bytes Bool.true
    else if command_code == Constants.register_issue_id_command_code
    then parse_register_issue_id bytes
    else if command_code == Constants.register_area_command_code
    then parse_register_area bytes
    else if command_code == Constants.register_service_command_code
    then parse_register_service bytes
    else if command_code == Constants.change_system_block_command_code
    then parse_change_system_block bytes
    else fail "unsupported secure Felica command response"
