-- ===== src/Tests/Responses.antt =====
-- Responses, their serialization and their parsing.
use felica_rs.Prelude.{ℕ, ◌+◌, ◌≤◌, ◌≡◌, refl, some, List, [], ◌∷◌, ◌++◌, length, All, arith}
use felica_rs.Prelude.Bytes.{IsByte}
use felica_rs.Prelude.Outcome.{ok, ensure}
use felica_rs.Prelude.Outcome.Ensures.{Ensures}
use felica_rs.Felica.Constants
use felica_rs.Felica.Types.Versions.{OptionVersion, version_of, version_bytes, is_valid_bcd}
use felica_rs.Felica.Types.Versions.RoundTrip.{IsVersion, version_bytes-version_of}
use felica_rs.Command.Wire.{IsBytes}
use felica_rs.Response.{
  FelicaStandardResponse, read, read_without_encryption, write_without_encryption,
}
use felica_rs.Response.Valid.{IsValid, IsBlocks, is_secure, session_command}
use felica_rs.Response.Wire.{code, fields, wire, concat_bytes}
use felica_rs.Response.Wire.Returned.{IsRead}
use felica_rs.Response.Serialize.{to_frame, to_secure_payload}
use felica_rs.Response.Parse.Dispatch.{from_bytes, parse_addressed}
use felica_rs.Response.Parse.Dispatch.Sound.{from_bytes-Ensures}
use felica_rs.Response.Parse.Queries.{parse_write_without_encryption, parse_status_only}
use felica_rs.Response.Parse.Fields.{status_flags, parse_fixed}
use felica_rs.Response.Parse.Secure.{from_secure_bytes}
use felica_rs.Response.Parse.Secure.Sound.{from_secure_bytes-Ensures, IsAnswer}
use felica_rs.Response.RoundTrip
use felica_rs.Tests.{idm, are_bytes, bytes}

abbrev block : List ℕ
block = 1 ∷ 2 ∷ 3 ∷ 4 ∷ 5 ∷ 6 ∷ 7 ∷ 8 ∷ 9 ∷ 10 ∷ 11 ∷ 12 ∷ 13 ∷ 14 ∷ 15 ∷ 255 ∷ []

-- One block, read without encryption and in a session.
abbrev answer : FelicaStandardResponse
answer = read_without_encryption idm 0 0 (some (record { blocks = block ∷ [] }))

abbrev session_answer : FelicaStandardResponse
session_answer = read 0 0 (some (record { blocks = block ∷ [] }))

idm-IsBytes : IsBytes 8 idm
unfolding are_bytes
idm-IsBytes = (refl, bytes idm refl)

one_block : IsBlocks (block ∷ [])
unfolding are_bytes
one_block = (omega arith, omega arith, ((refl, bytes block refl), tt))

answer-IsValid : IsValid answer
answer-IsValid = (idm-IsBytes, (omega arith, omega arith), (refl, one_block))

session_answer-IsValid : IsValid session_answer
session_answer-IsValid = ((omega arith, omega arith), (refl, one_block))

from_bytes-to_frame_example :
    (to_frame answer ≡ ok ((length (wire answer) + 1) ∷ wire answer))
    × (from_bytes ((length (wire answer) + 1) ∷ wire answer) ≡ ok answer)
unfolding is_secure fields concat_bytes
from_bytes-to_frame_example = RoundTrip.from_bytes-to_frame answer answer-IsValid refl (omega arith)

to_frame-response_framing_example : to_frame answer ≡ RoundTrip.response_framing answer
to_frame-response_framing_example = RoundTrip.to_frame-response_framing answer answer-IsValid

from_secure_bytes-to_secure_payload_example :
    (to_secure_payload session_answer ≡ ok (fields session_answer))
    × (from_secure_bytes (session_command session_answer) (fields session_answer ++ (0 ∷ []))
        ≡ ok session_answer)
unfolding is_secure
from_secure_bytes-to_secure_payload_example =
    RoundTrip.from_secure_bytes-to_secure_payload session_answer (0 ∷ []) session_answer-IsValid
      refl

-- The refusal of a write.
abbrev frame : List ℕ
frame = 12 ∷ 0x09 ∷ idm ++ (0x01 ∷ 0xa6 ∷ [])

abbrev refused : FelicaStandardResponse
refused = write_without_encryption idm 0x01 0xa6

frame-IsByte : All IsByte frame
unfolding are_bytes
frame-IsByte = bytes frame refl

from_bytes-frame : from_bytes frame ≡ ok refused
unfolding from_bytes parse_addressed parse_write_without_encryption parse_status_only status_flags
    parse_fixed ensure
from_bytes-frame = refl

from_bytes-Ensures_example : Ensures (IsRead frame) (from_bytes frame)
from_bytes-Ensures_example = from_bytes-Ensures frame frame-IsByte

to_frame-from_bytes_example :
    (to_frame refused ≡ ok ((length (wire refused) + 1) ∷ wire refused))
    × (length (wire refused) + 1 ≡ length frame)
    × (from_bytes ((length (wire refused) + 1) ∷ wire refused) ≡ ok refused)
to_frame-from_bytes_example =
    RoundTrip.to_frame-from_bytes frame refused frame-IsByte (omega arith) from_bytes-frame tt

from_secure_bytes-Ensures_example :
    Ensures
      (IsAnswer Constants.write_command_code 2)
      (from_secure_bytes Constants.write_command_code (0 ∷ 0 ∷ []))
unfolding are_bytes
from_secure_bytes-Ensures_example =
    from_secure_bytes-Ensures Constants.write_command_code (0 ∷ 0 ∷ []) (bytes (0 ∷ 0 ∷ []) refl)

-- The block beside a failure.
abbrev mispaired : FelicaStandardResponse
mispaired = read_without_encryption idm 1 0 (some (record { blocks = block ∷ [] }))

to_frame-refused : to_frame refused ≡ ok frame
unfolding wire code fields
to_frame-refused = to_frame-from_bytes_example.0

to_frame-length_example : (length frame ≤ 255) × (RoundTrip.head_byte frame ≡ length frame)
to_frame-length_example = RoundTrip.to_frame-length refused frame to_frame-refused

-- Version 2.31.
abbrev version : OptionVersion
version = record { major = 2; minor = 3; patch = 1 }

version_of-bytes : version_of 0x31 0x82 ≡ some version
unfolding version_of is_valid_bcd
version_of-bytes = refl

version_bytes-version_of_example : IsVersion version × (version_bytes version ≡ 0x31 ∷ 0x82 ∷ [])
version_bytes-version_of_example =
    version_bytes-version_of 0x31 0x82 version (omega arith) (omega arith) version_of-bytes
