-- ===== src/Tests/Commands.antt =====
-- Commands, their encoding and their parsing.
use felica_rs.Prelude.{ℕ, ◌+◌, ◌≤◌, ◌≡◌, refl, false, List, [], ◌∷◌, ◌++◌, length, All, arith}
use felica_rs.Prelude.Bytes.{IsByte}
use felica_rs.Prelude.Outcome.{ok, ◌>>=◌, ensure, ok_or}
use felica_rs.Prelude.Outcome.Ensures.{Ensures}
use felica_rs.Felica.Types.Block.{BlockListElement, IsElement, pack}
use felica_rs.Felica.Types.Block.Layout.{element_bytes, pack-element_bytes}
use felica_rs.Felica.Payload.Layout.{words_bytes, blocks_bytes}
use felica_rs.Command.{FelicaStandardCommand, secure, read, read_without_encryption}
use felica_rs.Command.Wire.{IsValid, IsBytes, Counted, fields, wire, opcode, is_secure}
use felica_rs.Command.Serialize.{encoding, to_frame}
use felica_rs.Command.Parse.Fields.{
  take_block_list, parse_idm, take_service_code_list, take_u16_list, take_count, parse_u16_list_le,
  take_block, take_block_number, ensure_no_trailing_bytes, words_le,
}
use felica_rs.Command.Parse.Fields.Reads.{take_block_list_reads}
use felica_rs.Command.Parse.Access.{parse_read_without_encryption}
use felica_rs.Command.Parse.Dispatch.{
  parse_frame, parse_payload, parse_command, parse_secure_payload,
}
use felica_rs.Command.Parse.Dispatch.Sound.{parse_frame-Ensures, parse_secure_payload-Ensures}
use felica_rs.Command.RoundTrip
use felica_rs.Tests.{idm, are_bytes, bytes}

abbrev element : BlockListElement
element = record { block_number_or_key_version = 300; service_code_list_index = 0; access_mode = 1 }

-- The first block of service 0x090f, through the cashback access.
abbrev command : FelicaStandardCommand
command = read_without_encryption idm (record { raw = 0x090f } ∷ []) (element ∷ [])

abbrev session_command : FelicaStandardCommand
session_command = read (element ∷ [])

element-IsElement : IsElement element
element-IsElement = record { number = omega arith; index = omega arith; mode = omega arith }

idm-IsBytes : IsBytes 8 idm
unfolding are_bytes
idm-IsBytes = (refl, bytes idm refl)

one_element : Counted IsElement 1 255 (element ∷ [])
one_element = (omega arith, omega arith, (element-IsElement, tt))

command-IsValid : IsValid command
command-IsValid = (idm-IsBytes, (omega arith, omega arith, (omega arith, tt)), one_element)

-- The same access as a frame, whose block number takes two bytes without need.
abbrev frame : List ℕ
frame = 17 ∷ 0x06 ∷ idm ++ (1 ∷ 0x0f ∷ 0x09 ∷ 1 ∷ 0x10 ∷ 5 ∷ 0 ∷ [])

abbrev frame_command : FelicaStandardCommand
frame_command =
    read_without_encryption idm (record { raw = 0x090f } ∷ []) (
      record { block_number_or_key_version = 5; service_code_list_index = 0; access_mode = 1 } ∷ [])

frame-IsByte : All IsByte frame
unfolding are_bytes
frame-IsByte = bytes frame refl

frame_parses : parse_frame frame ≡ ok frame_command
unfolding parse_frame parse_payload parse_command parse_read_without_encryption parse_idm ensure
    take_service_code_list take_u16_list take_count ok_or parse_u16_list_le take_block_list
    take_block take_block_number ensure_no_trailing_bytes words_le
frame_parses = refl

parse_frame-to_frame_example : (to_frame command >>= parse_frame) ≡ ok command
unfolding fields is_secure words_bytes blocks_bytes element_bytes
parse_frame-to_frame_example =
    RoundTrip.parse_frame-to_frame command command-IsValid refl (omega arith)

to_frame-parse_frame_example :
    (to_frame frame_command ≡ ok ((length (wire frame_command) + 1) ∷ wire frame_command))
    × (length (wire frame_command) + 1 ≤ length frame)
    × (parse_frame ((length (wire frame_command) + 1) ∷ wire frame_command) ≡ ok frame_command)
to_frame-parse_frame_example =
    RoundTrip.to_frame-parse_frame frame frame_command frame-IsByte frame_parses

to_frame-framing_example : to_frame command ≡ RoundTrip.framing command
to_frame-framing_example = RoundTrip.to_frame-framing command command-IsValid

parse_secure_payload-encoding_example :
    (encoding session_command ≡ ok (secure (opcode session_command) (fields session_command)))
    × (parse_secure_payload (opcode session_command) (fields session_command) ≡ ok session_command)
unfolding is_secure
parse_secure_payload-encoding_example =
    RoundTrip.parse_secure_payload-encoding session_command one_element refl

parse_frame-Ensures_example :
    Ensures
      (λ c.
        IsValid c
        × (is_secure c ≡ false)
        × (length (fields c) + 2 ≤ length frame)
        × (length frame ≤ 255))
      (parse_frame frame)
parse_frame-Ensures_example = parse_frame-Ensures frame frame-IsByte

parse_secure_payload-Ensures_example :
    Ensures IsValid (parse_secure_payload 0x14 (1 ∷ 0x10 ∷ 5 ∷ 0 ∷ []))
unfolding are_bytes
parse_secure_payload-Ensures_example =
    parse_secure_payload-Ensures 0x14 (1 ∷ 0x10 ∷ 5 ∷ 0 ∷ []) (bytes (1 ∷ 0x10 ∷ 5 ∷ 0 ∷ []) refl)

pack-element_bytes_example : pack element ≡ element_bytes element
pack-element_bytes_example = pack-element_bytes element element-IsElement

take_block_list_reads_example :
    take_block_list (blocks_bytes (element ∷ []) ++ (9 ∷ [])) 1 ≡ ok (element ∷ [], 9 ∷ [])
take_block_list_reads_example =
    take_block_list_reads (element ∷ []) (9 ∷ []) (element-IsElement, tt)
