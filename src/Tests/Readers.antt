-- ===== src/Tests/Readers.antt =====
-- Checksums, frames and responses of the readers.
use felica_rs.Prelude.{ℕ, ◌≤◌, ◌≡◌, ◌↔◌, true, none, some, List, [], ◌∷◌, ◌++◌, length, take, arith}
use felica_rs.Prelude.Outcome.{ok, err}
use felica_rs.Prelude.Outcome.Ensures.{Ensures}
use felica_rs.Clf.Crc.{add_crc_a, check_crc_a, add_crc_b, check_crc_b}
use felica_rs.Clf.Crc.Check.{check_crc_a_iff, check_crc_b_iff}
use felica_rs.Driver.Framing.{
  checked, wrapping, FrameFormat, extended_little_endian, error_frame, Frame, build, parse,
  payload_of, ack_bytes,
}
use felica_rs.Driver.Framing.Sums.{sum}
use felica_rs.Driver.Framing.RoundTrip.{parse-build}
use felica_rs.Driver.Framing.Sound.{parse-Ensures}
use felica_rs.Driver.Tlv.{push_extended_tlv}
use felica_rs.Driver.Tlv.Sound.{Answers}
use felica_rs.Driver.Tlv.Transparent.{parse_transparent_response, response_data_tag}
use felica_rs.Driver.Tlv.Transparent.Sound.{parse_transparent_response-Answers}
use felica_rs.Driver.Tlv.Transparent.Data.{success, parse_transparent_response-push_extended_tlv}
use felica_rs.Driver.Tlv.Session.{parse_manage_session_response, parse_switch_protocol_response}
use felica_rs.Driver.Tlv.Session.Sound.{
  parse_manage_session_response-Answers, parse_switch_protocol_response-Answers,
}
use felica_rs.Driver.Framing.{ack_frame}
use felica_rs.Driver.Framing.Ack.{parse-ack_bytes}
use felica_rs.Tests.{idm}

check_crc_a_iff_example : (check_crc_a idm ≡ true) ↔ ((front : List ℕ) × (idm ≡ add_crc_a front))
check_crc_a_iff_example = check_crc_a_iff idm

check_crc_b_iff_example : (check_crc_b idm ≡ true) ↔ ((front : List ℕ) × (idm ≡ add_crc_b front))
check_crc_b_iff_example = check_crc_b_iff idm

abbrev format : FrameFormat
format = record { length_encoding = extended_little_endian; error_detection = error_frame }

parse-build_example :
    (fr : Frame) × (build checked format idm ≡ ok fr)
    × (payload_of fr ≡ some idm)
    × (parse checked format (fr.raw ++ (9 ∷ [])) ≡ ok fr)
unfolding sum
parse-build_example = parse-build checked format idm (9 ∷ []) (omega arith) (omega arith) tt

parse-Ensures_example :
    Ensures
      (λ fr. (length fr.raw ≤ length ack_bytes) × (fr.raw ≡ take (length fr.raw) ack_bytes))
      (parse wrapping format ack_bytes)
parse-Ensures_example = parse-Ensures format ack_bytes

parse_transparent_response-Answers_example :
    Answers (parse_transparent_response (0xc0 ∷ 3 ∷ 0 ∷ 0x90 ∷ 0 ∷ 0x97 ∷ 9 ∷ 1 ∷ []))
parse_transparent_response-Answers_example =
    parse_transparent_response-Answers (0xc0 ∷ 3 ∷ 0 ∷ 0x90 ∷ 0 ∷ 0x97 ∷ 9 ∷ 1 ∷ [])

parse_transparent_response-push_extended_tlv_example :
    parse_transparent_response (push_extended_tlv success response_data_tag idm)
    ≡ some (ok (record { payload = idm; rf_status = none; valid_bits = none }))
parse_transparent_response-push_extended_tlv_example =
    parse_transparent_response-push_extended_tlv idm (omega arith)

parse_manage_session_response-Answers_example :
    Answers (parse_manage_session_response (0xc0 ∷ 3 ∷ 0 ∷ 0x90 ∷ 0 ∷ 0x80 ∷ 3 ∷ 1 ∷ []))
parse_manage_session_response-Answers_example =
    parse_manage_session_response-Answers (0xc0 ∷ 3 ∷ 0 ∷ 0x90 ∷ 0 ∷ 0x80 ∷ 3 ∷ 1 ∷ [])

parse_switch_protocol_response-Answers_example :
    Answers (parse_switch_protocol_response (0xc0 ∷ 3 ∷ 0 ∷ 0x90 ∷ 0 ∷ 0x5f ∷ 0x51 ∷ []))
parse_switch_protocol_response-Answers_example =
    parse_switch_protocol_response-Answers (0xc0 ∷ 3 ∷ 0 ∷ 0x90 ∷ 0 ∷ 0x5f ∷ 0x51 ∷ [])

parse-ack_bytes_example :
    (parse wrapping format ack_bytes ≡ ok ack_frame)
    × (parse wrapping format (ack_bytes ++ (9 ∷ [])) ≡ err tt)
parse-ack_bytes_example = parse-ack_bytes wrapping format 9 []
