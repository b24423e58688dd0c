-- ===== src/Command/RoundTrip.antt =====
-- Encoding and parsing commands, as a whole.
use felica_rs.Prelude.{
  ℕ, ◌+◌, ◌≤◌, ◌≡◌, ◌∙◌, true, false, List, ◌∷◌, length, All, ltb, Bool-cases, inl, inr, ==_refl,
  le→ltb_false, if◌then◌else◌, arith,
}
use felica_rs.Prelude.Bytes.{IsByte}
use felica_rs.Prelude.Outcome.{Outcome, ok, err, ◌>>=◌, ensure}
use felica_rs.Prelude.Outcome.Ensures.{Ensures-ok}
use felica_rs.Felica.Error.{ProtocolError, protocol, protocol_value}
use felica_rs.Felica.Payload.{packet_too_long, finish_frame}
use felica_rs.Felica.Payload.Layout.{
  frame_with_length_prefix_fits, frame_with_length_prefix_too_long,
}
use felica_rs.Command.{FelicaStandardCommand, secure}
use felica_rs.Command.Wire.{opcode, fields, wire, is_secure, IsValid}
use felica_rs.Command.Serialize.{encoding, to_frame}
use felica_rs.Command.Serialize.Layout.{encoding-wire_plain, encoding-wire_secure}
use felica_rs.Command.Parse.Dispatch.{parse_frame, parse_secure_payload}
use felica_rs.Command.Parse.Dispatch.Reads.{parse_payload-wire, parse_secure_payload-wire}
use felica_rs.Command.Parse.Dispatch.Sound.{parse_frame-Ensures}

-- What `to_frame` answers, by kind and length of the packet.
abbrev pub framing : FelicaStandardCommand → Outcome ProtocolError (List ℕ)
framing c =
    if is_secure c
    then err (protocol "secure commands must be encrypted by a secure session, not framed directly")
    else if ltb 254 (length (wire c))
    then err (protocol_value packet_too_long (length (wire c) + 1))
    else ok ((length (wire c) + 1) ∷ wire c)

-- For a command in range `to_frame` refuses exactly the session commands and the packets over 254
-- bytes, and otherwise answers the table's layout behind its length byte.
pub to_frame-framing : (c : FelicaStandardCommand) → IsValid c → to_frame c ≡ framing c
unfolding to_frame finish_frame
to_frame-framing c v = elim (Bool-cases (is_secure c)) [
  | inl s ↦ rw (encoding-wire_secure c v s, s)
  | inr p ↦
      rw (encoding-wire_plain c v p, p)
        (elim (Bool-cases (ltb 254 (length (wire c)))) [
          | inl long ↦ rw (long, frame_with_length_prefix_too_long (wire c) (ground arith))
          | inr fits ↦ rw (fits, frame_with_length_prefix_fits (wire c) (ground arith))
        ])
]

parse_frame-wire :
    (c : FelicaStandardCommand)
    → IsValid c
    → is_secure c ≡ false
    → parse_frame ((length (wire c) + 1) ∷ wire c) ≡ ok c
unfolding parse_frame ensure
parse_frame-wire c v p = rw (==_refl (length (wire c) + 1), parse_payload-wire c v p)

-- A command in range that is sent outside a session and whose fields take at most 253 bytes is
-- framed, and the frame parses to the same command.
pub parse_frame-to_frame :
    (c : FelicaStandardCommand)
    → IsValid c
    → is_secure c ≡ false
    → length (fields c) ≤ 253
    → (to_frame c >>= parse_frame) ≡ ok c
unfolding wire
parse_frame-to_frame c v p fits = rw (
  to_frame-framing c v,
  p,
  le→ltb_false 254 (length (wire c)) (omega arith),
  parse_frame-wire c v p,
)

-- A command of a session in range is encoded as its command code and payload, and that payload
-- parses to the same command under that code.
pub parse_secure_payload-encoding :
    (c : FelicaStandardCommand)
    → IsValid c
    → is_secure c ≡ true
    → (encoding c ≡ ok (secure (opcode c) (fields c)))
      × (parse_secure_payload (opcode c) (fields c) ≡ ok c)
parse_secure_payload-encoding c v s = (encoding-wire_secure c v s, parse_secure_payload-wire c v s)

-- Whatever frame of bytes parses, its command is framed again in no more bytes, and that frame
-- parses to the same command.
pub to_frame-parse_frame :
    (frame : List ℕ) (c : FelicaStandardCommand)
    → All IsByte frame
    → parse_frame frame ≡ ok c
    → (to_frame c ≡ ok ((length (wire c) + 1) ∷ wire c))
      × (length (wire c) + 1 ≤ length frame)
      × (parse_frame ((length (wire c) + 1) ∷ wire c) ≡ ok c)
unfolding wire
to_frame-parse_frame frame c h e =
    let s = Ensures-ok (parse_frame-Ensures frame h) e in
    (
      to_frame-framing c s.0
          ∙ rw (s.1, le→ltb_false 254 (length (wire c)) (omega (arith, s.2, s.3))),
      omega (arith, s.2),
      parse_frame-wire c s.0 s.1,
    )
