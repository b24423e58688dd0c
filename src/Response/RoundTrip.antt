-- ===== src/Response/RoundTrip.antt =====
-- Writing and reading responses, as a whole.
use felica_rs.Prelude.{
  ℕ, ◌+◌, ◌≤◌, ◌≡◌, ◌∙◌, sym, refl, subst, true, false, List, [], ◌∷◌, ◌++◌, length, All, ltb,
  Bool-cases, inl, inr, le→ltb_false, if◌then◌else◌, arith,
}
use felica_rs.Prelude.Bytes.{IsByte}
use felica_rs.Prelude.Outcome.{Outcome, ok, err, panic, ◌>>=◌}
use felica_rs.Prelude.Outcome.Ensures.{Ensures-ok}
use felica_rs.Felica.Constants.{max_node_codes}
use felica_rs.Felica.Error.{ProtocolError, protocol, protocol_value}
use felica_rs.Felica.Payload.{packet_too_long, frame_with_length_prefix}
use felica_rs.Felica.Payload.Layout.{
  frame_with_length_prefix_fits, frame_with_length_prefix_too_long,
}
use felica_rs.Response.{
  FelicaStandardResponse, polling, request_service, request_response, read_without_encryption,
  write_without_encryption, search_service_code, request_system_code, request_block_information,
  authentication1, authentication2, request_code_list, request_block_information_ex, set_parameter,
  get_container_issue_information, get_area_information, get_node_property, get_container_property,
  request_service_v2, get_system_status, request_product_information, request_specification_version,
  reset_mode, authentication1_v2, authentication2_v2, get_container_id, read, write, read_v2,
  write_v2, register_issue_id, register_area, register_service, change_system_block, unknown,
}
use felica_rs.Response.Valid.{IsValid, is_secure, session_command}
use felica_rs.Response.Wire.{fields, wire}
use felica_rs.Response.Wire.Returned.{IsReturned, IsRead}
use felica_rs.Response.Write.{Written}
use felica_rs.Response.Serialize.{to_payload, to_secure_payload, to_frame}
use felica_rs.Response.Serialize.Layout.{to_payload-wire, to_secure_payload-fields}
use felica_rs.Response.Parse.Dispatch.{from_bytes}
use felica_rs.Response.Parse.Dispatch.Reads.{from_bytes-wire}
use felica_rs.Response.Parse.Dispatch.Sound.{from_bytes-Ensures}
use felica_rs.Response.Parse.Secure.{from_secure_bytes}
use felica_rs.Response.Parse.Secure.Reads.{from_secure_bytes-fields}

-- What `to_frame` answers, by kind and length of the packet.
abbrev pub response_framing : FelicaStandardResponse → Outcome ProtocolError (List ℕ)
response_framing r =
    if is_secure r
    then err (protocol "secure response requires encryption")
    else if ltb 254 (length (wire r))
    then err (protocol_value packet_too_long (length (wire r) + 1))
    else ok ((length (wire r) + 1) ∷ wire r)

to_frame_secure :
    (r : FelicaStandardResponse)
    → is_secure r ≡ true
    → to_frame r ≡ err (protocol "secure response requires encryption")
unfolding to_frame is_secure
to_frame_secure (polling _ _ _) s = cc
to_frame_secure (request_service _ _) s = cc
to_frame_secure (request_response _ _) s = cc
to_frame_secure (read_without_encryption _ _ _ _) s = cc
to_frame_secure (write_without_encryption _ _ _) s = cc
to_frame_secure (search_service_code _ _) s = cc
to_frame_secure (request_system_code _ _) s = cc
to_frame_secure (request_block_information _ _) s = cc
to_frame_secure (authentication1 _ _ _) s = cc
to_frame_secure (authentication2 _) s = cc
to_frame_secure (request_code_list _ _ _ _) s = cc
to_frame_secure (request_block_information_ex _ _ _ _) s = cc
to_frame_secure (set_parameter _ _ _) s = cc
to_frame_secure (get_container_issue_information _ _) s = cc
to_frame_secure (get_area_information _ _ _ _) s = cc
to_frame_secure (get_node_property _ _ _ _) s = cc
to_frame_secure (get_container_property _) s = cc
to_frame_secure (request_service_v2 _ _ _ _) s = cc
to_frame_secure (get_system_status _ _ _ _) s = cc
to_frame_secure (request_product_information _ _ _ _) s = cc
to_frame_secure (request_specification_version _ _ _ _) s = cc
to_frame_secure (reset_mode _ _ _) s = cc
to_frame_secure (authentication1_v2 _ _ _ _) s = cc
to_frame_secure (authentication2_v2 _) s = cc
to_frame_secure (get_container_id _) s = cc
to_frame_secure (read _ _ _) s = refl
to_frame_secure (write _ _) s = refl
to_frame_secure (read_v2 _ _ _) s = refl
to_frame_secure (write_v2 _ _) s = refl
to_frame_secure (register_issue_id _ _ _) s = refl
to_frame_secure (register_area _ _) s = refl
to_frame_secure (register_service _ _ _) s = refl
to_frame_secure (change_system_block _ _) s = refl
to_frame_secure unknown s = cc

to_frame_plain :
    (r : FelicaStandardResponse)
    → is_secure r ≡ false
    → to_frame r ≡ (to_payload r >>= frame_with_length_prefix)
unfolding to_frame is_secure
to_frame_plain (polling _ _ _) s = refl
to_frame_plain (request_service _ _) s = refl
to_frame_plain (request_response _ _) s = refl
to_frame_plain (read_without_encryption _ _ _ _) s = refl
to_frame_plain (write_without_encryption _ _ _) s = refl
to_frame_plain (search_service_code _ _) s = refl
to_frame_plain (request_system_code _ _) s = refl
to_frame_plain (request_block_information _ _) s = refl
to_frame_plain (authentication1 _ _ _) s = refl
to_frame_plain (authentication2 _) s = refl
to_frame_plain (request_code_list _ _ _ _) s = refl
to_frame_plain (request_block_information_ex _ _ _ _) s = refl
to_frame_plain (set_parameter _ _ _) s = refl
to_frame_plain (get_container_issue_information _ _) s = refl
to_frame_plain (get_area_information _ _ _ _) s = refl
to_frame_plain (get_node_property _ _ _ _) s = refl
to_frame_plain (get_container_property _) s = refl
to_frame_plain (request_service_v2 _ _ _ _) s = refl
to_frame_plain (get_system_status _ _ _ _) s = refl
to_frame_plain (request_product_information _ _ _ _) s = refl
to_frame_plain (request_specification_version _ _ _ _) s = refl
to_frame_plain (reset_mode _ _ _) s = refl
to_frame_plain (authentication1_v2 _ _ _ _) s = refl
to_frame_plain (authentication2_v2 _) s = refl
to_frame_plain (get_container_id _) s = refl
to_frame_plain (read _ _ _) s = cc
to_frame_plain (write _ _) s = cc
to_frame_plain (read_v2 _ _ _) s = cc
to_frame_plain (write_v2 _ _) s = cc
to_frame_plain (register_issue_id _ _ _) s = cc
to_frame_plain (register_area _ _) s = cc
to_frame_plain (register_service _ _ _) s = cc
to_frame_plain (change_system_block _ _) s = cc
to_frame_plain unknown s = refl

-- For a response in range `to_frame` refuses exactly the responses of a session and the packets over
-- 254 bytes, and otherwise answers the table's layout behind its length byte.
pub to_frame-response_framing :
    (r : FelicaStandardResponse) → IsValid r → to_frame r ≡ response_framing r
to_frame-response_framing r v = elim (Bool-cases (is_secure r)) [
  | inl s ↦ rw (s, to_frame_secure r s)
  | inr p ↦
      rw (p, to_frame_plain r p, to_payload-wire r v p)
        (elim (Bool-cases (ltb 254 (length (wire r)))) [
          | inl long ↦ rw (long, frame_with_length_prefix_too_long (wire r) (ground arith))
          | inr fits ↦ rw (fits, frame_with_length_prefix_fits (wire r) (ground arith))
        ])
]

-- A response in range that is sent outside a session and whose fields take at most 253 bytes is
-- framed as the table says, and the frame is read as the same response.
pub from_bytes-to_frame :
    (r : FelicaStandardResponse)
    → IsValid r
    → is_secure r ≡ false
    → length (fields r) ≤ 253
    → (to_frame r ≡ ok ((length (wire r) + 1) ∷ wire r))
      × (from_bytes ((length (wire r) + 1) ∷ wire r) ≡ ok r)
unfolding wire
from_bytes-to_frame r v p fits = (
  to_frame-response_framing r v ∙ rw (p, le→ltb_false 254 (length (wire r)) (omega arith)),
  from_bytes-wire r v p,
)

-- A response of a session in range is written as its fields, and these bytes, with anything behind
-- them, are read under its command as the same response.
pub from_secure_bytes-to_secure_payload :
    (r : FelicaStandardResponse) (trailing : List ℕ)
    → IsValid r
    → is_secure r ≡ true
    → (to_secure_payload r ≡ ok (fields r))
      × (from_secure_bytes (session_command r) (fields r ++ trailing) ≡ ok r)
from_secure_bytes-to_secure_payload r trailing v s =
    (to_secure_payload-fields r v s, from_secure_bytes-fields r trailing v s)

-- The responses that the serializer writes among those that the parser returns.
abbrev pub IsWritable : FelicaStandardResponse → Type 0
IsWritable unknown = ⊥
IsWritable (request_block_information idm block_counts) = length block_counts ≤ max_node_codes
IsWritable r = Unit

returned-IsValid :
    (n : ℕ) (r : FelicaStandardResponse)
    → IsReturned n r
    → IsWritable r
    → IsValid r × (is_secure r ≡ false) × (2 + length (fields r) ≡ n)
unfolding is_secure
returned-IsValid n (polling _ _ _) h w = h
returned-IsValid n (request_service _ _) h w = h
returned-IsValid n (request_response _ _) h w = h
returned-IsValid n (read_without_encryption _ _ _ _) h w = h
returned-IsValid n (write_without_encryption _ _ _) h w = h
returned-IsValid n (search_service_code _ _) h w = h
returned-IsValid n (request_system_code _ _) h w = h
returned-IsValid n (request_block_information idm block_counts) h w =
    ((h.0, (h.1.0, w, h.1.2)), refl, h.2)
returned-IsValid n (authentication1 _ _ _) h w = h
returned-IsValid n (authentication2 _) h w = h
returned-IsValid n (request_code_list _ _ _ _) h w = h
returned-IsValid n (request_block_information_ex _ _ _ _) h w = h
returned-IsValid n (set_parameter _ _ _) h w = h
returned-IsValid n (get_container_issue_information _ _) h w = h
returned-IsValid n (get_area_information _ _ _ _) h w = h
returned-IsValid n (get_node_property _ _ _ _) h w = h
returned-IsValid n (get_container_property _) h w = h
returned-IsValid n (request_service_v2 _ _ _ _) h w = h
returned-IsValid n (get_system_status _ _ _ _) h w = h
returned-IsValid n (request_product_information _ _ _ _) h w = h
returned-IsValid n (request_specification_version _ _ _ _) h w = h
returned-IsValid n (reset_mode _ _ _) h w = h
returned-IsValid n (authentication1_v2 _ _ _ _) h w = h
returned-IsValid n (authentication2_v2 _) h w = h
returned-IsValid n (get_container_id _) h w = h
returned-IsValid n (read _ _ _) h w = h
returned-IsValid n (write _ _) h w = h
returned-IsValid n (read_v2 _ _ _) h w = h
returned-IsValid n (write_v2 _ _) h w = h
returned-IsValid n (register_issue_id _ _ _) h w = h
returned-IsValid n (register_area _ _) h w = h
returned-IsValid n (register_service _ _ _) h w = h
returned-IsValid n (change_system_block _ _) h w = h
returned-IsValid n unknown h w = absurd h

read-IsValid :
    (bytes : List ℕ) (r : FelicaStandardResponse)
    → IsRead bytes r
    → IsWritable r
    → IsValid r × (is_secure r ≡ false) × (2 + length (fields r) ≡ length bytes)
read-IsValid bytes r (inl returned) w = returned-IsValid (length bytes) r returned w
read-IsValid bytes r (inr (same, unread)) w = absurd (subst IsWritable same w)

-- Whatever frame of at most 255 bytes is read, its response, unless it is `Unknown` or holds more
-- than 32 block counts, is framed again in as many bytes, and that frame is read as the same
-- response.
pub to_frame-from_bytes :
    (frame : List ℕ) (r : FelicaStandardResponse)
    → All IsByte frame
    → length frame ≤ 255
    → from_bytes frame ≡ ok r
    → IsWritable r
    → (to_frame r ≡ ok ((length (wire r) + 1) ∷ wire r))
      × (length (wire r) + 1 ≡ length frame)
      × (from_bytes ((length (wire r) + 1) ∷ wire r) ≡ ok r)
unfolding wire
to_frame-from_bytes frame r h short e w =
    let s = read-IsValid frame r (Ensures-ok (from_bytes-Ensures frame h) e) w in
    let both = from_bytes-to_frame r s.0 s.1 (omega (arith, s.2)) in
    (both.0, omega (arith, s.2), both.1)

abbrev pub head_byte : List ℕ → ℕ
head_byte [] = 0
head_byte (b ∷ bs) = b

framed_length :
    (written : Written (List ℕ)) (frame : List ℕ)
    → (written >>= frame_with_length_prefix) ≡ ok frame
    → (length frame ≤ 255) × (head_byte frame ≡ length frame)
framed_length panic frame e = cc
framed_length (err failure) frame e = cc
framed_length (ok payload) frame e = elim (Bool-cases (ltb 254 (length payload))) [
  | inl long ↦ absurd (ground (arith, frame_with_length_prefix_too_long payload (ground arith)))
  | inr fits ↦
      let short : length payload ≤ 254 = ground arith in
      ground (arith, short, sym (frame_with_length_prefix_fits payload short) ∙ e)
]

-- Whatever response `to_frame` accepts, in range or not, its frame is at most 255 bytes long and
-- starts with its own length.
pub to_frame-length :
    (r : FelicaStandardResponse) (frame : List ℕ)
    → to_frame r ≡ ok frame
    → (length frame ≤ 255) × (head_byte frame ≡ length frame)
to_frame-length r frame e = elim (Bool-cases (is_secure r)) [
  | inl s ↦ absurd (ground (arith, to_frame_secure r s))
  | inr p ↦ framed_length (to_payload r) frame (sym (to_frame_plain r p) ∙ e)
]
