-- ===== src/Driver/Tlv/Transparent/Data.antt =====
-- A response that carries a payload, as `push_extended_tlv` writes it, is parsed to that payload.
use felica_rs.Prelude.{
  ℕ, suc, ◌+◌, ◌/◌, ◌%◌, ◌^◌, ◌≤◌, ◌<◌, ◌≡◌, refl, ap, ◌∙◌, none, some, List, [], ◌∷◌, length,
  take_all, lt→ltb, le→ltb_false, list_eq, bit_or, arith,
}
use felica_rs.Prelude.Outcome.{ok, ensure, ok_or}
use felica_rs.Prelude.Bits.{agree, table}
use felica_rs.Driver.Tlv.{
  slice_range, push_extended_tlv, take_tlv_value, take_status_tlv, length_of, length_count,
  parse_length,
}
use felica_rs.Driver.Tlv.Loop.{next, round, rounds, parse_fields}
use felica_rs.Driver.Tlv.Transparent.{
  response_data_tag, TransparentExchangeResult, default_result, map_err, response_data,
  transparent_field, parse_transparent_response,
}

-- The status field of a success, with which a response begins.
abbrev pub success : List ℕ
success = 0xc0 ∷ 0x03 ∷ 0x00 ∷ 0x90 ∷ 0x00 ∷ []

zero-bit_or : (b : ℕ) → b < 256 → bit_or 0 b ≡ b
unfolding agree
zero-bit_or = table 256 _ (λ b. b) refl

short_length :
    (payload : List ℕ)
    → length payload < 256
    → parse_length (0x82 ∷ (length payload / 2 ^ 8 % 256) ∷ (length payload % 256) ∷ payload)
      ≡ ok (length payload, 3)
unfolding parse_length length_count length_of slice_range ensure ok_or
short_length payload h =
    let high : length payload / 2 ^ 8 % 256 ≡ 0 = omega arith in
    let low : length payload % 256 ≡ length payload = omega arith in
    rw (high, low) (ground (arith, zero-bit_or (length payload) h))

abbrev response : List ℕ → List ℕ
response payload = push_extended_tlv success response_data_tag payload

status_round :
    (payload : List ℕ) (result : TransparentExchangeResult)
    → round transparent_field (response payload) 0 result ≡ ok (next 5 result)
unfolding round transparent_field take_status_tlv take_tlv_value slice_range ensure ok_or list_eq
    push_extended_tlv
status_round payload result = ground arith

data_round :
    (payload : List ℕ)
    → length payload < 256
    → round transparent_field (response payload) 5 default_result
      ≡ ok (
          next
            (9 + length payload)
            (record { payload = payload; rf_status = none; valid_bits = none }))
unfolding round transparent_field response_data slice_range ensure ok_or map_err default_result
    push_extended_tlv
data_round payload h = ground (arith, short_length payload h, take_all payload)

rounds_next :
    (fuel : ℕ) (bytes : List ℕ) (idx : ℕ) (result : TransparentExchangeResult) {i : ℕ}
    {found : TransparentExchangeResult}
    → idx + 1 < length bytes
    → round transparent_field bytes idx result ≡ ok (next i found)
    → rounds transparent_field (suc fuel) bytes idx result
      ≡ rounds transparent_field fuel bytes i found
unfolding rounds
rounds_next fuel bytes idx result h e = rw (lt→ltb (idx + 1) (length bytes) h, e)

rounds_end :
    (fuel : ℕ) (bytes : List ℕ) (idx : ℕ) (result : TransparentExchangeResult)
    → length bytes ≤ idx + 1
    → rounds transparent_field (suc fuel) bytes idx result ≡ some (ok result)
unfolding rounds
rounds_end fuel bytes idx result h = rw (le→ltb_false (idx + 1) (length bytes) h)

length-response : (payload : List ℕ) → length (response payload) ≡ 9 + length payload
unfolding push_extended_tlv
length-response payload = omega arith

-- A response that begins with a success and carries a payload of fewer than 256 bytes, in the form
-- that `push_extended_tlv` writes, is parsed to that payload, with no status and no bit count.
pub parse_transparent_response-push_extended_tlv :
    (payload : List ℕ)
    → length payload < 256
    → parse_transparent_response (push_extended_tlv success response_data_tag payload)
      ≡ some (ok (record { payload = payload; rf_status = none; valid_bits = none }))
unfolding parse_transparent_response parse_fields
parse_transparent_response-push_extended_tlv payload h =
    let n : ℕ = length payload in
    let bytes : List ℕ = response payload in
    let size : length bytes ≡ 9 + n = length-response payload in
    let fuel : length bytes + 1 ≡ suc (suc (suc (7 + n))) = omega (arith, size) in
    ap (λ f. rounds transparent_field f bytes 0 default_result) fuel
    ∙ rounds_next (suc (suc (7 + n))) bytes 0 default_result (omega (arith, size))
        (status_round payload default_result)
    ∙ rounds_next (suc (7 + n)) bytes 5 default_result (omega (arith, size)) (data_round payload h)
    ∙ rounds_end (7 + n) bytes (9 + n) _ (omega (arith, size))
