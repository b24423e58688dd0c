-- ===== src/Driver/Tlv/Transparent/Sound.antt =====
-- The parser of a transparent exchange on any bytes.
use felica_rs.Prelude.{ℕ, ◌+◌, ◌≤◌, not, List, [], ◌∷◌, length, drop, ltb, le→leb, ◌==◌, arith}
use felica_rs.Prelude.Outcome.Ensures.{
  Ensures, returns, fails, Ensures-bind, Ensures-ensure, Ensures-if,
}
use felica_rs.Driver.Tlv.{status_tlv_tag, vendor_specific_tag, Read, TlvError}
use felica_rs.Driver.Tlv.Loop.{stop}
use felica_rs.Driver.Tlv.Sound.{
  Advances, Goes, known_next-Goes, Answers, parse_fields-Answers, slice_range-Ensures,
  take_tlv_value-Ensures, take_status_tlv-Ensures, skip_vendor_tlv-Ensures, parse_length-Ensures,
}
use felica_rs.Driver.Tlv.Transparent.{
  response_bit_framing_tag, response_status_tag, response_data_tag, TransparentExchangeResult,
  default_result, map_err, context, bit_framing, response_status, response_data, transparent_field,
  parse_transparent_response,
}

map_err-Ensures :
    {A : Type 0} {P : A → Type 0} {r : Read A} (e : TlvError)
    → Ensures P r
    → Ensures P (map_err r e)
unfolding map_err
map_err-Ensures e (returns h) = returns h
map_err-Ensures e fails = fails

bit_framing-Ensures :
    (bytes value : List ℕ) (idx i : ℕ) (result : TransparentExchangeResult)
    → Advances bytes idx i
    → Ensures (Goes bytes idx) (bit_framing value i result)
unfolding bit_framing
bit_framing-Ensures bytes [] idx i result h = fails
bit_framing-Ensures bytes (bits ∷ []) idx i result h = returns h
bit_framing-Ensures bytes (bits ∷ b ∷ value) idx i result h = fails

response_status-Ensures :
    (bytes value : List ℕ) (idx i : ℕ) (result : TransparentExchangeResult)
    → Advances bytes idx i
    → Ensures (Goes bytes idx) (response_status value i result)
unfolding response_status
response_status-Ensures bytes [] idx i result h = fails
response_status-Ensures bytes (status ∷ []) idx i result h = fails
response_status-Ensures bytes (status ∷ b ∷ []) idx i result h = returns h
response_status-Ensures bytes (status ∷ b ∷ c ∷ value) idx i result h = fails

response_data-Ensures :
    (bytes : List ℕ) (idx : ℕ) (result : TransparentExchangeResult)
    → idx ≤ length bytes
    → Ensures (Goes bytes idx) (response_data bytes idx result)
unfolding response_data
response_data-Ensures bytes idx result h = rw (le→leb idx (length bytes) h) (
    Ensures-bind (map_err-Ensures _ (parse_length-Ensures (drop idx bytes)))
      λ (len, consumed) (positive, _).
        Ensures-ensure {t = not (ltb (length bytes) (idx + consumed + len))} _ λ fits.
          Ensures-bind
            (slice_range-Ensures (idx + consumed) (idx + consumed + len) bytes (omega arith)
              (ground arith))
            λ value _. returns (omega (arith, positive), ground arith))

transparent_field-Ensures :
    (tag : ℕ) (bytes : List ℕ) (idx : ℕ) (result : TransparentExchangeResult)
    → idx ≤ length bytes
    → Ensures (Goes bytes idx) (transparent_field tag bytes idx result)
unfolding transparent_field
transparent_field-Ensures tag bytes idx result h =
    Ensures-if (tag == status_tlv_tag)
      (Ensures-bind (take_status_tlv-Ensures bytes idx context) λ i a. returns a)
      (Ensures-if (tag == response_bit_framing_tag)
        (Ensures-bind (take_tlv_value-Ensures bytes idx context)
          λ (value, i) a. bit_framing-Ensures bytes value idx i result a)
        (Ensures-if (tag == response_status_tag)
          (Ensures-bind (take_tlv_value-Ensures bytes idx context)
            λ (value, i) a. response_status-Ensures bytes value idx i result a)
          (Ensures-if (tag == response_data_tag) (response_data-Ensures bytes idx result h) (
            Ensures-if (tag == vendor_specific_tag)
              (Ensures-bind (skip_vendor_tlv-Ensures bytes idx context)
                λ (known, i) a. returns (known_next-Goes bytes idx i known result a))
              (returns {a = stop result} tt)))))

-- Parsing any response of a transparent exchange ends within one round more than it has bytes, with
-- a result or an error and without a panic.
pub parse_transparent_response-Answers :
    (bytes : List ℕ) → Answers (parse_transparent_response bytes)
unfolding parse_transparent_response
parse_transparent_response-Answers bytes =
    parse_fields-Answers transparent_field transparent_field-Ensures bytes default_result
