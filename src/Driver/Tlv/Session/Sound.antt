-- ===== src/Driver/Tlv/Session/Sound.antt =====
-- The parsers of Manage Session and Switch Protocol on any bytes.
use felica_rs.Prelude.{ℕ, ◌+◌, ◌≤◌, List, length, ◌==◌, arith}
use felica_rs.Prelude.Outcome.Ensures.{Ensures, returns, Ensures-bind, Ensures-ensure, Ensures-if}
use felica_rs.Driver.Tlv.{status_tlv_tag, vendor_specific_tag}
use felica_rs.Driver.Tlv.Loop.{stop}
use felica_rs.Driver.Tlv.Sound.{
  Goes, known_next-Goes, Answers, parse_fields-Answers, take_tlv_value-Ensures,
  take_status_tlv-Ensures, skip_vendor_tlv-Ensures,
}
use felica_rs.Driver.Tlv.Session.{
  device_state_tlv_tag, switch_protocol_metadata_tag, extended_tag_prefix, manage_context,
  switch_context, manage_field, switch_field, parse_manage_session_response,
  parse_switch_protocol_response,
}

manage_field-Ensures :
    (tag : ℕ) (bytes : List ℕ) (idx : ℕ) (u : Unit {0})
    → idx ≤ length bytes
    → Ensures (Goes bytes idx) (manage_field tag bytes idx u)
unfolding manage_field
manage_field-Ensures tag bytes idx u h =
    Ensures-if (tag == status_tlv_tag)
      (Ensures-bind (take_status_tlv-Ensures bytes idx manage_context) λ i a. returns a)
      (Ensures-if (tag == device_state_tlv_tag)
        (Ensures-bind (take_tlv_value-Ensures bytes idx manage_context)
          λ (value, i) a. Ensures-ensure _ λ _. returns a)
        (Ensures-if (tag == vendor_specific_tag)
          (Ensures-bind (skip_vendor_tlv-Ensures bytes idx manage_context)
            λ (known, i) a. returns (known_next-Goes bytes idx i known u a))
          (returns {a = stop u} tt)))

switch_field-Ensures :
    (tag : ℕ) (bytes : List ℕ) (idx : ℕ) (u : Unit {0})
    → idx ≤ length bytes
    → Ensures (Goes bytes idx) (switch_field tag bytes idx u)
unfolding switch_field
switch_field-Ensures tag bytes idx u h =
    Ensures-if (tag == status_tlv_tag)
      (Ensures-bind (take_status_tlv-Ensures bytes idx switch_context) λ i a. returns a)
      (Ensures-if (tag == switch_protocol_metadata_tag)
        (Ensures-bind (take_tlv_value-Ensures bytes idx switch_context)
          λ (value, i) a. Ensures-ensure _ λ _. returns a)
        (Ensures-if (tag == extended_tag_prefix)
          (Ensures-ensure _ λ _.
            Ensures-bind (take_tlv_value-Ensures bytes (idx + 1) switch_context)
              λ (value, i) a. returns (omega (arith, a.0), a.1))
          (Ensures-if (tag == vendor_specific_tag)
            (Ensures-bind (skip_vendor_tlv-Ensures bytes idx switch_context)
              λ (known, i) a. returns (known_next-Goes bytes idx i known u a))
            (returns {a = stop u} tt))))

-- Parsing any response of Manage Session ends within one round more than it has bytes, with success
-- or an error and without a panic.
pub parse_manage_session_response-Answers :
    (bytes : List ℕ) → Answers (parse_manage_session_response bytes)
unfolding parse_manage_session_response
parse_manage_session_response-Answers bytes =
    parse_fields-Answers manage_field manage_field-Ensures bytes tt

-- Parsing any response of Switch Protocol ends within one round more than it has bytes, with
-- success or an error and without a panic.
pub parse_switch_protocol_response-Answers :
    (bytes : List ℕ) → Answers (parse_switch_protocol_response bytes)
unfolding parse_switch_protocol_response
parse_switch_protocol_response-Answers bytes =
    parse_fields-Answers switch_field switch_field-Ensures bytes tt
