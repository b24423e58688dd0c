-- ===== src/Driver/Tlv/Session.antt =====
-- src/driver/port400/pcsc/tlv.rs: the responses of Manage Session and Switch Protocol.
pub mod Sound
use felica_rs.Prelude.{
  ℕ, ◌+◌, Bool, false, ◌||◌, Option, none, some, List, [], ◌∷◌, length, get_elem?, ◌==◌, String,
  text, if◌then◌else◌,
}
use felica_rs.Prelude.Outcome.{ok, ensure, ◌>>=◌, ◌>>◌}
use felica_rs.Driver.Tlv.{
  status_tlv_tag, vendor_specific_tag, Read, take_tlv_value, take_status_tlv, skip_vendor_tlv,
  other,
}
use felica_rs.Driver.Tlv.Loop.{Round, next, stop, Result, known_next, parse_fields}

abbrev pub device_state_tlv_tag : ℕ
device_state_tlv_tag = 0x80

abbrev pub switch_protocol_metadata_tag : ℕ
switch_protocol_metadata_tag = 0x8f

abbrev pub extended_tag_prefix : ℕ
extended_tag_prefix = 0x5f

abbrev pub atr_tlv_tag : ℕ
atr_tlv_tag = 0x51

abbrev pub manage_context : String
manage_context = "manageSession"

abbrev pub switch_context : String
switch_context = "switchProtocol"

unfoldable pub manage_field : ℕ → List ℕ → ℕ → Unit {0} → Read (Round (Unit {0}))
manage_field tag bytes idx u =
    if tag == status_tlv_tag
    then (do idx ← take_status_tlv bytes idx manage_context; ok (next idx u))
    else if tag == device_state_tlv_tag
    then (do
      (value, idx) ← take_tlv_value bytes idx manage_context
      ensure (length value == 3)
          (other (text (manage_context ∷ ": malformed device state TLV" ∷ [])))
      ok (next idx u))
    else if tag == vendor_specific_tag
    then (do (known, idx) ← skip_vendor_tlv bytes idx manage_context; ok (known_next known idx u))
    else ok (stop u)

unfoldable pub parse_manage_session_response : List ℕ → Result (Unit {0})
unfolding manage_field
parse_manage_session_response bytes = parse_fields manage_field bytes tt

abbrev pub is_tag : Option ℕ → ℕ → Bool
is_tag none tag = false
is_tag (some b) tag = b == tag

unfoldable pub switch_field : ℕ → List ℕ → ℕ → Unit {0} → Read (Round (Unit {0}))
switch_field tag bytes idx u =
    if tag == status_tlv_tag
    then (do idx ← take_status_tlv bytes idx switch_context; ok (next idx u))
    else if tag == switch_protocol_metadata_tag
    then (do
      (value, idx) ← take_tlv_value bytes idx switch_context
      ensure (length value == 1 || length value == 3)
          (other (text (switch_context ∷ ": malformed protocol TLV" ∷ [])))
      ok (next idx u))
    else if tag == extended_tag_prefix
    then (do
      ensure (is_tag (get_elem? bytes idx) atr_tlv_tag)
          (other (text (switch_context ∷ ": ATR error" ∷ [])))
      (_, idx) ← take_tlv_value bytes (idx + 1) switch_context
      ok (next idx u))
    else if tag == vendor_specific_tag
    then (do (known, idx) ← skip_vendor_tlv bytes idx switch_context; ok (known_next known idx u))
    else ok (stop u)

unfoldable pub parse_switch_protocol_response : List ℕ → Result (Unit {0})
unfolding switch_field
parse_switch_protocol_response bytes = parse_fields switch_field bytes tt
