-- ===== src/Driver/Tlv.antt =====
-- src/driver/port400/pcsc/tlv.rs: the TLV fields of the Port-400's responses. An index into the
-- response is passed on by each call; it stays far below the end of a `usize`.
pub mod Loop
pub mod Sound
pub mod Transparent
pub mod Session
unfoldable pub use felica_rs.Prelude.Slices.{slice_range}
use felica_rs.Prelude.{
  if◌then◌else◌, ℕ, ◌+◌, ◌-◌, ◌*◌, ◌/◌, ◌%◌, ◌^◌, Bool, true, false, ◌&&◌, ◌||◌, not, Option, none,
  some, List, [], ◌∷◌, ◌++◌, length, get_elem?, ltb, leb, ◌==◌, list_eq, bit_or, String, text,
}
use felica_rs.Prelude.Slices.{index}
use felica_rs.Prelude.Outcome.{◌>>◌, ◌>>=◌, Outcome, ok, err, ensure, ok_or}

abbrev pub status_tlv_tag : ℕ
status_tlv_tag = 0xc0

abbrev pub vendor_specific_tag : ℕ
vendor_specific_tag = 0xff

abbrev pub vendor_tag_response : ℕ
vendor_tag_response = 0x6d

-- The errors these functions raise: a text, or a text behind the three bytes of a status.
pub data TlvError : Type 0 where
  other : String → TlvError
  other_status timeout_status protocol_status : (value : List ℕ) → String → TlvError

abbrev pub Read : Type 0 → Type 0
Read A = Outcome TlvError A

-- `&data[from..to]`
unfoldable pub push_extended_tlv : List ℕ → ℕ → List ℕ → List ℕ
push_extended_tlv buf tag value =
    buf ++ (tag ∷ 0x82 ∷ (length value / 2 ^ 8 % 256) ∷ (length value % 256) ∷ value)

abbrev pub or_zero : Option ℕ → ℕ
or_zero none = 0
or_zero (some b) = b

unfoldable pub status_error : List ℕ → TlvError
status_error value =
    let sw1 = or_zero (get_elem? value 1) in
    let sw2 = or_zero (get_elem? value 2) in
    if sw1 == 0x64 && (sw2 == 0x00 || sw2 == 0x01)
    then timeout_status value "no response packet received"
    else if sw1 == 0x63 && sw2 == 0x01
    then protocol_status value "invalid status"
    else if sw1 == 0x69 && sw2 == 0x8a
    then other_status value "failed to get access authority"
    else other_status value ""

unfoldable pub take_tlv_value : List ℕ → ℕ → String → Read (List ℕ × ℕ)
take_tlv_value bytes idx context = do
  len ← ok_or (get_elem? bytes idx) (other (text (context ∷ ": TLV length missing" ∷ [])))
  ensure (not (leb (length bytes) (idx + len)))
      (other (text (context ∷ ": TLV length out of range" ∷ [])))
  value ← slice_range (idx + 1) (idx + 1 + len) bytes
  ok (value, idx + 1 + len)

unfoldable pub take_status_tlv : List ℕ → ℕ → String → Read ℕ
take_status_tlv bytes idx context = do
  (value, idx) ← take_tlv_value bytes idx context
  ensure (length value == 3) (other (text (context ∷ ": malformed status TLV" ∷ [])))
  ensure (list_eq value (0x00 ∷ 0x90 ∷ 0x00 ∷ [])) (status_error value)
  ok idx

-- The flag is false where the rest of the response is not parsed any further.
unfoldable pub skip_vendor_tlv : List ℕ → ℕ → String → Read (Bool × ℕ)
skip_vendor_tlv bytes idx context = skip (get_elem? bytes idx)
  where
    skip : Option ℕ → Read (Bool × ℕ)
    skip none = ok (false, idx)
    skip (some subtag) = if not (subtag == vendor_tag_response) then ok (false, idx + 1) else (do
      (value, idx) ← take_tlv_value bytes (idx + 1) context
      ensure (length value == 3 || length value == 6)
          (other (text (context ∷ ": malformed vendor TLV" ∷ [])))
      ok (true, idx))

-- `for &byte in … { len = (len << 8) | byte }`
unfoldable pub length_of : ℕ → List ℕ → ℕ
length_of len [] = len
length_of len (byte ∷ bytes) = length_of (bit_or (len * 2 ^ 8) byte) bytes

-- How many bytes of length follow a first byte of 0x80 or more.
unfoldable pub length_count : ℕ → Option ℕ
length_count first =
    if first == 0x81
    then some 1
    else if first == 0x82
    then some 2
    else if first == 0x83
    then some 3
    else if first == 0x84
    then some 4
    else none

unfoldable pub parse_length : List ℕ → Read (ℕ × ℕ)
parse_length [] = err (other "missing length field")
parse_length (first ∷ bytes) = if ltb first 0x80 then ok (first, 1) else (do
  count ← ok_or (length_count first) (other "unsupported TLV length encoding")
  ensure (not (ltb (length (first ∷ bytes)) (1 + count))) (other "incomplete TLV length field")
  digits ← slice_range 1 (1 + count) (first ∷ bytes)
  ok (length_of 0 digits, 1 + count))

unfoldable pub verify_status : List ℕ → Read (Unit {0})
verify_status bytes = if ltb (length bytes) 2 then err (other "short CCID status") else (do
  sw1 ← index bytes (length bytes - 2)
  sw2 ← index bytes (length bytes - 1)
  if sw1 == 0x90 && sw2 == 0x00 then ok tt else err (other_status (sw1 ∷ sw2 ∷ []) "CCID status"))
