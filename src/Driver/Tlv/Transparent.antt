-- ===== src/Driver/Tlv/Transparent.antt =====
-- src/driver/port400/pcsc/tlv.rs: the response of a transparent exchange.
pub mod Sound
pub mod Data
use felica_rs.Prelude.{
  ℕ, ◌+◌, not, Option, none, some, List, [], ◌∷◌, ◌++◌, length, ltb, ◌==◌, String, text,
  if◌then◌else◌,
}
use felica_rs.Prelude.Slices.{slice_from}
use felica_rs.Prelude.Outcome.{Outcome, ok, err, panic, ensure, ◌>>=◌, ◌>>◌}
use felica_rs.Driver.Tlv.{
  status_tlv_tag, vendor_specific_tag, Read, slice_range, take_tlv_value, take_status_tlv,
  skip_vendor_tlv, parse_length, TlvError, other,
}
use felica_rs.Driver.Tlv.Loop.{Round, next, stop, Result, known_next, parse_fields}

abbrev pub response_bit_framing_tag : ℕ
response_bit_framing_tag = 0x92

abbrev pub response_status_tag : ℕ
response_status_tag = 0x96

abbrev pub response_data_tag : ℕ
response_data_tag = 0x97

pub record TransparentExchangeResult : Type 0 where
  pub payload : List ℕ
  pub rf_status : Option ℕ
  pub valid_bits : Option ℕ

unfoldable pub default_result : TransparentExchangeResult
default_result = record { payload = []; rf_status = none; valid_bits = none }

-- `parse_length(…).map_err(|_| e)`
unfoldable pub map_err {ℓ} : {A : Type ℓ} → Outcome TlvError A → TlvError → Outcome TlvError A
map_err (ok a) e = ok a
map_err (err _) e = err e
map_err panic e = panic

abbrev pub context : String
context = "transparentExchange"

unfoldable pub bit_framing :
    List ℕ → ℕ → TransparentExchangeResult → Read (Round TransparentExchangeResult)
bit_framing (bits ∷ []) idx result = ok (
    next idx (record {
      payload = result.payload;
      rf_status = result.rf_status;
      valid_bits = some (if bits == 0 then 8 else bits);
    }))
bit_framing _ idx result = err (other (text (context ∷ ": Reception Bit Framing error" ∷ [])))

unfoldable pub response_status :
    List ℕ → ℕ → TransparentExchangeResult → Read (Round TransparentExchangeResult)
response_status (status ∷ _ ∷ []) idx result = ok (
    next idx (record {
      payload = result.payload;
      rf_status = some status;
      valid_bits = result.valid_bits;
    }))
response_status _ idx result = err (other (text (context ∷ ": Response Status error" ∷ [])))

unfoldable pub response_data :
    List ℕ → ℕ → TransparentExchangeResult → Read (Round TransparentExchangeResult)
response_data bytes idx result = do
  rest ← slice_from idx bytes
  (len, consumed) ←
      map_err (parse_length rest) (other (text (context ∷ ": Response Data error" ∷ [])))
  ensure (not (ltb (length bytes) (idx + consumed + len)))
      (other (text (context ∷ ": Response Data out of range" ∷ [])))
  value ← slice_range (idx + consumed) (idx + consumed + len) bytes
  ok (
      next (idx + consumed + len) (record {
        payload = result.payload ++ value;
        rf_status = result.rf_status;
        valid_bits = result.valid_bits;
      }))

unfoldable pub transparent_field :
    ℕ → List ℕ → ℕ → TransparentExchangeResult → Read (Round TransparentExchangeResult)
unfolding bit_framing response_status response_data
transparent_field tag bytes idx result =
    if tag == status_tlv_tag
    then (do idx ← take_status_tlv bytes idx context; ok (next idx result))
    else if tag == response_bit_framing_tag
    then (do (value, idx) ← take_tlv_value bytes idx context; bit_framing value idx result)
    else if tag == response_status_tag
    then (do (value, idx) ← take_tlv_value bytes idx context; response_status value idx result)
    else if tag == response_data_tag
    then response_data bytes idx result
    else if tag == vendor_specific_tag
    then (do (known, idx) ← skip_vendor_tlv bytes idx context; ok (known_next known idx result))
    else ok (stop result)

unfoldable pub parse_transparent_response : List ℕ → Result TransparentExchangeResult
unfolding transparent_field
parse_transparent_response bytes = parse_fields transparent_field bytes default_result
