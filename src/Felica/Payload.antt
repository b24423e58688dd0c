-- ===== src/Felica/Payload.antt =====
-- src/felica_standard/payload.rs and `frame_with_length_prefix` of command/mod.rs: building the
-- bytes of a command or response, and the checks that pair a payload with its status flag.
pub mod Layout
use felica_rs.Prelude.{
  ℕ, ◌+◌, ◌%◌, Bool, true, false, Option, none, some, List, [], ◌∷◌, ◌++◌, String, ltb, leb, ◌==◌,
  ◌&&◌, ◌||◌, not, if◌then◌else◌, length, text,
}
use felica_rs.Prelude.Bytes.{to_le_bytes, to_be_bytes}
use felica_rs.Prelude.Outcome.{Outcome, ok, err, panic, ◌>>=◌, ◌>>◌, ensure, ok_or}
use felica_rs.Felica.Constants.{max_packet_len}
use felica_rs.Felica.Error.{ProtocolError, protocol, protocol_value}
use felica_rs.Felica.Types.Service.{ServiceCode, service_code_bytes}
use felica_rs.Felica.Types.Block.{BlockListElement, pack}

pub record PayloadWriter : Type 0 where
  pub buf : List ℕ

abbrev pub extend_bytes : List ℕ → PayloadWriter → PayloadWriter
extend_bytes bytes w = record { buf = w.buf ++ bytes }

unfoldable pub new : ℕ → PayloadWriter
new opcode = record { buf = opcode ∷ [] }

-- `with_capacity`: the capacity has no effect on the bytes.
unfoldable pub with_capacity : ℕ → PayloadWriter
with_capacity capacity = record { buf = [] }

unfoldable pub push_u8 : ℕ → PayloadWriter → PayloadWriter
push_u8 value = extend_bytes (value ∷ [])

unfoldable pub push_idm : List ℕ → PayloadWriter → PayloadWriter
push_idm idm = extend_bytes idm

unfoldable pub response : ℕ → List ℕ → PayloadWriter
unfolding push_u8 push_idm with_capacity
response code idm = push_idm idm (push_u8 code (with_capacity 9))

unfoldable pub status_flags : ℕ → ℕ → PayloadWriter → PayloadWriter
unfolding push_u8
status_flags status_flag1 status_flag2 w = push_u8 status_flag2 (push_u8 status_flag1 w)

unfoldable pub push_flag : Bool → PayloadWriter → PayloadWriter
unfolding push_u8
push_flag value = push_u8 (if value then 1 else 0)

-- `u8::try_from(len).expect(…)`
unfoldable pub push_count : ℕ → PayloadWriter → Outcome ProtocolError PayloadWriter
unfolding push_u8
push_count len w = if ltb len 256 then ok (push_u8 len w) else panic

unfoldable pub extend_u16_le : ℕ → PayloadWriter → PayloadWriter
extend_u16_le value = extend_bytes (to_le_bytes value)

unfoldable pub extend_u16_be : ℕ → PayloadWriter → PayloadWriter
extend_u16_be value = extend_bytes (to_be_bytes value)

unfoldable pub extend_u16_list_le : List ℕ → PayloadWriter → PayloadWriter
unfolding extend_u16_le
extend_u16_list_le [] w = w
extend_u16_list_le (v ∷ vs) w = extend_u16_list_le vs (extend_u16_le v w)

unfoldable pub extend_u16_list_be : List ℕ → PayloadWriter → PayloadWriter
unfolding extend_u16_be
extend_u16_list_be [] w = w
extend_u16_list_be (v ∷ vs) w = extend_u16_list_be vs (extend_u16_be v w)

unfoldable pub extend_counted_u16_le : List ℕ → PayloadWriter → Outcome ProtocolError PayloadWriter
unfolding push_count
extend_counted_u16_le values w = do
  w ← push_count (length values) w
  ok (extend_u16_list_le values w)

unfoldable pub extend_counted_u16_be : List ℕ → PayloadWriter → Outcome ProtocolError PayloadWriter
unfolding push_count
extend_counted_u16_be values w = do
  w ← push_count (length values) w
  ok (extend_u16_list_be values w)

unfoldable pub extend_service_codes : List ServiceCode → PayloadWriter → PayloadWriter
unfolding service_code_bytes
extend_service_codes [] w = w
extend_service_codes (c ∷ cs) w = extend_service_codes cs (extend_bytes (service_code_bytes c) w)

unfoldable pub extend_counted_service_codes :
    List ServiceCode → PayloadWriter → Outcome ProtocolError PayloadWriter
unfolding push_count
extend_counted_service_codes codes w = do
  w ← push_count (length codes) w
  ok (extend_service_codes codes w)

unfoldable pub extend_block_list : List BlockListElement → PayloadWriter → PayloadWriter
extend_block_list [] w = w
extend_block_list (b ∷ bs) w = extend_block_list bs (extend_bytes (pack b) w)

unfoldable pub extend_counted_block_list :
    List BlockListElement → PayloadWriter → Outcome ProtocolError PayloadWriter
unfolding push_count
extend_counted_block_list blocks w = do
  w ← push_count (length blocks) w
  ok (extend_block_list blocks w)

abbrev pub packet_too_long : String
packet_too_long =
    "FeliCa packet would be {frame_len} bytes, but the one-byte data length field caps a packet at 255 bytes"

-- `frame_len as u8` keeps the low eight bits.
unfoldable pub frame_with_length_prefix : List ℕ → Outcome ProtocolError (List ℕ)
frame_with_length_prefix payload =
    let frame_len = length payload + 1 in
    if ltb max_packet_len frame_len
    then err (protocol_value packet_too_long frame_len)
    else ok ((frame_len % 256) ∷ payload)

unfoldable pub finish_frame : PayloadWriter → Outcome ProtocolError (List ℕ)
unfolding frame_with_length_prefix
finish_frame w = frame_with_length_prefix w.buf

unfoldable pub finish : PayloadWriter → List ℕ
finish w = w.buf

abbrev pub is_some {ℓ} : {A : Type ℓ} → Option A → Bool
is_some (some a) = true
is_some none = false

unfoldable pub ensure_omitted_on_error :
    String → String → ℕ → Bool → Outcome ProtocolError (Unit {0})
ensure_omitted_on_error what noun status_flag1 has_result =
    ensure (not (not (status_flag1 == 0) && has_result))
      (protocol (text (what ∷ " " ∷ noun ∷ " must be omitted on error" ∷ [])))

unfoldable pub for_success {ℓ} :
    {R : Type ℓ} → String → String → ℕ → Option R → Outcome ProtocolError (Option R)
unfolding ensure_omitted_on_error
for_success what noun status_flag1 result = do
  ensure_omitted_on_error what noun status_flag1 (is_some result)
  if status_flag1 == 0
      then (do
        r ← ok_or result (protocol (text (what ∷ " " ∷ noun ∷ " is missing on success" ∷ [])))
        ok (some r))
      else ok none

unfoldable pub ensure_count_in_range : String → ℕ → ℕ → Outcome ProtocolError (Unit {0})
ensure_count_in_range what len max =
    ensure (not ((len == 0) || ltb max len)) (protocol (text (what ∷ " out of range" ∷ [])))

unfoldable pub ensure_fits_in_count : String → ℕ → Outcome ProtocolError (Unit {0})
ensure_fits_in_count what len = ensure (leb len 255) (protocol (text (what ∷ " out of range" ∷ [])))
