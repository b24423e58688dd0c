-- ===== src/Driver/Framing.antt =====
-- src/driver/framing.rs: the envelope of Sony's readers, with its dialects. `None` is `err tt`.
-- A `u16` sum panics on overflow where the build checks it, and wraps where it does not.
pub mod Sums
pub mod Written
pub mod Ranges
pub mod Header
pub mod RoundTrip
pub mod Sound
pub mod Ack
use felica_rs.Prelude.{
  ℕ, ◌+◌, ◌-◌, ◌/◌, ◌%◌, ◌≤◌, ◌<◌, Bool, true, false, ◌&&◌, Option, none, some, List, [], ◌∷◌, ◌++◌,
  length, take, drop, get_elem?, ltb, leb, ◌==◌, list_eq, if◌then◌else◌,
}
use felica_rs.Prelude.Bytes.{to_le_bytes, to_be_bytes, from_le_bytes, from_be_bytes}
use felica_rs.Prelude.Slices.{slice_to}
use felica_rs.Prelude.Outcome.{Outcome, ok, err, panic, ◌>>=◌, ◌>>◌, ensure, assert, ok_or}

abbrev pub sof : List ℕ
sof = 0x00 ∷ 0x00 ∷ 0xff ∷ []

abbrev pub ack_bytes : List ℕ
ack_bytes = 0x00 ∷ 0x00 ∷ 0xff ∷ 0x00 ∷ 0xff ∷ 0x00 ∷ []

abbrev pub error_bytes : List ℕ
error_bytes = 0x00 ∷ 0x00 ∷ 0xff ∷ 0xff ∷ 0xff ∷ 0x00 ∷ []

abbrev pub postamble : ℕ
postamble = 0x00

abbrev pub extended_length_marker : List ℕ
extended_length_marker = 0xff ∷ 0xff ∷ []

abbrev pub length_offset : ℕ
length_offset = 3

abbrev pub normal_data_start : ℕ
normal_data_start = 5

abbrev pub extended_data_start : ℕ
extended_data_start = 8

abbrev pub normal_length_limit : ℕ
normal_length_limit = 256

abbrev pub status_error_byte : ℕ
status_error_byte = 0x7f

-- Whether arithmetic overflow panics (a debug build) or wraps (a release build).
pub data Profile : Type 0 where
  checked wrapping : Profile

-- A call that answers an `Option`, or panics.
abbrev pub Answer : Type 0 → Type 0
Answer A = Outcome (Unit {0}) A

unfoldable pub add_u16 : Profile → ℕ → ℕ → Answer ℕ
add_u16 checked a b = if ltb (a + b) 65536 then ok (a + b) else panic
add_u16 wrapping a b = ok ((a + b) % 65536)

-- `bytes.iter().map(|b| *b as u16).sum()`
unfoldable pub sum_u16 : Profile → ℕ → List ℕ → Answer ℕ
sum_u16 p acc [] = ok acc
sum_u16 p acc (b ∷ bs) = add_u16 p acc b >>= λ s. sum_u16 p s bs

unfoldable pub checksum : Profile → List ℕ → Answer ℕ
checksum p bytes = do sum ← sum_u16 p 0 bytes; ok ((256 - sum % 256) % 256)

unfoldable pub length_checksum : Profile → ℕ → Answer ℕ
unfolding checksum
length_checksum p len = checksum p (len ∷ [])

unfoldable pub checksum_matches : Profile → List ℕ → ℕ → Answer Bool
checksum_matches p bytes checksum_byte = do
  sum ← sum_u16 p 0 bytes
  total ← add_u16 p sum checksum_byte
  ok (total % 256 == 0)

-- `data.get(from..to)`
abbrev pub get_range : ℕ → ℕ → List ℕ → Option (List ℕ)
get_range from to bytes =
    if leb to (length bytes) then some (take (to - from) (drop from bytes)) else none

-- `left == Some(&right)`
abbrev pub is_slice : Option (List ℕ) → List ℕ → Bool
is_slice none ys = false
is_slice (some xs) ys = list_eq xs ys

abbrev pub is_byte : Option ℕ → ℕ → Bool
is_byte none y = false
is_byte (some x) y = x == y

unfoldable pub has_sof : List ℕ → Bool
has_sof bytes = is_slice (get_range 0 3 bytes) sof

pub data LengthEncoding : Type 0 where
  normal extended_little_endian normal_or_extended_big_endian : LengthEncoding

pub data ErrorDetection : Type 0 where
  error_frame status_byte : ErrorDetection

pub record FrameFormat : Type 0 where
  pub length_encoding : LengthEncoding
  pub error_detection : ErrorDetection

pub data FrameType : Type 0 where
  ack error : FrameType
  payload_frame : List ℕ → FrameType

pub record Frame : Type 0 where
  pub raw : List ℕ
  pub frame_type : FrameType

unfoldable pub ack_frame : Frame
ack_frame = record { raw = ack_bytes; frame_type = ack }

unfoldable pub payload_of : Frame → Option (List ℕ)
payload_of f = elim (f.frame_type) [ payload_frame payload ↦ some payload | _ ↦ none ]

unfoldable pub push_normal_length : Profile → List ℕ → ℕ → Answer (List ℕ)
push_normal_length p frame len = do
  lcs ← length_checksum p (len % 256)
  ok ((frame ++ (len % 256) ∷ []) ++ lcs ∷ [])

unfoldable pub push_extended_length : Profile → List ℕ → List ℕ → Answer (List ℕ)
push_extended_length p frame len_bytes = do
  lcs ← checksum p len_bytes
  ok (((frame ++ extended_length_marker) ++ len_bytes) ++ lcs ∷ [])

-- `len as u16` keeps the low sixteen bits.
unfoldable pub push_length : Profile → List ℕ → ℕ → LengthEncoding → Answer (List ℕ)
unfolding push_normal_length push_extended_length
push_length p frame len normal = do
  assert (ltb len normal_length_limit)
  push_normal_length p frame len
push_length p frame len extended_little_endian =
    push_extended_length p frame (to_le_bytes (len % 65536))
push_length p frame len normal_or_extended_big_endian =
    if ltb len normal_length_limit
    then push_normal_length p frame len
    else push_extended_length p frame (to_be_bytes (len % 65536))

unfoldable pub build : Profile → FrameFormat → List ℕ → Answer Frame
unfolding push_length
build p f payload = do
  raw ← push_length p sof (length payload) f.length_encoding
  dcs ← checksum p payload
  ok (record {
    raw = ((raw ++ payload) ++ dcs ∷ []) ++ postamble ∷ [];
    frame_type = payload_frame payload;
  })

pub record FrameLayout : Type 0 where
  pub payload_length : ℕ
  pub length_bytes : List ℕ
  pub lcs : ℕ
  pub data_start : ℕ

unfoldable pub is_extended : LengthEncoding → List ℕ → Bool
is_extended normal bytes = false
is_extended _ bytes = is_slice (get_range 3 5 bytes) extended_length_marker

-- The two length bytes, in the order of the encoding.
unfoldable pub length_of_pair : LengthEncoding → List ℕ → ℕ
length_of_pair extended_little_endian (a ∷ b ∷ _) = from_le_bytes a b
length_of_pair _ (a ∷ b ∷ _) = from_be_bytes a b
length_of_pair _ _ = 0

unfoldable pub parse_layout : LengthEncoding → List ℕ → Answer FrameLayout
unfolding is_extended length_of_pair
parse_layout encoding bytes =
    if is_extended encoding bytes
    then (do
      length_bytes ← ok_or (get_range 5 7 bytes) tt
      lcs ← ok_or (get_elem? bytes 7) tt
      ok (record {
        payload_length = length_of_pair encoding length_bytes;
        length_bytes = length_bytes;
        lcs = lcs;
        data_start = extended_data_start;
      }))
    else (do
      len ← ok_or (get_elem? bytes length_offset) tt
      length_bytes ← ok_or (get_range 3 4 bytes) tt
      lcs ← ok_or (get_elem? bytes 4) tt
      ok (record {
        payload_length = len;
        length_bytes = length_bytes;
        lcs = lcs;
        data_start = normal_data_start;
      }))

-- The sums do not reach the end of a `usize`: the frame lies in memory.
unfoldable pub frame_len : FrameLayout → ℕ
frame_len l = l.data_start + l.payload_length + 2

unfoldable pub validated_payload : Profile → FrameLayout → List ℕ → Answer (List ℕ)
validated_payload p l bytes = do
  length_ok ← checksum_matches p l.length_bytes l.lcs
  ensure length_ok tt
  let data_end = l.data_start + l.payload_length
  payload ← ok_or (get_range l.data_start data_end bytes) tt
  dcs ← ok_or (get_elem? bytes data_end) tt
  payload_ok ← checksum_matches p payload dcs
  ensure payload_ok tt
  ensure (is_byte (get_elem? bytes (data_end + 1)) postamble) tt
  ok payload

-- The frames that are told without a length, with the bytes that they take.
unfoldable pub special_frame : ErrorDetection → List ℕ → Option (FrameType × ℕ)
special_frame detection bytes = if list_eq bytes ack_bytes then some (ack, 6) else fault detection
  where
    fault : ErrorDetection → Option (FrameType × ℕ)
    fault error_frame = if list_eq bytes error_bytes then some (error, 6) else none
    fault status_byte =
        if is_byte (get_elem? bytes normal_data_start) status_error_byte
        then some (error, length bytes)
        else none

unfoldable pub classify : Profile → FrameFormat → List ℕ → Answer (FrameType × ℕ)
unfolding frame_len
classify p f bytes = elim (special_frame f.error_detection bytes) [
  | some found ↦ ok found
  | none ↦ do
    layout ← parse_layout f.length_encoding bytes
    payload ← validated_payload p layout bytes
    ok (payload_frame payload, frame_len layout)
]

unfoldable pub parse : Profile → FrameFormat → List ℕ → Answer Frame
unfolding has_sof
parse p f bytes = do
  ensure (has_sof bytes) tt
  (frame_type, len) ← classify p f bytes
  raw ← slice_to len bytes
  ok (record { raw = raw; frame_type = frame_type })
