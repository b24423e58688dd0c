-- ===== src/Driver/Framing/Ack.antt =====
-- Acknowledgements: alone they are recognised, in front of other bytes they are not.
use felica_rs.Prelude.{ℕ, ◌≡◌, refl, true, false, none, List, [], ◌∷◌, ◌++◌, list_eq, arith}
use felica_rs.Prelude.Outcome.{ok, err, ensure, ok_or}
use felica_rs.Driver.Framing.{
  Profile, LengthEncoding, ErrorDetection, normal, error_frame, status_byte, FrameFormat,
  FrameLayout, ack_bytes, ack_frame, checksum_matches, has_sof, is_extended, parse_layout,
  validated_payload, special_frame, classify, parse,
}
use felica_rs.Driver.Framing.Sums.{sum, Fits-small, checksum_matches_lem}

-- An acknowledgement alone is parsed as one, in every dialect.
parse-ack_frame : (p : Profile) (f : FrameFormat) → parse p f ack_bytes ≡ ok ack_frame
unfolding parse has_sof classify special_frame list_eq ensure ack_frame
parse-ack_frame p f = refl

ack_sum : (p : Profile) → checksum_matches p (0x00 ∷ []) 0xff ≡ ok false
unfolding sum
ack_sum p = checksum_matches_lem p (0x00 ∷ []) 0xff (Fits-small p 255 (omega arith))

no_fault :
    (d : ErrorDetection) (b : ℕ) (rest : List ℕ) → special_frame d (ack_bytes ++ (b ∷ rest)) ≡ none
unfolding special_frame list_eq
no_fault error_frame b rest = refl
no_fault status_byte b rest = refl

sof_seen : (b : ℕ) (rest : List ℕ) → has_sof (ack_bytes ++ (b ∷ rest)) ≡ true
unfolding has_sof list_eq
sof_seen b rest = ground arith

abbrev empty_layout : FrameLayout
empty_layout = record { payload_length = 0; length_bytes = 0x00 ∷ []; lcs = 0xff; data_start = 5 }

empty_layout_seen :
    (e : LengthEncoding) (b : ℕ) (rest : List ℕ)
    → parse_layout e (ack_bytes ++ (b ∷ rest)) ≡ ok empty_layout
unfolding parse_layout is_extended list_eq ok_or
empty_layout_seen normal b rest = ground arith
empty_layout_seen e b rest = ground arith

empty_layout_refused :
    (p : Profile) (bytes : List ℕ) → validated_payload p empty_layout bytes ≡ err tt
unfolding validated_payload ensure
empty_layout_refused p bytes = rw (ack_sum p)

-- An acknowledgement alone is parsed as one in every dialect, and with any byte behind it the data
-- is not parsed as a frame.
pub parse-ack_bytes :
    (p : Profile) (f : FrameFormat) (b : ℕ) (rest : List ℕ)
    → (parse p f ack_bytes ≡ ok ack_frame) × (parse p f (ack_bytes ++ (b ∷ rest)) ≡ err tt)
unfolding parse ensure classify
parse-ack_bytes p f b rest = (
  parse-ack_frame p f,
  rw (
    sof_seen b rest,
    classify,
    no_fault f.error_detection b rest,
    empty_layout_seen f.length_encoding b rest,
    empty_layout_refused p (ack_bytes ++ (b ∷ rest)),
  ),
)
