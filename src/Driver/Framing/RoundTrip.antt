-- ===== src/Driver/Framing/RoundTrip.antt =====
-- What `build` writes is read back by `parse`, off the front of any input.
use felica_rs.Prelude.{
  ℕ, ◌+◌, ◌-◌, ◌<◌, ◌≡◌, refl, sym, ap, ◌∙◌, false, some, none, List, [], ◌∷◌, ◌++◌, append_assoc,
  length, length-append, get_elem?, list_eq, list_eq-length_ne, arith,
}
use felica_rs.Prelude.Slices.{slice_to, slice_to-append}
use felica_rs.Prelude.Outcome.{ok, ensure}
use felica_rs.Driver.Framing.{
  Profile, LengthEncoding, ErrorDetection, error_frame, status_byte, FrameFormat, payload_frame,
  Frame, FrameLayout, sof, ack_bytes, error_bytes, is_byte, build, special_frame, classify, parse,
  status_error_byte, payload_of,
}
use felica_rs.Driver.Framing.Sums.{sum, Fits, Fits-le}
use felica_rs.Driver.Framing.Written.{
  complement, length_field, trailer, frame_then, length_limit, build_lem,
}
use felica_rs.Driver.Framing.Ranges.{get_range_at, validated_payload_lem}
use felica_rs.Driver.Framing.Header.{layout_of, layout_read, layout_facts, header_room}

-- The dialect does not take the bytes for a reported fault.
abbrev pub NoFault : ErrorDetection → List ℕ → Type 0
NoFault error_frame bytes = Unit
NoFault status_byte bytes = is_byte (get_elem? bytes 5) status_error_byte ≡ false

special_frame-none :
    (detection : ErrorDetection) (bytes : List ℕ)
    → 6 < length bytes
    → NoFault detection bytes
    → special_frame detection bytes ≡ none
unfolding special_frame
special_frame-none error_frame bytes h f =
    let e : length bytes ≡ (length bytes - 7) + 1 + 6 = omega arith in
    rw (list_eq-length_ne _ bytes ack_bytes e, list_eq-length_ne _ bytes error_bytes e)
special_frame-none status_byte bytes h f =
    let e : length bytes ≡ (length bytes - 7) + 1 + 6 = omega arith in
    rw (list_eq-length_ne _ bytes ack_bytes e, f)

frame_then-append :
    (encoding : LengthEncoding) (payload rest : List ℕ)
    → frame_then encoding payload rest ≡ frame_then encoding payload [] ++ rest
frame_then-append encoding payload rest = simp append_assoc

-- A frame in front of other bytes is parsed to itself.
parse-frame_then :
    (p : Profile) (f : FrameFormat) (payload rest : List ℕ)
    → length payload < length_limit f.length_encoding
    → Fits p (sum payload + 255)
    → NoFault f.error_detection (frame_then f.length_encoding payload rest)
    → parse p f (frame_then f.length_encoding payload rest)
      ≡ ok (record {
        raw = frame_then f.length_encoding payload [];
        frame_type = payload_frame payload;
      })
unfolding parse classify list_eq ensure
parse-frame_then p f payload rest h fp nf =
    let encoding : LengthEncoding = f.length_encoding in
    let n : ℕ = length payload in
    let front : List ℕ = sof ++ length_field encoding n in
    let layout : FrameLayout = layout_of encoding n in
    let (start, len, fits, sums) = layout_facts p encoding n h in
    let bytes : List ℕ = frame_then encoding payload rest in
    let whole : List ℕ = frame_then encoding payload [] in
    let size : length whole ≡ length front + (n + 2) = omega (
      arith,
      length-append front (trailer payload []),
      length-append payload (complement (sum payload) ∷ 0x00 ∷ []),
    ) in
    let both : length bytes ≡ length whole + length rest =
      ap length (frame_then-append encoding payload rest) ∙ length-append whole rest in
    let cut : slice_to {E = Unit {0}} (layout.data_start + layout.payload_length + 2) bytes
        ≡ ok whole =
      ap (slice_to _) (frame_then-append encoding payload rest)
      ∙ slice_to-append _ whole rest (omega (arith, size, start, len)) in
    rw (
      get_range_at [] sof (length_field encoding n ++ trailer payload rest) 0 3 refl refl,
      special_frame-none f.error_detection bytes
          (omega (arith, both, size, start, header_room encoding n)) nf,
      classify,
      layout_read encoding n (trailer payload rest) h,
      validated_payload_lem p layout front payload rest start (sym len) fits sums fp,
      cut,
    )

-- For a payload whose length the encoding can state and, in the checked profile, whose byte sum
-- leaves room for the checksum below 65536, `build` succeeds, and `parse` reads its bytes back,
-- whatever follows them, as the frame that was built; a dialect that reports faults by a status
-- byte must not have that byte where it looks for it.
pub parse-build :
    (p : Profile) (f : FrameFormat) (payload rest : List ℕ)
    → length payload < length_limit f.length_encoding
    → Fits p (sum payload + 255)
    → NoFault f.error_detection (frame_then f.length_encoding payload rest)
    → (fr : Frame) × (build p f payload ≡ ok fr)
      × (payload_of fr ≡ some payload)
      × (parse p f (fr.raw ++ rest) ≡ ok fr)
unfolding payload_of
parse-build p f payload rest h fits fault =
    let encoding : LengthEncoding = f.length_encoding in
    (
      record { raw = frame_then encoding payload []; frame_type = payload_frame payload },
      build_lem p f payload h (Fits-le p (sum payload) (sum payload + 255) (omega arith) fits),
      refl,
      rw (← frame_then-append encoding payload rest)
          (parse-frame_then p f payload rest h fits fault),
    )
