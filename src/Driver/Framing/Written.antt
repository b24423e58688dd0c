-- ===== src/Driver/Framing/Written.antt =====
-- The bytes that `build` writes, for every encoding of the length.
use felica_rs.Prelude.{
  ℕ, ◌+◌, ◌-◌, ◌/◌, ◌%◌, ◌<◌, ◌≡◌, ap, ◌∙◌, true, List, [], ◌∷◌, ◌++◌, append_assoc, length, ltb,
  lt→ltb, ◌==◌, eq→==, if◌then◌else◌, Bool-cases, inl, inr, arith,
}
use felica_rs.Prelude.Outcome.{ok}
use felica_rs.Driver.Framing.{
  Profile, LengthEncoding, normal, extended_little_endian, normal_or_extended_big_endian,
  FrameFormat, payload_frame, sof, checksum, length_checksum, push_length, push_normal_length,
  push_extended_length, build,
}
use felica_rs.Driver.Framing.Sums.{sum, Fits, Fits-small, checksum_lem}

-- The byte that completes a sum to a multiple of 256.
abbrev pub complement : ℕ → ℕ
complement n = (256 - n % 256) % 256

abbrev pub short_length : ℕ → List ℕ
short_length n = n ∷ complement n ∷ []

-- The two bytes of an extended length, in their order.
abbrev pub long_length : ℕ → ℕ → List ℕ
long_length a b = 0xff ∷ 0xff ∷ a ∷ b ∷ complement (a + b) ∷ []

abbrev pub length_field : LengthEncoding → ℕ → List ℕ
length_field normal n = short_length n
length_field extended_little_endian n = long_length (n % 256) (n / 256)
length_field normal_or_extended_big_endian n =
    if ltb n 256 then short_length n else long_length (n / 256) (n % 256)

abbrev pub trailer : List ℕ → List ℕ → List ℕ
trailer payload rest = payload ++ (complement (sum payload) ∷ 0x00 ∷ rest)

-- A frame in front of other bytes.
abbrev pub frame_then : LengthEncoding → List ℕ → List ℕ → List ℕ
frame_then encoding payload rest =
    sof ++ (length_field encoding (length payload) ++ trailer payload rest)

-- The lengths that the encoding can state.
abbrev pub length_limit : LengthEncoding → ℕ
length_limit normal = 256
length_limit _ = 65536

pub complement-mod : (n : ℕ) → ((n + complement n) % 256 == 0) ≡ true
complement-mod n = eq→== _ _ (omega arith)

pub checksum_of_one : (p : Profile) (a : ℕ) → a < 256 → checksum p (a ∷ []) ≡ ok (complement a)
unfolding sum
checksum_of_one p a ha =
    checksum_lem p (a ∷ []) (Fits-small p _ (omega arith)) ∙ ap ok (omega arith)

pub length_checksum_lem : (p : Profile) (a : ℕ) → a < 256 → length_checksum p a ≡ ok (complement a)
unfolding length_checksum
length_checksum_lem p a ha = checksum_of_one p a ha

pub checksum_of_two :
    (p : Profile) (a b : ℕ) → a < 256 → b < 256 → checksum p (a ∷ b ∷ []) ≡ ok (complement (a + b))
unfolding sum
checksum_of_two p a b ha hb =
    checksum_lem p (a ∷ b ∷ []) (Fits-small p _ (omega arith)) ∙ ap ok (omega arith)

pub push_normal_length_lem :
    (p : Profile) (frame : List ℕ) (n : ℕ)
    → n < 256
    → push_normal_length p frame n ≡ ok (frame ++ short_length n)
unfolding push_normal_length
push_normal_length_lem p frame n h =
    let e : n % 256 ≡ n = omega arith in
    rw (e, length_checksum_lem p n h) (rw e (simp append_assoc))

pub push_extended_length_lem :
    (p : Profile) (frame : List ℕ) (a b : ℕ)
    → a < 256
    → b < 256
    → push_extended_length p frame (a ∷ b ∷ []) ≡ ok (frame ++ long_length a b)
unfolding push_extended_length
push_extended_length_lem p frame a b ha hb = rw (checksum_of_two p a b ha hb) (simp append_assoc)

pub push_length_lem :
    (p : Profile) (encoding : LengthEncoding) (frame : List ℕ) (n : ℕ)
    → n < length_limit encoding
    → push_length p frame n encoding ≡ ok (frame ++ length_field encoding n)
unfolding push_length
push_length_lem p normal frame n h = rw (lt→ltb n 256 h) (push_normal_length_lem p frame n h)
push_length_lem p extended_little_endian frame n h =
    let e : n % 65536 ≡ n = omega arith in
    rw e (push_extended_length_lem p frame (n % 256) (n / 256) (omega arith) (omega arith))
push_length_lem p normal_or_extended_big_endian frame n h =
    let e : n % 65536 ≡ n = omega arith in
    elim (Bool-cases (ltb n 256)) [
      | inl short ↦ rw short (push_normal_length_lem p frame n (ground arith))
      | inr long ↦
          rw (long, e)
            (push_extended_length_lem p frame (n / 256) (n % 256) (omega arith) (omega arith))
    ]

-- `build` writes the layout, when the sum of the payload does not overflow.
pub build_lem :
    (p : Profile) (f : FrameFormat) (payload : List ℕ)
    → length payload < length_limit f.length_encoding
    → Fits p (sum payload)
    → build p f payload
      ≡ ok (record {
        raw = frame_then f.length_encoding payload [];
        frame_type = payload_frame payload;
      })
unfolding build
build_lem p f payload h fits =
    rw (push_length_lem p f.length_encoding sof (length payload) h, checksum_lem p payload fits)
      (simp append_assoc)
