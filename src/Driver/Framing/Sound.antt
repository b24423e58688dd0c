-- ===== src/Driver/Framing/Sound.antt =====
-- `parse` on any bytes: no slice leaves the data, and the frame it answers lies at the front.
use felica_rs.Prelude.{
  ℕ, zero, suc, ◌+◌, ◌≤◌, ◌<◌, ◌≡◌, refl, ap, true, Option, none, some, List, [], ◌∷◌, length,
  length-take, take, get_elem?, le→leb, list_eq, list_eq_sound, Bool-cases, Option-cases, inl, inr,
  arith,
}
use felica_rs.Prelude.Outcome.{ok_or}
use felica_rs.Prelude.Outcome.Ensures.{
  Ensures, returns, Ensures-bind, Ensures-ensure, ok_or-Ensures, Ensures-if,
}
use felica_rs.Driver.Framing.{
  wrapping, LengthEncoding, ErrorDetection, error_frame, status_byte, FrameFormat, FrameType,
  FrameLayout, add_u16, sum_u16, checksum_matches, ack_bytes, error_bytes, is_byte, parse_layout,
  validated_payload, frame_len, special_frame, classify, parse, status_error_byte,
}

add_u16-Ensures : (a b : ℕ) → Ensures (λ _. Unit {0}) (add_u16 wrapping a b)
unfolding add_u16
add_u16-Ensures a b = returns tt

sum_u16-Ensures : (bs : List ℕ) (a : ℕ) → Ensures (λ _. Unit {0}) (sum_u16 wrapping a bs)
unfolding sum_u16
sum_u16-Ensures [] a = returns tt
sum_u16-Ensures (b ∷ bs) a = Ensures-bind (add_u16-Ensures a b) λ s _. sum_u16-Ensures bs s

checksum_matches-Ensures :
    (bs : List ℕ) (c : ℕ) → Ensures (λ _. Unit {0}) (checksum_matches wrapping bs c)
unfolding checksum_matches
checksum_matches-Ensures bs c =
    Ensures-bind (sum_u16-Ensures bs 0) λ s _. Ensures-bind (add_u16-Ensures s c) λ t _. returns tt

get_elem?-lt : (bs : List ℕ) (n b : ℕ) → get_elem? bs n ≡ some b → n < length bs
get_elem?-lt [] n b h = cc
get_elem?-lt (x ∷ bs) zero b h = omega arith
get_elem?-lt (x ∷ bs) (suc n) b h = omega (arith, get_elem?-lt bs n b h)

is_byte-lt : (bs : List ℕ) (n b : ℕ) → is_byte (get_elem? bs n) b ≡ true → n < length bs
is_byte-lt [] n b h = cc
is_byte-lt (x ∷ bs) zero b h = omega arith
is_byte-lt (x ∷ bs) (suc n) b h = omega (arith, is_byte-lt bs n b h)

present {ℓ} : {A : Type ℓ} (o : Option A) → Ensures (λ _. Unit {0}) (ok_or {E = Unit {0}} o tt)
present o = ok_or-Ensures tt λ _ _. tt

parse_layout-Ensures :
    (encoding : LengthEncoding) (bytes : List ℕ)
    → Ensures (λ _. Unit {0}) (parse_layout encoding bytes)
unfolding parse_layout
parse_layout-Ensures encoding bytes =
    Ensures-if _ (Ensures-bind (present _) λ _ _. Ensures-bind (present _) λ _ _. returns tt) (
      Ensures-bind (present _)
        λ _ _. Ensures-bind (present _) λ _ _. Ensures-bind (present _) λ _ _. returns tt)

validated_payload-Ensures :
    (l : FrameLayout) (bytes : List ℕ)
    → Ensures (λ _. frame_len l ≤ length bytes) (validated_payload wrapping l bytes)
unfolding validated_payload frame_len
validated_payload-Ensures l bytes =
    Ensures-bind (checksum_matches-Ensures l.length_bytes l.lcs) λ _ _. Ensures-ensure tt λ _.
      Ensures-bind (present _) λ payload _. Ensures-bind (present _) λ dcs _.
        Ensures-bind (checksum_matches-Ensures payload dcs) λ _ _. Ensures-ensure tt λ _.
          Ensures-ensure tt
            λ h. returns (omega (arith, is_byte-lt bytes (l.data_start + l.payload_length + 1) _ h))

abbrev Takes : List ℕ → Option (FrameType × ℕ) → Type 0
Takes bytes none = Unit
Takes bytes (some (t, n)) = n ≤ length bytes

six_bytes : (bytes six : List ℕ) → list_eq bytes six ≡ true → length six ≡ 6 → 6 ≤ length bytes
six_bytes bytes six h size = omega (arith, ap length (list_eq_sound bytes six h))

special_frame-Takes :
    (detection : ErrorDetection) (bytes : List ℕ) → Takes bytes (special_frame detection bytes)
unfolding special_frame
special_frame-Takes error_frame bytes = elim (Bool-cases (list_eq bytes ack_bytes)) [
  | inl is_ack ↦ rw is_ack (six_bytes bytes ack_bytes is_ack refl)
  | inr no_ack ↦ elim (Bool-cases (list_eq bytes error_bytes)) [
    | inl is_error ↦ rw (no_ack, is_error) (six_bytes bytes error_bytes is_error refl)
    | inr no_error ↦ rw (no_ack, no_error) tt
  ]
]
special_frame-Takes status_byte bytes = elim (Bool-cases (list_eq bytes ack_bytes)) [
  | inl is_ack ↦ rw is_ack (six_bytes bytes ack_bytes is_ack refl)
  | inr no_ack ↦ elim (Bool-cases (is_byte (get_elem? bytes 5) status_error_byte)) [
    | inl is_error ↦ rw (no_ack, is_error) (omega arith)
    | inr no_error ↦ rw (no_ack, no_error) tt
  ]
]

classify-Ensures :
    (f : FrameFormat) (bytes : List ℕ)
    → Ensures (λ (_, n). n ≤ length bytes) (classify wrapping f bytes)
unfolding classify
classify-Ensures f bytes = elim (Option-cases (special_frame f.error_detection bytes)) [
  | inr ((t, n), e) ↦
      rw (classify, e) (returns (rw e at (special_frame-Takes f.error_detection bytes)))
  | inl e ↦
      rw (classify, e)
        (Ensures-bind (parse_layout-Ensures f.length_encoding bytes)
          λ l _. Ensures-bind (validated_payload-Ensures l bytes) λ payload h. returns h)
]

-- Where sums wrap, `parse` of any bytes does not panic, and the frame it answers is at most the
-- data and its raw bytes are the front of it.
pub parse-Ensures :
    (f : FrameFormat) (bytes : List ℕ)
    → Ensures
        (λ fr. (length fr.raw ≤ length bytes) × (fr.raw ≡ take (length fr.raw) bytes))
        (parse wrapping f bytes)
unfolding parse
parse-Ensures f bytes = Ensures-ensure tt λ _. Ensures-bind (classify-Ensures f bytes) λ (t, n) h.
    rw (le→leb n (length bytes) h)
      (returns (omega (arith, length-take n bytes h), rw (length-take n bytes h)))
