-- ===== src/Driver/Framing/Ranges.antt =====
-- Bytes read back at a known place, and a payload that passes its checks.
use felica_rs.Prelude.{
  ℕ, ◌+◌, ◌-◌, ◌%◌, ◌≡◌, refl, true, some, List, [], ◌∷◌, ◌++◌, append_assoc, length, length-append,
  get_elem?, take-append, drop-append, le→leb, ◌==◌, arith,
}
use felica_rs.Prelude.Outcome.{ok, ensure, ok_or}
use felica_rs.Driver.Framing.{Profile, FrameLayout, get_range, validated_payload}
use felica_rs.Driver.Framing.Sums.{sum, Fits, Fits-le, checksum_matches_lem}
use felica_rs.Driver.Framing.Written.{complement, trailer, complement-mod}

pub sub_front : (a b : ℕ) → a + b - a ≡ b
sub_front a b = omega arith

pub get_range_at :
    (front middle back : List ℕ) (from to : ℕ)
    → length front ≡ from
    → from + length middle ≡ to
    → get_range from to (front ++ (middle ++ back)) ≡ some middle
get_range_at front middle back from to p q = rw (
  ← q,
  ← p,
  le→leb (length front + length middle) (length (front ++ (middle ++ back)))
      (omega (arith, length-append front (middle ++ back), length-append middle back)),
  drop-append front (middle ++ back),
  sub_front (length front) (length middle),
  take-append middle back,
)

pub get_elem?_at :
    (front back : List ℕ) (x n : ℕ) → length front ≡ n → get_elem? (front ++ (x ∷ back)) n ≡ some x
get_elem?_at [] back x n h = rw (← h)
get_elem?_at (y ∷ front) back x n h = rw (← h) (get_elem?_at front back x (length front) refl)

-- The payload behind a header of the stated size passes both checksums and the postamble.
pub validated_payload_lem :
    (p : Profile) (l : FrameLayout) (front payload rest : List ℕ)
    → length front ≡ l.data_start
    → length payload ≡ l.payload_length
    → Fits p (sum l.length_bytes + l.lcs)
    → ((sum l.length_bytes + l.lcs) % 256 == 0) ≡ true
    → Fits p (sum payload + 255)
    → validated_payload p l (front ++ trailer payload rest) ≡ ok payload
unfolding validated_payload ensure ok_or
validated_payload_lem p l front payload rest hf hp fl ml fp =
    let c : ℕ = complement (sum payload) in
    let whole : List ℕ = front ++ trailer payload rest in
    let end : ℕ = l.data_start + l.payload_length in
    let at_end : get_elem? whole end ≡ some c = rw (append_assoc front payload _) at (
      get_elem?_at (front ++ payload) (0x00 ∷ rest) c end
        (omega (arith, length-append front payload))) in
    let behind : get_elem? whole (end + 1) ≡ some 0x00 =
      rw (append_assoc front (payload ++ (c ∷ [])) _, append_assoc payload (c ∷ []) _) at
        (get_elem?_at (front ++ (payload ++ (c ∷ []))) rest 0x00 (end + 1) (
          omega
            (arith, length-append front (payload ++ (c ∷ [])), length-append payload (c ∷ [])))) in
    rw (
      checksum_matches_lem p l.length_bytes l.lcs fl,
      ml,
      get_range_at front payload (c ∷ 0x00 ∷ rest) l.data_start end hf (omega arith),
      at_end,
      checksum_matches_lem p payload c
          (Fits-le p (sum payload + c) (sum payload + 255) (omega arith) fp),
      complement-mod (sum payload),
      behind,
    )
