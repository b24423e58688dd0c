-- ===== src/Response/Parse/Queries/Sound.antt =====
-- The responses of fixed form and the one of a search, read from any bytes.
use felica_rs.Prelude.{
  ℕ, ◌+◌, ◌≤◌, ◌≡◌, ◌≢◌, ◌⊎◌, refl, false, String, List, [], ◌∷◌, ◌++◌, length, length-append, All,
  arith, Bool-cases, inl, inr, list_eq, list_eq-length_ne, ne→==_false,
}
use felica_rs.Prelude.Bytes.{IsByte, from_le_bytes, from_le_bytes-IsWord}
use felica_rs.Prelude.Outcome.Ensures.{
  Ensures, returns, fails, Ensures-bind, Ensures-ensure, index-Ensures, slice_from-Ensures,
  slice_range-Ensures,
}
use felica_rs.Command.Wire.{IsBytes}
use felica_rs.Response.{
  FelicaStandardResponse, write_without_encryption, set_parameter, get_area_information, reset_mode,
}
use felica_rs.Response.Valid.{IsSearchResult, IsAreaInformation, Flags, is_secure}
use felica_rs.Response.Wire.{search_field, area_field, fields, outcome}
use felica_rs.Response.Wire.Returned.{IsReturned}
use felica_rs.Response.Parse.Bounds.{word_at-Ensures}
use felica_rs.Response.Parse.Fields.Sound.{
  status_flags-Ensures, parse_fixed-Ensures, Fills, parse_outcome-Ensures,
}
use felica_rs.Response.Parse.Fields.{word_at}
use felica_rs.Response.Parse.Queries.{
  parse_authentication2, parse_authentication2_v2, parse_polling, parse_request_response,
  parse_status_only, parse_write_without_encryption, parse_set_parameter, parse_reset_mode,
  search_result, parse_search_service_code, parse_get_container_issue_information,
  parse_get_container_property, parse_get_container_id, area_information,
  parse_get_area_information, parse_authentication1, parse_authentication1_v2,
}

pub parse_authentication2-Ensures :
    (bytes : List ℕ)
    → All IsByte bytes
    → Ensures (IsReturned (length bytes)) (parse_authentication2 bytes)
unfolding parse_authentication2 fields is_secure
parse_authentication2-Ensures bytes h = Ensures-ensure _ λ t.
    let whole : length bytes ≡ 34 = ground arith in
    Ensures-bind (slice_from-Ensures 2 bytes h (omega (arith, whole)))
      λ xs x. returns ((omega (arith, x.0, whole), x.1), refl, omega (arith, x.0))

pub parse_authentication2_v2-Ensures :
    (bytes : List ℕ)
    → All IsByte bytes
    → Ensures (IsReturned (length bytes)) (parse_authentication2_v2 bytes)
unfolding parse_authentication2_v2 fields is_secure
parse_authentication2_v2-Ensures bytes h = Ensures-ensure _ λ t.
    let whole : length bytes ≡ 28 = ground arith in
    Ensures-bind (slice_from-Ensures 2 bytes h (omega (arith, whole)))
      λ xs x. returns ((omega (arith, x.0, whole), x.1), refl, omega (arith, x.0))

pub parse_get_container_property-Ensures :
    (bytes : List ℕ)
    → All IsByte bytes
    → Ensures (IsReturned (length bytes)) (parse_get_container_property bytes)
unfolding parse_get_container_property fields is_secure
parse_get_container_property-Ensures bytes h = Ensures-ensure _ λ t.
    let long : 3 ≤ length bytes = ground arith in
    Ensures-bind (slice_from-Ensures 2 bytes h (omega (arith, long))) λ xs x.
      Ensures-ensure _ λ u. returns ((omega (arith, x.0, long), x.1), refl, omega (arith, x.0))

pub parse_get_container_id-Ensures :
    (idm bytes : List ℕ)
    → IsBytes 8 idm
    → All IsByte bytes
    → Ensures (IsReturned (length bytes)) (parse_get_container_id idm bytes)
unfolding parse_get_container_id fields is_secure
parse_get_container_id-Ensures idm bytes i h = Ensures-ensure _ λ t.
    let whole : length bytes ≡ 10 = ground arith in returns (i, refl, omega (arith, i.0, whole))

pub parse_polling-Ensures :
    (idm bytes : List ℕ)
    → IsBytes 8 idm
    → All IsByte bytes
    → Ensures (IsReturned (length bytes)) (parse_polling idm bytes)
unfolding parse_polling fields is_secure
parse_polling-Ensures idm bytes i h = Ensures-ensure _ λ t. Ensures-ensure _ λ u.
    let long : 18 ≤ length bytes = ground arith in
    let allowed : (length bytes ≡ 18) ⊎ (length bytes ≡ 20) = ground arith in
    Ensures-bind (slice_from-Ensures 10 bytes h (omega (arith, long))) λ behind b.
      Ensures-bind (parse_fixed-Ensures 8 behind "PMm" b.1) λ (pmm, rest) p.
        Ensures-bind (slice_from-Ensures 18 bytes h long) λ optional o.
          let size : 2 + length (idm ++ (pmm ++ optional)) ≡ length bytes = omega (
            arith,
            length-append idm (pmm ++ optional),
            length-append pmm optional,
            i.0,
            p.0.0,
            o.0,
          ) in
          returns (elim allowed [
            | inl e ↦ ((i, p.0, inl (omega (arith, e, o.0), o.1)), refl, size)
            | inr e ↦ ((i, p.0, inr (omega (arith, e, o.0), o.1)), refl, size)
          ])

pub parse_request_response-Ensures :
    (idm bytes : List ℕ)
    → IsBytes 8 idm
    → All IsByte bytes
    → Ensures (IsReturned (length bytes)) (parse_request_response idm bytes)
unfolding parse_request_response fields is_secure
parse_request_response-Ensures idm bytes i h = Ensures-ensure _ λ t.
    let whole : length bytes ≡ 11 = ground arith in
    Ensures-bind (index-Ensures bytes 10 h (omega (arith, whole)))
      λ mode m. returns ((i, m), refl, omega (arith, length-append idm (mode ∷ []), i.0, whole))

status_only-Ensures :
    (Q : FelicaStandardResponse → Type 0) (answer : ℕ → ℕ → FelicaStandardResponse)
    (short_message long_message : String) (bytes : List ℕ)
    → All IsByte bytes
    → ((sf1 sf2 : ℕ) → Flags sf1 sf2 → length bytes ≡ 12 → Q (answer sf1 sf2))
    → Ensures Q (parse_status_only answer short_message long_message bytes)
unfolding parse_status_only
status_only-Ensures Q answer sm lm bytes h q =
    Ensures-bind (status_flags-Ensures bytes sm h)
      λ (sf1, sf2) f. Ensures-ensure _ λ t. returns (q sf1 sf2 (f.0, f.1) (ground arith))

pub parse_write_without_encryption-Ensures :
    (idm bytes : List ℕ)
    → IsBytes 8 idm
    → All IsByte bytes
    → Ensures (IsReturned (length bytes)) (parse_write_without_encryption idm bytes)
unfolding parse_write_without_encryption fields is_secure
parse_write_without_encryption-Ensures idm bytes i h =
    status_only-Ensures _ (write_without_encryption idm) _ _ bytes h λ sf1 sf2 f whole.
      ((i, f), refl, omega (arith, length-append idm (sf1 ∷ sf2 ∷ []), i.0, whole))

pub parse_set_parameter-Ensures :
    (idm bytes : List ℕ)
    → IsBytes 8 idm
    → All IsByte bytes
    → Ensures (IsReturned (length bytes)) (parse_set_parameter idm bytes)
unfolding parse_set_parameter fields is_secure
parse_set_parameter-Ensures idm bytes i h =
    status_only-Ensures _ (set_parameter idm) _ _ bytes h λ sf1 sf2 f whole.
      ((i, f), refl, omega (arith, length-append idm (sf1 ∷ sf2 ∷ []), i.0, whole))

pub parse_reset_mode-Ensures :
    (idm bytes : List ℕ)
    → IsBytes 8 idm
    → All IsByte bytes
    → Ensures (IsReturned (length bytes)) (parse_reset_mode idm bytes)
unfolding parse_reset_mode fields is_secure
parse_reset_mode-Ensures idm bytes i h =
    status_only-Ensures _ (reset_mode idm) _ _ bytes h λ sf1 sf2 f whole.
      ((i, f), refl, omega (arith, length-append idm (sf1 ∷ sf2 ∷ []), i.0, whole))

list_eq-shorter : (a : ℕ) → list_eq (a ∷ []) (0xff ∷ 0xff ∷ []) ≡ false
unfolding list_eq
list_eq-shorter a = ground arith

not_the_marker :
    (a b : ℕ)
    → list_eq (a ∷ b ∷ []) (0xff ∷ 0xff ∷ []) ≡ false
    → IsByte a
    → IsByte b
    → from_le_bytes a b ≢ 0xffff
unfolding list_eq
not_the_marker a b h ha hb e = ground arith

search_result-Ensures :
    (payload : List ℕ)
    → All IsByte payload
    → Ensures
        (λ r. IsSearchResult r × (length (search_field r) ≡ length payload))
        (search_result payload)
unfolding search_result word_at list_eq
search_result-Ensures [] h = fails
search_result-Ensures (a ∷ []) h = rw (list_eq-shorter a) fails
search_result-Ensures (a ∷ b ∷ []) (ha, (hb, h)) =
    elim (Bool-cases (list_eq (a ∷ b ∷ []) (0xff ∷ 0xff ∷ []))) [
      | inl marker ↦ rw marker (returns (tt, refl))
      | inr other_code ↦
          rw other_code
            (returns ((from_le_bytes-IsWord a b ha hb, not_the_marker a b other_code ha hb), refl))
    ]
search_result-Ensures (a ∷ b ∷ c ∷ []) h =
    rw (list_eq-length_ne 0 (a ∷ b ∷ c ∷ []) (0xff ∷ 0xff ∷ []) refl) fails
search_result-Ensures (a ∷ b ∷ c ∷ d ∷ []) (ha, (hb, (hc, (hd, h)))) =
    rw (list_eq-length_ne 1 (a ∷ b ∷ c ∷ d ∷ []) (0xff ∷ 0xff ∷ []) refl)
      (returns ((from_le_bytes-IsWord a b ha hb, from_le_bytes-IsWord c d hc hd), refl))
search_result-Ensures (a ∷ b ∷ c ∷ d ∷ e ∷ bs) h =
    let payload = a ∷ b ∷ c ∷ d ∷ e ∷ bs in
    rw
      (
        list_eq-length_ne (length bs + 2) payload (0xff ∷ 0xff ∷ []) (omega arith),
        ne→==_false (length payload) 2 (λ q. absurd (omega (arith, q))),
        ne→==_false (length payload) 4 (λ q. absurd (omega (arith, q))),
      )
      fails

pub parse_search_service_code-Ensures :
    (idm bytes : List ℕ)
    → IsBytes 8 idm
    → All IsByte bytes
    → Ensures (IsReturned (length bytes)) (parse_search_service_code idm bytes)
unfolding parse_search_service_code fields is_secure
parse_search_service_code-Ensures idm bytes i h = Ensures-ensure _ λ t.
    let long : 12 ≤ length bytes = ground arith in
    Ensures-bind (slice_from-Ensures 10 bytes h (omega (arith, long))) λ payload p.
      Ensures-bind (search_result-Ensures payload p.1) λ r s.
        returns ((i, s.0), refl, omega (arith, length-append idm (search_field r), i.0, s.1, p.0))

area_information-Ensures :
    (bytes : List ℕ)
    → All IsByte bytes
    → 12 ≤ length bytes
    → Ensures (Fills IsAreaInformation area_field (length bytes)) (area_information bytes)
unfolding area_information
area_information-Ensures bytes h k = Ensures-ensure _ λ t.
    let whole : length bytes ≡ 16 = ground arith in
    Ensures-bind (word_at-Ensures bytes 12 h (omega (arith, whole))) λ node n.
      Ensures-bind (index-Ensures bytes 14 h (omega (arith, whole))) λ a ha.
        Ensures-bind (index-Ensures bytes 15 h (omega (arith, whole)))
          λ b hb. returns ((n, (refl, (ha, (hb, tt)))), omega (arith, whole))

pub parse_get_area_information-Ensures :
    (idm bytes : List ℕ)
    → IsBytes 8 idm
    → All IsByte bytes
    → Ensures (IsReturned (length bytes)) (parse_get_area_information idm bytes)
unfolding parse_get_area_information fields is_secure
parse_get_area_information-Ensures idm bytes i h =
    parse_outcome-Ensures IsAreaInformation area_field (get_area_information idm) _ _
      area_information bytes h (area_information-Ensures bytes h)
      λ sf1 sf2 result f p e. (
        (i, f, p),
        refl,
        omega (arith, length-append idm (outcome sf1 sf2 area_field result), i.0, e),
      )

pub parse_get_container_issue_information-Ensures :
    (idm bytes : List ℕ)
    → IsBytes 8 idm
    → All IsByte bytes
    → Ensures (IsReturned (length bytes)) (parse_get_container_issue_information idm bytes)
unfolding parse_get_container_issue_information fields is_secure
parse_get_container_issue_information-Ensures idm bytes i h = Ensures-ensure _ λ t.
    let whole : length bytes ≡ 26 = ground arith in
    Ensures-bind (slice_range-Ensures 10 15 bytes h (omega arith) (omega (arith, whole))) λ xs x.
      Ensures-bind (slice_range-Ensures 15 26 bytes h (omega arith) (omega (arith, whole))) λ ys y.
        returns (
          (i, (omega (arith, x.0), x.1), (omega (arith, y.0), y.1)),
          refl,
          omega (arith, length-append idm (xs ++ ys), length-append xs ys, i.0, x.0, y.0, whole),
        )

pub parse_authentication1-Ensures :
    (idm bytes : List ℕ)
    → IsBytes 8 idm
    → All IsByte bytes
    → Ensures (IsReturned (length bytes)) (parse_authentication1 idm bytes)
unfolding parse_authentication1 fields is_secure
parse_authentication1-Ensures idm bytes i h = Ensures-ensure _ λ t.
    let whole : length bytes ≡ 26 = ground arith in
    Ensures-bind (slice_range-Ensures 10 18 bytes h (omega arith) (omega (arith, whole))) λ xs x.
      Ensures-bind (slice_range-Ensures 18 26 bytes h (omega arith) (omega (arith, whole))) λ ys y.
        returns (
          (i, (omega (arith, x.0), x.1), (omega (arith, y.0), y.1)),
          refl,
          omega (arith, length-append idm (xs ++ ys), length-append xs ys, i.0, x.0, y.0, whole),
        )

pub parse_authentication1_v2-Ensures :
    (idm bytes : List ℕ)
    → IsBytes 8 idm
    → All IsByte bytes
    → Ensures (IsReturned (length bytes)) (parse_authentication1_v2 idm bytes)
unfolding parse_authentication1_v2 fields is_secure
parse_authentication1_v2-Ensures idm bytes i h = Ensures-ensure _ λ t.
    let whole : length bytes ≡ 46 = ground arith in
    Ensures-bind (slice_range-Ensures 10 26 bytes h (omega arith) (omega (arith, whole))) λ xs x.
      Ensures-bind (slice_range-Ensures 26 42 bytes h (omega arith) (omega (arith, whole))) λ ys y.
        Ensures-bind (slice_range-Ensures 42 46 bytes h (omega arith) (omega (arith, whole)))
          λ zs z. returns (
            (i, (omega (arith, x.0), x.1), (omega (arith, y.0), y.1), (omega (arith, z.0), z.1)),
            refl,
            omega (
              arith,
              length-append idm (xs ++ (ys ++ zs)),
              length-append xs (ys ++ zs),
              length-append ys zs,
              i.0,
              x.0,
              y.0,
              z.0,
              whole,
            ),
          )
