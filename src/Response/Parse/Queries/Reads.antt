-- ===== src/Response/Parse/Queries/Reads.antt =====
-- The responses of fixed form and the one of a search are read back from their layout.
use felica_rs.Prelude.{
  ℕ, ◌+◌, ◌≤◌, ◌≡◌, ◌≢◌, ◌⊎◌, refl, ap, true, false, inl, inr, Option, none, some, String, List, [],
  ◌∷◌, ◌++◌, length, length-append, arith, eq→==, le→ltb_false, ◌==◌, ◌||◌, list_eq, append_assoc,
  ◌∙◌, list_eq-length_ne,
}
use felica_rs.Prelude.Bytes.{from_le_bytes-to_le_bytes}
use felica_rs.Prelude.Slices.{slice_range-append, slice_range-last, slice_range, slice_from-append}
use felica_rs.Prelude.Outcome.{ok, ensure}
use felica_rs.Felica.Error.{DriverError}
use felica_rs.Felica.Types.Results.{SearchServiceCodeResult, service, area, ContainerInformation}
use felica_rs.Command.Wire.{IsBytes, word}
use felica_rs.Response.{
  FelicaStandardResponse, polling, request_response, search_service_code, authentication1,
  get_container_issue_information, authentication1_v2,
}
use felica_rs.Response.Valid.{IsSearchResult, IsAreaInformation}
use felica_rs.Response.Wire.{search_field, area_field}
use felica_rs.Response.Parse.Fields.{status_flags, word_at}
use felica_rs.Response.Parse.Fields.Reads.{at_length, Succeeds, parse_fixed_reads}
use felica_rs.Response.Parse.Queries.{
  parse_polling, parse_request_response, parse_status_only, search_result,
  parse_search_service_code, parse_get_container_issue_information, area_information,
  parse_authentication1, parse_authentication1_v2,
}

pub parse_status_only_reads :
    (answer : ℕ → ℕ → FelicaStandardResponse) (short_message long_message : String) (front : List ℕ)
    (status_flag1 status_flag2 : ℕ)
    → length front ≡ 10
    → parse_status_only answer short_message long_message
        (front ++ (status_flag1 ∷ status_flag2 ∷ []))
      ≡ ok (answer status_flag1 status_flag2)
unfolding parse_status_only status_flags ensure
parse_status_only_reads answer sm lm front sf1 sf2 l =
    at_length 10
      (λ front. parse_status_only answer sm lm (front ++ (sf1 ∷ sf2 ∷ [])) ≡ ok (answer sf1 sf2))
      (λ a0 a1 a2 a3 a4 a5 a6 a7 a8 a9. refl) front l

pub parse_request_response_reads :
    (idm front : List ℕ) (mode : ℕ)
    → length front ≡ 10
    → parse_request_response idm (front ++ (mode ∷ [])) ≡ ok (request_response idm mode)
unfolding parse_request_response ensure
parse_request_response_reads idm front mode l =
    at_length 10
      (λ front. parse_request_response idm (front ++ (mode ∷ [])) ≡ ok (request_response idm mode))
      (λ a0 a1 a2 a3 a4 a5 a6 a7 a8 a9. refl) front l

pub area_information_reads : Succeeds IsAreaInformation area_field area_information
unfolding area_information word_at ensure
area_information_reads r front h l =
    at_length 12 (λ front. area_information (front ++ area_field r) ≡ ok r)
      (λ a0 a1 a2 a3 a4 a5 a6 a7 a8 a9 a10 a11.
        at_length 2
          (λ last.
            area_information (
              a0
              ∷ a1
              ∷ a2
              ∷ a3
              ∷ a4
              ∷ a5
              ∷ a6
              ∷ a7
              ∷ a8
              ∷ a9
              ∷ a10
              ∷ a11
              ∷ (word r.node_code ++ last))
            ≡ ok (record { node_code = r.node_code; area_data = last }))
          (λ b0 b1. rw (from_le_bytes-to_le_bytes r.node_code)) r.area_data h.1.0)
      front l

pub parse_polling_reads :
    (idm front pmm optional : List ℕ)
    → length front ≡ 10
    → length pmm ≡ 8
    → IsBytes 0 optional ⊎ IsBytes 2 optional
    → parse_polling idm (front ++ (pmm ++ optional)) ≡ ok (polling idm pmm optional)
unfolding parse_polling ensure
parse_polling_reads idm front pmm optional l p o =
    let bytes = front ++ (pmm ++ optional) in
    let short : (length optional ≡ 0) ⊎ (length optional ≡ 2) = elim o [
      | inl e ↦ inl e.0
      | inr e ↦ inr e.0
    ] in
    let whole : length bytes ≡ 18 + length optional =
      omega (arith, length-append front (pmm ++ optional), length-append pmm optional, l, p) in
    let allowed : ((length bytes == 18) || (length bytes == 20)) ≡ true = ground arith in
    rw (
      le→ltb_false (length bytes) 18 (omega (arith, whole)),
      allowed,
      slice_from-append 10 front (pmm ++ optional) l,
      parse_fixed_reads 8 pmm optional "PMm" p,
      ← append_assoc front pmm optional,
      slice_from-append 18 (front ++ pmm) optional (omega (arith, length-append front pmm, l, p)),
    )

word_of_two : (code : ℕ) → code ≢ 0xffff → list_eq (word code) (0xff ∷ 0xff ∷ []) ≡ false
unfolding list_eq
word_of_two code h = ground arith

search_result_reads :
    (result : Option SearchServiceCodeResult)
    → IsSearchResult result
    → search_result (search_field result) ≡ ok result
unfolding search_result list_eq word_at
search_result_reads none h = refl
search_result_reads (some (service c)) h =
    rw (word_of_two c.raw h.1, from_le_bytes-to_le_bytes c.raw)
search_result_reads (some (area a e)) h = rw (
  list_eq-length_ne 1 (word a ++ word e) (0xff ∷ 0xff ∷ []) refl,
  from_le_bytes-to_le_bytes a,
  from_le_bytes-to_le_bytes e,
)

pub parse_search_service_code_reads :
    (idm front : List ℕ) (result : Option SearchServiceCodeResult)
    → length front ≡ 10
    → IsSearchResult result
    → parse_search_service_code idm (front ++ search_field result)
      ≡ ok (search_service_code idm result)
unfolding parse_search_service_code ensure
parse_search_service_code_reads idm front result l h =
    let field = search_field result in
    let long : 2 ≤ length field = two_at_least result in
    rw (
      le→ltb_false (length (front ++ field)) 12 (omega (arith, length-append front field, l, long)),
      slice_from-append 10 front field l,
      search_result_reads result h,
    )
  where
    two_at_least : (result : Option SearchServiceCodeResult) → 2 ≤ length (search_field result)
    two_at_least none = omega arith
    two_at_least (some (service c)) = omega arith
    two_at_least (some (area a e)) = omega arith

-- Two fields of known lengths at the end of a frame.
two_ranges :
    (front xs ys : List ℕ) (from mid to : ℕ)
    → length front ≡ from
    → from + length xs ≡ mid
    → mid + length ys ≡ to
    → (length (front ++ (xs ++ ys)) ≡ to)
      × (slice_range {E = DriverError} from mid (front ++ (xs ++ ys)) ≡ ok xs)
      × (slice_range {E = DriverError} mid to (front ++ (xs ++ ys)) ≡ ok ys)
two_ranges front xs ys from mid to l p q = (
  omega (arith, length-append front (xs ++ ys), length-append xs ys, l, p, q),
  slice_range-append from mid front xs ys l p,
  rw (← append_assoc front xs ys)
      (slice_range-last mid to (front ++ xs) ys (omega (arith, length-append front xs, l, p)) q),
)

pub parse_authentication1_reads :
    (idm front xs ys : List ℕ)
    → length front ≡ 10
    → length xs ≡ 8
    → length ys ≡ 8
    → parse_authentication1 idm (front ++ (xs ++ ys)) ≡ ok (authentication1 idm xs ys)
unfolding parse_authentication1 ensure
parse_authentication1_reads idm front xs ys l p q =
    let (whole, first, second) =
      two_ranges front xs ys 10 18 26 l (omega (arith, p)) (omega (arith, q)) in
    rw (eq→== (length (front ++ (xs ++ ys))) 26 whole, first, second)

pub parse_get_container_issue_information_reads :
    (idm front : List ℕ) (c : ContainerInformation)
    → length front ≡ 10
    → length c.format_version_carrier_information ≡ 5
    → length c.mobile_phone_model_information ≡ 11
    → parse_get_container_issue_information idm
        (front ++ (c.format_version_carrier_information ++ c.mobile_phone_model_information))
      ≡ ok (get_container_issue_information idm c)
unfolding parse_get_container_issue_information ensure
parse_get_container_issue_information_reads idm front c l p q =
    let xs = c.format_version_carrier_information in
    let ys = c.mobile_phone_model_information in
    let (whole, first, second) =
      two_ranges front xs ys 10 15 26 l (omega (arith, p)) (omega (arith, q)) in
    rw (eq→== (length (front ++ (xs ++ ys))) 26 whole, first, second)

pub parse_authentication1_v2_reads :
    (idm front xs ys zs : List ℕ)
    → length front ≡ 10
    → length xs ≡ 16
    → length ys ≡ 16
    → length zs ≡ 4
    → parse_authentication1_v2 idm (front ++ (xs ++ (ys ++ zs)))
      ≡ ok (authentication1_v2 idm xs ys zs)
unfolding parse_authentication1_v2 ensure
parse_authentication1_v2_reads idm front xs ys zs l p q r =
    let bytes = front ++ (xs ++ (ys ++ zs)) in
    let (whole, second, third) =
      two_ranges (front ++ xs) ys zs 26 42 46 (omega (arith, length-append front xs, l, p))
        (omega (arith, q)) (omega (arith, r)) in
    let again : bytes ≡ (front ++ xs) ++ (ys ++ zs) = simp append_assoc in
    let first : slice_range {E = DriverError} 10 26 bytes ≡ ok xs =
      slice_range-append 10 26 front xs (ys ++ zs) l (omega (arith, p)) in
    let later : slice_range {E = DriverError} 26 42 bytes ≡ ok ys = rw again second in
    let last : slice_range {E = DriverError} 42 46 bytes ≡ ok zs = rw again third in
    rw (eq→== (length bytes) 46 (ap length again ∙ whole), first, later, last)
