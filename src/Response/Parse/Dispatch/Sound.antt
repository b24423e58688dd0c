-- ===== src/Response/Parse/Dispatch/Sound.antt =====
-- A whole frame, read from any bytes.
use felica_rs.Prelude.{
  ℕ, ◌≤◌, ◌≡◌, ◌⊎◌, inl, inr, refl, Bool, true, false, List, [], ◌∷◌, length, All, arith, ==→eq,
  ◌==◌, ◌||◌, if◌then◌else◌,
}
use felica_rs.Response.{FelicaStandardResponse, unknown}
use felica_rs.Response.Parse.Fields.{Read}
use felica_rs.Prelude.Bytes.{IsByte}
use felica_rs.Prelude.Outcome.Ensures.{
  Ensures, returns, Ensures-bind, Ensures-ensure, Ensures-mono, slice_from-Ensures,
}
use felica_rs.Felica.Constants
use felica_rs.Command.Wire.{IsBytes}
use felica_rs.Response.Wire.Returned.{IsReturned, IsRead, is_any_of, addressed_codes}
use felica_rs.Response.Parse.Fields.Sound.{parse_fixed-Ensures}
use felica_rs.Response.Parse.Queries.Sound.{
  parse_authentication2-Ensures, parse_authentication2_v2-Ensures, parse_polling-Ensures,
  parse_request_response-Ensures, parse_write_without_encryption-Ensures,
  parse_set_parameter-Ensures, parse_reset_mode-Ensures, parse_search_service_code-Ensures,
  parse_get_container_issue_information-Ensures, parse_get_container_property-Ensures,
  parse_get_container_id-Ensures, parse_get_area_information-Ensures, parse_authentication1-Ensures,
  parse_authentication1_v2-Ensures,
}
use felica_rs.Response.Parse.Lists.Sound.{
  parse_request_service-Ensures, parse_read_without_encryption-Ensures,
  parse_request_system_code-Ensures, parse_request_block_information-Ensures,
  parse_request_code_list-Ensures, parse_request_block_information_ex-Ensures,
}
use felica_rs.Response.Parse.Settings.Sound.{
  parse_get_node_property-Ensures, parse_request_service_v2-Ensures,
  parse_get_system_status-Ensures, parse_request_product_information-Ensures,
  parse_request_specification_version-Ensures,
}
use felica_rs.Response.Parse.Dispatch.{parse_addressed, from_bytes}

-- A response as read under one of some codes, or `Unknown` under none of them, from `n` bytes.
abbrev Under : ℕ → Bool → FelicaStandardResponse → Type 0
Under n known r = IsReturned n r ⊎ ((r ≡ unknown) × (known ≡ false) × (10 ≤ n))

choice :
    {n : ℕ} (test : Bool) {others : Bool} {here rest : Read FelicaStandardResponse}
    → Ensures (IsReturned n) here
    → Ensures (Under n others) rest
    → Ensures (Under n (test || others)) (if test then here else rest)
choice true h k = Ensures-mono h λ r returned. inl returned
choice false h k = k

parse_addressed-Ensures :
    (code : ℕ) (idm bytes : List ℕ)
    → IsBytes 8 idm
    → All IsByte bytes
    → 10 ≤ length bytes
    → Ensures
        (Under (length bytes) (is_any_of addressed_codes code))
        (parse_addressed code idm bytes)
unfolding parse_addressed
parse_addressed-Ensures code idm bytes i h long =
    choice (code == Constants.polling_response_code) (parse_polling-Ensures idm bytes i h) (
      choice (code == Constants.request_service_response_code)
        (parse_request_service-Ensures idm bytes i h)
        (choice (code == Constants.request_response_response_code)
          (parse_request_response-Ensures idm bytes i h)
          (choice (code == Constants.read_without_encryption_response_code)
            (parse_read_without_encryption-Ensures idm bytes i h)
            (choice (code == Constants.write_without_encryption_response_code)
              (parse_write_without_encryption-Ensures idm bytes i h)
              (choice (code == Constants.search_service_code_response_code)
                (parse_search_service_code-Ensures idm bytes i h)
                (choice (code == Constants.request_system_code_response_code)
                  (parse_request_system_code-Ensures idm bytes i h)
                  (choice (code == Constants.request_block_information_response_code)
                    (parse_request_block_information-Ensures idm bytes i h)
                    (choice (code == Constants.authentication1_response_code)
                      (parse_authentication1-Ensures idm bytes i h)
                      (choice (code == Constants.request_code_list_response_code)
                        (parse_request_code_list-Ensures idm bytes i h)
                        (choice (code == Constants.request_block_information_ex_response_code)
                          (parse_request_block_information_ex-Ensures idm bytes i h)
                          (choice (code == Constants.set_parameter_response_code)
                            (parse_set_parameter-Ensures idm bytes i h)
                            (choice
                              (code == Constants.get_container_issue_information_response_code)
                              (parse_get_container_issue_information-Ensures idm bytes i h)
                              (choice (code == Constants.get_area_information_response_code)
                                (parse_get_area_information-Ensures idm bytes i h)
                                (choice (code == Constants.get_node_property_response_code)
                                  (parse_get_node_property-Ensures idm bytes i h)
                                  (choice (code == Constants.request_service_v2_response_code)
                                    (parse_request_service_v2-Ensures idm bytes i h)
                                    (choice (code == Constants.get_system_status_response_code)
                                      (parse_get_system_status-Ensures idm bytes i h)
                                      (choice
                                        (code
                                          == Constants.request_product_information_response_code)
                                        (parse_request_product_information-Ensures idm bytes i h)
                                        (choice
                                          (code
                                            == Constants.request_specification_version_response_code)
                                          (parse_request_specification_version-Ensures idm bytes i
                                            h)
                                          (choice (code == Constants.reset_mode_response_code)
                                            (parse_reset_mode-Ensures idm bytes i h)
                                            (choice
                                              (code == Constants.authentication1_v2_response_code)
                                              (parse_authentication1_v2-Ensures idm bytes i h)
                                              (choice
                                                (code == Constants.get_container_id_response_code)
                                                (parse_get_container_id-Ensures idm bytes i h)
                                                (returns
                                                  (inr (refl, refl, long))))))))))))))))))))))))

from_two-Ensures :
    (size code : ℕ) (rest : List ℕ)
    → All IsByte (size ∷ code ∷ rest)
    → Ensures (IsRead (size ∷ code ∷ rest)) (from_bytes (size ∷ code ∷ rest))
unfolding from_bytes
from_two-Ensures size code rest h =
    let bytes = size ∷ code ∷ rest in
    Ensures-ensure _ λ t. Ensures-ensure _ λ u.
      Ensures-mono
        (choice (code == Constants.authentication2_response_code)
          (parse_authentication2-Ensures bytes h)
          (choice (code == Constants.get_container_property_response_code)
            (parse_get_container_property-Ensures bytes h)
            (choice (code == Constants.authentication2_v2_response_code)
              (parse_authentication2_v2-Ensures bytes h)
              (Ensures-ensure _ λ v.
                let long : 10 ≤ length bytes = ground arith in
                Ensures-bind (slice_from-Ensures 2 bytes h (omega (arith, long))) λ behind b.
                  Ensures-bind (parse_fixed-Ensures 8 behind "IDm" b.1)
                    λ (idm, after) i. parse_addressed-Ensures code idm bytes i.0 h long))))
        λ r read. elim read [
          | inl returned ↦ inl returned
          | inr (same, unread, long) ↦ inr (same, (==→eq size (length bytes) u, long, unread))
        ]

-- Any bytes are read without a panic. A response that is returned is no response of a session, its
-- layout takes exactly the bytes given, and it is in range, with a result just beside a status flag
-- 1 of zero; but there may be up to 255 block counts, and Get System Status has its data beside any
-- flag. `Unknown` is returned just for a frame of ten bytes at least, with its own length in front,
-- under a code that no response has.
pub from_bytes-Ensures :
    (bytes : List ℕ) → All IsByte bytes → Ensures (IsRead bytes) (from_bytes bytes)
unfolding from_bytes
from_bytes-Ensures [] h = Ensures-ensure _ λ t. cc
from_bytes-Ensures (size ∷ []) h = Ensures-ensure _ λ t. cc
from_bytes-Ensures (size ∷ code ∷ rest) h = from_two-Ensures size code rest h
