-- ===== src/Command/Parse/Queries/Sound.antt =====
-- The parsers of the commands that only query a card on any bytes:
-- no panic, and a command within its ranges that is no longer than the input.
use felica_rs.Prelude.{ℕ, refl, List, ◌++◌, length, length-append, All, arith}
use felica_rs.Prelude.Bytes.{IsByte, from_le_bytes, from_le_bytes-IsWord, from_be_bytes-IsWord}
use felica_rs.Prelude.Outcome.Ensures.{
  Ensures, returns, Ensures-bind, Ensures-ensure, Ensures-exact, index-Ensures,
}
use felica_rs.Felica.Constants.{max_service_codes, max_node_codes}
use felica_rs.Felica.Payload.Layout.{counted_words, counted_codes, length-words_bytes}
use felica_rs.Command.Wire.{fields, is_secure, IsParsed, word}
use felica_rs.Command.Parse.Fields.Sound.{
  parse_idm-Ensures, no_trailing-Ensures, take_u16_list-Ensures, take_service_code_list-Ensures,
  length-codes,
}
use felica_rs.Command.Parse.Queries.{
  parse_polling, parse_request_service, parse_request_response, parse_search_service_code,
  parse_request_system_code, parse_request_block_information, parse_request_code_list,
  parse_request_block_information_ex, parse_get_area_information, parse_request_service_v2,
}

pub parse_polling-Ensures :
    (body : List ℕ) → All IsByte body → Ensures (IsParsed (length body)) (parse_polling body)
unfolding parse_polling fields is_secure
parse_polling-Ensures body h = Ensures-exact _ _ λ l.
    Ensures-bind (index-Ensures body 2 h (omega arith)) λ b2 p2. Ensures-ensure _ λ t.
      Ensures-bind (index-Ensures body 3 h (omega arith)) λ b3 p3. Ensures-ensure _ λ u.
        Ensures-bind (index-Ensures body 0 h (omega arith)) λ b0 p0.
          Ensures-bind (index-Ensures body 1 h (omega arith))
            λ b1 p1. returns ((from_be_bytes-IsWord b0 b1 p0 p1, t, u), refl, omega arith)

pub parse_request_service-Ensures :
    (body : List ℕ)
    → All IsByte body
    → Ensures (IsParsed (length body)) (parse_request_service body)
unfolding parse_request_service fields is_secure
parse_request_service-Ensures body h = Ensures-bind (parse_idm-Ensures body h) λ (idm, rest) i.
    Ensures-bind (take_service_code_list-Ensures rest max_service_codes _ i.1) λ (cs, rest') c.
      Ensures-bind (no_trailing-Ensures rest' _) λ _ e. returns (
        (i.0, c.0),
        refl,
        omega (arith, length-append idm (counted_codes cs), length-codes cs, i.0.0, i.2, c.2),
      )

pub parse_request_response-Ensures :
    (body : List ℕ)
    → All IsByte body
    → Ensures (IsParsed (length body)) (parse_request_response body)
unfolding parse_request_response fields is_secure
parse_request_response-Ensures body h =
    Ensures-bind (parse_idm-Ensures body h)
      λ (idm, rest) i. Ensures-ensure _ λ t. returns (i.0, refl, omega (arith, i.0.0, i.2))

pub parse_search_service_code-Ensures :
    (body : List ℕ)
    → All IsByte body
    → Ensures (IsParsed (length body)) (parse_search_service_code body)
unfolding parse_search_service_code fields is_secure
parse_search_service_code-Ensures body h = Ensures-bind (parse_idm-Ensures body h) λ (idm, rest) i.
    Ensures-exact _ _ λ l. Ensures-bind (index-Ensures rest 0 i.1 (omega arith)) λ b0 p0.
      Ensures-bind (index-Ensures rest 1 i.1 (omega arith)) λ b1 p1. returns (
        (i.0, from_le_bytes-IsWord b0 b1 p0 p1),
        refl,
        omega (arith, length-append idm (word (from_le_bytes b0 b1)), i.0.0, i.2),
      )

pub parse_request_system_code-Ensures :
    (body : List ℕ)
    → All IsByte body
    → Ensures (IsParsed (length body)) (parse_request_system_code body)
unfolding parse_request_system_code fields is_secure
parse_request_system_code-Ensures body h =
    Ensures-bind (parse_idm-Ensures body h)
      λ (idm, rest) i. Ensures-ensure _ λ t. returns (i.0, refl, omega (arith, i.0.0, i.2))

pub parse_request_block_information-Ensures :
    (body : List ℕ)
    → All IsByte body
    → Ensures (IsParsed (length body)) (parse_request_block_information body)
unfolding parse_request_block_information fields is_secure
parse_request_block_information-Ensures body h =
    Ensures-bind (parse_idm-Ensures body h) λ (idm, rest) i.
      Ensures-bind (take_u16_list-Ensures rest 1 max_node_codes _ _ i.1) λ (vs, rest') c.
        Ensures-bind (no_trailing-Ensures rest' _) λ _ e. returns (
          (i.0, c.0),
          refl,
          omega
              (arith, length-append idm (counted_words vs), length-words_bytes vs, i.0.0, i.2, c.2),
        )

pub parse_request_code_list-Ensures :
    (body : List ℕ)
    → All IsByte body
    → Ensures (IsParsed (length body)) (parse_request_code_list body)
unfolding parse_request_code_list fields is_secure
parse_request_code_list-Ensures body h = Ensures-bind (parse_idm-Ensures body h) λ (idm, rest) i.
    Ensures-exact _ _ λ l. Ensures-bind (index-Ensures rest 0 i.1 (omega arith)) λ b0 p0.
      Ensures-bind (index-Ensures rest 1 i.1 (omega arith)) λ b1 p1.
        Ensures-bind (index-Ensures rest 2 i.1 (omega arith)) λ b2 p2.
          Ensures-bind (index-Ensures rest 3 i.1 (omega arith)) λ b3 p3. returns (
            (i.0, from_le_bytes-IsWord b0 b1 p0 p1, from_le_bytes-IsWord b2 b3 p2 p3),
            refl,
            omega (
              arith,
              length-append idm (word (from_le_bytes b0 b1) ++ word (from_le_bytes b2 b3)),
              i.0.0,
              i.2,
            ),
          )

pub parse_request_block_information_ex-Ensures :
    (body : List ℕ)
    → All IsByte body
    → Ensures (IsParsed (length body)) (parse_request_block_information_ex body)
unfolding parse_request_block_information_ex fields is_secure
parse_request_block_information_ex-Ensures body h =
    Ensures-bind (parse_idm-Ensures body h) λ (idm, rest) i.
      Ensures-bind (take_u16_list-Ensures rest 1 max_node_codes _ _ i.1) λ (vs, rest') c.
        Ensures-bind (no_trailing-Ensures rest' _) λ _ e. returns (
          (i.0, c.0),
          refl,
          omega
              (arith, length-append idm (counted_words vs), length-words_bytes vs, i.0.0, i.2, c.2),
        )

pub parse_get_area_information-Ensures :
    (body : List ℕ)
    → All IsByte body
    → Ensures (IsParsed (length body)) (parse_get_area_information body)
unfolding parse_get_area_information fields is_secure
parse_get_area_information-Ensures body h = Ensures-bind (parse_idm-Ensures body h) λ (idm, rest) i.
    Ensures-exact _ _ λ l. Ensures-bind (index-Ensures rest 0 i.1 (omega arith)) λ b0 p0.
      Ensures-bind (index-Ensures rest 1 i.1 (omega arith)) λ b1 p1. returns (
        (i.0, from_le_bytes-IsWord b0 b1 p0 p1),
        refl,
        omega (arith, length-append idm (word (from_le_bytes b0 b1)), i.0.0, i.2),
      )

pub parse_request_service_v2-Ensures :
    (body : List ℕ)
    → All IsByte body
    → Ensures (IsParsed (length body)) (parse_request_service_v2 body)
unfolding parse_request_service_v2 fields is_secure
parse_request_service_v2-Ensures body h = Ensures-bind (parse_idm-Ensures body h) λ (idm, rest) i.
    Ensures-bind (take_service_code_list-Ensures rest max_service_codes _ i.1) λ (cs, rest') c.
      Ensures-bind (no_trailing-Ensures rest' _) λ _ e. returns (
        (i.0, c.0),
        refl,
        omega (arith, length-append idm (counted_codes cs), length-codes cs, i.0.0, i.2, c.2),
      )
