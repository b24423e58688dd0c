-- ===== src/Response/Parse/Lists/Sound.antt =====
-- The responses that list words, blocks or nodes, read from any bytes.
use felica_rs.Prelude.{
  ℕ, ◌+◌, ◌*◌, ◌≤◌, ◌≡◌, refl, List, ◌∷◌, ◌++◌, length, length-append, All, arith, map,
}
use felica_rs.Prelude.Bytes.{IsByte}
use felica_rs.Prelude.Outcome.Ensures.{
  Ensures, returns, Ensures-bind, Ensures-ensure, index-Ensures, slice_range-Ensures,
}
use felica_rs.Felica.Types.Results.{ReadWithoutEncryptionResult}
use felica_rs.Felica.Types.Service.{ServiceCode}
use felica_rs.Felica.Payload.Layout.{counted_codes, words_bytes, length-words_bytes}
use felica_rs.Command.Wire.{IsBytes}
use felica_rs.Command.Parse.Fields.{words_le, service_code}
use felica_rs.Command.Parse.Fields.Sound.{words_le_sound, length-codes, codes_sound}
use felica_rs.Response.{read_without_encryption, request_code_list, request_block_information_ex}
use felica_rs.Response.Valid.{IsBlocks, IsCodeList, IsInformationEx, is_secure}
use felica_rs.Response.Wire.{
  words_be_bytes, blocks_field, code_list_field, information_ex_field, fields, outcome, areas_bytes,
}
use felica_rs.Response.Wire.Lengths.{
  length-concat_bytes, length-words_be_bytes, length-areas_bytes, length-pairs_bytes,
}
use felica_rs.Response.Wire.Returned.{IsReturned}
use felica_rs.Response.Parse.Bounds.{
  words_be_sound, areas_of_sound, first_words_sound, second_words_sound, collect_blocks-Ensures,
}
use felica_rs.Response.Parse.Fields.{words_be}
use felica_rs.Response.Parse.Fields.Sound.{Fills, parse_outcome-Ensures}
use felica_rs.Response.Parse.Lists.{
  parse_request_service, read_blocks, parse_read_without_encryption, parse_request_system_code,
  parse_request_block_information, block_information_ex, parse_request_block_information_ex,
  code_list, parse_request_code_list, first_words, second_words, areas_of,
}

pub parse_request_service-Ensures :
    (idm bytes : List ℕ)
    → IsBytes 8 idm
    → All IsByte bytes
    → Ensures (IsReturned (length bytes)) (parse_request_service idm bytes)
unfolding parse_request_service fields is_secure
parse_request_service-Ensures idm bytes i h = Ensures-ensure _ λ t.
    Ensures-bind (index-Ensures bytes 10 h (ground arith)) λ n c. Ensures-ensure _ λ u.
      Ensures-ensure _ λ v.
        let many : (1 ≤ n) × (n ≤ 32) = ground arith in
        let whole : length bytes ≡ 11 + n * 2 = ground arith in
        Ensures-bind
          (slice_range-Ensures 11 (11 + n * 2) bytes h (omega arith) (omega (arith, whole)))
          λ chunk s.
            let (size, words_ok) = words_le_sound n chunk s.1 (omega (arith, s.0)) in
            let whole_size : 2
                  + length (idm ++ (length (words_le chunk) ∷ words_bytes (words_le chunk)))
                ≡ length bytes =
              omega (
                arith,
                length-append idm (length (words_le chunk) ∷ words_bytes (words_le chunk)),
                length-words_bytes (words_le chunk),
                i.0,
                size,
                whole,
              ) in
            returns (
              (i, (omega (arith, size, many.0), omega (arith, size, many.1), words_ok)),
              refl,
              whole_size,
            )

pub parse_request_system_code-Ensures :
    (idm bytes : List ℕ)
    → IsBytes 8 idm
    → All IsByte bytes
    → Ensures (IsReturned (length bytes)) (parse_request_system_code idm bytes)
unfolding parse_request_system_code fields is_secure
parse_request_system_code-Ensures idm bytes i h = Ensures-ensure _ λ t.
    Ensures-bind (index-Ensures bytes 10 h (ground arith)) λ n c. Ensures-ensure _ λ u.
      Ensures-ensure _ λ v.
        let many : 1 ≤ n = ground arith in
        let whole : length bytes ≡ 11 + n * 2 = ground arith in
        Ensures-bind
          (slice_range-Ensures 11 (11 + n * 2) bytes h (omega arith) (omega (arith, whole)))
          λ chunk s.
            let (size, words_ok) = words_be_sound n chunk s.1 (omega (arith, s.0)) in
            let whole_size : 2
                  + length (idm ++ (length (words_be chunk) ∷ words_be_bytes (words_be chunk)))
                ≡ length bytes =
              omega (
                arith,
                length-append idm (length (words_be chunk) ∷ words_be_bytes (words_be chunk)),
                length-words_be_bytes (words_be chunk),
                i.0,
                size,
                whole,
              ) in
            returns
              ((i, (omega (arith, size, many), omega (arith, size, c), words_ok)), refl, whole_size)

pub parse_request_block_information-Ensures :
    (idm bytes : List ℕ)
    → IsBytes 8 idm
    → All IsByte bytes
    → Ensures (IsReturned (length bytes)) (parse_request_block_information idm bytes)
unfolding parse_request_block_information fields is_secure
parse_request_block_information-Ensures idm bytes i h = Ensures-ensure _ λ t.
    Ensures-bind (index-Ensures bytes 10 h (ground arith)) λ n c. Ensures-ensure _ λ u.
      Ensures-ensure _ λ v.
        let many : 1 ≤ n = ground arith in
        let whole : length bytes ≡ 11 + n * 2 = ground arith in
        Ensures-bind
          (slice_range-Ensures 11 (11 + n * 2) bytes h (omega arith) (omega (arith, whole)))
          λ chunk s.
            let (size, words_ok) = words_le_sound n chunk s.1 (omega (arith, s.0)) in
            let whole_size : 2
                  + length (idm ++ (length (words_le chunk) ∷ words_bytes (words_le chunk)))
                ≡ length bytes =
              omega (
                arith,
                length-append idm (length (words_le chunk) ∷ words_bytes (words_le chunk)),
                length-words_bytes (words_le chunk),
                i.0,
                size,
                whole,
              ) in
            returns (i, (omega (arith, size, many), omega (arith, size, c), words_ok), whole_size)

read_blocks-Ensures :
    (bytes : List ℕ)
    → All IsByte bytes
    → 12 ≤ length bytes
    → Ensures
        (Fills
          (λ (r : ReadWithoutEncryptionResult). IsBlocks r.blocks)
          (λ r. blocks_field r.blocks)
          (length bytes))
        (read_blocks bytes)
unfolding read_blocks
read_blocks-Ensures bytes h k = Ensures-ensure _ λ t.
    Ensures-bind (index-Ensures bytes 12 h (ground arith)) λ n c. Ensures-ensure _ λ u.
      Ensures-ensure _ λ v.
        let many : (1 ≤ n) × (n ≤ 255) = ground arith in
        let whole : length bytes ≡ 13 + n * 16 = ground arith in
        Ensures-bind
          (slice_range-Ensures 13 (13 + n * 16) bytes h (omega arith) (omega (arith, whole)))
          λ slice s. Ensures-bind (collect_blocks-Ensures n slice s.1 (omega (arith, s.0))) λ bs b.
            returns (
              (omega (arith, b.0, many.0), omega (arith, b.0, many.1), b.1),
              omega (arith, length-concat_bytes bs b.1, b.0, whole),
            )

block_information_ex-Ensures :
    (bytes : List ℕ)
    → All IsByte bytes
    → 12 ≤ length bytes
    → Ensures
        (Fills IsInformationEx information_ex_field (length bytes))
        (block_information_ex bytes)
unfolding block_information_ex
block_information_ex-Ensures bytes h k = Ensures-ensure _ λ t.
    Ensures-bind (index-Ensures bytes 12 h (ground arith)) λ n c. Ensures-ensure _ λ u.
      Ensures-ensure _ λ v.
        let many : (1 ≤ n) × (n ≤ 32) = ground arith in
        let whole : length bytes ≡ 13 + n * 4 = ground arith in
        Ensures-bind
          (slice_range-Ensures 13 (13 + n * 4) bytes h (omega arith) (omega (arith, whole)))
          λ chunk s.
            let (size1, ok1) = first_words_sound n chunk s.1 (omega (arith, s.0)) in
            let (size2, ok2) = second_words_sound n chunk s.1 (omega (arith, s.0)) in
            let same : length (second_words chunk) ≡ length (first_words chunk) =
              omega (arith, size1, size2) in
            returns (
              ((omega (arith, size1, many.0), omega (arith, size1, many.1), ok1), ok2, same),
              omega (
                arith,
                length-pairs_bytes (first_words chunk) (second_words chunk) same,
                size1,
                whole,
              ),
            )

code_list-Ensures :
    (bytes : List ℕ)
    → All IsByte bytes
    → 12 ≤ length bytes
    → Ensures (Fills IsCodeList code_list_field (length bytes)) (code_list bytes)
unfolding code_list
code_list-Ensures bytes h k = Ensures-ensure _ λ t.
    let long : 15 ≤ length bytes = ground arith in
    Ensures-bind (index-Ensures bytes 12 h (omega (arith, long))) λ flag f.
      Ensures-bind (index-Ensures bytes 13 h (omega (arith, long))) λ n c. Ensures-ensure _ λ u.
        let areas_fit : 14 + n * 4 + 1 ≤ length bytes = ground arith in
        Ensures-bind
          (slice_range-Ensures 14 (14 + n * 4) bytes h (omega arith) (omega (arith, areas_fit)))
          λ areas a.
            Ensures-bind (index-Ensures bytes (14 + n * 4) h (omega (arith, areas_fit))) λ m d.
              Ensures-ensure _ λ v. Ensures-ensure _ λ w.
                let whole : length bytes ≡ 14 + n * 4 + 1 + m * 2 = ground arith in
                Ensures-bind
                  (slice_range-Ensures (14 + n * 4 + 1) (14 + n * 4 + 1 + m * 2) bytes h
                    (omega arith) (omega (arith, whole)))
                  λ services s.
                    let (size1, ok1) = areas_of_sound n areas a.1 (omega (arith, a.0)) in
                    let (size2, ok2) = words_le_sound m services s.1 (omega (arith, s.0)) in
                    let codes : List ServiceCode = map service_code (words_le services) in
                    let (ok3, size3) = codes_sound (words_le services) ok2 in
                    returns (
                      (
                        (omega arith, omega (arith, size1, c), ok1),
                        (omega arith, omega (arith, size2, size3, d), ok3),
                      ),
                      omega (
                        arith,
                        length-append (areas_bytes (areas_of areas)) (counted_codes codes),
                        length-areas_bytes (areas_of areas),
                        length-codes codes,
                        size1,
                        size2,
                        size3,
                        whole,
                      ),
                    )

pub parse_read_without_encryption-Ensures :
    (idm bytes : List ℕ)
    → IsBytes 8 idm
    → All IsByte bytes
    → Ensures (IsReturned (length bytes)) (parse_read_without_encryption idm bytes)
unfolding parse_read_without_encryption fields is_secure
parse_read_without_encryption-Ensures idm bytes i h =
    parse_outcome-Ensures (λ r. IsBlocks r.blocks) (λ r. blocks_field r.blocks)
      (read_without_encryption idm) _ _ read_blocks bytes h (read_blocks-Ensures bytes h)
      λ sf1 sf2 result f p e. (
        (i, f, p),
        refl,
        omega (
          arith,
          length-append idm (outcome sf1 sf2 (λ r. blocks_field r.blocks) result),
          i.0,
          e,
        ),
      )

pub parse_request_block_information_ex-Ensures :
    (idm bytes : List ℕ)
    → IsBytes 8 idm
    → All IsByte bytes
    → Ensures (IsReturned (length bytes)) (parse_request_block_information_ex idm bytes)
unfolding parse_request_block_information_ex fields is_secure
parse_request_block_information_ex-Ensures idm bytes i h =
    parse_outcome-Ensures IsInformationEx information_ex_field (request_block_information_ex idm) _
      _ block_information_ex bytes h (block_information_ex-Ensures bytes h)
      λ sf1 sf2 result f p e. (
        (i, f, p),
        refl,
        omega (arith, length-append idm (outcome sf1 sf2 information_ex_field result), i.0, e),
      )

pub parse_request_code_list-Ensures :
    (idm bytes : List ℕ)
    → IsBytes 8 idm
    → All IsByte bytes
    → Ensures (IsReturned (length bytes)) (parse_request_code_list idm bytes)
unfolding parse_request_code_list fields is_secure
parse_request_code_list-Ensures idm bytes i h =
    parse_outcome-Ensures IsCodeList code_list_field (request_code_list idm) _ _ code_list bytes h
      (code_list-Ensures bytes h)
      λ sf1 sf2 result f p e. (
        (i, f, p),
        refl,
        omega (arith, length-append idm (outcome sf1 sf2 code_list_field result), i.0, e),
      )
