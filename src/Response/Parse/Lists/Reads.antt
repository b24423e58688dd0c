-- ===== src/Response/Parse/Lists/Reads.antt =====
-- The responses that list words, blocks or nodes are read back from their layout.
use felica_rs.Prelude.{
  ℕ, ◌+◌, ◌*◌, ◌≤◌, ◌≡◌, refl, true, false, Bool, List, [], ◌∷◌, ◌++◌, length, length-append, arith,
  eq→==, le→ltb_false, le→leb, take_all, ◌==◌, not, if◌then◌else◌, append_assoc,
}
use felica_rs.Prelude.Slices.{
  index, slice_range-end, slice_range-append, slice_range-last, slice_range,
}
use felica_rs.Prelude.Outcome.{ok, ensure}
use felica_rs.Felica.Error.{DriverError}
use felica_rs.Felica.Types.Results.{ReadWithoutEncryptionResult}
use felica_rs.Felica.Payload.Layout.{words_bytes, codes_of, length-words_bytes}
use felica_rs.Command.Parse.Fields.Reads.{words_le_reads, codes_back, length-codes_of}
use felica_rs.Response.{request_service, request_system_code, request_block_information}
use felica_rs.Response.Valid.{IsBlocks, IsCodeList, IsInformationEx}
use felica_rs.Response.Wire.{
  concat_bytes, words_be_bytes, areas_bytes, pairs_bytes, blocks_field, code_list_field,
  information_ex_field,
}
use felica_rs.Response.Wire.Lengths.{
  length-concat_bytes, length-words_be_bytes, length-areas_bytes, length-pairs_bytes,
}
use felica_rs.Response.Parse.Fields.{collect_blocks, out_of_count}
use felica_rs.Response.Parse.Fields.Reads.{at_length, Succeeds}
use felica_rs.Response.Parse.Contents.{
  words_be-words_be_bytes, areas_of-areas_bytes, first_words-pairs_bytes, second_words-pairs_bytes,
  as_chunks-concat_bytes, index_here,
}
use felica_rs.Response.Parse.Lists.{
  parse_request_service, read_blocks, parse_request_system_code, parse_request_block_information,
  block_information_ex, code_list,
}

pub out_of_count_lem : (max n : ℕ) → 1 ≤ n → n ≤ max → out_of_count max n ≡ false
out_of_count_lem max n p q = ground arith

pub collect_blocks_reads :
    (bs : List (List ℕ)) → IsBlocks bs → collect_blocks (concat_bytes bs) (length bs) ≡ ok bs
unfolding collect_blocks
collect_blocks_reads bs h =
    let bytes = concat_bytes bs in
    rw (
      ← length-concat_bytes bs h.2,
      le→leb (length bytes) (length bytes) (omega arith),
      take_all bytes,
      as_chunks-concat_bytes bs h.2,
    )

pub read_blocks_reads :
    Succeeds
      (λ (r : ReadWithoutEncryptionResult). IsBlocks r.blocks)
      (λ r. blocks_field r.blocks)
      read_blocks
unfolding read_blocks ensure
read_blocks_reads r front h l =
    let bs = r.blocks in
    at_length 12 (λ front. read_blocks (front ++ blocks_field bs) ≡ ok r)
      (λ a0 a1 a2 a3 a4 a5 a6 a7 a8 a9 a10 a11.
        let bytes =
          a0
          ∷ a1
          ∷ a2
          ∷ a3
          ∷ a4
          ∷ a5
          ∷ a6
          ∷ a7
          ∷ a8
          ∷ a9
          ∷ a10
          ∷ a11
          ∷ length bs
          ∷ concat_bytes bs in
        rw (
          le→ltb_false (length bytes) 13 (omega arith),
          out_of_count_lem 255 (length bs) h.0 h.1,
          eq→== (length bytes) (13 + length bs * 16) (omega (arith, length-concat_bytes bs h.2)),
          slice_range-end 13 (13 + length bs * 16) bytes (omega arith)
              (omega (arith, length-concat_bytes bs h.2)),
          collect_blocks_reads bs h,
        ))
      front l

pub block_information_ex_reads : Succeeds IsInformationEx information_ex_field block_information_ex
unfolding block_information_ex ensure
block_information_ex_reads r front h l =
    let assigned = r.assigned_block_counts in
    let free = r.free_block_counts in
    at_length 12 (λ front. block_information_ex (front ++ information_ex_field r) ≡ ok r)
      (λ a0 a1 a2 a3 a4 a5 a6 a7 a8 a9 a10 a11.
        let bytes =
          a0
          ∷ a1
          ∷ a2
          ∷ a3
          ∷ a4
          ∷ a5
          ∷ a6
          ∷ a7
          ∷ a8
          ∷ a9
          ∷ a10
          ∷ a11
          ∷ length assigned
          ∷ pairs_bytes assigned free in
        rw (
          le→ltb_false (length bytes) 13 (omega arith),
          out_of_count_lem 32 (length assigned) h.0.0 h.0.1,
          eq→== (length bytes) (13 + length assigned * 4)
              (omega (arith, length-pairs_bytes assigned free h.2)),
          slice_range-end 13 (13 + length assigned * 4) bytes (omega arith)
              (omega (arith, length-pairs_bytes assigned free h.2)),
          first_words-pairs_bytes assigned free h.2,
          second_words-pairs_bytes assigned free h.2,
        ))
      front l

pub parse_request_service_reads :
    (idm front vs : List ℕ)
    → length front ≡ 10
    → 1 ≤ length vs
    → length vs ≤ 32
    → parse_request_service idm (front ++ (length vs ∷ words_bytes vs))
      ≡ ok (request_service idm vs)
unfolding parse_request_service ensure
parse_request_service_reads idm front vs l p q =
    at_length 10
      (λ front.
        parse_request_service idm (front ++ (length vs ∷ words_bytes vs))
        ≡ ok (request_service idm vs))
      (λ a0 a1 a2 a3 a4 a5 a6 a7 a8 a9.
        let bytes = a0 ∷ a1 ∷ a2 ∷ a3 ∷ a4 ∷ a5 ∷ a6 ∷ a7 ∷ a8 ∷ a9 ∷ length vs ∷ words_bytes vs in
        rw (
          le→ltb_false (length bytes) 11 (omega (arith, length-words_bytes vs)),
          out_of_count_lem 32 (length vs) p q,
          eq→== (length bytes) (11 + length vs * 2) (omega (arith, length-words_bytes vs)),
          slice_range-end 11 (11 + length vs * 2) bytes (omega arith)
              (omega (arith, length-words_bytes vs)),
          words_le_reads vs,
        ))
      front l

not_zero : (n : ℕ) → 1 ≤ n → (n == 0) ≡ false
not_zero n h = ground arith

pub parse_request_block_information_reads :
    (idm front vs : List ℕ)
    → length front ≡ 10
    → 1 ≤ length vs
    → parse_request_block_information idm (front ++ (length vs ∷ words_bytes vs))
      ≡ ok (request_block_information idm vs)
unfolding parse_request_block_information ensure
parse_request_block_information_reads idm front vs l p =
    at_length 10
      (λ front.
        parse_request_block_information idm (front ++ (length vs ∷ words_bytes vs))
        ≡ ok (request_block_information idm vs))
      (λ a0 a1 a2 a3 a4 a5 a6 a7 a8 a9.
        let bytes = a0 ∷ a1 ∷ a2 ∷ a3 ∷ a4 ∷ a5 ∷ a6 ∷ a7 ∷ a8 ∷ a9 ∷ length vs ∷ words_bytes vs in
        rw (
          le→ltb_false (length bytes) 12 (omega (arith, length-words_bytes vs)),
          not_zero (length vs) p,
          eq→== (length bytes) (11 + length vs * 2) (omega (arith, length-words_bytes vs)),
          slice_range-end 11 (11 + length vs * 2) bytes (omega arith)
              (omega (arith, length-words_bytes vs)),
          words_le_reads vs,
        ))
      front l

pub parse_request_system_code_reads :
    (idm front vs : List ℕ)
    → length front ≡ 10
    → 1 ≤ length vs
    → parse_request_system_code idm (front ++ (length vs ∷ words_be_bytes vs))
      ≡ ok (request_system_code idm vs)
unfolding parse_request_system_code ensure
parse_request_system_code_reads idm front vs l p =
    at_length 10
      (λ front.
        parse_request_system_code idm (front ++ (length vs ∷ words_be_bytes vs))
        ≡ ok (request_system_code idm vs))
      (λ a0 a1 a2 a3 a4 a5 a6 a7 a8 a9.
        let bytes =
          a0 ∷ a1 ∷ a2 ∷ a3 ∷ a4 ∷ a5 ∷ a6 ∷ a7 ∷ a8 ∷ a9 ∷ length vs ∷ words_be_bytes vs in
        rw (
          le→ltb_false (length bytes) 12 (omega (arith, length-words_be_bytes vs)),
          not_zero (length vs) p,
          eq→== (length bytes) (11 + length vs * 2) (omega (arith, length-words_be_bytes vs)),
          slice_range-end 11 (11 + length vs * 2) bytes (omega arith)
              (omega (arith, length-words_be_bytes vs)),
          words_be-words_be_bytes vs,
        ))
      front l

flag_back : (c : Bool) → not ((if c then 1 else 0) == 0) ≡ c
flag_back true = refl
flag_back false = refl

pub code_list_reads : Succeeds IsCodeList code_list_field code_list
unfolding code_list ensure
code_list_reads r front h l =
    let n = length r.areas in
    let m = length r.services in
    let areas = areas_bytes r.areas in
    let words = words_bytes (codes_of r.services) in
    let words_length : length words ≡ m * 2 =
      omega (arith, length-words_bytes (codes_of r.services), length-codes_of r.services) in
    let areas_length : length areas ≡ n * 4 = length-areas_bytes r.areas in
    at_length 12 (λ front. code_list (front ++ code_list_field r) ≡ ok r)
      (λ a0 a1 a2 a3 a4 a5 a6 a7 a8 a9 a10 a11.
        let flag : ℕ = if r.continue_flag then 1 else 0 in
        let front14 = a0 ∷ a1 ∷ a2 ∷ a3 ∷ a4 ∷ a5 ∷ a6 ∷ a7 ∷ a8 ∷ a9 ∷ a10 ∷ a11 ∷ flag ∷ n ∷ [] in
        let bytes = front14 ++ (areas ++ (m ∷ words)) in
        let before = front14 ++ (areas ++ (m ∷ [])) in
        let again : bytes ≡ before ++ words = simp append_assoc in
        let whole : length bytes ≡ 14 + n * 4 + 1 + m * 2 =
          omega (arith, length-append areas (m ∷ words), words_length, areas_length) in
        let count_at : index {E = DriverError} bytes (14 + n * 4) ≡ ok m =
          rw ((let e : 14 + n * 4 ≡ length (front14 ++ areas) = omega (arith, areas_length) in e))
            (index_here (front14 ++ areas) m words) in
        let last : slice_range {E = DriverError} (14 + n * 4 + 1) (14 + n * 4 + 1 + m * 2) bytes
            ≡ ok words =
          rw again (
            slice_range-last (14 + n * 4 + 1) (14 + n * 4 + 1 + m * 2) before words
              (omega (arith, length-append areas (m ∷ []), areas_length))
              (omega (arith, words_length))) in
        rw (
          le→ltb_false (length bytes) 15 (omega (arith, whole)),
          le→ltb_false (length bytes) (14 + n * 4 + 1) (omega (arith, whole)),
          slice_range-append 14 (14 + n * 4) front14 areas (m ∷ words) refl
              (omega (arith, areas_length)),
          count_at,
          le→ltb_false (length bytes) (14 + n * 4 + 1 + m * 2) (omega (arith, whole)),
          eq→== (length bytes) (14 + n * 4 + 1 + m * 2) whole,
          last,
          flag_back r.continue_flag,
          areas_of-areas_bytes r.areas,
          words_le_reads (codes_of r.services),
          codes_back r.services,
        ))
      front l
