-- ===== src/Response/Parse/Secure/Reads.antt =====
-- The decrypted responses of a session are read back from their layout, whatever follows it.
use felica_rs.Prelude.{
  ℕ, ◌+◌, ◌*◌, ◌≤◌, ◌≡◌, refl, true, Option, none, some, String, List, [], ◌∷◌, ◌++◌, length,
  length-append, arith, eq→==, le→ltb_false, ne→==_false,
}
use felica_rs.Prelude.Bytes.{from_le_bytes-to_le_bytes}
use felica_rs.Prelude.Slices.{slice_range-append}
use felica_rs.Prelude.Outcome.{ok, ensure}
use felica_rs.Felica.Types.Results.{ReadResult}
use felica_rs.Command.Wire.{word}
use felica_rs.Response.{
  FelicaStandardResponse, polling, request_service, request_response, read_without_encryption,
  write_without_encryption, search_service_code, request_system_code, request_block_information,
  authentication1, authentication2, request_code_list, request_block_information_ex, set_parameter,
  get_container_issue_information, get_area_information, get_node_property, get_container_property,
  request_service_v2, get_system_status, request_product_information, request_specification_version,
  reset_mode, authentication1_v2, authentication2_v2, get_container_id, read, write, read_v2,
  write_v2, register_issue_id, register_area, register_service, change_system_block, unknown,
}
use felica_rs.Response.Valid.{Paired, IsBlocks, IsValid, is_secure, session_command}
use felica_rs.Response.Wire.{outcome, concat_bytes, blocks_field, fields}
use felica_rs.Response.Wire.Lengths.{length-concat_bytes}
use felica_rs.Response.Parse.Fields.{Read, word_at}
use felica_rs.Response.Parse.Lists.Reads.{out_of_count_lem, collect_blocks_reads}
use felica_rs.Response.Parse.Secure.{
  secure_flags, parse_secure_outcome, secure_blocks, parse_secure_read, parse_secure_write,
  parse_register_issue_id, parse_register_area, parse_register_service, parse_change_system_block,
  from_secure_bytes,
}

-- A reader of the part behind two status flags, with bytes to spare.
abbrev SecureSucceeds : {R : Type 0} → (R → Type 0) → (R → List ℕ) → (List ℕ → Read R) → Type 0
SecureSucceeds P field success =
    (r : _) (sf1 sf2 : ℕ) (trailing : List ℕ)
    → P r
    → success (sf1 ∷ sf2 ∷ (field r ++ trailing)) ≡ ok r

parse_secure_outcome_reads :
    {R : Type 0} {P : R → Type 0} (field : R → List ℕ) (success : List ℕ → Read R)
    (answer : ℕ → ℕ → Option R → FelicaStandardResponse) (short_message : String) (sf1 sf2 : ℕ)
    (result : Option R) (trailing : List ℕ)
    → Paired P sf1 result
    → SecureSucceeds P field success
    → parse_secure_outcome answer short_message success (outcome sf1 sf2 field result ++ trailing)
      ≡ ok (answer sf1 sf2 result)
unfolding parse_secure_outcome secure_flags ensure
parse_secure_outcome_reads field success answer sm sf1 sf2 none trailing p k = rw (
  le→ltb_false (length (sf1 ∷ sf2 ∷ trailing)) 2 (omega arith),
  ne→==_false sf1 0 (λ e. absurd (omega arith)),
)
parse_secure_outcome_reads field success answer sm sf1 sf2 (some r) trailing p k = rw (
  le→ltb_false (length (sf1 ∷ sf2 ∷ (field r ++ trailing))) 2 (omega arith),
  eq→== sf1 0 p.0,
  k r sf1 sf2 trailing p.1,
)

secure_blocks_reads :
    SecureSucceeds
      (λ (r : ReadResult). IsBlocks r.blocks)
      (λ r. blocks_field r.blocks)
      secure_blocks
unfolding secure_blocks ensure
secure_blocks_reads r sf1 sf2 trailing h =
    let bs = r.blocks in
    let n = length bs in
    let blocks = concat_bytes bs in
    let bytes = sf1 ∷ sf2 ∷ n ∷ (blocks ++ trailing) in
    let enough : 3 + n * 16 ≤ length bytes =
      omega (arith, length-append blocks trailing, length-concat_bytes bs h.2) in
    rw (
      le→ltb_false (length bytes) 3 (omega arith),
      out_of_count_lem 255 n h.0 h.1,
      le→ltb_false (length bytes) (3 + n * 16) enough,
      slice_range-append 3 (3 + n * 16) (sf1 ∷ sf2 ∷ n ∷ []) blocks trailing refl
          (omega (arith, length-concat_bytes bs h.2)),
      collect_blocks_reads bs h,
    )

word_behind :
    (v sf1 sf2 : ℕ) (trailing : List ℕ) → word_at (sf1 ∷ sf2 ∷ (word v ++ trailing)) 2 ≡ ok v
unfolding word_at
word_behind v sf1 sf2 trailing = rw (from_le_bytes-to_le_bytes v)

pub from_secure_bytes-fields :
    (r : FelicaStandardResponse) (trailing : List ℕ)
    → IsValid r
    → is_secure r ≡ true
    → from_secure_bytes (session_command r) (fields r ++ trailing) ≡ ok r
unfolding from_secure_bytes session_command fields is_secure parse_secure_read parse_secure_write
    parse_register_issue_id parse_register_area parse_register_service parse_change_system_block
    secure_flags ensure
from_secure_bytes-fields (polling idm pmm optional) trailing h s = cc
from_secure_bytes-fields (request_service idm key_versions) trailing h s = cc
from_secure_bytes-fields (request_response idm mode) trailing h s = cc
from_secure_bytes-fields (read_without_encryption idm status_flag1 status_flag2 result) trailing h
      s =
    cc
from_secure_bytes-fields (write_without_encryption idm status_flag1 status_flag2) trailing h s = cc
from_secure_bytes-fields (search_service_code idm result) trailing h s = cc
from_secure_bytes-fields (request_system_code idm system_codes) trailing h s = cc
from_secure_bytes-fields (request_block_information idm block_counts) trailing h s = cc
from_secure_bytes-fields (authentication1 idm challenge_1b challenge_2a) trailing h s = cc
from_secure_bytes-fields (authentication2 encrypted_payload) trailing h s = cc
from_secure_bytes-fields (request_code_list idm status_flag1 status_flag2 result) trailing h s = cc
from_secure_bytes-fields (request_block_information_ex idm status_flag1 status_flag2 result)
      trailing h s =
    cc
from_secure_bytes-fields (set_parameter idm status_flag1 status_flag2) trailing h s = cc
from_secure_bytes-fields (get_container_issue_information idm container_information) trailing h s =
    cc
from_secure_bytes-fields (get_area_information idm status_flag1 status_flag2 result) trailing h s =
    cc
from_secure_bytes-fields (get_node_property idm status_flag1 status_flag2 result) trailing h s = cc
from_secure_bytes-fields (get_container_property property_data) trailing h s = cc
from_secure_bytes-fields (request_service_v2 idm status_flag1 status_flag2 result) trailing h s = cc
from_secure_bytes-fields (get_system_status idm status_flag1 status_flag2 result) trailing h s = cc
from_secure_bytes-fields (request_product_information idm status_flag1 status_flag2 result) trailing
      h s =
    cc
from_secure_bytes-fields
      (request_specification_version idm status_flag1 status_flag2 specification_version) trailing h
      s =
    cc
from_secure_bytes-fields (reset_mode idm status_flag1 status_flag2) trailing h s = cc
from_secure_bytes-fields (authentication1_v2 idm challenge_1b challenge_2a challenge_3c) trailing h
      s =
    cc
from_secure_bytes-fields (authentication2_v2 encrypted_payload) trailing h s = cc
from_secure_bytes-fields (get_container_id container_idm) trailing h s = cc
from_secure_bytes-fields (read status_flag1 status_flag2 result) trailing h s =
    parse_secure_outcome_reads _ _ read _ status_flag1 status_flag2 result trailing h.1
      secure_blocks_reads
from_secure_bytes-fields (write status_flag1 status_flag2) trailing h s =
    rw (le→ltb_false (length (status_flag1 ∷ status_flag2 ∷ trailing)) 2 (omega arith))
from_secure_bytes-fields (read_v2 status_flag1 status_flag2 result) trailing h s =
    parse_secure_outcome_reads _ _ read_v2 _ status_flag1 status_flag2 result trailing h.1
      secure_blocks_reads
from_secure_bytes-fields (write_v2 status_flag1 status_flag2) trailing h s =
    rw (le→ltb_false (length (status_flag1 ∷ status_flag2 ∷ trailing)) 2 (omega arith))
from_secure_bytes-fields (register_issue_id status_flag1 status_flag2 result) trailing h s =
    parse_secure_outcome_reads (λ r. word r.remaining_blocks) _ register_issue_id _ status_flag1
      status_flag2 result trailing h.1
      (λ r sf1 sf2 trailing p. rw (
        le→ltb_false (length (sf1 ∷ sf2 ∷ (word r.remaining_blocks ++ trailing))) 4 (omega arith),
        word_behind r.remaining_blocks sf1 sf2 trailing,
      ))
from_secure_bytes-fields (register_area status_flag1 status_flag2) trailing h s =
    rw (le→ltb_false (length (status_flag1 ∷ status_flag2 ∷ trailing)) 2 (omega arith))
from_secure_bytes-fields (register_service status_flag1 status_flag2 result) trailing h s =
    parse_secure_outcome_reads (λ r. word r.remaining_blocks) _ register_service _ status_flag1
      status_flag2 result trailing h.1
      (λ r sf1 sf2 trailing p. rw (
        le→ltb_false (length (sf1 ∷ sf2 ∷ (word r.remaining_blocks ++ trailing))) 4 (omega arith),
        word_behind r.remaining_blocks sf1 sf2 trailing,
      ))
from_secure_bytes-fields (change_system_block status_flag1 status_flag2) trailing h s =
    rw (le→ltb_false (length (status_flag1 ∷ status_flag2 ∷ trailing)) 2 (omega arith))
from_secure_bytes-fields unknown trailing h s = cc
