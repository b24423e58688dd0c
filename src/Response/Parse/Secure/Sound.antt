-- ===== src/Response/Parse/Secure/Sound.antt =====
-- The decrypted responses of a session, read from any bytes.
use felica_rs.Prelude.{
  ℕ, ◌+◌, ◌*◌, ◌≤◌, ◌≡◌, refl, true, false, Bool, Option, none, some, String, List, length, All,
  arith, ◌==◌, ==→eq, Bool-cases, inl, inr, if◌then◌else◌,
}
use felica_rs.Prelude.Bytes.{IsByte, IsWord}
use felica_rs.Prelude.Outcome.Ensures.{
  Ensures, returns, fails, Ensures-bind, Ensures-ensure, index-Ensures, slice_range-Ensures,
}
use felica_rs.Felica.Constants
use felica_rs.Felica.Types.Results.{ReadResult, RegisterIssueIdResult, RegisterServiceResult}
use felica_rs.Command.Wire.{word}
use felica_rs.Response.{FelicaStandardResponse, read, read_v2, register_issue_id, register_service}
use felica_rs.Response.Valid.{Flags, Paired, IsBlocks, IsValid, is_secure, session_command}
use felica_rs.Response.Wire.{outcome, blocks_field, fields}
use felica_rs.Response.Wire.Lengths.{length-concat_bytes}
use felica_rs.Response.Parse.Bounds.{word_at-Ensures, collect_blocks-Ensures}
use felica_rs.Response.Parse.Fields.{Read}
use felica_rs.Response.Parse.Secure.{
  secure_flags, parse_secure_outcome, secure_blocks, parse_secure_read, parse_secure_write,
  parse_register_issue_id, parse_register_area, parse_register_service, parse_change_system_block,
  from_secure_bytes,
}

-- A response in range that answers the command and takes no more than the `n` bytes given.
abbrev pub IsAnswer : ℕ → ℕ → FelicaStandardResponse → Type 0
IsAnswer command_code n r =
    IsValid r × (is_secure r ≡ true) × (session_command r ≡ command_code) × (length (fields r) ≤ n)

secure_flags-Ensures :
    (bytes : List ℕ) (message : String)
    → All IsByte bytes
    → Ensures
        (λ (sf1, sf2). IsByte sf1 × IsByte sf2 × (2 ≤ length bytes))
        (secure_flags bytes message)
unfolding secure_flags
secure_flags-Ensures bytes message h = Ensures-ensure _ λ t.
    let long : 2 ≤ length bytes = ground arith in
    Ensures-bind (index-Ensures bytes 0 h (omega (arith, long))) λ sf1 h1.
      Ensures-bind (index-Ensures bytes 1 h (omega (arith, long))) λ sf2 h2. returns (h1, h2, long)

parse_secure_outcome-Ensures :
    {R : Type 0} (P : R → Type 0) (field : R → List ℕ) {Q : FelicaStandardResponse → Type 0}
    (answer : ℕ → ℕ → Option R → FelicaStandardResponse) (short_message : String)
    (success : List ℕ → Read R) (bytes : List ℕ)
    → All IsByte bytes
    → (2 ≤ length bytes
        → Ensures (λ r. P r × (2 + length (field r) ≤ length bytes)) (success bytes))
    → ((sf1 sf2 : ℕ) (result : Option R)
        → Flags sf1 sf2
        → Paired P sf1 result
        → length (outcome sf1 sf2 field result) ≤ length bytes
        → Q (answer sf1 sf2 result))
    → Ensures Q (parse_secure_outcome answer short_message success bytes)
unfolding parse_secure_outcome
parse_secure_outcome-Ensures P field answer sm success bytes h k q =
    Ensures-bind (secure_flags-Ensures bytes sm h) λ (sf1, sf2) f. elim (Bool-cases (sf1 == 0)) [
      | inr error ↦
          rw error (returns (q sf1 sf2 none (f.0, f.1) (ground arith) (omega (arith, f.2))))
      | inl success_flag ↦ rw success_flag (
          Ensures-bind (k f.2)
            λ r p. returns (q sf1 sf2 (some r) (f.0, f.1) (ground arith, p.0) (omega (arith, p.1))))
    ]

secure_blocks-Ensures :
    (bytes : List ℕ)
    → All IsByte bytes
    → 2 ≤ length bytes
    → Ensures
        (λ (r : ReadResult).
          IsBlocks r.blocks × (2 + length (blocks_field r.blocks) ≤ length bytes))
        (secure_blocks bytes)
unfolding secure_blocks
secure_blocks-Ensures bytes h k = Ensures-ensure _ λ t.
    Ensures-bind (index-Ensures bytes 2 h (ground arith)) λ n c. Ensures-ensure _ λ u.
      Ensures-ensure _ λ v.
        let many : (1 ≤ n) × (n ≤ 255) = ground arith in
        let whole : 3 + n * 16 ≤ length bytes = ground arith in
        Ensures-bind (slice_range-Ensures 3 (3 + n * 16) bytes h (omega arith) whole) λ slice s.
          Ensures-bind (collect_blocks-Ensures n slice s.1 (omega (arith, s.0))) λ bs b. returns (
            (omega (arith, b.0, many.0), omega (arith, b.0, many.1), b.1),
            omega (arith, length-concat_bytes bs b.1, b.0, whole),
          )

parse_secure_read-Ensures :
    (bytes : List ℕ) (v2 : Bool)
    → All IsByte bytes
    → Ensures
        (IsAnswer
          (if v2 then Constants.read_v2_command_code else Constants.read_command_code)
          (length bytes))
        (parse_secure_read bytes v2)
unfolding parse_secure_read fields is_secure session_command
parse_secure_read-Ensures bytes false h =
    parse_secure_outcome-Ensures (λ r. IsBlocks r.blocks) (λ r. blocks_field r.blocks) read _
      secure_blocks bytes h (secure_blocks-Ensures bytes h)
      λ sf1 sf2 result f p e. ((f, p), refl, refl, e)
parse_secure_read-Ensures bytes true h =
    parse_secure_outcome-Ensures (λ r. IsBlocks r.blocks) (λ r. blocks_field r.blocks) read_v2 _
      secure_blocks bytes h (secure_blocks-Ensures bytes h)
      λ sf1 sf2 result f p e. ((f, p), refl, refl, e)

parse_secure_write-Ensures :
    (bytes : List ℕ) (v2 : Bool)
    → All IsByte bytes
    → Ensures
        (IsAnswer
          (if v2 then Constants.write_v2_command_code else Constants.write_command_code)
          (length bytes))
        (parse_secure_write bytes v2)
unfolding parse_secure_write fields is_secure session_command
parse_secure_write-Ensures bytes false h =
    Ensures-bind (secure_flags-Ensures bytes _ h)
      λ (sf1, sf2) f. returns ((f.0, f.1), refl, refl, f.2)
parse_secure_write-Ensures bytes true h =
    Ensures-bind (secure_flags-Ensures bytes _ h)
      λ (sf1, sf2) f. returns ((f.0, f.1), refl, refl, f.2)

parse_register_issue_id-Ensures :
    (bytes : List ℕ)
    → All IsByte bytes
    → Ensures
        (IsAnswer Constants.register_issue_id_command_code (length bytes))
        (parse_register_issue_id bytes)
unfolding parse_register_issue_id fields is_secure session_command
parse_register_issue_id-Ensures bytes h =
    parse_secure_outcome-Ensures (λ (r : RegisterIssueIdResult). IsWord r.remaining_blocks)
      (λ r. word r.remaining_blocks) register_issue_id _ _ bytes h
      (λ k. Ensures-ensure _ λ t.
        let long : 4 ≤ length bytes = ground arith in
        Ensures-bind (word_at-Ensures bytes 2 h (omega (arith, long)))
          λ v w. returns (w, omega (arith, long)))
      λ sf1 sf2 result f p e. ((f, p), refl, refl, e)

parse_register_service-Ensures :
    (bytes : List ℕ)
    → All IsByte bytes
    → Ensures
        (IsAnswer Constants.register_service_command_code (length bytes))
        (parse_register_service bytes)
unfolding parse_register_service fields is_secure session_command
parse_register_service-Ensures bytes h =
    parse_secure_outcome-Ensures (λ (r : RegisterServiceResult). IsWord r.remaining_blocks)
      (λ r. word r.remaining_blocks) register_service _ _ bytes h
      (λ k. Ensures-ensure _ λ t.
        let long : 4 ≤ length bytes = ground arith in
        Ensures-bind (word_at-Ensures bytes 2 h (omega (arith, long)))
          λ v w. returns (w, omega (arith, long)))
      λ sf1 sf2 result f p e. ((f, p), refl, refl, e)

parse_register_area-Ensures :
    (bytes : List ℕ)
    → All IsByte bytes
    → Ensures
        (IsAnswer Constants.register_area_command_code (length bytes))
        (parse_register_area bytes)
unfolding parse_register_area fields is_secure session_command
parse_register_area-Ensures bytes h =
    Ensures-bind (secure_flags-Ensures bytes _ h)
      λ (sf1, sf2) f. returns ((f.0, f.1), refl, refl, f.2)

parse_change_system_block-Ensures :
    (bytes : List ℕ)
    → All IsByte bytes
    → Ensures
        (IsAnswer Constants.change_system_block_command_code (length bytes))
        (parse_change_system_block bytes)
unfolding parse_change_system_block fields is_secure session_command
parse_change_system_block-Ensures bytes h =
    Ensures-bind (secure_flags-Ensures bytes _ h)
      λ (sf1, sf2) f. returns ((f.0, f.1), refl, refl, f.2)

-- Reading under one command code out of a chain of them.
if_code :
    (command_code wanted n : ℕ) {x y : Read FelicaStandardResponse}
    → Ensures (IsAnswer wanted n) x
    → Ensures (IsAnswer command_code n) y
    → Ensures (IsAnswer command_code n) (if command_code == wanted then x else y)
if_code command_code wanted n x y = elim (Bool-cases (command_code == wanted)) [
  | inl same ↦ rw (same, ==→eq command_code wanted same) x
  | inr differs ↦ rw differs y
]

-- The decrypted bytes of any command are read without a panic; what is returned is a response in
-- range to that command, written in no more bytes than were given.
pub from_secure_bytes-Ensures :
    (command_code : ℕ) (bytes : List ℕ)
    → All IsByte bytes
    → Ensures (IsAnswer command_code (length bytes)) (from_secure_bytes command_code bytes)
unfolding from_secure_bytes
from_secure_bytes-Ensures c bytes h =
    let n = length bytes in
    if_code c Constants.read_command_code n (parse_secure_read-Ensures bytes false h) (
      if_code c Constants.read_v2_command_code n (parse_secure_read-Ensures bytes true h) (
        if_code c Constants.write_command_code n (parse_secure_write-Ensures bytes false h) (
          if_code c Constants.write_v2_command_code n (parse_secure_write-Ensures bytes true h) (
            if_code c Constants.register_issue_id_command_code n
              (parse_register_issue_id-Ensures bytes h)
              (if_code c Constants.register_area_command_code n
                (parse_register_area-Ensures bytes h)
                (if_code c Constants.register_service_command_code n
                  (parse_register_service-Ensures bytes h)
                  (if_code c Constants.change_system_block_command_code n
                    (parse_change_system_block-Ensures bytes h) fails)))))))
