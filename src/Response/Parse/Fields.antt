-- ===== src/Response/Parse/Fields.antt =====
-- src/felica_standard/response/parse.rs: the checks and fields that the responses share.
-- Offsets count from the length byte, so a response's own fields begin at 10.
pub mod Reads
pub mod Sound
use felica_rs.Prelude.{
  if◌then◌else◌, ℕ, zero, suc, ◌*◌, ◌+◌, not, List, [], ◌∷◌, String, length, take, drop, ltb, leb,
  ◌==◌, text, Bool, true, false, ◌||◌, Option, none, some,
}
use felica_rs.Prelude.Bytes.{from_le_bytes, from_be_bytes}
use felica_rs.Prelude.Slices.{index, slice_to, slice_from}
use felica_rs.Prelude.Outcome.{◌>>◌, ◌>>=◌, Outcome, ok, err, ensure}
use felica_rs.Felica.Constants.{idm_len, block_size}
use felica_rs.Felica.Error.{DriverError, other}
use felica_rs.Response.{FelicaStandardResponse}

abbrev pub Read : Type 0 → Type 0
Read A = Outcome DriverError A

abbrev pub fail : {A : Type 0} → String → Read A
fail message = err (other message)

abbrev pub idm_offset : ℕ
idm_offset = 2

abbrev pub payload_offset : ℕ
payload_offset = idm_offset + idm_len

abbrev pub ensure_response_len : List ℕ → ℕ → String → Read (Unit {0})
ensure_response_len bytes required message =
    ensure (not (ltb (length bytes) required)) (other message)

abbrev pub ensure_exact_response_len : List ℕ → ℕ → String → Read (Unit {0})
ensure_exact_response_len bytes expected message = ensure (length bytes == expected) (other message)

unfoldable pub status_flags : List ℕ → String → Read (ℕ × ℕ)
status_flags bytes message = do
  ensure_response_len bytes (payload_offset + 2) message
  status_flag1 ← index bytes payload_offset
  status_flag2 ← index bytes (payload_offset + 1)
  ok (status_flag1, status_flag2)

unfoldable pub parse_fixed : ℕ → List ℕ → String → Read (List ℕ × List ℕ)
parse_fixed n bytes label = do
  ensure (not (ltb (length bytes) n)) (other (text (label ∷ " payload too short" ∷ [])))
  out ← slice_to n bytes
  rest ← slice_from n bytes
  ok (out, rest)

abbrev pub parse_idm : List ℕ → Read (List ℕ × List ℕ)
parse_idm bytes = parse_fixed idm_len bytes "IDm"

abbrev pub parse_pmm : List ℕ → Read (List ℕ × List ℕ)
parse_pmm bytes = parse_fixed 8 bytes "PMm"

-- `u16::from_le_bytes([data[i], data[i + 1]])`
unfoldable pub word_at : List ℕ → ℕ → Read ℕ
word_at bytes i = do low ← index bytes i; high ← index bytes (i + 1); ok (from_le_bytes low high)

-- `as_chunks::<N>()`: what does not fill a chunk at the end is left out.
unfoldable pub chunks_within : (fuel : ℕ) → ℕ → List ℕ → List (List ℕ)
chunks_within zero size bytes = []
chunks_within (suc fuel) size bytes = elim (leb size (length bytes)) [
  | false ↦ []
  | true ↦ take size bytes ∷ chunks_within fuel size (drop size bytes)
]

unfoldable pub as_chunks : ℕ → List ℕ → List (List ℕ)
as_chunks size bytes = chunks_within (length bytes) size bytes

-- Pairs of bytes as big-endian words.
unfoldable pub words_be : List ℕ → List ℕ
words_be (a ∷ b ∷ bs) = from_be_bytes a b ∷ words_be bs
words_be _ = []

unfoldable pub collect_blocks : List ℕ → ℕ → Read (List (List ℕ))
collect_blocks bytes block_count = do
  bytes ← slice_to (block_count * block_size) bytes
  ok (as_chunks block_size bytes)

-- `count == 0 || count > max`
abbrev pub out_of_count : ℕ → ℕ → Bool
out_of_count max count = (count == 0) || ltb max count

-- The responses that carry a result when status flag 1 is zero and only the flags otherwise:
-- `answer` builds the response, and `success` reads what stands behind the flags.
unfoldable pub parse_outcome :
    {R : Type 0} (answer : ℕ → ℕ → Option R → FelicaStandardResponse)
    → String
    → String
    → (List ℕ → Read R)
    → List ℕ
    → Read FelicaStandardResponse
parse_outcome answer short_message error_message success bytes = do
  (status_flag1, status_flag2) ← status_flags bytes short_message
  if not (status_flag1 == 0)
      then (do
        ensure_exact_response_len bytes 12 error_message
        ok (answer status_flag1 status_flag2 none))
      else (do result ← success bytes; ok (answer status_flag1 status_flag2 (some result)))
