-- ===== src/Command/Parse/Fields.antt =====
-- src/felica_standard/command/parse.rs: the helpers that take one field off the front.
pub mod Reads
pub mod Sound
use felica_rs.Prelude.{
  ℕ, zero, suc, ◌*◌, ◌/◌, ◌^◌, Bool, true, false, ◌&&◌, not, List, [], ◌∷◌, String, bit_and, map,
  length, ltb, leb, ◌==◌, if◌then◌else◌, text,
}
use felica_rs.Prelude.Bytes.{from_le_bytes}
use felica_rs.Prelude.Slices.{split_first, slice_to, slice_from}
use felica_rs.Prelude.Outcome.{Outcome, ok, err, ◌>>=◌, ◌>>◌, ensure, ok_or}
use felica_rs.Felica.Constants.{idm_len}
use felica_rs.Felica.Error.{ProtocolError, protocol}
use felica_rs.Felica.Types.Service.{ServiceCode}
use felica_rs.Felica.Types.Block.{BlockListElement}

abbrev pub Parsed : Type 0 → Type 0
Parsed A = Outcome ProtocolError A

abbrev pub fail : {A : Type 0} → String → Parsed A
fail message = err (protocol message)

unfoldable pub parse_idm : List ℕ → Parsed (List ℕ × List ℕ)
parse_idm body = do
  ensure (not (ltb (length body) idm_len)) (protocol "missing idm")
  idm ← slice_to idm_len body
  rest ← slice_from idm_len body
  ok (idm, rest)

unfoldable pub ensure_no_trailing_bytes : List ℕ → String → Parsed (Unit {0})
ensure_no_trailing_bytes [] label = ok tt
ensure_no_trailing_bytes (b ∷ bs) label = fail (text (label ∷ " payload has trailing bytes" ∷ []))

-- `allowed` is the range from `lo` to `hi`, both included.
unfoldable pub take_count : List ℕ → ℕ → ℕ → String → String → Parsed (ℕ × List ℕ)
take_count body lo hi label noun = do
  (count, rest) ←
      ok_or (split_first body) (protocol (text (label ∷ " " ∷ noun ∷ " count is missing" ∷ [])))
  ensure (leb lo count && leb count hi)
      (protocol (text (label ∷ " " ∷ noun ∷ " count out of range" ∷ [])))
  ok (count, rest)

-- `as_chunks::<2>()`: the pairs of bytes; a single last byte is left out.
unfoldable pub words_le : List ℕ → List ℕ
words_le (a ∷ b ∷ bs) = from_le_bytes a b ∷ words_le bs
words_le _ = []

unfoldable pub parse_u16_list_le : List ℕ → ℕ → Parsed (List ℕ)
parse_u16_list_le body count = do
  ensure (not (ltb (length body) (count * 2))) (protocol "u16 list truncated")
  chunk ← slice_to (count * 2) body
  ok (words_le chunk)

unfoldable pub take_u16_list : List ℕ → ℕ → ℕ → String → String → Parsed (List ℕ × List ℕ)
take_u16_list body lo hi label noun = do
  (count, rest) ← take_count body lo hi label noun
  values ← parse_u16_list_le rest count
  rest ← slice_from (count * 2) rest
  ok (values, rest)

abbrev pub service_code : ℕ → ServiceCode
service_code v = record { raw = v }

unfoldable pub take_service_code_list : List ℕ → ℕ → String → Parsed (List ServiceCode × List ℕ)
take_service_code_list body max label = do
  (values, rest) ← take_u16_list body 1 max label "service"
  ok (map service_code values, rest)

-- The block number behind a header: one byte, or two in little-endian order.
unfoldable pub take_block_number : ℕ → List ℕ → Parsed (ℕ × List ℕ)
take_block_number header body = if not (bit_and header 0x80 == 0) then short body else long body
  where
    short : List ℕ → Parsed (ℕ × List ℕ)
    short [] = fail "block list missing short block number"
    short (v ∷ rest) = ok (v, rest)

    long : List ℕ → Parsed (ℕ × List ℕ)
    long (a ∷ b ∷ rest) = ok (from_le_bytes a b, rest)
    long _ = fail "block list missing long block number"

-- One round of the loop; the offset into the slice is the suffix that is left.
unfoldable pub take_block : List ℕ → Parsed (BlockListElement × List ℕ)
take_block [] = fail "block list truncated"
take_block (header ∷ body) = do
  (value, rest) ← take_block_number header body
  ok (
    record {
      block_number_or_key_version = value;
      service_code_list_index = bit_and header 0x0f;
      access_mode = bit_and (header / 2 ^ 4) 0x07;
    },
    rest,
  )

unfoldable pub take_block_list : List ℕ → ℕ → Parsed (List BlockListElement × List ℕ)
take_block_list body zero = ok ([], body)
take_block_list body (suc count) = do
  (block, rest) ← take_block body
  (blocks, rest) ← take_block_list rest count
  ok (block ∷ blocks, rest)

-- `rest.is_empty()` and `!rest.iter().any(|value| *value != 0x00)`
abbrev pub is_empty : List ℕ → Bool
is_empty [] = true
is_empty (b ∷ bs) = false

abbrev pub all_zero : List ℕ → Bool
all_zero [] = true
all_zero (b ∷ bs) = (b == 0x00) && all_zero bs
