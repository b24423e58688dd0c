-- ===== src/Command/Parse/Fields/Reads.antt =====
-- Each field parser reads what the writer lays out, and leaves what follows.
use felica_rs.Prelude.{
  ℕ, suc, ◌+◌, ◌*◌, ◌/◌, ◌≤◌, ◌≡◌, refl, ap, List, [], ◌∷◌, ◌++◌, String, append_assoc, append-nil,
  length, length-append, ltb, le→leb, le→ltb_false, All, map, arith, inl, inr, Bool-cases, some,
  take_all,
}
use felica_rs.Prelude.Bits.{low_nibble, low_three, top_bit}
use felica_rs.Prelude.Slices.{get_to, slice_to-append, slice_from-append}
use felica_rs.Prelude.Outcome.{ok, ensure, ok_or}
use felica_rs.Felica.Types.Service.{ServiceCode}
use felica_rs.Felica.Types.Block.{BlockListElement, IsElement}
use felica_rs.Felica.Types.Block.Layout.{element_bytes}
use felica_rs.Felica.Payload.Layout.{
  words_bytes, blocks_bytes, codes_of, counted_words, counted_codes, length-words_bytes,
}
use felica_rs.Command.Parse.Fields.{
  parse_idm, take_count, words_le, parse_u16_list_le, take_u16_list, service_code,
  take_service_code_list, take_block_number, take_block, take_block_list,
}

pub parse_idm_reads :
    (idm rest : List ℕ) → length idm ≡ 8 → parse_idm (idm ++ rest) ≡ ok (idm, rest)
unfolding parse_idm ensure
parse_idm_reads idm rest h = rw (
  le→ltb_false (length (idm ++ rest)) 8 (omega (arith, length-append idm rest)),
  slice_to-append 8 idm rest h,
  slice_from-append 8 idm rest h,
)

pub take_count_reads :
    (n lo hi : ℕ) (rest : List ℕ) (label noun : String)
    → lo ≤ n
    → n ≤ hi
    → take_count (n ∷ rest) lo hi label noun ≡ ok (n, rest)
unfolding take_count ensure ok_or
take_count_reads n lo hi rest label noun p q = rw (le→leb lo n p, le→leb n hi q)

pub words_le_reads : (vs : List ℕ) → words_le (words_bytes vs) ≡ vs
unfolding words_le words_bytes
words_le_reads [] = refl
words_le_reads (v ∷ vs) = ground (arith, words_le_reads vs)

pub parse_u16_list_le_reads :
    (vs rest : List ℕ) → parse_u16_list_le (words_bytes vs ++ rest) (length vs) ≡ ok vs
unfolding parse_u16_list_le ensure
parse_u16_list_le_reads vs rest = rw (
  le→ltb_false (length (words_bytes vs ++ rest)) (length vs * 2)
      (omega (arith, length-append (words_bytes vs) rest, length-words_bytes vs)),
  slice_to-append (length vs * 2) (words_bytes vs) rest (length-words_bytes vs),
  words_le_reads vs,
)

pub take_u16_list_reads :
    (vs rest : List ℕ) (lo hi : ℕ) (label noun : String)
    → lo ≤ length vs
    → length vs ≤ hi
    → take_u16_list (counted_words vs ++ rest) lo hi label noun ≡ ok (vs, rest)
unfolding take_u16_list
take_u16_list_reads vs rest lo hi label noun p q = rw (
  take_count_reads (length vs) lo hi (words_bytes vs ++ rest) label noun p q,
  parse_u16_list_le_reads vs rest,
  slice_from-append (length vs * 2) (words_bytes vs) rest (length-words_bytes vs),
)

pub codes_back : (cs : List ServiceCode) → map service_code (codes_of cs) ≡ cs
codes_back [] = refl
codes_back (c ∷ cs) = ap (λ t. c ∷ t) (codes_back cs)

pub length-codes_of : (cs : List ServiceCode) → length (codes_of cs) ≡ length cs
length-codes_of [] = refl
length-codes_of (c ∷ cs) = ap suc (length-codes_of cs)

pub take_service_code_list_reads :
    (cs : List ServiceCode) (rest : List ℕ) (max : ℕ) (label : String)
    → 1 ≤ length cs
    → length cs ≤ max
    → take_service_code_list (counted_codes cs ++ rest) max label ≡ ok (cs, rest)
unfolding take_service_code_list
take_service_code_list_reads cs rest max label p q = rw (
  ← length-codes_of cs,
  take_u16_list_reads (codes_of cs) rest 1 max label "service" (omega (arith, length-codes_of cs))
      (omega (arith, length-codes_of cs)),
  codes_back cs,
)

take_block_reads :
    (b : BlockListElement) (rest : List ℕ)
    → IsElement b
    → take_block (element_bytes b ++ rest) ≡ ok (b, rest)
unfolding take_block take_block_number element_bytes
take_block_reads b rest h =
    let d : ℕ = 16 * b.access_mode + b.service_code_list_index in
    elim (Bool-cases (ltb b.block_number_or_key_version 256)) [
      | inl short ↦
          rw short
            (ground (arith, low_nibble (128 + d), low_three ((128 + d) / 16), top_bit (128 + d)))
      | inr long ↦ rw long (ground (arith, low_nibble d, low_three (d / 16), top_bit d))
    ]

-- The packed elements in range, in front of any bytes, are read back with those bytes left over.
pub take_block_list_reads :
    (bs : List BlockListElement) (rest : List ℕ)
    → All IsElement bs
    → take_block_list (blocks_bytes bs ++ rest) (length bs) ≡ ok (bs, rest)
unfolding take_block_list blocks_bytes
take_block_list_reads [] rest h = refl
take_block_list_reads (b ∷ bs) rest (p, h) =
    rw (
      append_assoc,
      take_block_reads b (blocks_bytes bs ++ rest) p,
      take_block_list_reads bs rest h,
    )

-- The same at the end of the input.
pub parse_idm_reads_all : (idm : List ℕ) → length idm ≡ 8 → parse_idm idm ≡ ok (idm, [])
parse_idm_reads_all idm h = rw append-nil at (parse_idm_reads idm [] h)

pub take_u16_list_reads_all :
    (vs : List ℕ) (lo hi : ℕ) (label noun : String)
    → lo ≤ length vs
    → length vs ≤ hi
    → take_u16_list (counted_words vs) lo hi label noun ≡ ok (vs, [])
take_u16_list_reads_all vs lo hi label noun p q =
    rw append-nil at (take_u16_list_reads vs [] lo hi label noun p q)

pub take_service_code_list_reads_all :
    (cs : List ServiceCode) (max : ℕ) (label : String)
    → 1 ≤ length cs
    → length cs ≤ max
    → take_service_code_list (counted_codes cs) max label ≡ ok (cs, [])
take_service_code_list_reads_all cs max label p q =
    rw append-nil at (take_service_code_list_reads cs [] max label p q)

pub take_block_list_reads_all :
    (bs : List BlockListElement)
    → All IsElement bs
    → take_block_list (blocks_bytes bs) (length bs) ≡ ok (bs, [])
take_block_list_reads_all bs h = rw append-nil at (take_block_list_reads bs [] h)

pub get_to_all {ℓ} : {A : Type ℓ} (n : ℕ) (xs : List A) → length xs ≡ n → get_to n xs ≡ some xs
get_to_all n xs h = rw (← h, le→leb (length xs) (length xs) (omega arith), take_all xs)
