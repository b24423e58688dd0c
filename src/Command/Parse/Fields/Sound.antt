-- ===== src/Command/Parse/Fields/Sound.antt =====
-- What each field parser ensures on any bytes: no panic, values in range, and the bytes it took.
use felica_rs.Prelude.{
  ℕ, zero, suc, ◌+◌, ◌*◌, ◌/◌, ◌^◌, ◌≤◌, ◌≡◌, refl, ap, true, List, [], ◌∷◌, String, length,
  length-append, leb, ◌==◌, All, map, bit_and, arith, inl, inr, Bool-cases,
}
use felica_rs.Prelude.Bits.{low_nibble, low_three}
use felica_rs.Prelude.Bytes.{IsByte, IsWord, from_le_bytes, from_le_bytes-IsWord}
use felica_rs.Prelude.Outcome.Ensures.{
  Ensures, returns, fails, Ensures-bind, Ensures-ensure, slice_to-Ensures, slice_from-Ensures,
  split_first-Ensures,
}
use felica_rs.Felica.Types.Service.{ServiceCode}
use felica_rs.Felica.Types.Block.{IsElement}
use felica_rs.Felica.Types.Block.Layout.{element_bytes}
use felica_rs.Felica.Payload.Layout.{blocks_bytes, codes_of, words_bytes, length-words_bytes}
use felica_rs.Command.Parse.Fields.Reads.{length-codes_of}
use felica_rs.Command.Wire.{IsBytes, IsCode, Counted}
use felica_rs.Command.Parse.Fields.{
  parse_idm, take_count, words_le, parse_u16_list_le, take_u16_list, service_code,
  take_service_code_list, take_block_number, take_block, take_block_list, ensure_no_trailing_bytes,
}

pub parse_idm-Ensures :
    (body : List ℕ)
    → All IsByte body
    → Ensures
        (λ (idm, rest). IsBytes 8 idm × All IsByte rest × (8 + length rest ≡ length body))
        (parse_idm body)
unfolding parse_idm
parse_idm-Ensures body h = Ensures-ensure _ λ t.
    Ensures-bind (slice_to-Ensures 8 body h (ground arith)) λ idm i.
      Ensures-bind (slice_from-Ensures 8 body h (ground arith)) λ rest r. returns (i, r.1, r.0)

pub no_trailing-Ensures :
    (body : List ℕ) (label : String)
    → Ensures (λ _. body ≡ []) (ensure_no_trailing_bytes body label)
unfolding ensure_no_trailing_bytes
no_trailing-Ensures [] label = returns refl
no_trailing-Ensures (b ∷ bs) label = fails

pub take_count-Ensures :
    (body : List ℕ) (lo hi : ℕ) (label noun : String)
    → All IsByte body
    → Ensures
        (λ (n, rest). (lo ≤ n) × (n ≤ hi) × All IsByte rest × (suc (length rest) ≡ length body))
        (take_count body lo hi label noun)
unfolding take_count
take_count-Ensures body lo hi label noun h =
    Ensures-bind (split_first-Ensures body _ h)
      λ (n, rest) s. Ensures-ensure _ λ t. returns (ground arith, ground arith, s.1, s.2)

pub words_le_sound :
    (n : ℕ) (bs : List ℕ)
    → All IsByte bs
    → length bs ≡ n * 2
    → (length (words_le bs) ≡ n) × All IsWord (words_le bs)
unfolding words_le
words_le_sound zero [] h e = (refl, tt)
words_le_sound (suc n) [] h e = absurd (omega arith)
words_le_sound zero (a ∷ []) h e = absurd (omega arith)
words_le_sound (suc n) (a ∷ []) h e = absurd (omega arith)
words_le_sound zero (a ∷ b ∷ bs) h e = absurd (omega arith)
words_le_sound (suc n) (a ∷ b ∷ bs) (ha, (hb, h)) e =
    let (l, w) = words_le_sound n bs h (omega arith) in
    (ap suc l, (from_le_bytes-IsWord a b ha hb, w))

pub parse_u16_list_le-Ensures :
    (body : List ℕ) (count : ℕ)
    → All IsByte body
    → Ensures
        (λ vs. (length vs ≡ count) × All IsWord vs × (count * 2 ≤ length body))
        (parse_u16_list_le body count)
unfolding parse_u16_list_le
parse_u16_list_le-Ensures body count h = Ensures-ensure _ λ t.
    let fits : count * 2 ≤ length body = ground arith in
    Ensures-bind (slice_to-Ensures (count * 2) body h fits)
      λ chunk c. let w = words_le_sound count chunk c.1 c.0 in returns (w.0, w.1, fits)

pub take_u16_list-Ensures :
    (body : List ℕ) (lo hi : ℕ) (label noun : String)
    → All IsByte body
    → Ensures
        (λ (vs, rest).
          Counted IsWord lo hi vs
          × All IsByte rest
          × (length rest + length vs * 2 + 1 ≡ length body))
        (take_u16_list body lo hi label noun)
unfolding take_u16_list
take_u16_list-Ensures body lo hi label noun h =
    Ensures-bind (take_count-Ensures body lo hi label noun h) λ (n, rest) c.
      Ensures-bind (parse_u16_list_le-Ensures rest n c.2) λ vs v.
        Ensures-bind (slice_from-Ensures (n * 2) rest c.2 v.2)
          λ rest' r. returns ((omega arith, omega arith, v.1), r.1, omega arith)

pub codes_sound :
    (vs : List ℕ)
    → All IsWord vs
    → All IsCode (map service_code vs) × (length (map service_code vs) ≡ length vs)
codes_sound [] h = (tt, refl)
codes_sound (v ∷ vs) h = let (c, l) = codes_sound vs h.1 in ((h.0, c), ap suc l)

pub take_service_code_list-Ensures :
    (body : List ℕ) (max : ℕ) (label : String)
    → All IsByte body
    → Ensures
        (λ (cs, rest).
          Counted IsCode 1 max cs
          × All IsByte rest
          × (length rest + length cs * 2 + 1 ≡ length body))
        (take_service_code_list body max label)
unfolding take_service_code_list
take_service_code_list-Ensures body max label h =
    Ensures-bind (take_u16_list-Ensures body 1 max label "service" h) λ (vs, rest) v.
      let (c, l) = codes_sound vs v.0.2 in
      returns ((omega (arith, v.0.0), omega (arith, v.0.1), c), v.1, omega (arith, v.2))

header_IsElement :
    (header v : ℕ)
    → IsByte header
    → IsWord v
    → IsElement (record {
      block_number_or_key_version = v;
      service_code_list_index = bit_and header 0x0f;
      access_mode = bit_and (header / 2 ^ 4) 0x07;
    })
header_IsElement header v hh hv = record {
  number = hv;
  index = omega (arith, low_nibble header hh);
  mode = omega (arith, low_three (header / 16) (omega arith));
}

take_block-Ensures :
    (body : List ℕ)
    → All IsByte body
    → Ensures
        (λ (b, rest).
          IsElement b × All IsByte rest × (length rest + length (element_bytes b) ≤ length body))
        (take_block body)
unfolding take_block take_block_number element_bytes
take_block-Ensures [] h = fails
take_block-Ensures (header ∷ []) h = elim (Bool-cases (bit_and header 0x80 == 0)) [
  | inl long ↦ rw long fails
  | inr short ↦ rw short fails
]
take_block-Ensures (header ∷ v ∷ []) (hh, (hv, h)) = elim (Bool-cases (bit_and header 0x80 == 0)) [
  | inl long ↦ rw long fails
  | inr short ↦ rw short (returns (header_IsElement header v hh (omega arith), h, ground arith))
]
take_block-Ensures (header ∷ a ∷ b ∷ rest) (hh, (ha, (hb, h))) =
    elim (Bool-cases (bit_and header 0x80 == 0)) [
      | inl long ↦
          rw long (
            returns (header_IsElement header (from_le_bytes a b) hh (omega arith), h, ground arith))
      | inr short ↦
          rw short (returns (header_IsElement header a hh (omega arith), (hb, h), ground arith))
    ]

pub take_block_list-Ensures :
    (body : List ℕ) (count : ℕ)
    → All IsByte body
    → Ensures
        (λ (bs, rest).
          (length bs ≡ count)
          × All IsElement bs
          × All IsByte rest
          × (length rest + length (blocks_bytes bs) ≤ length body))
        (take_block_list body count)
unfolding take_block_list blocks_bytes
take_block_list-Ensures body zero h = returns (refl, tt, h, omega arith)
take_block_list-Ensures body (suc count) h = Ensures-bind (take_block-Ensures body h) λ (b, rest) p.
    Ensures-bind (take_block_list-Ensures rest count p.1) λ (bs, rest') q. returns (
      ap suc q.0,
      (p.0, q.1),
      q.2,
      omega (arith, length-append (element_bytes b) (blocks_bytes bs)),
    )

pub length-codes : (cs : List ServiceCode) → length (words_bytes (codes_of cs)) ≡ length cs * 2
length-codes cs = omega (arith, length-words_bytes (codes_of cs), length-codes_of cs)

-- A list of `n` words, where `n` passed the test against `max`.
pub count_le :
    {A : Type 0} (n max : ℕ) (xs : List A) → leb n max ≡ true → length xs ≡ n → length xs ≤ max
count_le n max xs t e = ground arith
