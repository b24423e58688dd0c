-- ===== src/Felica/Types/Block/Layout.antt =====
-- The packed form of a block list element in plain arithmetic.
use felica_rs.Prelude.{
  ℕ, ◌+◌, ◌*◌, ◌/◌, ◌%◌, ◌<◌, ◌≡◌, refl, ◌∙◌, ap, List, [], ◌∷◌, ltb, if◌then◌else◌, arith, bit_and,
  bit_or,
}
use felica_rs.Prelude.Bits.{agree, table, set_top_bit}
use felica_rs.Felica.Types.Block.{BlockListElement, descriptor, pack, IsElement}

-- The mode in bits 4 to 6 and the index in the low four; bit 7 marks the two-byte form.
unfoldable pub element_bytes : BlockListElement → List ℕ
element_bytes b =
    if ltb b.block_number_or_key_version 256
    then (128 + (16 * b.access_mode + b.service_code_list_index))
      ∷ b.block_number_or_key_version
      ∷ []
    else (16 * b.access_mode + b.service_code_list_index)
      ∷ (b.block_number_or_key_version % 256)
      ∷ (b.block_number_or_key_version / 256)
      ∷ []

descriptor_table :
    (k : ℕ) → k < 128 → bit_or (bit_and (k / 16) 0x07 * 16) (bit_and (k % 16) 0x0f) ≡ k
unfolding agree
descriptor_table = table 128 _ (λ k. k) refl

descriptor_lem :
    (b : BlockListElement)
    → IsElement b
    → descriptor b ≡ 16 * b.access_mode + b.service_code_list_index
unfolding descriptor
descriptor_lem b h =
    let k : ℕ = 16 * b.access_mode + b.service_code_list_index in
    let m : b.access_mode ≡ k / 16 = omega arith in
    let i : b.service_code_list_index ≡ k % 16 = omega arith in
    ap (λ t. bit_or (bit_and t 0x07 * 16) (bit_and b.service_code_list_index 0x0f)) m
    ∙ ap (λ t. bit_or (bit_and (k / 16) 0x07 * 16) (bit_and t 0x0f)) i
    ∙ descriptor_table k (omega arith)

-- A block list element whose fields are in range is packed into the bytes of the plain layout:
-- mode and index in the first byte, with the top bit for the form of two bytes, then the number.
pub pack-element_bytes : (b : BlockListElement) → IsElement b → pack b ≡ element_bytes b
unfolding pack element_bytes
pack-element_bytes b h =
    ground (arith, descriptor_lem b h, set_top_bit (16 * b.access_mode + b.service_code_list_index))
