-- ===== src/Felica/Types/Block.antt =====
-- src/felica_standard/types.rs: `BlockListElement` and its packed form.
pub mod Layout
use Prim.Native.Nat.{bit_and, bit_or}
use felica_rs.Prelude.{ℕ, ◌*◌, ◌%◌, ◌^◌, ◌<◌, List, [], ◌∷◌, ltb, if◌then◌else◌}
use felica_rs.Prelude.Bytes.{to_le_bytes, IsWord}

pub record BlockListElement : Type 0 where
  pub block_number_or_key_version : ℕ
  pub service_code_list_index : ℕ
  pub access_mode : ℕ

-- `((access_mode & 0x07) << 4) | (service_code_list_index & 0x0F)`
unfoldable pub descriptor : BlockListElement → ℕ
descriptor b = bit_or (bit_and b.access_mode 0x07 * 2 ^ 4) (bit_and b.service_code_list_index 0x0f)

unfoldable pub pack : BlockListElement → List ℕ
unfolding descriptor
pack b =
    if ltb b.block_number_or_key_version 256
    then bit_or 0x80 (descriptor b) ∷ (b.block_number_or_key_version % 256) ∷ []
    else descriptor b ∷ to_le_bytes b.block_number_or_key_version

-- The ranges that the fields' documentation gives: serialization masks what lies outside.
pub record IsElement (b : BlockListElement) : Type 0 where
  pub number : IsWord b.block_number_or_key_version
  pub index : b.service_code_list_index < 16
  pub mode : b.access_mode < 8
