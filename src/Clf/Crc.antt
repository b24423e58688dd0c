-- ===== src/Clf/Crc.antt =====
-- src/clf/crc.rs: the CRC-16 of NFC-A and NFC-B.
pub mod Check
use felica_rs.Prelude.{
  ℕ, zero, suc, ◌+◌, ◌-◌, ◌/◌, ◌%◌, ◌^◌, Bool, true, false, ◌&&◌, Option, none, some, List, [], ◌∷◌,
  ◌++◌, length, take, get_elem?, ltb, ◌==◌, if◌then◌else◌, bit_and, bit_xor,
}

abbrev pub crc_polynomial : ℕ
crc_polynomial = 0x8408

abbrev pub crc_a_init : ℕ
crc_a_init = 0x6363

abbrev pub crc_b_init : ℕ
crc_b_init = 0xffff

-- One round of the inner loop, on the octet shifted to its bit `pos`.
unfoldable pub shift_bit : ℕ → ℕ → ℕ
shift_bit octet reg =
    let bit = bit_and (bit_xor reg (bit_and octet 1)) 1 in
    if bit == 0 then reg / 2 else bit_xor (reg / 2) crc_polynomial

-- `rounds` counts the bits that are left.
unfoldable pub shift_octet : ℕ → ℕ → ℕ → ℕ
unfolding shift_bit
shift_octet zero octet reg = reg
shift_octet (suc rounds) octet reg = shift_octet rounds (octet / 2) (shift_bit octet reg)

unfoldable pub crc_of : List ℕ → ℕ → ℕ
unfolding shift_octet
crc_of [] reg = reg
crc_of (octet ∷ octets) reg = crc_of octets (shift_octet 8 octet reg)

-- `data.iter().take(size)`
unfoldable pub calculate_crc : List ℕ → ℕ → ℕ → ℕ
unfolding crc_of
calculate_crc octets size reg = crc_of (take size octets) reg

unfoldable pub append_crc : List ℕ → ℕ → List ℕ
append_crc octets crc = (octets ++ bit_and crc 0x00ff ∷ []) ++ (crc / 2 ^ 8 % 256) ∷ []

abbrev pub is_octet : Option ℕ → ℕ → Bool
is_octet none y = false
is_octet (some x) y = x == y

unfoldable pub verify_crc : List ℕ → ℕ → Bool
verify_crc octets crc =
    if ltb (length octets) 2
    then false
    else is_octet (get_elem? octets (length octets - 2)) (bit_and crc 0x00ff)
      && is_octet (get_elem? octets (length octets - 1)) (crc / 2 ^ 8 % 256)

-- `!crc` on sixteen bits.
abbrev pub complement16 : ℕ → ℕ
complement16 crc = 0xffff - crc

unfoldable pub add_crc_a : List ℕ → List ℕ
add_crc_a octets = append_crc octets (calculate_crc octets (length octets) crc_a_init)

unfoldable pub check_crc_a : List ℕ → Bool
check_crc_a octets =
    if ltb (length octets) 2
    then false
    else verify_crc octets (calculate_crc octets (length octets - 2) crc_a_init)

unfoldable pub add_crc_b : List ℕ → List ℕ
add_crc_b octets =
    append_crc octets (complement16 (calculate_crc octets (length octets) crc_b_init))

unfoldable pub check_crc_b : List ℕ → Bool
check_crc_b octets =
    if ltb (length octets) 2
    then false
    else verify_crc octets (complement16 (calculate_crc octets (length octets - 2) crc_b_init))
