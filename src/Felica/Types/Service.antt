-- ===== src/Felica/Types/Service.antt =====
-- src/felica_standard/types.rs: service kinds, attributes and codes.
use Prim.Native.Nat.{bit_and}
use felica_rs.Prelude.{
  ℕ, ◌/◌, ◌^◌, Bool, true, false, not, ◌&&◌, Option, none, some, ◌==◌, if◌then◌else◌,
}
use felica_rs.Prelude.Bytes.{to_le_bytes}
use felica_rs.Prelude.{List}
use mathlib.Core.Option

pub data ServiceKind : Type 0 where
  random cyclic purse : ServiceKind

pub data ServiceAttribute : Type 0 where
  random_read_write random_read_only cyclic_read_write cyclic_read_only : ServiceAttribute
  purse_direct purse_cashback purse_decrement purse_read_only : ServiceAttribute

unfoldable pub from_attribute_bits : ℕ → Option ServiceAttribute
from_attribute_bits attribute =
    let bits = bit_and attribute 0x3f / 2 in
    if bits == 0b00100
    then some random_read_write
    else if bits == 0b00101
    then some random_read_only
    else if bits == 0b00110
    then some cyclic_read_write
    else if bits == 0b00111
    then some cyclic_read_only
    else if bits == 0b01000
    then some purse_direct
    else if bits == 0b01001
    then some purse_cashback
    else if bits == 0b01010
    then some purse_decrement
    else if bits == 0b01011
    then some purse_read_only
    else none

unfoldable pub kind_of : ServiceAttribute → ServiceKind
kind_of random_read_write = random
kind_of random_read_only = random
kind_of cyclic_read_write = cyclic
kind_of cyclic_read_only = cyclic
kind_of _ = purse

unfoldable pub allows_write : ServiceAttribute → Bool
allows_write random_read_only = false
allows_write cyclic_read_only = false
allows_write purse_read_only = false
allows_write _ = true

unfoldable pub allows_decrement : ServiceAttribute → Bool
allows_decrement purse_cashback = true
allows_decrement purse_decrement = true
allows_decrement _ = false

unfoldable pub allows_cashback : ServiceAttribute → Bool
allows_cashback purse_cashback = true
allows_cashback _ = false

pub record ServiceCode : Type 0 where
  pub raw : ℕ

-- `self.0 >> 6`
unfoldable pub number : ServiceCode → ℕ
number c = c.raw / 2 ^ 6

unfoldable pub attributes : ServiceCode → ℕ
attributes c = bit_and c.raw 0x3f

unfoldable pub attribute : ServiceCode → Option ServiceAttribute
unfolding from_attribute_bits attributes
attribute c = from_attribute_bits (attributes c)

unfoldable pub kind : ServiceCode → Option ServiceKind
unfolding attribute kind_of
kind c = Option.map kind_of (attribute c)

unfoldable pub requires_key : ServiceCode → Bool
requires_key c = bit_and c.raw 0x0001 == 0

unfoldable pub is_key_free_service : ServiceCode → Bool
unfolding attribute requires_key
is_key_free_service c = is_some (attribute c) && not (requires_key c)
  where
    is_some : Option ServiceAttribute → Bool
    is_some (some a) = true
    is_some none = false

unfoldable pub service_code_bytes : ServiceCode → List ℕ
service_code_bytes c = to_le_bytes c.raw
