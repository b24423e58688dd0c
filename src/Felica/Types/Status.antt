-- ===== src/Felica/Types/Status.antt =====
-- src/felica_standard/types.rs: status flag 1 and the list positions that it denotes.
use felica_rs.Prelude.{ℕ, Option, none, some, ◌==◌, if◌then◌else◌}

pub data StatusFlag1 : Type 0 where
  normal_completion error_not_associated_with_list : StatusFlag1
  error_at_list_position : ℕ → StatusFlag1

unfoldable pub from_byte : ℕ → StatusFlag1
from_byte value =
    if value == 0x00
    then normal_completion
    else if value == 0xff
    then error_not_associated_with_list
    else error_at_list_position value

unfoldable pub error_byte : StatusFlag1 → Option ℕ
error_byte (error_at_list_position value) = some value
error_byte _ = none
