-- ===== src/Felica/Emulator/Blocks.antt =====
-- src/felica_standard/emulator/blocks.rs: what a write does to a purse or cyclic service. An `i64`
-- is an integer: the values stay far inside its range. `Err(sf2)` is `err sf2`.
pub mod Resolve
pub mod Words
pub mod Updated
pub mod Purse
pub mod History
pub mod Cyclic
use felica_rs.Prelude.{
  ℕ, ◌+◌, ◌-◌, ◌*◌, ◌/◌, ◌%◌, ◌^◌, Bool, true, false, ◌&&◌, ◌||◌, not, Option, none, some, List, [],
  ◌∷◌, ◌++◌, length, take, drop, ltb, ◌==◌, list_eq, if◌then◌else◌,
}
use felica_rs.Prelude.Int.{ℤ, pos, negsuc, ◌+ℤ◌, ◌-ℤ◌, ltb_ℤ}
use felica_rs.Prelude.Outcome.{Outcome, ok, err}
use felica_rs.Felica.Types.Service.{ServiceAttribute, purse_direct, purse_cashback, purse_decrement}

abbrev pub sf2_purse_result_out_of_range : ℕ
sf2_purse_result_out_of_range = 0x01

abbrev pub sf2_cashback_exceeds_stored : ℕ
sf2_cashback_exceeds_stored = 0x02

abbrev pub sf2_limit_purse_out_of_range : ℕ
sf2_limit_purse_out_of_range = 0x03

abbrev pub sf2_access_not_permitted : ℕ
sf2_access_not_permitted = 0xa5

abbrev pub sf2_cyclic_write_overflow : ℕ
sf2_cyclic_write_overflow = 0xaf

abbrev pub purse_max_unsigned : ℤ
purse_max_unsigned = pos 0xffff_ffff

-- A block is a list of sixteen bytes.
abbrev pub Block : Type 0
Block = List ℕ

-- `block[from..from + 4]`
abbrev pub field : ℕ → Block → List ℕ
field from block = take 4 (drop from block)

abbrev pub purse_data : Block → List ℕ
purse_data block = field 0 block

abbrev pub cashback_data : Block → List ℕ
cashback_data block = field 4 block

abbrev pub user_data : Block → List ℕ
user_data block = field 8 block

abbrev pub execution_id : Block → List ℕ
execution_id block = field 12 block

pub data PurseOperation : Type 0 where
  direct decrement cashback : PurseOperation

unfoldable pub resolve : ServiceAttribute → ℕ → Outcome ℕ PurseOperation
resolve purse_direct access_mode =
    if access_mode == 0b000 then ok direct else err sf2_access_not_permitted
resolve purse_decrement access_mode =
    if access_mode == 0b000 then ok decrement else err sf2_access_not_permitted
resolve purse_cashback access_mode =
    if access_mode == 0b000
    then ok decrement
    else if access_mode == 0b001
    then ok cashback
    else err sf2_access_not_permitted
resolve _ access_mode = err sf2_access_not_permitted

-- `u32::from_le_bytes` of the first four bytes.
unfoldable pub u32_of : List ℕ → ℕ
u32_of (a ∷ b ∷ c ∷ d ∷ _) = a + 256 * b + 65536 * c + 16777216 * d
u32_of _ = 0

-- `raw as i32`
unfoldable pub as_i32 : ℕ → ℤ
as_i32 raw = if ltb raw 0x8000_0000 then pos raw else negsuc (0xffff_ffff - raw)

unfoldable pub read_value : List ℕ → Bool → ℤ
read_value bytes true = as_i32 (u32_of bytes)
read_value bytes false = pos (u32_of bytes)

-- `value as u32`
unfoldable pub as_u32 : ℤ → ℕ
as_u32 (pos n) = n % 0x1_0000_0000
as_u32 (negsuc n) = 0xffff_ffff - n % 0x1_0000_0000

-- `raw.to_le_bytes()` of a `u32`.
unfoldable pub u32_bytes : ℕ → List ℕ
u32_bytes raw = (raw % 256) ∷ (raw / 256 % 256) ∷ (raw / 65536 % 256) ∷ (raw / 16777216) ∷ []

unfoldable pub write_value : ℤ → List ℕ
write_value value = u32_bytes (as_u32 value)

pub record LimitPurseProperty : Type 0 where
  pub upper_limit : ℤ
  pub lower_limit : ℤ
  pub generation_number : ℕ

abbrev pub is_limited : Option LimitPurseProperty → Bool
is_limited none = false
is_limited (some l) = true

abbrev pub floor : Option LimitPurseProperty → ℤ
floor none = pos 0
floor (some l) = l.lower_limit

abbrev pub ceiling : Option LimitPurseProperty → ℤ
ceiling none = purse_max_unsigned
ceiling (some l) = l.upper_limit

abbrev pub out_of_range : Option LimitPurseProperty → ℕ
out_of_range none = sf2_purse_result_out_of_range
out_of_range (some l) = sf2_limit_purse_out_of_range

-- The block of a decrement or cashback: new values, the stored user data, and the execution ID of
-- the command.
abbrev pub updated_block : ℤ → ℤ → Block → Block → Block
updated_block purse_value cashback_value stored command =
    write_value purse_value
    ++ (write_value cashback_value ++ (user_data stored ++ execution_id command))

unfoldable pub write_direct : Block → Block → Option LimitPurseProperty → Outcome ℕ (Option Block)
write_direct stored command limit =
    let signed = is_limited limit in
    let stored_purse = read_value (purse_data stored) signed in
    let stored_cashback = read_value (cashback_data stored) signed in
    let new_purse = read_value (purse_data command) signed in
    let new_cashback = read_value (cashback_data command) signed in
    if ltb_ℤ stored_purse new_purse || ltb_ℤ stored_cashback new_cashback
    then err sf2_access_not_permitted
    else if ltb_ℤ purse_max_unsigned (stored_purse +ℤ new_cashback)
    then err sf2_access_not_permitted
    else if ltb_ℤ new_purse (floor limit) || ltb_ℤ (ceiling limit) new_purse
    then err (out_of_range limit)
    else ok (some command)

unfoldable pub write_decrement :
    Block → Block → Option LimitPurseProperty → Outcome ℕ (Option Block)
write_decrement stored command limit =
    let signed = is_limited limit in
    let amount = read_value (purse_data command) signed in
    let result = read_value (purse_data stored) signed -ℤ amount in
    if ltb_ℤ result (floor limit)
    then err (out_of_range limit)
    else if ltb_ℤ (ceiling limit) result
    then err (out_of_range limit)
    else ok (some (updated_block result amount stored command))

unfoldable pub write_cashback : Block → Block → Option LimitPurseProperty → Outcome ℕ (Option Block)
write_cashback stored command limit =
    let signed = is_limited limit in
    let amount = read_value (purse_data command) signed in
    let result = read_value (purse_data stored) signed +ℤ amount in
    if ltb_ℤ (read_value (cashback_data stored) signed) amount
    then err sf2_cashback_exceeds_stored
    else if ltb_ℤ (ceiling limit) result
    then err (out_of_range limit)
    else if ltb_ℤ result (floor limit)
    then err (out_of_range limit)
    else ok (some (updated_block result (pos 0) stored command))

unfoldable pub apply_purse_write :
    Block → Block → PurseOperation → Option LimitPurseProperty → Outcome ℕ (Option Block)
apply_purse_write stored command direct limit = write_direct stored command limit
apply_purse_write stored command decrement limit =
    if list_eq (execution_id command) (execution_id stored)
    then ok none
    else write_decrement stored command limit
apply_purse_write stored command cashback limit =
    if list_eq (execution_id command) (execution_id stored)
    then ok none
    else write_cashback stored command limit

pub data CyclicWrite : Type 0 where
  updated : List Block → CyclicWrite
  unchanged : CyclicWrite

unfoldable pub blocks_eq : List Block → List Block → Bool
blocks_eq [] [] = true
blocks_eq [] (b ∷ bs) = false
blocks_eq (a ∷ as') [] = false
blocks_eq (a ∷ as') (b ∷ bs) = list_eq a b && blocks_eq as' bs

unfoldable pub apply_cyclic_write : List Block → List Block → Outcome ℕ CyclicWrite
apply_cyclic_write stored command_blocks =
    if ltb (length stored) (length command_blocks)
    then err sf2_cyclic_write_overflow
    else if blocks_eq (take (length command_blocks) stored) command_blocks
    then ok unchanged
    else ok (updated (command_blocks ++ take (length stored - length command_blocks) stored))
