-- ===== src/Felica/Emulator/Blocks/Updated.antt =====
-- The fields of the block that a decrement or a cashback writes.
use felica_rs.Prelude.{
  ℕ, ◌≤◌, ◌≡◌, sym, ap, ◌∙◌, true, Option, none, some, List, [], ◌++◌, length, length-append,
  take_all, append-nil, length-take, length-drop, take, drop, take-append, drop-append, All,
  All-append, All-take, All-drop, arith, ◌⊎◌,
}
use felica_rs.Prelude.Bytes.{IsByte}
use felica_rs.Prelude.Int.{ℤ, ◌≤ℤ◌, ltb_ℤ}
use felica_rs.Felica.Emulator.Blocks.{
  Block, field, purse_data, cashback_data, user_data, execution_id, u32_bytes, read_value,
  write_value, LimitPurseProperty, is_limited, floor, ceiling, updated_block,
}
use felica_rs.Felica.Emulator.Blocks.Words.{
  Fits32, IsBlock, read_value-write_value, read_value-Fits32, write_value-IsByte,
  length-write_value,
}

abbrev pub purse_of : Option LimitPurseProperty → Block → ℤ
purse_of limit b = read_value (purse_data b) (is_limited limit)

abbrev pub cashback_of : Option LimitPurseProperty → Block → ℤ
cashback_of limit b = read_value (cashback_data b) (is_limited limit)

-- The limits are `i32` values.
abbrev pub IsLimit : Option LimitPurseProperty → Type 0
IsLimit none = Unit
IsLimit (some l) = Fits32 true l.lower_limit × Fits32 true l.upper_limit

abbrev pub WithinLimits : Option LimitPurseProperty → ℤ → Type 0
WithinLimits limit v = (floor limit ≤ℤ v) × (v ≤ℤ ceiling limit)

abbrev pub OutsideLimits : Option LimitPurseProperty → ℤ → Type 0
OutsideLimits limit v = (ltb_ℤ v (floor limit) ≡ true) ⊎ (ltb_ℤ (ceiling limit) v ≡ true)

pub within-Fits32 :
    (limit : Option LimitPurseProperty) (v : ℤ)
    → IsLimit limit
    → WithinLimits limit v
    → Fits32 (is_limited limit) v
within-Fits32 none v l w = w
within-Fits32 (some l) v (low, high) (above, below) = (omega arith, omega arith)

length-field : (n : ℕ) (b : Block) → length b ≡ 16 → n ≤ 12 → length (field n b) ≡ 4
length-field n b size h = length-take 4 (drop n b) (omega (arith, length-drop n b))

field-IsByte : (n : ℕ) (b : Block) → IsBlock b → All IsByte (field n b)
field-IsByte n b h = All-take IsByte 4 (drop n b) (All-drop IsByte n b h.1)

pub purse_of-Fits32 :
    (limit : Option LimitPurseProperty) (n : ℕ) (b : Block)
    → IsBlock b
    → Fits32 (is_limited limit) (read_value (field n b) (is_limited limit))
purse_of-Fits32 limit n b h = read_value-Fits32 (is_limited limit) (field n b) (field-IsByte n b h)

-- The fields of the block that a decrement or a cashback writes.
abbrev pub Written : Option LimitPurseProperty → Block → Block → ℤ → ℤ → Block → Type 0
Written limit stored command new_purse new_cashback u =
    (purse_of limit u ≡ new_purse)
    × (cashback_of limit u ≡ new_cashback)
    × (user_data u ≡ user_data stored)
    × (execution_id u ≡ execution_id command)
    × IsBlock u

take_front : (xs ys : List ℕ) (n : ℕ) → length xs ≡ n → take n (xs ++ ys) ≡ xs
take_front xs ys n h = rw (← h) (take-append xs ys)

drop_front : (xs ys : List ℕ) (n : ℕ) → length xs ≡ n → drop n (xs ++ ys) ≡ ys
drop_front xs ys n h = rw (← h) (drop-append xs ys)

take_whole : (xs : List ℕ) (n : ℕ) → length xs ≡ n → take n xs ≡ xs
take_whole xs n h = rw (← h) (take_all xs)

user_data-updated_block :
    (a b : ℤ) (stored command : Block)
    → IsBlock stored
    → user_data (updated_block a b stored command) ≡ user_data stored
unfolding write_value u32_bytes
user_data-updated_block a b stored command (size, bytes) =
    take_front (user_data stored) (execution_id command) 4
      (length-field 8 stored size (omega arith))

execution_id-updated_block :
    (a b : ℤ) (stored command : Block)
    → IsBlock stored
    → IsBlock command
    → execution_id (updated_block a b stored command) ≡ execution_id command
unfolding write_value u32_bytes
execution_id-updated_block a b stored command (size, bytes) (size', bytes') =
    ap (take 4) (
      drop_front (user_data stored) (execution_id command) 4
        (length-field 8 stored size (omega arith)))
    ∙ take_whole (execution_id command) 4 (length-field 12 command size' (omega arith))

updated_block-IsBlock :
    (a b : ℤ) (stored command : Block)
    → IsBlock stored
    → IsBlock command
    → IsBlock (updated_block a b stored command)
updated_block-IsBlock a b stored command h h' = (
  omega (
    arith,
    length-append (write_value a) (write_value b ++ (user_data stored ++ execution_id command)),
    length-append (write_value b) (user_data stored ++ execution_id command),
    length-append (user_data stored) (execution_id command),
    length-write_value a,
    length-write_value b,
    length-field 8 stored h.0 (omega arith),
    length-field 12 command h'.0 (omega arith),
  ),
  All-append IsByte (write_value a) _ (write_value-IsByte a) (
      All-append IsByte (write_value b) _ (write_value-IsByte b) (
        All-append IsByte (user_data stored) _ (field-IsByte 8 stored h)
          (field-IsByte 12 command h'))),
)

purse_of-updated_block :
    (limit : Option LimitPurseProperty) (a b : ℤ) (stored command : Block)
    → Fits32 (is_limited limit) a
    → purse_of limit (updated_block a b stored command) ≡ a
purse_of-updated_block limit a b stored command h =
    ap (λ t. read_value t (is_limited limit))
      (take_front (write_value a) _ 4 (length-write_value a) ∙ sym (append-nil (write_value a)))
    ∙ read_value-write_value (is_limited limit) a [] h

cashback_of-updated_block :
    (limit : Option LimitPurseProperty) (a b : ℤ) (stored command : Block)
    → Fits32 (is_limited limit) b
    → cashback_of limit (updated_block a b stored command) ≡ b
cashback_of-updated_block limit a b stored command h =
    ap (λ t. read_value (take 4 t) (is_limited limit))
      (drop_front (write_value a) _ 4 (length-write_value a))
    ∙ ap (λ t. read_value t (is_limited limit))
        (take_front (write_value b) _ 4 (length-write_value b) ∙ sym (append-nil (write_value b)))
    ∙ read_value-write_value (is_limited limit) b [] h

pub updated_block-Written :
    (limit : Option LimitPurseProperty) (a b : ℤ) (stored command : Block)
    → IsBlock stored
    → IsBlock command
    → Fits32 (is_limited limit) a
    → Fits32 (is_limited limit) b
    → Written limit stored command a b (updated_block a b stored command)
updated_block-Written limit a b stored command h h' fa fb = (
  purse_of-updated_block limit a b stored command fa,
  cashback_of-updated_block limit a b stored command fb,
  user_data-updated_block a b stored command h,
  execution_id-updated_block a b stored command h h',
  updated_block-IsBlock a b stored command h h',
)
