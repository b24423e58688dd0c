-- ===== src/Tests/Blocks.antt =====
-- Writes to the blocks of the emulated card.
use felica_rs.Prelude.{ℕ, ◌≡◌, refl, none, some, List, [], ◌∷◌, arith, list_eq}
use felica_rs.Prelude.Int.{◌-ℤ◌}
use felica_rs.Prelude.Outcome.{ok}
use felica_rs.Felica.Emulator.Blocks.{
  Block, direct, decrement, cashback, apply_purse_write, write_decrement, write_value, u32_bytes,
  as_u32, read_value, u32_of, apply_cyclic_write, blocks_eq, updated, unchanged,
}
use felica_rs.Felica.Emulator.Blocks.Words.{IsBlock}
use felica_rs.Felica.Emulator.Blocks.Updated.{purse_of, WithinLimits}
use felica_rs.Felica.Emulator.Blocks.Purse.{
  Decremented, CashedBack, apply_purse_write-decrement, apply_purse_write-cashback,
}
use felica_rs.Felica.Emulator.Blocks.History.{
  Replaced, apply_purse_write-direct, start, written, History-WithinLimits, apply_purse_write_again,
}
use felica_rs.Felica.Emulator.Blocks.Cyclic.{
  Pushed, apply_cyclic_write-Pushed, apply_cyclic_write_again,
}
use felica_rs.Felica.Types.Service.{purse_cashback}
use felica_rs.Felica.Emulator.Blocks.{resolve}
use felica_rs.Felica.Emulator.Blocks.Resolve.{IsAllowed, resolve-IsAllowed}
use felica_rs.Tests.{are_bytes, bytes}

-- A purse of 1000 with a cashback of 120, and commands of the amount 100.
abbrev purse_block : List ℕ
purse_block = 0xe8 ∷ 3 ∷ 0 ∷ 0 ∷ 120 ∷ 0 ∷ 0 ∷ 0 ∷ 0xaa ∷ 0xaa ∷ 0xaa ∷ 0xaa ∷ 0 ∷ 0 ∷ 0 ∷ 0 ∷ []

abbrev amount_block : List ℕ
amount_block = 100 ∷ 0 ∷ 0 ∷ 0 ∷ 0 ∷ 0 ∷ 0 ∷ 0 ∷ 0 ∷ 0 ∷ 0 ∷ 0 ∷ 1 ∷ 2 ∷ 3 ∷ 4 ∷ []

abbrev after_decrement : List ℕ
after_decrement =
    0x84 ∷ 3 ∷ 0 ∷ 0 ∷ 100 ∷ 0 ∷ 0 ∷ 0 ∷ 0xaa ∷ 0xaa ∷ 0xaa ∷ 0xaa ∷ 1 ∷ 2 ∷ 3 ∷ 4 ∷ []

purse_block-IsBlock : IsBlock purse_block
unfolding are_bytes
purse_block-IsBlock = (refl, bytes purse_block refl)

amount_block-IsBlock : IsBlock amount_block
unfolding are_bytes
amount_block-IsBlock = (refl, bytes amount_block refl)

decrement_runs :
    apply_purse_write purse_block amount_block decrement none ≡ ok (some after_decrement)
unfolding apply_purse_write write_decrement write_value u32_bytes as_u32 read_value u32_of ◌-ℤ◌
    list_eq
decrement_runs = refl

apply_purse_write-decrement_example :
    Decremented none purse_block amount_block
      (apply_purse_write purse_block amount_block decrement none)
apply_purse_write-decrement_example =
    apply_purse_write-decrement none purse_block amount_block tt purse_block-IsBlock
      amount_block-IsBlock

apply_purse_write-cashback_example :
    CashedBack none purse_block amount_block
      (apply_purse_write purse_block amount_block cashback none)
apply_purse_write-cashback_example =
    apply_purse_write-cashback none purse_block amount_block tt purse_block-IsBlock
      amount_block-IsBlock

apply_purse_write-direct_example :
    Replaced none purse_block amount_block (apply_purse_write purse_block amount_block direct none)
apply_purse_write-direct_example = apply_purse_write-direct none purse_block amount_block

History-WithinLimits_example :
    IsBlock after_decrement × WithinLimits none (purse_of none after_decrement)
unfolding read_value u32_of
History-WithinLimits_example =
    History-WithinLimits none purse_block tt purse_block-IsBlock (omega arith, omega arith)
      (written amount_block decrement start amount_block-IsBlock decrement_runs)

apply_purse_write_again_example :
    apply_purse_write after_decrement amount_block decrement none ≡ ok none
apply_purse_write_again_example =
    apply_purse_write_again none purse_block amount_block decrement decrement tt purse_block-IsBlock
      amount_block-IsBlock decrement_runs tt

abbrev ring : List Block
ring = purse_block ∷ purse_block ∷ []

apply_cyclic_write-Pushed_example :
    Pushed ring (amount_block ∷ []) (apply_cyclic_write ring (amount_block ∷ []))
apply_cyclic_write-Pushed_example = apply_cyclic_write-Pushed ring (amount_block ∷ [])

cyclic_runs :
    apply_cyclic_write ring (amount_block ∷ []) ≡ ok (updated (amount_block ∷ purse_block ∷ []))
unfolding apply_cyclic_write blocks_eq list_eq
cyclic_runs = refl

apply_cyclic_write_again_example :
    apply_cyclic_write (amount_block ∷ purse_block ∷ []) (amount_block ∷ []) ≡ ok unchanged
apply_cyclic_write_again_example =
    apply_cyclic_write_again ring (amount_block ∷ []) (amount_block ∷ purse_block ∷ []) cyclic_runs

resolve-IsAllowed_example : IsAllowed purse_cashback 1 (resolve purse_cashback 1)
resolve-IsAllowed_example = resolve-IsAllowed purse_cashback 1
