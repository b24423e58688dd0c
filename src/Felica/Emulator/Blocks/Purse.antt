-- ===== src/Felica/Emulator/Blocks/Purse.antt =====
-- What a decrement and a cashback answer, on every branch.
use felica_rs.Prelude.{
  ℕ, ◌≡◌, refl, true, false, Option, none, some, arith, list_eq, list_eq_sound, list_eq_refl, ◌≢◌,
  Bool-cases, inl, inr, ◌⊎◌,
}
use felica_rs.Prelude.Int.{ℤ, pos, ◌+ℤ◌, ◌-ℤ◌, ◌≤ℤ◌, ltb_ℤ}
use felica_rs.Prelude.Outcome.{Outcome, ok, err, panic}
use felica_rs.Felica.Emulator.Blocks.{
  Block, execution_id, decrement, cashback, LimitPurseProperty, is_limited, floor, ceiling,
  out_of_range, updated_block, write_decrement, write_cashback, apply_purse_write,
  sf2_cashback_exceeds_stored,
}
use felica_rs.Felica.Emulator.Blocks.Words.{IsBlock, zero-Fits32}
use felica_rs.Felica.Emulator.Blocks.Updated.{
  purse_of, cashback_of, IsLimit, WithinLimits, OutsideLimits, within-Fits32, purse_of-Fits32,
  Written, updated_block-Written,
}

pub ltb_ℤ-within :
    (limit : Option LimitPurseProperty) (v : ℤ)
    → ltb_ℤ v (floor limit) ≡ false
    → ltb_ℤ (ceiling limit) v ≡ false
    → WithinLimits limit v
ltb_ℤ-within limit v h k = (ground arith, ground arith)

-- The command does not repeat the execution ID of the stored block.
abbrev pub IsNew : Block → Block → Type 0
IsNew stored command = execution_id command ≢ execution_id stored

list_eq-IsNew :
    (stored command : Block)
    → list_eq (execution_id command) (execution_id stored) ≡ false
    → IsNew stored command
list_eq-IsNew stored command h e =
    let same : list_eq (execution_id command) (execution_id stored) ≡ true =
      rw (e, list_eq_refl (execution_id stored)) in
    cc

-- What a decrement answers: for a new execution ID a block that took the amount off the purse and
-- recorded it, or the refusal of a result outside the limits; nothing to write just for a repeated
-- one.
abbrev pub Decremented :
    Option LimitPurseProperty → Block → Block → Outcome ℕ (Option Block) → Type 0
Decremented limit stored command (ok (some u)) =
    Written limit stored command (purse_of limit stored -ℤ purse_of limit command)
      (purse_of limit command) u
    × WithinLimits limit (purse_of limit u)
    × IsNew stored command
Decremented limit stored command (ok none) = execution_id command ≡ execution_id stored
Decremented limit stored command (err e) =
    (e ≡ out_of_range limit)
    × OutsideLimits limit (purse_of limit stored -ℤ purse_of limit command)
    × IsNew stored command
Decremented limit stored command panic = ⊥

write_decrement-Decremented :
    (limit : Option LimitPurseProperty) (stored command : Block)
    → IsLimit limit
    → IsBlock stored
    → IsBlock command
    → IsNew stored command
    → Decremented limit stored command (write_decrement stored command limit)
unfolding write_decrement
write_decrement-Decremented limit stored command hl hs hc new =
    let amount : ℤ = purse_of limit command in
    let result : ℤ = purse_of limit stored -ℤ amount in
    elim (Bool-cases (ltb_ℤ result (floor limit))) [
      | inl below ↦ rw below (refl, inl below, new)
      | inr floor_kept ↦ elim (Bool-cases (ltb_ℤ (ceiling limit) result)) [
        | inl above ↦ rw (floor_kept, above) (refl, inr above, new)
        | inr ceiling_kept ↦
            let within : WithinLimits limit result =
              ltb_ℤ-within limit result floor_kept ceiling_kept in
            let w : Written limit stored command result amount
                (updated_block result amount stored command) =
              updated_block-Written limit result amount stored command hs hc
                (within-Fits32 limit result hl within) (purse_of-Fits32 limit 0 command hc) in
            rw (floor_kept, ceiling_kept) (w, rw w.0 within, new)
      ]
    ]

-- On sixteen-byte blocks and under `i32` limits, a decrement writes nothing just when the command
-- repeats the stored execution ID. Otherwise it takes the command's amount off the purse, records
-- it as the cashback, keeps the stored user data and takes over the execution ID, with the purse
-- inside its limits, or it refuses a result outside the limits.
pub apply_purse_write-decrement :
    (limit : Option LimitPurseProperty) (stored command : Block)
    → IsLimit limit
    → IsBlock stored
    → IsBlock command
    → Decremented limit stored command (apply_purse_write stored command decrement limit)
unfolding apply_purse_write
apply_purse_write-decrement limit stored command hl hs hc =
    elim (Bool-cases (list_eq (execution_id command) (execution_id stored))) [
      | inl same ↦ rw same (list_eq_sound (execution_id command) (execution_id stored) same)
      | inr other ↦ rw other (
          write_decrement-Decremented limit stored command hl hs hc
            (list_eq-IsNew stored command other))
    ]

-- What a cashback answers: for a new execution ID a block that gave the amount back, which the
-- stored cashback covered, and that has no cashback left, or a refusal; nothing to write just for a
-- repeated one.
abbrev pub CashedBack :
    Option LimitPurseProperty → Block → Block → Outcome ℕ (Option Block) → Type 0
CashedBack limit stored command (ok (some u)) =
    Written limit stored command (purse_of limit stored +ℤ purse_of limit command) (pos 0) u
    × WithinLimits limit (purse_of limit u)
    × (purse_of limit command ≤ℤ cashback_of limit stored)
    × IsNew stored command
CashedBack limit stored command (ok none) = execution_id command ≡ execution_id stored
CashedBack limit stored command (err e) =
    (((e ≡ sf2_cashback_exceeds_stored)
        × (ltb_ℤ (cashback_of limit stored) (purse_of limit command) ≡ true))
      ⊎ ((e ≡ out_of_range limit)
          × OutsideLimits limit (purse_of limit stored +ℤ purse_of limit command)
          × (purse_of limit command ≤ℤ cashback_of limit stored)))
    × IsNew stored command
CashedBack limit stored command panic = ⊥

write_cashback-CashedBack :
    (limit : Option LimitPurseProperty) (stored command : Block)
    → IsLimit limit
    → IsBlock stored
    → IsBlock command
    → IsNew stored command
    → CashedBack limit stored command (write_cashback stored command limit)
unfolding write_cashback
write_cashback-CashedBack limit stored command hl hs hc new =
    let amount : ℤ = purse_of limit command in
    let result : ℤ = purse_of limit stored +ℤ amount in
    elim (Bool-cases (ltb_ℤ (cashback_of limit stored) amount)) [
      | inl beyond ↦ rw beyond (inl (refl, beyond), new)
      | inr covered ↦
          let enough : amount ≤ℤ cashback_of limit stored = ground arith in
          elim (Bool-cases (ltb_ℤ (ceiling limit) result)) [
            | inl above ↦ rw (covered, above) (inr (refl, inr above, enough), new)
            | inr ceiling_kept ↦ elim (Bool-cases (ltb_ℤ result (floor limit))) [
              | inl below ↦ rw (covered, ceiling_kept, below) (inr (refl, inl below, enough), new)
              | inr floor_kept ↦
                  let within : WithinLimits limit result =
                    ltb_ℤ-within limit result floor_kept ceiling_kept in
                  let w : Written limit stored command result (pos 0)
                      (updated_block result (pos 0) stored command) =
                    updated_block-Written limit result (pos 0) stored command hs hc
                      (within-Fits32 limit result hl within) (zero-Fits32 (is_limited limit)) in
                  rw (covered, ceiling_kept, floor_kept) (w, rw w.0 within, enough, new)
            ]
          ]
    ]

-- On sixteen-byte blocks and under `i32` limits, a cashback writes nothing just when the command
-- repeats the stored execution ID. Otherwise it adds the command's amount to the purse, of which
-- the stored cashback covers all, resets the cashback to 0, keeps the stored user data and takes
-- over the execution ID, with the purse inside its limits; or it refuses an amount beyond the
-- stored cashback, or one that the cashback covers but whose result is outside the limits.
pub apply_purse_write-cashback :
    (limit : Option LimitPurseProperty) (stored command : Block)
    → IsLimit limit
    → IsBlock stored
    → IsBlock command
    → CashedBack limit stored command (apply_purse_write stored command cashback limit)
unfolding apply_purse_write
apply_purse_write-cashback limit stored command hl hs hc =
    elim (Bool-cases (list_eq (execution_id command) (execution_id stored))) [
      | inl same ↦ rw same (list_eq_sound (execution_id command) (execution_id stored) same)
      | inr other ↦ rw other (
          write_cashback-CashedBack limit stored command hl hs hc
            (list_eq-IsNew stored command other))
    ]
