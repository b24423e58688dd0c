-- ===== src/Felica/Emulator/Blocks/History.antt =====
-- Writes to a purse one after the other: the limits hold throughout, and a command that is sent
-- again is not applied again.
use felica_rs.Prelude.{
  ℕ, ◌≡◌, refl, subst, true, false, Option, none, some, list_eq_refl, Bool-cases, inl, inr, ◌⊎◌,
  arith,
}
use felica_rs.Prelude.Int.{ℤ, ◌+ℤ◌, ◌≤ℤ◌, ltb_ℤ}
use felica_rs.Prelude.Outcome.{Outcome, ok, err, panic}
use felica_rs.Felica.Emulator.Blocks.{
  Block, execution_id, PurseOperation, direct, decrement, cashback, LimitPurseProperty, floor,
  ceiling, out_of_range, purse_max_unsigned, sf2_access_not_permitted, write_direct,
  apply_purse_write,
}
use felica_rs.Felica.Emulator.Blocks.Words.{IsBlock}
use felica_rs.Felica.Emulator.Blocks.Updated.{
  purse_of, cashback_of, IsLimit, WithinLimits, OutsideLimits,
}
use felica_rs.Felica.Emulator.Blocks.Purse.{
  ltb_ℤ-within, Decremented, CashedBack, apply_purse_write-decrement, apply_purse_write-cashback,
}

ltb_ℤ-le_not : (a b : ℤ) → ltb_ℤ a b ≡ true → b ≤ℤ a → ⊥
ltb_ℤ-le_not a b h k = absurd (ground arith)

ltb_ℤ_false_le : (a b : ℤ) → ltb_ℤ a b ≡ false → b ≤ℤ a
ltb_ℤ_false_le a b h = ground arith

-- What direct access may do: it raises neither field, and the stored purse and the new cashback
-- together fit four bytes.
abbrev pub IsPermitted : Option LimitPurseProperty → Block → Block → Type 0
IsPermitted limit stored command =
    (purse_of limit command ≤ℤ purse_of limit stored)
    × (cashback_of limit command ≤ℤ cashback_of limit stored)
    × (purse_of limit stored +ℤ cashback_of limit command ≤ℤ purse_max_unsigned)

-- What direct access answers: the block of the command, where it is permitted and keeps the purse
-- inside its limits, or a refusal.
abbrev pub Replaced : Option LimitPurseProperty → Block → Block → Outcome ℕ (Option Block) → Type 0
Replaced limit stored command (ok (some u)) =
    (u ≡ command) × IsPermitted limit stored command × WithinLimits limit (purse_of limit u)
Replaced limit stored command (ok none) = ⊥
Replaced limit stored command (err e) =
    ((e ≡ sf2_access_not_permitted) × ¬ IsPermitted limit stored command)
    ⊎ ((e ≡ out_of_range limit)
        × IsPermitted limit stored command
        × OutsideLimits limit (purse_of limit command))
Replaced limit stored command panic = ⊥

-- Direct access stores the block of the command, whatever its execution ID, just where it raises
-- neither the purse nor the cashback, the stored purse and the new cashback together are at most
-- FFFFFFFFh, and the purse stays inside its limits. A breach of the limits alone is refused as out
-- of range, every other as not permitted.
pub apply_purse_write-direct :
    (limit : Option LimitPurseProperty) (stored command : Block)
    → Replaced limit stored command (apply_purse_write stored command direct limit)
unfolding apply_purse_write write_direct
apply_purse_write-direct limit stored command =
    let new_purse : ℤ = purse_of limit command in
    let sum : ℤ = purse_of limit stored +ℤ cashback_of limit command in
    elim (Bool-cases (ltb_ℤ (purse_of limit stored) new_purse)) [
      | inl more ↦
          rw more (inl (refl, λ may. ltb_ℤ-le_not (purse_of limit stored) new_purse more may.0))
      | inr no_more ↦
          elim (Bool-cases (ltb_ℤ (cashback_of limit stored) (cashback_of limit command))) [
            | inl raised ↦
                rw (no_more, raised)
                  (inl (
                    refl,
                    λ may.
                        ltb_ℤ-le_not (cashback_of limit stored) (cashback_of limit command) raised
                          may.1,
                  ))
            | inr kept ↦ elim (Bool-cases (ltb_ℤ purse_max_unsigned sum)) [
              | inl over ↦
                  rw (no_more, kept, over)
                    (inl (refl, λ may. ltb_ℤ-le_not purse_max_unsigned sum over may.2))
              | inr fits ↦
                  let may : IsPermitted limit stored command = (
                    ltb_ℤ_false_le (purse_of limit stored) new_purse no_more,
                    ltb_ℤ_false_le (cashback_of limit stored) (cashback_of limit command) kept,
                    ltb_ℤ_false_le purse_max_unsigned sum fits,
                  ) in
                  elim (Bool-cases (ltb_ℤ new_purse (floor limit))) [
                    | inl below ↦ rw (no_more, kept, fits, below) (inr (refl, may, inl below))
                    | inr floor_kept ↦ elim (Bool-cases (ltb_ℤ (ceiling limit) new_purse)) [
                      | inl above ↦
                          rw (no_more, kept, fits, floor_kept, above) (inr (refl, may, inr above))
                      | inr ceiling_kept ↦
                          rw (no_more, kept, fits, floor_kept, ceiling_kept)
                            (refl, may, ltb_ℤ-within limit new_purse floor_kept ceiling_kept)
                    ]
                  ]
            ]
          ]
    ]

-- What every kind of write leaves.
written_block :
    (limit : Option LimitPurseProperty) (stored command : Block) (operation : PurseOperation)
    {u : Block}
    → IsLimit limit
    → IsBlock stored
    → IsBlock command
    → apply_purse_write stored command operation limit ≡ ok (some u)
    → IsBlock u × WithinLimits limit (purse_of limit u) × (execution_id u ≡ execution_id command)
written_block limit stored command direct hl hs hc e =
    let (same, _, within) =
      subst (Replaced limit stored command) e (apply_purse_write-direct limit stored command) in
    (rw same hc, within, rw same)
written_block limit stored command decrement hl hs hc e =
    let ((_, _, _, id, block), within, _) =
      subst (Decremented limit stored command) e
        (apply_purse_write-decrement limit stored command hl hs hc) in
    (block, within, id)
written_block limit stored command cashback hl hs hc e =
    let ((_, _, _, id, block), within, _, _) =
      subst (CashedBack limit stored command) e
        (apply_purse_write-cashback limit stored command hl hs hc) in
    (block, within, id)

-- The blocks that successful writes of any kind leave, from a first block.
pub data History (limit : Option LimitPurseProperty) (first : Block) : Block → Type 0 where
  start : History limit first first
  written :
      {b u : Block} (command : Block) (operation : PurseOperation)
      → History limit first b
      → IsBlock command
      → apply_purse_write b command operation limit ≡ ok (some u)
      → History limit first u

-- After any sequence of successful writes of sixteen-byte blocks, the block of a purse that began
-- inside its limits, which are `i32` values, is a sixteen-byte block and its purse is inside the
-- limits.
pub History-WithinLimits :
    (limit : Option LimitPurseProperty) (first : Block) {b : Block}
    → IsLimit limit
    → IsBlock first
    → WithinLimits limit (purse_of limit first)
    → History limit first b
    → IsBlock b × WithinLimits limit (purse_of limit b)
History-WithinLimits limit first hl hf within start = (hf, within)
History-WithinLimits limit first hl hf within (written {b} command operation past hc e) =
    let (hb, _) = History-WithinLimits limit first hl hf within past in
    let (hu, kept, _) = written_block limit b command operation hl hb hc e in (hu, kept)

-- The operations that compare the execution ID.
abbrev pub ComparesId : PurseOperation → Type 0
ComparesId direct = ⊥
ComparesId decrement = Unit
ComparesId cashback = Unit

same_id :
    (limit : Option LimitPurseProperty) (stored command : Block) (operation : PurseOperation)
    → ComparesId operation
    → execution_id stored ≡ execution_id command
    → apply_purse_write stored command operation limit ≡ ok none
unfolding apply_purse_write
same_id limit stored command direct h e = absurd h
same_id limit stored command decrement h e = rw (e, list_eq_refl (execution_id command))
same_id limit stored command cashback h e = rw (e, list_eq_refl (execution_id command))

-- A sixteen-byte command that wrote a sixteen-byte block under `i32` limits, sent again as a
-- decrement or a cashback, succeeds and writes nothing.
pub apply_purse_write_again :
    (limit : Option LimitPurseProperty) (stored command : Block) (operation again : PurseOperation)
    {u : Block}
    → IsLimit limit
    → IsBlock stored
    → IsBlock command
    → apply_purse_write stored command operation limit ≡ ok (some u)
    → ComparesId again
    → apply_purse_write u command again limit ≡ ok none
apply_purse_write_again limit stored command operation again {u} hl hs hc e compares =
    let (_, _, id) = written_block limit stored command operation hl hs hc e in
    same_id limit u command again compares id
