-- ===== src/Felica/Emulator/Blocks/Cyclic.antt =====
-- What a write to a cyclic service leaves of its ring.
use felica_rs.Prelude.{
  ℕ, ◌-◌, ◌≤◌, ◌<◌, ◌≡◌, refl, subst, true, false, List, [], ◌∷◌, length, length-append,
  length-take, take, drop, take-append, drop-append, ltb, list_eq, list_eq_refl, list_eq_sound,
  Bool-cases, inl, inr, arith,
}
use felica_rs.Prelude.Outcome.{Outcome, ok, err, panic}
use felica_rs.Felica.Emulator.Blocks.{
  Block, CyclicWrite, updated, unchanged, blocks_eq, apply_cyclic_write, sf2_cyclic_write_overflow,
}

blocks_eq_sound : (as' bs : List Block) → blocks_eq as' bs ≡ true → as' ≡ bs
unfolding blocks_eq
blocks_eq_sound [] [] h = refl
blocks_eq_sound [] (b ∷ bs) h = cc
blocks_eq_sound (a ∷ as') [] h = cc
blocks_eq_sound (a ∷ as') (b ∷ bs) h = elim (Bool-cases (list_eq a b)) [
  | inl e ↦ rw (list_eq_sound a b e, blocks_eq_sound as' bs (rw e at h))
  | inr n ↦ let f : false ≡ true = rw n at h in cc
]

blocks_eq_refl : (bs : List Block) → blocks_eq bs bs ≡ true
unfolding blocks_eq
blocks_eq_refl [] = refl
blocks_eq_refl (b ∷ bs) = rw (list_eq_refl b) (blocks_eq_refl bs)

-- The ring after a write: as long as before, the blocks of the command in front, then the newest
-- of those that were there.
abbrev pub Pushed : List Block → List Block → Outcome ℕ CyclicWrite → Type 0
Pushed stored command (ok (updated ring)) =
    (length ring ≡ length stored)
    × (take (length command) ring ≡ command)
    × (drop (length command) ring ≡ take (length stored - length command) stored)
    × (blocks_eq (take (length command) stored) command ≡ false)
Pushed stored command (ok unchanged) = take (length command) stored ≡ command
Pushed stored command (err e) = (e ≡ sf2_cyclic_write_overflow) × (length stored < length command)
Pushed stored command panic = ⊥

-- A cyclic write keeps the length of the ring, puts the blocks of the command in front of the
-- newest older ones, leaves the ring alone exactly where the command repeats its front, and is
-- refused exactly where the command is longer than the ring.
pub apply_cyclic_write-Pushed :
    (stored command : List Block) → Pushed stored command (apply_cyclic_write stored command)
unfolding apply_cyclic_write
apply_cyclic_write-Pushed stored command =
    let n : ℕ = length command in
    let older : List Block = take (length stored - n) stored in
    elim (Bool-cases (ltb (length stored) n)) [
      | inl long ↦ rw long (refl, ground arith)
      | inr fits ↦ elim (Bool-cases (blocks_eq (take n stored) command)) [
        | inl same ↦ rw (fits, same) (blocks_eq_sound (take n stored) command same)
        | inr differs ↦
            let le : n ≤ length stored = ground arith in
            rw (fits, differs)
              (
                omega (
                  arith,
                  length-append command older,
                  length-take (length stored - n) stored (omega arith),
                ),
                take-append command older,
                drop-append command older,
                differs,
              )
      ]
    ]

-- A command that was written to a ring, sent again, succeeds and leaves the ring as it is.
pub apply_cyclic_write_again :
    (stored command ring : List Block)
    → apply_cyclic_write stored command ≡ ok (updated ring)
    → apply_cyclic_write ring command ≡ ok unchanged
unfolding apply_cyclic_write
apply_cyclic_write_again stored command ring e =
    let (size, front, _, _) =
      subst (Pushed stored command) e (apply_cyclic_write-Pushed stored command) in
    elim (Bool-cases (ltb (length stored) (length command))) [
      | inl long ↦ let f : err sf2_cyclic_write_overflow ≡ ok (updated ring) = rw long at e in cc
      | inr fits ↦ rw (size, fits, front, blocks_eq_refl command)
    ]
