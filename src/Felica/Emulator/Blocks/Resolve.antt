-- ===== src/Felica/Emulator/Blocks/Resolve.antt =====
-- The operation that a write to a purse performs, against what its service attribute allows.
use felica_rs.Prelude.{ℕ, ◌≡◌, refl, Bool, true, false, ◌==◌, ==→eq, arith, Bool-cases, inl, inr}
use felica_rs.Prelude.Outcome.{Outcome, ok, err, panic}
use felica_rs.Felica.Types.Service.{
  ServiceAttribute, purse_direct, purse_cashback, purse_decrement, random_read_write,
  random_read_only, cyclic_read_write, cyclic_read_only, purse_read_only, purse, kind_of,
  allows_decrement, allows_cashback,
}
use felica_rs.Felica.Emulator.Blocks.{
  PurseOperation, direct, decrement, cashback, resolve, sf2_access_not_permitted,
}

abbrev pub is_direct : ServiceAttribute → Bool
is_direct purse_direct = true
is_direct _ = false

-- The operation is one of the attribute, under the access mode that names it.
abbrev pub IsAllowed : ServiceAttribute → ℕ → Outcome ℕ PurseOperation → Type 0
IsAllowed a mode (ok direct) = (kind_of a ≡ purse) × (is_direct a ≡ true) × (mode ≡ 0)
IsAllowed a mode (ok decrement) = (kind_of a ≡ purse) × (allows_decrement a ≡ true) × (mode ≡ 0)
IsAllowed a mode (ok cashback) = (kind_of a ≡ purse) × (allows_cashback a ≡ true) × (mode ≡ 1)
IsAllowed a mode (err e) =
    (e ≡ sf2_access_not_permitted)
    × (mode ≡ 0 → (allows_decrement a ≡ false) × (is_direct a ≡ false))
    × (mode ≡ 1 → allows_cashback a ≡ false)
IsAllowed a mode panic = ⊥

-- The operation that is resolved for a service attribute and an access mode is one that the
-- attribute allows: direct access and the decrement under mode 0, the cashback under mode 1; any
-- other pair, and only such a pair, is refused as an access that is not permitted.
pub resolve-IsAllowed : (a : ServiceAttribute) (mode : ℕ) → IsAllowed a mode (resolve a mode)
unfolding resolve kind_of allows_decrement allows_cashback
resolve-IsAllowed random_read_write mode = (refl, (λ m. (refl, refl)), λ m. refl)
resolve-IsAllowed random_read_only mode = (refl, (λ m. (refl, refl)), λ m. refl)
resolve-IsAllowed cyclic_read_write mode = (refl, (λ m. (refl, refl)), λ m. refl)
resolve-IsAllowed cyclic_read_only mode = (refl, (λ m. (refl, refl)), λ m. refl)
resolve-IsAllowed purse_direct mode = elim (Bool-cases (mode == 0)) [
  | inl none_set ↦ rw none_set (refl, refl, ==→eq mode 0 none_set)
  | inr other ↦ rw other (refl, λ m. ground arith, λ m. refl)
]
resolve-IsAllowed purse_cashback mode = elim (Bool-cases (mode == 0)) [
  | inl none_set ↦ rw none_set (refl, refl, ==→eq mode 0 none_set)
  | inr other ↦ elim (Bool-cases (mode == 1)) [
    | inl one ↦ rw (other, one) (refl, refl, ==→eq mode 1 one)
    | inr neither ↦ rw (other, neither) (refl, (λ m. ground arith), λ m. ground arith)
  ]
]
resolve-IsAllowed purse_decrement mode = elim (Bool-cases (mode == 0)) [
  | inl none_set ↦ rw none_set (refl, refl, ==→eq mode 0 none_set)
  | inr other ↦ rw other (refl, λ m. ground arith, λ m. refl)
]
resolve-IsAllowed purse_read_only mode = (refl, (λ m. (refl, refl)), λ m. refl)
