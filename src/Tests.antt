-- ===== src/Tests.antt =====
-- Each theorem at a concrete input, which its conditions allow, and the bytes that these share.
mod Commands
mod Blocks
mod Readers
mod Responses
mod Cards
use felica_rs.Prelude.{
  ℕ, ◌≡◌, Bool, true, false, List, [], ◌∷◌, All, ltb, if◌then◌else◌, Bool-cases, inl, inr, arith,
}
use felica_rs.Prelude.Bytes.{IsByte}

abbrev idm : List ℕ
idm = 1 ∷ 2 ∷ 3 ∷ 4 ∷ 5 ∷ 6 ∷ 7 ∷ 8 ∷ []

unfoldable are_bytes : List ℕ → Bool
are_bytes [] = true
are_bytes (b ∷ bs) = if ltb b 256 then are_bytes bs else false

bytes : (bs : List ℕ) → are_bytes bs ≡ true → All IsByte bs
unfolding are_bytes
bytes [] h = tt
bytes (b ∷ bs) h = elim (Bool-cases (ltb b 256)) [
  | inl small ↦ (ground arith, bytes bs (rw small at h))
  | inr large ↦ let f : false ≡ true = rw large at h in cc
]
