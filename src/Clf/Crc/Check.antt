-- ===== src/Clf/Crc/Check.antt =====
-- The checks accept exactly what the writers produce.
use felica_rs.Prelude.{
  ℕ, ◌+◌, ◌-◌, ◌/◌, ◌%◌, ◌^◌, ◌≤◌, ◌≡◌, refl, sym, ap, ◌∙◌, ◌↔◌, Bool, true, false, ◌&&◌, some,
  List, [], ◌∷◌, ◌++◌, append_assoc, length, length-append, take-append, take_all, get_elem?, ltb,
  le→ltb_false, ◌==◌, ==_refl, ==→eq, if◌then◌else◌, Bool-cases, inl, inr, bit_and, arith,
}
use mathlib.Core.Path.{ap₂}
use felica_rs.Clf.Crc.{
  calculate_crc, append_crc, verify_crc, add_crc_a, check_crc_a, add_crc_b, check_crc_b, crc_a_init,
  crc_b_init, complement16, crc_of,
}

-- A list of two or more is a front and two last octets.
record Ends (octets : List ℕ) : Type 0 where
  front : List ℕ
  low : ℕ
  high : ℕ
  whole : octets ≡ front ++ (low ∷ high ∷ [])

ends : (octets : List ℕ) → 2 ≤ length octets → Ends octets
ends [] h = absurd (omega arith)
ends (x ∷ []) h = absurd (omega arith)
ends (x ∷ y ∷ []) h = record { front = []; low = x; high = y; whole = refl }
ends (x ∷ y ∷ z ∷ rest) h =
    let e = ends (y ∷ z ∷ rest) (omega arith) in
    record { front = x ∷ e.front; low = e.low; high = e.high; whole = ap (λ t. x ∷ t) e.whole }

get_behind :
    (front back : List ℕ) (x n : ℕ) → length front ≡ n → get_elem? (front ++ (x ∷ back)) n ≡ some x
get_behind [] back x n h = rw (← h)
get_behind (y ∷ front) back x n h = rw (← h) (get_behind front back x (length front) refl)

verify_crc_ends :
    (front : List ℕ) (low high crc : ℕ)
    → verify_crc (front ++ (low ∷ high ∷ [])) crc
      ≡ ((low == bit_and crc 0x00ff) && (high == crc / 2 ^ 8 % 256))
unfolding verify_crc
verify_crc_ends front low high crc =
    let whole : List ℕ = front ++ (low ∷ high ∷ []) in
    let size : length whole ≡ length front + 2 = length-append front (low ∷ high ∷ []) in
    let two : length whole - 2 ≡ length front = omega (arith, size) in
    let one : length whole - 1 ≡ length front + 1 = omega (arith, size) in
    let last : get_elem? whole (length front + 1) ≡ some high =
      rw (append_assoc front (low ∷ []) (high ∷ [])) at (
        get_behind (front ++ (low ∷ [])) [] high (length front + 1)
          (length-append front (low ∷ []))) in
    rw (
      le→ltb_false (length whole) 2 (omega (arith, size)),
      two,
      one,
      get_behind front (high ∷ []) low (length front) refl,
      last,
    )

and_cases : (a b : Bool) → (a && b) ≡ true → (a ≡ true) × (b ≡ true)
and_cases a b h = ground arith

-- The two kinds differ in the first register and in the last step.
module _ (init : ℕ) (last : ℕ → ℕ) where
  abbrev check : List ℕ → Bool
  check octets =
      if ltb (length octets) 2
      then false
      else verify_crc octets (last (calculate_crc octets (length octets - 2) init))

  abbrev add : List ℕ → List ℕ
  add octets = append_crc octets (last (calculate_crc octets (length octets) init))

  add_lem :
      (front : List ℕ)
      → let crc = last (crc_of front init) in
        add front ≡ front ++ (bit_and crc 0x00ff ∷ (crc / 2 ^ 8 % 256) ∷ [])
  unfolding append_crc calculate_crc
  add_lem front = rw (take_all front) (append_assoc front _ _)

  check_lem :
      (front : List ℕ) (low high : ℕ)
      → let crc = last (crc_of front init) in
        check (front ++ (low ∷ high ∷ []))
        ≡ ((low == bit_and crc 0x00ff) && (high == crc / 2 ^ 8 % 256))
  unfolding calculate_crc
  check_lem front low high =
      let whole : List ℕ = front ++ (low ∷ high ∷ []) in
      let size : length whole ≡ length front + 2 = length-append front (low ∷ high ∷ []) in
      let two : length whole - 2 ≡ length front = omega (arith, size) in
      rw (
        le→ltb_false (length whole) 2 (omega (arith, size)),
        two,
        take-append front (low ∷ high ∷ []),
        verify_crc_ends front low high (last (crc_of front init)),
      )

  check-add : (octets : List ℕ) → check (add octets) ≡ true
  check-add octets =
      let crc : ℕ = last (crc_of octets init) in
      ap check (add_lem octets)
      ∙ check_lem octets (bit_and crc 0x00ff) (crc / 2 ^ 8 % 256)
      ∙ rw (==_refl (bit_and crc 0x00ff), ==_refl (crc / 2 ^ 8 % 256))

  add_of_check : (octets : List ℕ) → check octets ≡ true → (front : List ℕ) × (octets ≡ add front)
  add_of_check octets h = elim (Bool-cases (ltb (length octets) 2)) [
    | inl short ↦ absurd (short_check octets short h)
    | inr long ↦
        let e = ends octets (ground arith) in
        let crc : ℕ = last (crc_of e.front init) in
        let (p, q) =
          and_cases _ _ (sym (check_lem e.front e.low e.high) ∙ sym (ap check e.whole) ∙ h) in
        (
          e.front,
          e.whole
              ∙ ap₂ (λ x y. e.front ++ (x ∷ y ∷ [])) (==→eq _ _ p) (==→eq _ _ q)
              ∙ sym (add_lem e.front),
        )
  ]
    where
      short_check : (octets : List ℕ) → ltb (length octets) 2 ≡ true → check octets ≡ true → ⊥
      short_check octets s h = cc (rw s at h)

-- The NFC-A check passes on exactly the packets that `add_crc_a` produces.
pub check_crc_a_iff :
    (octets : List ℕ)
    → (check_crc_a octets ≡ true) ↔ ((front : List ℕ) × (octets ≡ add_crc_a front))
unfolding check_crc_a add_crc_a
check_crc_a_iff octets = (
  add_of_check crc_a_init (λ c. c) octets,
  λ e. ap check_crc_a e.1 ∙ check-add crc_a_init (λ c. c) e.0,
)

-- The NFC-B check passes on exactly the packets that `add_crc_b` produces.
pub check_crc_b_iff :
    (octets : List ℕ)
    → (check_crc_b octets ≡ true) ↔ ((front : List ℕ) × (octets ≡ add_crc_b front))
unfolding check_crc_b add_crc_b
check_crc_b_iff octets = (
  add_of_check crc_b_init complement16 octets,
  λ e. ap check_crc_b e.1 ∙ check-add crc_b_init complement16 e.0,
)
