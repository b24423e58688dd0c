-- ===== src/Response/Parse/Fields/Reads.antt =====
-- The shared parts of the parser on a frame whose first bytes are given one by one.
use felica_rs.Prelude.{
  ℕ, zero, suc, ◌≡◌, refl, Option, none, some, String, List, [], ◌∷◌, ◌++◌, length, length-append,
  arith, eq→==, le→ltb_false, ne→==_false,
}
use felica_rs.Prelude.Slices.{slice_to-append, slice_from-append}
use felica_rs.Prelude.Outcome.{ok, ensure}
use felica_rs.Response.{FelicaStandardResponse}
use felica_rs.Response.Valid.{Paired}
use felica_rs.Response.Wire.{outcome}
use felica_rs.Response.Parse.Fields.{Read, status_flags, parse_fixed, parse_outcome}

-- `P` of every list of `n` elements, as a function of these elements.
abbrev pub Curried : ℕ → (List ℕ → Type 0) → Type 0
Curried zero P = P []
Curried (suc n) P = (a : ℕ) → Curried n (λ as_read. P (a ∷ as_read))

pub at_length : (n : ℕ) (P : List ℕ → Type 0) → Curried n P → (xs : List ℕ) → length xs ≡ n → P xs
at_length zero P k [] h = k
at_length zero P k (x ∷ xs) h = absurd (omega arith)
at_length (suc n) P k [] h = absurd (omega arith)
at_length (suc n) P k (x ∷ xs) h = at_length n (λ ys. P (x ∷ ys)) (k x) xs (omega arith)

pub parse_fixed_reads :
    (n : ℕ) (xs rest : List ℕ) (label : String)
    → length xs ≡ n
    → parse_fixed n (xs ++ rest) label ≡ ok (xs, rest)
unfolding parse_fixed ensure
parse_fixed_reads n xs rest label h = rw (
  le→ltb_false (length (xs ++ rest)) n (omega (arith, length-append xs rest, h)),
  slice_to-append n xs rest h,
  slice_from-append n xs rest h,
)

-- A reader of the part behind twelve bytes.
abbrev pub Succeeds : {R : Type 0} → (R → Type 0) → (R → List ℕ) → (List ℕ → Read R) → Type 0
Succeeds P field success =
    (r : _) (front : List ℕ) → P r → length front ≡ 12 → success (front ++ field r) ≡ ok r

pub parse_outcome_reads :
    {R : Type 0} {P : R → Type 0} (field : R → List ℕ) (success : List ℕ → Read R)
    (answer : ℕ → ℕ → Option R → FelicaStandardResponse) (short_message error_message : String)
    (status_flag1 status_flag2 : ℕ) (result : Option R) (front : List ℕ)
    → length front ≡ 10
    → Paired P status_flag1 result
    → Succeeds P field success
    → parse_outcome answer short_message error_message success
        (front ++ outcome status_flag1 status_flag2 field result)
      ≡ ok (answer status_flag1 status_flag2 result)
unfolding parse_outcome status_flags ensure
parse_outcome_reads field success answer sm em sf1 sf2 none front h p k =
    at_length 10
      (λ front.
        parse_outcome answer sm em success (front ++ (sf1 ∷ sf2 ∷ [])) ≡ ok (answer sf1 sf2 none))
      (λ a0 a1 a2 a3 a4 a5 a6 a7 a8 a9. rw (ne→==_false sf1 0 (λ e. absurd (omega arith)))) front h
parse_outcome_reads field success answer sm em sf1 sf2 (some r) front h p k =
    at_length 10
      (λ front.
        parse_outcome answer sm em success (front ++ (sf1 ∷ sf2 ∷ field r))
        ≡ ok (answer sf1 sf2 (some r)))
      (λ a0 a1 a2 a3 a4 a5 a6 a7 a8 a9.
        let front12 = a0 ∷ a1 ∷ a2 ∷ a3 ∷ a4 ∷ a5 ∷ a6 ∷ a7 ∷ a8 ∷ a9 ∷ sf1 ∷ sf2 ∷ [] in
        rw (
          le→ltb_false (length (front12 ++ field r)) 12 (omega arith),
          eq→== sf1 0 p.0,
          k r front12 p.1 refl,
        ))
      front h
