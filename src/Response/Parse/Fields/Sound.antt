-- ===== src/Response/Parse/Fields/Sound.antt =====
-- The shared parts of the parser on any bytes.
use felica_rs.Prelude.{
  ℕ, ◌+◌, ◌≤◌, ◌≡◌, Option, none, some, String, List, length, All, arith, ◌==◌, Bool-cases, inl,
  inr,
}
use felica_rs.Prelude.Bytes.{IsByte}
use felica_rs.Prelude.Outcome.Ensures.{
  Ensures, returns, Ensures-bind, Ensures-ensure, index-Ensures, slice_to-Ensures,
  slice_from-Ensures,
}
use felica_rs.Command.Wire.{IsBytes}
use felica_rs.Response.{FelicaStandardResponse}
use felica_rs.Response.Valid.{Paired, Flags}
use felica_rs.Response.Wire.{outcome}
use felica_rs.Response.Parse.Fields.{Read, status_flags, parse_fixed, parse_outcome}

pub status_flags-Ensures :
    (bytes : List ℕ) (message : String)
    → All IsByte bytes
    → Ensures
        (λ (sf1, sf2). IsByte sf1 × IsByte sf2 × (12 ≤ length bytes))
        (status_flags bytes message)
unfolding status_flags
status_flags-Ensures bytes message h = Ensures-ensure _ λ t.
    let long : 12 ≤ length bytes = ground arith in
    Ensures-bind (index-Ensures bytes 10 h (omega arith)) λ sf1 h1.
      Ensures-bind (index-Ensures bytes 11 h (omega arith)) λ sf2 h2. returns (h1, h2, long)

pub parse_fixed-Ensures :
    (n : ℕ) (bytes : List ℕ) (label : String)
    → All IsByte bytes
    → Ensures
        (λ (xs, rest). IsBytes n xs × All IsByte rest × (n ≤ length bytes))
        (parse_fixed n bytes label)
unfolding parse_fixed
parse_fixed-Ensures n bytes label h = Ensures-ensure _ λ t.
    let long : n ≤ length bytes = ground arith in
    Ensures-bind (slice_to-Ensures n bytes h long)
      λ xs x. Ensures-bind (slice_from-Ensures n bytes h long) λ rest r. returns (x, r.1, long)

-- A result that takes the rest of the frame behind twelve bytes.
abbrev pub Fills : {R : Type 0} → (R → Type 0) → (R → List ℕ) → ℕ → R → Type 0
Fills P field n r = P r × (12 + length (field r) ≡ n)

pub parse_outcome-Ensures :
    {R : Type 0} (P : R → Type 0) (field : R → List ℕ) {Q : FelicaStandardResponse → Type 0}
    (answer : ℕ → ℕ → Option R → FelicaStandardResponse) (short_message error_message : String)
    (success : List ℕ → Read R) (bytes : List ℕ)
    → All IsByte bytes
    → (12 ≤ length bytes → Ensures (Fills P field (length bytes)) (success bytes))
    → ((sf1 sf2 : ℕ) (result : Option R)
        → Flags sf1 sf2
        → Paired P sf1 result
        → 10 + length (outcome sf1 sf2 field result) ≡ length bytes
        → Q (answer sf1 sf2 result))
    → Ensures Q (parse_outcome answer short_message error_message success bytes)
unfolding parse_outcome
parse_outcome-Ensures P field answer sm em success bytes h k q =
    Ensures-bind (status_flags-Ensures bytes sm h) λ (sf1, sf2) f. elim (Bool-cases (sf1 == 0)) [
      | inr error ↦
          rw error (
            Ensures-ensure _ λ t. returns (q sf1 sf2 none (f.0, f.1) (ground arith) (ground arith)))
      | inl success_flag ↦ rw success_flag (
          Ensures-bind (k f.2)
            λ r p. returns (q sf1 sf2 (some r) (f.0, f.1) (ground arith, p.0) (omega (arith, p.1))))
    ]
