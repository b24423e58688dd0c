-- ===== src/Driver/Tlv/Sound.antt =====
-- The fields of a response on any bytes: no index or slice leaves the response, and the loop ends.
use felica_rs.Prelude.{
  ℕ, zero, suc, ◌+◌, ◌≤◌, ◌<◌, ◌≡◌, refl, Bool, true, false, not, none, some, List, [], ◌∷◌, length,
  get_elem?, ltb, le→leb, String, arith, Bool-cases, Option-cases, inl, inr,
}
use felica_rs.Prelude.Slices.{index}
use felica_rs.Prelude.Outcome.{ok, err, panic}
use felica_rs.Prelude.Outcome.Ensures.{
  Ensures, returns, fails, Ensures-bind, Ensures-ensure, Ensures-if, ok_or-Ensures, Ensures-mono,
}
use felica_rs.Driver.Tlv.{
  Read, slice_range, take_tlv_value, take_status_tlv, skip_vendor_tlv, parse_length, TlvError,
}
use felica_rs.Driver.Tlv.Loop.{
  Round, next, stop, Result, follow, round, rounds, known_next, parse_fields,
}

pub slice_range-Ensures :
    (from to : ℕ) (bytes : List ℕ)
    → from ≤ to
    → to ≤ length bytes
    → Ensures {E = TlvError} (λ _. Unit {0}) (slice_range from to bytes)
unfolding slice_range
slice_range-Ensures from to bytes h k =
    rw (le→leb from to h, le→leb to (length bytes) k) (returns tt)

-- An index beyond `idx` and within the response.
abbrev pub Advances : List ℕ → ℕ → ℕ → Type 0
Advances bytes idx i = (idx < i) × (i ≤ length bytes)

pub take_tlv_value-Ensures :
    (bytes : List ℕ) (idx : ℕ) (context : String)
    → Ensures (λ (_, i). Advances bytes idx i) (take_tlv_value bytes idx context)
unfolding take_tlv_value
take_tlv_value-Ensures bytes idx context =
    Ensures-bind (ok_or-Ensures {P = λ _. Unit {0}} _ λ _ _. tt) λ len _. Ensures-ensure _ λ fits.
      Ensures-bind
        (slice_range-Ensures (idx + 1) (idx + 1 + len) bytes (omega arith) (ground arith))
        λ value _. returns (omega arith, ground arith)

pub take_status_tlv-Ensures :
    (bytes : List ℕ) (idx : ℕ) (context : String)
    → Ensures (λ i. Advances bytes idx i) (take_status_tlv bytes idx context)
unfolding take_status_tlv
take_status_tlv-Ensures bytes idx context =
    Ensures-bind (take_tlv_value-Ensures bytes idx context)
      λ (value, i) h. Ensures-ensure _ λ _. Ensures-ensure _ λ _. returns h

pub skip_vendor_tlv-Ensures :
    (bytes : List ℕ) (idx : ℕ) (context : String)
    → Ensures
        (λ (known, i). known ≡ true → Advances bytes idx i)
        (skip_vendor_tlv bytes idx context)
unfolding skip_vendor_tlv
skip_vendor_tlv-Ensures bytes idx context = elim (Option-cases (get_elem? bytes idx)) [
  | inl end ↦ rw end (returns λ e. cc)
  | inr (subtag, e) ↦ rw e (
      Ensures-if _ (returns λ e. cc) (
        Ensures-bind (take_tlv_value-Ensures bytes (idx + 1) context)
          λ (value, i) h. Ensures-ensure _ λ _. returns λ _. (omega (arith, h.0), h.1)))
]

pub parse_length-Ensures :
    (bytes : List ℕ)
    → Ensures (λ (_, consumed). (1 ≤ consumed) × (consumed ≤ length bytes)) (parse_length bytes)
unfolding parse_length
parse_length-Ensures [] = fails
parse_length-Ensures (first ∷ bytes) = Ensures-if _ (returns (omega arith, omega arith)) (
    Ensures-bind (ok_or-Ensures {P = λ _. Unit {0}} _ λ _ _. tt) λ count _.
      Ensures-ensure {t = not (ltb (length (first ∷ bytes)) (1 + count))} _ λ long.
        Ensures-bind
          (slice_range-Ensures 1 (1 + count) (first ∷ bytes) (omega arith) (ground arith))
          λ digits _. returns (omega arith, ground arith))

-- A round that goes on does so further inside the response.
abbrev pub Goes : {S : Type 0} → List ℕ → ℕ → Round S → Type 0
Goes bytes idx (next i result) = Advances bytes idx i
Goes bytes idx (stop result) = Unit

Goes-back :
    {S : Type 0} (bytes : List ℕ) (idx : ℕ) (r : Round S)
    → Goes bytes (idx + 1) r
    → Goes bytes idx r
Goes-back bytes idx (next i result) h = (omega (arith, h.0), h.1)
Goes-back bytes idx (stop result) h = tt

pub known_next-Goes :
    {S : Type 0} (bytes : List ℕ) (idx i : ℕ) (known : Bool) (result : S)
    → (known ≡ true → Advances bytes idx i)
    → Goes bytes idx (known_next known i result)
known_next-Goes bytes idx i true result h = h refl
known_next-Goes bytes idx i false result h = tt

pub index-Ensures :
    (bytes : List ℕ) (i : ℕ)
    → i < length bytes
    → Ensures {E = TlvError} (λ _. Unit {0}) (index bytes i)
index-Ensures [] i h = absurd (omega arith)
index-Ensures (b ∷ bytes) zero h = returns tt
index-Ensures (b ∷ bytes) (suc i) h = index-Ensures bytes i (omega arith)

-- The loop answered within its rounds, and did not panic.
abbrev pub Answers : {S : Type 0} → Result S → Type 0
Answers none = ⊥
Answers (some r) = Ensures (λ _. Unit {0}) r

follow-Answers :
    {S : Type 0} (bytes : List ℕ) (idx : ℕ) (rest : ℕ → S → Result S) (r : Read (Round S))
    → Ensures (Goes bytes idx) r
    → ((i : ℕ) (result : S) → Advances bytes idx i → Answers (rest i result))
    → Answers (follow rest r)
follow-Answers bytes idx rest (ok (next i result)) (returns h) k = k i result h
follow-Answers bytes idx rest (ok (stop result)) (returns h) k = returns tt
follow-Answers bytes idx rest (err e) fails k = fails
follow-Answers bytes idx rest panic h k = elim h [ ]

module _ {S : Type 0} (field : ℕ → List ℕ → ℕ → S → Read (Round S))
    (field-Goes : (tag : ℕ) (bytes : List ℕ) (idx : ℕ) (result : S)
      → idx ≤ length bytes
      → Ensures (Goes bytes idx) (field tag bytes idx result)) where
  round-Ensures :
      (bytes : List ℕ) (idx : ℕ) (result : S)
      → idx + 1 < length bytes
      → Ensures (Goes bytes idx) (round field bytes idx result)
  unfolding round
  round-Ensures bytes idx result h = Ensures-bind (index-Ensures bytes idx (omega arith)) λ tag _.
      Ensures-mono (field-Goes tag bytes (idx + 1) result (omega arith)) (Goes-back bytes idx)

  rounds-Answers :
      (fuel : ℕ) (bytes : List ℕ) (idx : ℕ) (result : S)
      → idx ≤ length bytes
      → length bytes < fuel + idx
      → Answers (rounds field fuel bytes idx result)
  unfolding rounds
  rounds-Answers zero bytes idx result h k = absurd (omega arith)
  rounds-Answers (suc fuel) bytes idx result h k =
      elim (Bool-cases (ltb (idx + 1) (length bytes))) [
        | inl more ↦ rw more (
            follow-Answers bytes idx _ (round field bytes idx result)
              (round-Ensures bytes idx result (ground arith))
              λ i r (forward, inside).
                rounds-Answers fuel bytes i r inside (omega (arith, forward)))
        | inr done ↦ rw done (returns tt)
      ]

  pub parse_fields-Answers :
      (bytes : List ℕ) (result : S) → Answers (parse_fields field bytes result)
  unfolding parse_fields
  parse_fields-Answers bytes result =
      rounds-Answers (length bytes + 1) bytes 0 result (omega arith) (omega arith)
