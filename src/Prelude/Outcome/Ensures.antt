-- ===== src/Prelude/Outcome/Ensures.antt =====
-- `Ensures P r`: the call `r` did not panic, and `P` holds of its value if it has one.
use mathlib.Core.Path.{◌≡◌, refl, subst}
use mathlib.Core.Bool.{Bool, true, false, not}
use mathlib.Core.Option.{Option, none, some}
use mathlib.Core.List.{List, [], ◌∷◌}
use Prim.Native.Nat.{ℕ, zero, suc, ◌+◌, ◌-◌, ◌≤◌, ◌<◌}
use native.Mathlib.Omega.{arith}
use felica_rs.Prelude.Tests.{ltb, leb, le→leb, if◌then◌else◌, Bool-cases}
use mathlib.Core.Logic.{inl, inr}
use felica_rs.Prelude.Lists.{length, drop, All, All-take, All-drop, length-take, length-drop}
use felica_rs.Prelude.Slices.{index, slice_to, slice_from, slice_range, split_first, get_to}
use felica_rs.Prelude.Outcome.{Outcome, ok, err, panic, ◌>>=◌, ◌>>◌, ensure, ok_or}

pub data Ensures {ℓ κ} {E : Type 0} {A : Type ℓ} (P : A → Type κ) : Outcome E A → Type (ℓ ⊔ κ) where
  returns : {a : A} → P a → Ensures P (ok a)
  fails : {e : E} → Ensures P (err e)

module _ {ℓ κ} {E : Type 0} {A : Type ℓ} {P : A → Type κ} where
  pub Ensures-ok : {r : Outcome E A} {a : A} → Ensures P r → r ≡ ok a → P a
  Ensures-ok (returns h) e = subst P (cc) h
  Ensures-ok fails e = cc

  pub Ensures-panic : {r : Outcome E A} → Ensures P r → r ≡ panic → ⊥
  Ensures-panic (returns h) e = cc
  Ensures-panic fails e = cc

  pub Ensures-mono {μ} :
      {Q : A → Type μ} {r : Outcome E A} → Ensures P r → ((a : A) → P a → Q a) → Ensures Q r
  Ensures-mono (returns {a} h) k = returns (k a h)
  Ensures-mono fails k = fails

  pub Ensures-bind {ν μ} :
      {B : Type ν} {Q : B → Type μ} {r : Outcome E A} {f : A → Outcome E B}
      → Ensures P r
      → ((a : A) → P a → Ensures Q (f a))
      → Ensures Q (r >>= f)
  Ensures-bind (returns {a} h) k = k a h
  Ensures-bind fails k = fails

  pub Ensures-ensure :
      {t : Bool} (e : E) {r : Outcome E A} → (t ≡ true → Ensures P r) → Ensures P (ensure t e >> r)
  unfolding ensure
  Ensures-ensure {t = true} e k = k refl
  Ensures-ensure {t = false} e k = fails

  -- `if len < n { … } if len > n { … }`
  pub Ensures-exact :
      {len n : ℕ} (e e' : E) {r : Outcome E A}
      → (len ≡ n → Ensures P r)
      → Ensures P (ensure (not (ltb len n)) e >> (ensure (not (ltb n len)) e' >> r))
  Ensures-exact e e' k = Ensures-ensure e λ lo. Ensures-ensure e' λ hi. k (ground arith)

  pub ok_or-Ensures : {o : Option A} (e : E) → ((a : A) → o ≡ some a → P a) → Ensures P (ok_or o e)
  unfolding ok_or
  ok_or-Ensures {o = none} e k = fails
  ok_or-Ensures {o = some a} e k = returns (k a refl)

module _ {E : Type 0} {P : ℕ → Type 0} where
  pub index-Ensures :
      (xs : List ℕ) (i : ℕ) → All P xs → i < length xs → Ensures {E = E} P (index xs i)
  index-Ensures [] i h lt = absurd (omega arith)
  index-Ensures (x ∷ xs) zero h lt = returns h.0
  index-Ensures (x ∷ xs) (suc i) h lt = index-Ensures xs i h.1 (omega arith)

  pub slice_to-Ensures :
      (n : ℕ) (xs : List ℕ)
      → All P xs
      → n ≤ length xs
      → Ensures {E = E} (λ ys. (length ys ≡ n) × All P ys) (slice_to n xs)
  slice_to-Ensures n xs h le =
      rw (le→leb n (length xs) le) (returns (length-take n xs le, All-take P n xs h))

  pub slice_from-Ensures :
      (n : ℕ) (xs : List ℕ)
      → All P xs
      → n ≤ length xs
      → Ensures {E = E} (λ ys. (n + length ys ≡ length xs) × All P ys) (slice_from n xs)
  slice_from-Ensures n xs h le =
      rw (le→leb n (length xs) le) (returns (omega (arith, length-drop n xs), All-drop P n xs h))

  pub slice_range-Ensures :
      (from to : ℕ) (xs : List ℕ)
      → All P xs
      → from ≤ to
      → to ≤ length xs
      → Ensures {E = E} (λ ys. (from + length ys ≡ to) × All P ys) (slice_range from to xs)
  unfolding slice_range
  slice_range-Ensures from to xs h p q =
      let fits : to - from ≤ length (drop from xs) = omega (arith, length-drop from xs) in
      rw (le→leb from to p, le→leb to (length xs) q)
        (returns (
          omega (arith, length-take (to - from) (drop from xs) fits),
          All-take P (to - from) (drop from xs) (All-drop P from xs h),
        ))

  pub split_first-Ensures :
      (xs : List ℕ) (e : E)
      → All P xs
      → Ensures
          (λ (b, rest). P b × All P rest × (suc (length rest) ≡ length xs))
          (ok_or (split_first xs) e)
  unfolding ok_or
  split_first-Ensures [] e h = fails
  split_first-Ensures (x ∷ xs) e h = returns (h.0, h.1, refl)

pub Ensures-if {ℓ κ} :
    {E : Type 0} {A : Type ℓ} {P : A → Type κ} (b : Bool) {x y : Outcome E A}
    → Ensures P x
    → Ensures P y
    → Ensures P (if b then x else y)
Ensures-if true h k = h
Ensures-if false h k = k

pub get_to-Ensures :
    {E : Type 0} {P : ℕ → Type 0} (n : ℕ) (xs : List ℕ) (e : E)
    → All P xs
    → Ensures (λ ys. (length ys ≡ n) × All P ys) (ok_or (get_to n xs) e)
unfolding ok_or
get_to-Ensures {P = P} n xs e h = elim (Bool-cases (leb n (length xs))) [
  | inl fits ↦ rw fits (returns (length-take n xs (ground arith), All-take P n xs h))
  | inr short ↦ rw short fails
]

-- What holds of the value that a check lets through.
pub after_check {ℓ κ} :
    {E : Type 0} {A : Type ℓ} (P : A → Type κ) (check : Outcome E (Unit {0})) {a b : A}
    → (check >> ok a) ≡ ok b
    → (check ≡ ok tt → P a)
    → P b
after_check P (ok done) h k = subst P (cc) (k refl)
after_check P (err e) h k = cc
after_check P panic h k = cc
