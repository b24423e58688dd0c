-- ===== src/Prelude/Slices.antt =====
-- Slices of bytes: indexing and cutting panic out of range, as in Rust.
use felica_rs.Prelude.Tests.{leb, le→leb, if◌then◌else◌}
use felica_rs.Prelude.Lists.{
  length, take, drop, get_elem?, length-append, length-drop, take-append, drop-append, take_all,
}
use felica_rs.Prelude.Outcome.{Outcome, ok, panic}
use Prim.Native.Nat.{ℕ, ◌+◌, ◌-◌, ◌≤◌}
use mathlib.Core.Bool.{◌&&◌}
use mathlib.Core.List.{List, [], ◌++◌, append-nil}
use mathlib.Core.Path.{◌≡◌}
use native.Mathlib.Omega.{arith}
use mathlib.Core.Option.{Option, none, some}

-- `data[i]`
abbrev pub index {ℓ} : {E : Type 0} {A : Type ℓ} → List A → ℕ → Outcome E A
index xs i = elim (get_elem? xs i) [ none ↦ panic | some x ↦ ok x ]

-- `&data[..n]` and `&data[n..]`
abbrev pub slice_to {ℓ} : {E : Type 0} {A : Type ℓ} → ℕ → List A → Outcome E (List A)
slice_to n xs = if leb n (length xs) then ok (take n xs) else panic

abbrev pub slice_from {ℓ} : {E : Type 0} {A : Type ℓ} → ℕ → List A → Outcome E (List A)
slice_from n xs = if leb n (length xs) then ok (drop n xs) else panic

-- `&data[from..to]`
unfoldable pub slice_range {ℓ} : {E : Type 0} {A : Type ℓ} → ℕ → ℕ → List A → Outcome E (List A)
slice_range from to xs =
    if leb from to && leb to (length xs) then ok (take (to - from) (drop from xs)) else panic

-- `data.get(..n)`
abbrev pub get_to {ℓ} : {A : Type ℓ} → ℕ → List A → Option (List A)
get_to n xs = if leb n (length xs) then some (take n xs) else none

-- `data.split_first()`
abbrev pub split_first {ℓ} : {A : Type ℓ} → List A → Option (A × List A)
split_first List.[] = none
split_first (List.◌∷◌ x xs) = some (x, xs)

-- Cutting a list that is written as a front and the rest.
pub slice_to-append {ℓ} :
    {E : Type 0} {A : Type ℓ} (n : ℕ) (xs ys : List A)
    → length xs ≡ n
    → slice_to {E = E} n (xs ++ ys) ≡ ok xs
slice_to-append n xs ys h = rw (
  ← h,
  le→leb (length xs) (length (xs ++ ys)) (omega (arith, length-append xs ys)),
  take-append xs ys,
)

pub slice_from-append {ℓ} :
    {E : Type 0} {A : Type ℓ} (n : ℕ) (xs ys : List A)
    → length xs ≡ n
    → slice_from {E = E} n (xs ++ ys) ≡ ok ys
slice_from-append n xs ys h = rw (
  ← h,
  le→leb (length xs) (length (xs ++ ys)) (omega (arith, length-append xs ys)),
  drop-append xs ys,
)

-- The middle of a list that is written as three parts.
pub slice_range-append {ℓ} :
    {E : Type 0} {A : Type ℓ} (from to : ℕ) (front xs back : List A)
    → length front ≡ from
    → from + length xs ≡ to
    → slice_range {E = E} from to (front ++ (xs ++ back)) ≡ ok xs
unfolding slice_range
slice_range-append from to front xs back h k = rw (
  ← k,
  ← h,
  le→leb (length front) (length front + length xs) (omega arith),
  le→leb (length front + length xs) (length (front ++ (xs ++ back)))
      (omega (arith, length-append front (xs ++ back), length-append xs back)),
  drop-append front (xs ++ back),
  (let same : length front + length xs - length front ≡ length xs = omega arith in same),
  take-append xs back,
)

-- A range that ends where the list does.
pub slice_range-end {ℓ} :
    {E : Type 0} {A : Type ℓ} (from to : ℕ) (xs : List A)
    → from ≤ to
    → length xs ≡ to
    → slice_range {E = E} from to xs ≡ ok (drop from xs)
unfolding slice_range
slice_range-end from to xs h k = rw (
  ← k,
  le→leb from (length xs) (omega (arith, h, k)),
  le→leb (length xs) (length xs) (omega arith),
  ← length-drop from xs,
  take_all (drop from xs),
)

pub slice_range-last {ℓ} :
    {E : Type 0} {A : Type ℓ} (from to : ℕ) (front xs : List A)
    → length front ≡ from
    → from + length xs ≡ to
    → slice_range {E = E} from to (front ++ xs) ≡ ok xs
slice_range-last {E = E} from to front xs h k =
    rw append-nil at (slice_range-append {E = E} from to front xs [] h k)
