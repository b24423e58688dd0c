-- ===== src/Driver/Framing/Sums.antt =====
-- The checksums as sums modulo 256, in both profiles.
use felica_rs.Prelude.{ℕ, ◌+◌, ◌-◌, ◌%◌, ◌≤◌, ◌<◌, ◌≡◌, refl, List, [], ◌∷◌, lt→ltb, ◌==◌, arith}
use native.Mathlib.Nat.{add_assoc, zero-add}
use felica_rs.Prelude.Outcome.{ok}
use felica_rs.Driver.Framing.{
  Profile, checked, wrapping, add_u16, sum_u16, checksum, checksum_matches,
}

unfoldable pub sum : List ℕ → ℕ
sum [] = 0
sum (b ∷ bs) = b + sum bs

-- A sum that the profile adds up without a panic.
abbrev pub Fits : Profile → ℕ → Type 0
Fits checked n = n < 65536
Fits wrapping n = Unit

-- The register after adding up to `n`.
abbrev pub register : Profile → ℕ → ℕ
register checked n = n
register wrapping n = n % 65536

pub Fits-le : (p : Profile) (m n : ℕ) → m ≤ n → Fits p n → Fits p m
Fits-le checked m n h f = omega arith
Fits-le wrapping m n h f = tt

pub Fits-small : (p : Profile) (n : ℕ) → n < 65536 → Fits p n
Fits-small checked n h = h
Fits-small wrapping n h = tt

pub add_u16_lem :
    (p : Profile) (m b : ℕ) → Fits p (m + b) → add_u16 p (register p m) b ≡ ok (register p (m + b))
unfolding add_u16
add_u16_lem checked m b f = rw (lt→ltb (m + b) 65536 f)
add_u16_lem wrapping m b f = ground arith

pub sum_u16_lem :
    (p : Profile) (bs : List ℕ) (m : ℕ)
    → Fits p (m + sum bs)
    → sum_u16 p (register p m) bs ≡ ok (register p (m + sum bs))
unfolding sum_u16 sum
sum_u16_lem checked [] m f = ground arith
sum_u16_lem wrapping [] m f = ground arith
sum_u16_lem p (b ∷ bs) m f =
    rw
      (
        add_u16_lem p m b (Fits-le p (m + b) (m + (b + sum bs)) (omega arith) f),
        ← add_assoc m b (sum bs),
      )
      (sum_u16_lem p bs (m + b) (rw (← add_assoc m b (sum bs)) at f))

start : (p : Profile) → register p 0 ≡ 0
start checked = refl
start wrapping = refl

register-mod : (p : Profile) (n : ℕ) → register p n % 256 ≡ n % 256
register-mod checked n = refl
register-mod wrapping n = omega arith

sum_u16_from_zero :
    (p : Profile) (bs : List ℕ) → Fits p (sum bs) → sum_u16 p 0 bs ≡ ok (register p (sum bs))
sum_u16_from_zero p bs f =
    rw (start p, zero-add (sum bs)) at (sum_u16_lem p bs 0 (rw (zero-add (sum bs)) f))

pub checksum_lem :
    (p : Profile) (bs : List ℕ) → Fits p (sum bs) → checksum p bs ≡ ok ((256 - sum bs % 256) % 256)
unfolding checksum
checksum_lem p bs f = rw (sum_u16_from_zero p bs f, register-mod p (sum bs))

pub checksum_matches_lem :
    (p : Profile) (bs : List ℕ) (c : ℕ)
    → Fits p (sum bs + c)
    → checksum_matches p bs c ≡ ok ((sum bs + c) % 256 == 0)
unfolding checksum_matches
checksum_matches_lem p bs c f = rw (
  sum_u16_from_zero p bs (Fits-le p (sum bs) (sum bs + c) (omega arith) f),
  add_u16_lem p (sum bs) c f,
  register-mod p (sum bs + c),
)
