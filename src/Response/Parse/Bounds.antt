-- ===== src/Response/Parse/Bounds.antt =====
-- What reading the lists of a response from any bytes gives: how many entries, and in which ranges.
use felica_rs.Prelude.{
  ℕ, zero, suc, ◌+◌, ◌*◌, ◌≤◌, ◌≡◌, refl, ap, true, List, [], ◌∷◌, length, drop, All, All-take,
  All-drop, length-take, length-drop, map, arith,
}
use felica_rs.Prelude.Bytes.{IsByte, IsWord, from_le_bytes-IsWord, from_be_bytes-IsWord}
use felica_rs.Prelude.Outcome.Ensures.{
  Ensures, returns, Ensures-bind, index-Ensures, ok_or-Ensures, slice_to-Ensures,
}
use felica_rs.Felica.Emulator.Blocks.{read_value}
use felica_rs.Felica.Emulator.Blocks.Words.{read_value-Fits32}
use felica_rs.Felica.Types.Versions.{single}
use felica_rs.Felica.Types.Versions.RoundTrip.{IsVersion, version_bytes-version_of}
use felica_rs.Command.Wire.{IsBytes}
use felica_rs.Response.Valid.{IsArea, IsPurseProperty, IsMacProperty, IsSingle, IsDual}
use felica_rs.Response.Parse.Fields.{word_at, chunks_within, as_chunks, words_be, collect_blocks}
use felica_rs.Response.Parse.Contents.{chunks_step}
use felica_rs.Response.Parse.Lists.{first_words, second_words, areas_of}
use felica_rs.Response.Parse.Settings.{
  purse_properties, mac_properties, dual_versions, parse_options,
}

pub words_be_sound :
    (n : ℕ) (bs : List ℕ)
    → All IsByte bs
    → length bs ≡ n * 2
    → (length (words_be bs) ≡ n) × All IsWord (words_be bs)
unfolding words_be
words_be_sound zero [] h e = (refl, tt)
words_be_sound (suc n) [] h e = absurd (omega arith)
words_be_sound n (a ∷ []) h e = absurd (omega arith)
words_be_sound zero (a ∷ b ∷ bs) h e = absurd (omega arith)
words_be_sound (suc n) (a ∷ b ∷ bs) (ha, (hb, h)) e =
    let (l, w) = words_be_sound n bs h (omega arith) in
    (ap suc l, (from_be_bytes-IsWord a b ha hb, w))

pub areas_of_sound :
    (n : ℕ) (bs : List ℕ)
    → All IsByte bs
    → length bs ≡ n * 4
    → (length (areas_of bs) ≡ n) × All IsArea (areas_of bs)
unfolding areas_of
areas_of_sound zero [] h e = (refl, tt)
areas_of_sound (suc n) [] h e = absurd (omega arith)
areas_of_sound n (a ∷ []) h e = absurd (omega arith)
areas_of_sound n (a ∷ b ∷ []) h e = absurd (omega arith)
areas_of_sound n (a ∷ b ∷ c ∷ []) h e = absurd (omega arith)
areas_of_sound zero (a ∷ b ∷ c ∷ d ∷ bs) h e = absurd (omega arith)
areas_of_sound (suc n) (a ∷ b ∷ c ∷ d ∷ bs) (ha, (hb, (hc, (hd, h)))) e =
    let (l, w) = areas_of_sound n bs h (omega arith) in
    (ap suc l, ((from_le_bytes-IsWord a b ha hb, from_le_bytes-IsWord c d hc hd), w))

pub first_words_sound :
    (n : ℕ) (bs : List ℕ)
    → All IsByte bs
    → length bs ≡ n * 4
    → (length (first_words bs) ≡ n) × All IsWord (first_words bs)
unfolding first_words
first_words_sound zero [] h e = (refl, tt)
first_words_sound (suc n) [] h e = absurd (omega arith)
first_words_sound n (a ∷ []) h e = absurd (omega arith)
first_words_sound n (a ∷ b ∷ []) h e = absurd (omega arith)
first_words_sound n (a ∷ b ∷ c ∷ []) h e = absurd (omega arith)
first_words_sound zero (a ∷ b ∷ c ∷ d ∷ bs) h e = absurd (omega arith)
first_words_sound (suc n) (a ∷ b ∷ c ∷ d ∷ bs) (ha, (hb, (hc, (hd, h)))) e =
    let (l, w) = first_words_sound n bs h (omega arith) in
    (ap suc l, (from_le_bytes-IsWord a b ha hb, w))

pub second_words_sound :
    (n : ℕ) (bs : List ℕ)
    → All IsByte bs
    → length bs ≡ n * 4
    → (length (second_words bs) ≡ n) × All IsWord (second_words bs)
unfolding second_words
second_words_sound zero [] h e = (refl, tt)
second_words_sound (suc n) [] h e = absurd (omega arith)
second_words_sound n (a ∷ []) h e = absurd (omega arith)
second_words_sound n (a ∷ b ∷ []) h e = absurd (omega arith)
second_words_sound n (a ∷ b ∷ c ∷ []) h e = absurd (omega arith)
second_words_sound zero (a ∷ b ∷ c ∷ d ∷ bs) h e = absurd (omega arith)
second_words_sound (suc n) (a ∷ b ∷ c ∷ d ∷ bs) (ha, (hb, (hc, (hd, h)))) e =
    let (l, w) = second_words_sound n bs h (omega arith) in
    (ap suc l, (from_le_bytes-IsWord c d hc hd, w))

chunks_sound :
    (fuel n : ℕ) (bs : List ℕ)
    → All IsByte bs
    → length bs ≡ n * 16
    → n ≤ fuel
    → (length (chunks_within fuel 16 bs) ≡ n) × All (IsBytes 16) (chunks_within fuel 16 bs)
unfolding chunks_within
chunks_sound zero zero bs h e k = (refl, tt)
chunks_sound zero (suc n) bs h e k = absurd (omega arith)
chunks_sound (suc fuel) zero [] h e k = (refl, tt)
chunks_sound (suc fuel) zero (b ∷ bs) h e k = absurd (omega arith)
chunks_sound (suc fuel) (suc n) bs h e k =
    let fits : 16 ≤ length bs = omega arith in
    let (l, w) =
      chunks_sound fuel n (drop 16 bs) (All-drop IsByte 16 bs h) (omega (arith, length-drop 16 bs))
        (omega arith) in
    rw (chunks_step fuel 16 bs fits)
      (ap suc l, ((length-take 16 bs fits, All-take IsByte 16 bs h), w))

pub collect_blocks-Ensures :
    (n : ℕ) (bs : List ℕ)
    → All IsByte bs
    → length bs ≡ n * 16
    → Ensures (λ blocks. (length blocks ≡ n) × All (IsBytes 16) blocks) (collect_blocks bs n)
unfolding collect_blocks as_chunks
collect_blocks-Ensures n bs h e =
    Ensures-bind (slice_to-Ensures (n * 16) bs h (omega arith))
      λ cs c. returns (chunks_sound (length cs) n cs c.1 c.0 (omega (arith, c.0)))

pub word_at-Ensures :
    (bs : List ℕ) (i : ℕ) → All IsByte bs → i + 2 ≤ length bs → Ensures IsWord (word_at bs i)
unfolding word_at
word_at-Ensures bs i h k = Ensures-bind (index-Ensures bs i h (omega arith)) λ a ha.
    Ensures-bind (index-Ensures bs (i + 1) h (omega arith))
      λ b hb. returns (from_le_bytes-IsWord a b ha hb)

pub purse_properties_sound :
    (n : ℕ) (bs : List ℕ)
    → All IsByte bs
    → length bs ≡ n * 10
    → (length (purse_properties bs) ≡ n) × All IsPurseProperty (purse_properties bs)
unfolding purse_properties read_value
purse_properties_sound zero [] h e = (refl, tt)
purse_properties_sound (suc n) [] h e = absurd (omega arith)
purse_properties_sound n (a0 ∷ []) h e = absurd (omega arith)
purse_properties_sound n (a0 ∷ a1 ∷ []) h e = absurd (omega arith)
purse_properties_sound n (a0 ∷ a1 ∷ a2 ∷ []) h e = absurd (omega arith)
purse_properties_sound n (a0 ∷ a1 ∷ a2 ∷ a3 ∷ []) h e = absurd (omega arith)
purse_properties_sound n (a0 ∷ a1 ∷ a2 ∷ a3 ∷ a4 ∷ []) h e = absurd (omega arith)
purse_properties_sound n (a0 ∷ a1 ∷ a2 ∷ a3 ∷ a4 ∷ a5 ∷ []) h e = absurd (omega arith)
purse_properties_sound n (a0 ∷ a1 ∷ a2 ∷ a3 ∷ a4 ∷ a5 ∷ a6 ∷ []) h e = absurd (omega arith)
purse_properties_sound n (a0 ∷ a1 ∷ a2 ∷ a3 ∷ a4 ∷ a5 ∷ a6 ∷ a7 ∷ []) h e = absurd (omega arith)
purse_properties_sound n (a0 ∷ a1 ∷ a2 ∷ a3 ∷ a4 ∷ a5 ∷ a6 ∷ a7 ∷ a8 ∷ []) h e =
    absurd (omega arith)
purse_properties_sound zero (a0 ∷ a1 ∷ a2 ∷ a3 ∷ a4 ∷ a5 ∷ a6 ∷ a7 ∷ a8 ∷ a9 ∷ bs) h e =
    absurd (omega arith)
purse_properties_sound (suc n) (a0 ∷ a1 ∷ a2 ∷ a3 ∷ a4 ∷ a5 ∷ a6 ∷ a7 ∷ a8 ∷ a9 ∷ bs)
      (h0, (h1, (h2, (h3, (h4, (h5, (h6, (h7, (h8, (h9, h)))))))))) e =
    let (l, w) = purse_properties_sound n bs h (omega arith) in
    (
      ap suc l,
      (
        (
          read_value-Fits32 true (a1 ∷ a2 ∷ a3 ∷ a4 ∷ []) (h1, (h2, (h3, (h4, tt)))),
          read_value-Fits32 true (a5 ∷ a6 ∷ a7 ∷ a8 ∷ []) (h5, (h6, (h7, (h8, tt)))),
          h9,
        ),
        w,
      ),
    )

pub mac_properties_sound :
    (bs : List ℕ) → (length (mac_properties bs) ≡ length bs) × All IsMacProperty (mac_properties bs)
unfolding mac_properties
mac_properties_sound [] = (refl, tt)
mac_properties_sound (b ∷ bs) = let (l, w) = mac_properties_sound bs in (ap suc l, (tt, w))

pub dual_versions-Ensures :
    (payload : List ℕ) (n i left : ℕ)
    → All IsByte payload
    → length payload ≡ n * 4
    → i + left ≡ n
    → Ensures (λ vs. (length vs ≡ left) × All IsDual vs) (dual_versions payload n i left)
unfolding dual_versions
dual_versions-Ensures payload n i zero h l e = returns (refl, tt)
dual_versions-Ensures payload n i (suc left) h l e =
    Ensures-bind (word_at-Ensures payload (i * 2) h (omega arith)) λ a ha.
      Ensures-bind (word_at-Ensures payload (n * 2 + i * 2) h (omega arith)) λ d hd.
        Ensures-bind (dual_versions-Ensures payload n (i + 1) left h l (omega arith))
          λ vs v. returns (ap suc v.0, ((ha, hd), v.1))

pub map_single_sound :
    (vs : List ℕ)
    → All IsWord vs
    → (length (map single vs) ≡ length vs) × All IsSingle (map single vs)
map_single_sound [] h = (refl, tt)
map_single_sound (v ∷ vs) (p, h) = let (l, w) = map_single_sound vs h in (ap suc l, (p, w))

pub parse_options-Ensures :
    (n : ℕ) (bs : List ℕ)
    → All IsByte bs
    → length bs ≡ n * 2
    → Ensures (λ vs. (length vs ≡ n) × All IsVersion vs) (parse_options bs)
unfolding parse_options
parse_options-Ensures zero [] h e = returns (refl, tt)
parse_options-Ensures (suc n) [] h e = absurd (omega arith)
parse_options-Ensures n (a ∷ []) h e = absurd (omega arith)
parse_options-Ensures zero (a ∷ b ∷ bs) h e = absurd (omega arith)
parse_options-Ensures (suc n) (a ∷ b ∷ bs) (ha, (hb, h)) e =
    Ensures-bind (ok_or-Ensures _ λ v e. (version_bytes-version_of a b v ha hb e).0) λ v hv.
      Ensures-bind (parse_options-Ensures n bs h (omega arith))
        λ vs w. returns (ap suc w.0, (hv, w.1))
