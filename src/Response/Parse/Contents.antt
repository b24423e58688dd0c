-- ===== src/Response/Parse/Contents.antt =====
-- The lists of a response are read back from the bytes that they are written as.
use felica_rs.Prelude.{
  ℕ, zero, suc, ◌+◌, ◌*◌, ◌/◌, ◌%◌, ◌≤◌, ◌≡◌, refl, ap, ◌∙◌, true, false, Bool, List, [], ◌∷◌, ◌++◌,
  append_assoc, length, take, drop, length-append, take-append, drop-append, le→leb, map, All,
  arith, ◌==◌, if◌then◌else◌,
}
use felica_rs.Prelude.Bytes.{from_le_bytes-to_le_bytes, from_be_bytes-to_be_bytes}
use felica_rs.Prelude.Slices.{index}
use felica_rs.Prelude.Outcome.{ok, ok_or}
use felica_rs.Felica.Error.{DriverError}
use felica_rs.Felica.Emulator.Blocks.{u32_bytes, read_value, write_value}
use felica_rs.Felica.Emulator.Blocks.Words.{read_value-write_value}
use felica_rs.Felica.Types.Results.{
  AreaCodeRange, NodeProperty, value_limited_purse_service, mac_communication, property_bytes,
}
use felica_rs.Felica.Types.Versions.{
  OptionVersion, options_bytes, RequestServiceV2KeyVersion, single, dual,
}
use felica_rs.Felica.Types.Versions.RoundTrip.{IsVersion, version_bytes_lem, version_of-digits}
use felica_rs.Felica.Payload.Layout.{words_bytes, length-words_bytes}
use felica_rs.Command.Wire.{IsBytes}
use felica_rs.Response.Valid.{IsPurseProperty, IsMacProperty, IsSingle, IsDual}
use felica_rs.Response.Wire.{
  concat_bytes, words_be_bytes, areas_bytes, pairs_bytes, properties_bytes, aes_versions,
  des_versions,
}
use felica_rs.Response.Wire.Lengths.{length-aes_versions}
use felica_rs.Response.Parse.Fields.{word_at, chunks_within, as_chunks, words_be}
use felica_rs.Response.Parse.Lists.{first_words, second_words, areas_of}
use felica_rs.Response.Parse.Settings.{
  purse_properties, mac_properties, dual_versions, parse_options,
}

pub words_be-words_be_bytes : (vs : List ℕ) → words_be (words_be_bytes vs) ≡ vs
unfolding words_be words_be_bytes
words_be-words_be_bytes [] = refl
words_be-words_be_bytes (v ∷ vs) = rw (from_be_bytes-to_be_bytes v, words_be-words_be_bytes vs)

pub areas_of-areas_bytes : (rest : List AreaCodeRange) → areas_of (areas_bytes rest) ≡ rest
unfolding areas_of areas_bytes
areas_of-areas_bytes [] = refl
areas_of-areas_bytes (a ∷ rest) = rw (
  from_le_bytes-to_le_bytes a.area_code,
  from_le_bytes-to_le_bytes a.end_service_code,
  areas_of-areas_bytes rest,
)

pub first_words-pairs_bytes :
    (rest fs : List ℕ) → length fs ≡ length rest → first_words (pairs_bytes rest fs) ≡ rest
unfolding first_words pairs_bytes
first_words-pairs_bytes [] fs h = refl
first_words-pairs_bytes (a ∷ rest) [] h = absurd (omega arith)
first_words-pairs_bytes (a ∷ rest) (f ∷ fs) h =
    rw (from_le_bytes-to_le_bytes a, first_words-pairs_bytes rest fs (omega arith))

pub second_words-pairs_bytes :
    (rest fs : List ℕ) → length fs ≡ length rest → second_words (pairs_bytes rest fs) ≡ fs
unfolding second_words pairs_bytes
second_words-pairs_bytes [] [] h = refl
second_words-pairs_bytes [] (f ∷ fs) h = absurd (omega arith)
second_words-pairs_bytes (a ∷ rest) [] h = absurd (omega arith)
second_words-pairs_bytes (a ∷ rest) (f ∷ fs) h =
    rw (from_le_bytes-to_le_bytes f, second_words-pairs_bytes rest fs (omega arith))

pub chunks_step :
    (fuel size : ℕ) (bytes : List ℕ)
    → size ≤ length bytes
    → chunks_within (suc fuel) size bytes
      ≡ take size bytes ∷ chunks_within fuel size (drop size bytes)
unfolding chunks_within
chunks_step fuel size bytes h = rw (chunks_within, le→leb size (length bytes) h)

chunks_of_blocks :
    (fuel : ℕ) (bs : List (List ℕ))
    → All (IsBytes 16) bs
    → length bs ≤ fuel
    → chunks_within fuel 16 (concat_bytes bs) ≡ bs
unfolding chunks_within concat_bytes
chunks_of_blocks zero [] h k = refl
chunks_of_blocks zero (b ∷ bs) h k = absurd (omega arith)
chunks_of_blocks (suc fuel) [] h k = refl
chunks_of_blocks (suc fuel) (b ∷ bs) (p, h) k =
    let whole = b ++ concat_bytes bs in
    let first : take 16 whole ≡ b = rw (← p.0) (take-append b (concat_bytes bs)) in
    let others : drop 16 whole ≡ concat_bytes bs = rw (← p.0) (drop-append b (concat_bytes bs)) in
    chunks_step fuel 16 whole (omega (arith, p.0, length-append b (concat_bytes bs)))
    ∙ rw (first, others, chunks_of_blocks fuel bs h (omega arith))

fuel_enough : (bs : List (List ℕ)) → All (IsBytes 16) bs → length bs ≤ length (concat_bytes bs)
unfolding concat_bytes
fuel_enough [] h = omega arith
fuel_enough (b ∷ bs) (p, h) =
    omega (arith, p.0, length-append b (concat_bytes bs), fuel_enough bs h)

-- As many rounds as there are bytes are enough to read every block.
pub as_chunks-concat_bytes :
    (bs : List (List ℕ)) → All (IsBytes 16) bs → as_chunks 16 (concat_bytes bs) ≡ bs
unfolding as_chunks
as_chunks-concat_bytes bs h = chunks_of_blocks (length (concat_bytes bs)) bs h (fuel_enough bs h)

enabled_back : (e : Bool) → ((if e then 0x01 else 0x00) == 0x01) ≡ e
enabled_back true = refl
enabled_back false = refl

pub purse_properties-properties_bytes :
    (ps : List NodeProperty) → All IsPurseProperty ps → purse_properties (properties_bytes ps) ≡ ps
unfolding purse_properties properties_bytes property_bytes u32_bytes read_value write_value
purse_properties-properties_bytes [] h = refl
purse_properties-properties_bytes (value_limited_purse_service e u l g ∷ ps) (p, h) = rw (
  enabled_back e,
  read_value-write_value true u [] p.0,
  read_value-write_value true l [] p.1,
  purse_properties-properties_bytes ps h,
)
purse_properties-properties_bytes (mac_communication e ∷ ps) (p, h) = absurd p

pub mac_properties-properties_bytes :
    (ps : List NodeProperty) → All IsMacProperty ps → mac_properties (properties_bytes ps) ≡ ps
unfolding mac_properties properties_bytes property_bytes
mac_properties-properties_bytes [] h = refl
mac_properties-properties_bytes (mac_communication e ∷ ps) (p, h) =
    rw (enabled_back e, mac_properties-properties_bytes ps h)
mac_properties-properties_bytes (value_limited_purse_service e u l g ∷ ps) (p, h) = absurd p

pub parse_options-options_bytes :
    (vs : List OptionVersion) → All IsVersion vs → parse_options (options_bytes vs) ≡ ok vs
unfolding parse_options options_bytes ok_or
parse_options-options_bytes [] h = refl
parse_options-options_bytes (v ∷ vs) (p, h) =
    rw (version_bytes_lem v p, version_of-digits v p, parse_options-options_bytes vs h)

pub index_here :
    (before : List ℕ) (x : ℕ) (rest : List ℕ)
    → index {E = DriverError} (before ++ (x ∷ rest)) (length before) ≡ ok x
index_here [] x rest = refl
index_here (b ∷ before) x rest = index_here before x rest

word_here :
    (before : List ℕ) (v : ℕ) (rest : List ℕ) (i : ℕ)
    → length before ≡ i
    → word_at (before ++ ((v % 256) ∷ (v / 256) ∷ rest)) i ≡ ok v
unfolding word_at
word_here before v rest i h =
    let both = before ++ ((v % 256) ∷ (v / 256) ∷ rest) in
    let next : before ++ ((v % 256) ∷ (v / 256) ∷ rest)
        ≡ (before ++ ((v % 256) ∷ [])) ++ ((v / 256) ∷ rest) =
      simp append_assoc in
    let second : index {E = DriverError} both (i + 1) ≡ ok (v / 256) =
      rw
        (
          next,
          (let k : i + 1 ≡ length (before ++ ((v % 256) ∷ [])) =
                omega (arith, h, length-append before ((v % 256) ∷ [])) in
              k),
        )
        (index_here (before ++ ((v % 256) ∷ [])) (v / 256) rest) in
    rw (second, ← h, index_here before (v % 256) ((v / 256) ∷ rest), from_le_bytes-to_le_bytes v)

dual_step :
    (payload : List ℕ) (n i left a d : ℕ) (vs : List RequestServiceV2KeyVersion)
    → word_at payload (i * 2) ≡ ok a
    → word_at payload (n * 2 + i * 2) ≡ ok d
    → dual_versions payload n (i + 1) left ≡ ok vs
    → dual_versions payload n i (suc left) ≡ ok (dual a d ∷ vs)
unfolding dual_versions
dual_step payload n i left a d vs aes des rest = rw (aes, des, rest)

-- The two runs of versions, of which `before` and `between` are read already.
dual_versions_from :
    (before between : List ℕ) (vs : List RequestServiceV2KeyVersion) (n i : ℕ)
    → All IsDual vs
    → length before ≡ i * 2
    → length before + length vs * 2 + length between ≡ n * 2 + i * 2
    → dual_versions
        (before ++ (words_bytes (aes_versions vs) ++ (between ++ words_bytes (des_versions vs))))
        n
        i
        (length vs)
      ≡ ok vs
unfolding dual_versions aes_versions des_versions words_bytes
dual_versions_from before between [] n i h p q = refl
dual_versions_from before between (single v ∷ vs) n i (x, h) p q = absurd x
dual_versions_from before between (dual a d ∷ vs) n i (x, h) p q =
    let later = words_bytes (aes_versions vs) in
    let last = words_bytes (des_versions vs) in
    let wa = (a % 256) ∷ (a / 256) ∷ [] in
    let wd = (d % 256) ∷ (d / 256) ∷ [] in
    let whole = before ++ (wa ++ (later ++ (between ++ (wd ++ last)))) in
    let aes : word_at whole (i * 2) ≡ ok a =
      word_here before a (later ++ (between ++ (wd ++ last))) (i * 2) p in
    let des : word_at whole (n * 2 + i * 2) ≡ ok d =
      rw
        (let e : whole ≡ (before ++ (wa ++ (later ++ between))) ++ (wd ++ last) =
            simp append_assoc in
          e)
        (word_here (before ++ (wa ++ (later ++ between))) d last (n * 2 + i * 2) (
          omega (
            arith,
            length-append before (wa ++ (later ++ between)),
            length-append later between,
            length-words_bytes (aes_versions vs),
            length-aes_versions vs,
            p,
            q,
          ))) in
    let shifted : whole ≡ (before ++ wa) ++ (later ++ ((between ++ wd) ++ last)) =
      simp append_assoc in
    dual_step whole n i (length vs) a d vs aes des (
      ap (λ t. dual_versions t n (i + 1) (length vs)) shifted
      ∙ dual_versions_from (before ++ wa) (between ++ wd) vs n (i + 1) h
          (omega (arith, p, length-append before wa))
          (omega (arith, q, length-append before wa, length-append between wd)))

pub dual_versions-words_bytes :
    (vs : List RequestServiceV2KeyVersion)
    → All IsDual vs
    → dual_versions
        (words_bytes (aes_versions vs) ++ words_bytes (des_versions vs))
        (length vs)
        0
        (length vs)
      ≡ ok vs
dual_versions-words_bytes vs h = dual_versions_from [] [] vs (length vs) 0 h refl (omega arith)

pub map_single-aes_versions :
    (vs : List RequestServiceV2KeyVersion) → All IsSingle vs → map single (aes_versions vs) ≡ vs
unfolding aes_versions
map_single-aes_versions [] h = refl
map_single-aes_versions (single v ∷ vs) (p, h) =
    ap (λ t. single v ∷ t) (map_single-aes_versions vs h)
map_single-aes_versions (dual a d ∷ vs) (p, h) = absurd p
