-- ===== src/Response/Wire/Lengths.antt =====
-- How long the lists of a response are on the wire.
use felica_rs.Prelude.{ℕ, suc, ◌*◌, ◌≡◌, refl, ap, List, [], ◌∷◌, length, length-append, All, arith}
use felica_rs.Felica.Emulator.Blocks.{u32_bytes}
use felica_rs.Felica.Types.Results.{
  AreaCodeRange, NodeProperty, value_limited_purse_service, mac_communication, property_bytes,
}
use felica_rs.Felica.Types.Versions.{
  OptionVersion, version_bytes, options_bytes, RequestServiceV2KeyVersion, single, dual,
}
use felica_rs.Command.Wire.{IsBytes}
use felica_rs.Response.Valid.{IsPurseProperty, IsMacProperty, IsSingle, IsDual}
use felica_rs.Response.Wire.{
  concat_bytes, words_be_bytes, areas_bytes, pairs_bytes, properties_bytes, aes_versions,
  des_versions,
}

pub length-concat_bytes :
    (bs : List (List ℕ)) → All (IsBytes 16) bs → length (concat_bytes bs) ≡ length bs * 16
unfolding concat_bytes
length-concat_bytes [] h = refl
length-concat_bytes (b ∷ bs) (p, h) =
    omega (arith, p.0, length-append b (concat_bytes bs), length-concat_bytes bs h)

pub length-words_be_bytes : (vs : List ℕ) → length (words_be_bytes vs) ≡ length vs * 2
unfolding words_be_bytes
length-words_be_bytes [] = refl
length-words_be_bytes (v ∷ vs) = omega (arith, length-words_be_bytes vs)

pub length-areas_bytes : (rest : List AreaCodeRange) → length (areas_bytes rest) ≡ length rest * 4
unfolding areas_bytes
length-areas_bytes [] = refl
length-areas_bytes (a ∷ rest) = omega (arith, length-areas_bytes rest)

pub length-pairs_bytes :
    (rest fs : List ℕ) → length fs ≡ length rest → length (pairs_bytes rest fs) ≡ length rest * 4
unfolding pairs_bytes
length-pairs_bytes [] fs h = refl
length-pairs_bytes (a ∷ rest) [] h = absurd (omega arith)
length-pairs_bytes (a ∷ rest) (f ∷ fs) h = omega (arith, length-pairs_bytes rest fs (omega arith))

pub length-purse_properties :
    (ps : List NodeProperty)
    → All IsPurseProperty ps
    → length (properties_bytes ps) ≡ length ps * 10
unfolding properties_bytes property_bytes u32_bytes
length-purse_properties [] h = refl
length-purse_properties (value_limited_purse_service e u l g ∷ ps) (p, h) =
    omega (arith, length-purse_properties ps h)
length-purse_properties (mac_communication e ∷ ps) (p, h) = absurd p

pub length-mac_properties :
    (ps : List NodeProperty) → All IsMacProperty ps → length (properties_bytes ps) ≡ length ps
unfolding properties_bytes property_bytes
length-mac_properties [] h = refl
length-mac_properties (mac_communication e ∷ ps) (p, h) = ap suc (length-mac_properties ps h)
length-mac_properties (value_limited_purse_service e u l g ∷ ps) (p, h) = absurd p

pub length-options_bytes : (vs : List OptionVersion) → length (options_bytes vs) ≡ length vs * 2
unfolding options_bytes version_bytes
length-options_bytes [] = refl
length-options_bytes (v ∷ vs) = omega (arith, length-options_bytes vs)

pub length-aes_versions :
    (vs : List RequestServiceV2KeyVersion) → length (aes_versions vs) ≡ length vs
unfolding aes_versions
length-aes_versions [] = refl
length-aes_versions (single v ∷ vs) = ap suc (length-aes_versions vs)
length-aes_versions (dual a d ∷ vs) = ap suc (length-aes_versions vs)

pub length-des_versions :
    (vs : List RequestServiceV2KeyVersion) → All IsDual vs → length (des_versions vs) ≡ length vs
unfolding des_versions
length-des_versions [] h = refl
length-des_versions (dual a d ∷ vs) (p, h) = ap suc (length-des_versions vs h)
length-des_versions (single v ∷ vs) (p, h) = absurd p

pub des_versions-single :
    (vs : List RequestServiceV2KeyVersion) → All IsSingle vs → des_versions vs ≡ []
unfolding des_versions
des_versions-single [] h = refl
des_versions-single (single v ∷ vs) (p, h) = des_versions-single vs h
des_versions-single (dual a d ∷ vs) (p, h) = absurd p
