-- ===== src/Response/Parse/Settings/Sound.antt =====
-- The responses on nodes, keys, systems and versions, read from any bytes.
use felica_rs.Prelude.{
  ℕ, ◌+◌, ◌*◌, ◌≤◌, ◌≡◌, ◌⊎◌, refl, List, ◌∷◌, ◌++◌, length, length-append, All, arith, ◌==◌, ◌||◌,
  Bool-cases, inl, inr, ==→eq, append-nil, map,
}
use felica_rs.Prelude.Bytes.{IsByte}
use felica_rs.Prelude.Outcome.{◌>>=◌}
use felica_rs.Prelude.Outcome.Ensures.{
  Ensures, returns, fails, Ensures-bind, Ensures-ensure, Ensures-mono, index-Ensures,
  slice_to-Ensures, slice_from-Ensures, slice_range-Ensures, ok_or-Ensures,
}
use felica_rs.Prelude.Slices.{slice_from}
use felica_rs.Felica.Types.Results.{GetNodePropertyResult}
use felica_rs.Felica.Types.Versions.{RequestServiceV2KeyVersion, single, version_bytes}
use felica_rs.Felica.Types.Versions.RoundTrip.{version_bytes-version_of}
use felica_rs.Felica.Payload.Layout.{words_bytes, length-words_bytes}
use felica_rs.Command.Wire.{IsBytes}
use felica_rs.Command.Parse.Fields.{words_le}
use felica_rs.Command.Parse.Fields.Sound.{words_le_sound}
use felica_rs.Response.{
  get_node_property, request_service_v2, request_product_information, request_specification_version,
}
use felica_rs.Response.Valid.{
  IsProperties, IsKeyVersions, IsDual, IsSingle, IsData, IsSpecification, is_secure,
}
use felica_rs.Response.Wire.{
  properties_field, versions_field, counted_bytes, specification_field, aes_versions, des_versions,
  fields, outcome,
}
use felica_rs.Response.Wire.Lengths.{
  length-purse_properties, length-mac_properties, length-options_bytes, length-aes_versions,
  length-des_versions, des_versions-single,
}
use felica_rs.Response.Wire.Returned.{IsReturned}
use felica_rs.Response.Parse.Bounds.{
  purse_properties_sound, mac_properties_sound, dual_versions-Ensures, map_single_sound,
  parse_options-Ensures,
}
use felica_rs.Response.Parse.Fields.Sound.{Fills, parse_outcome-Ensures}
use felica_rs.Response.Parse.Settings.{
  node_properties_of, parse_get_node_property, key_versions_of, parse_request_service_v2,
  parse_get_system_status, product_information_of, parse_request_product_information,
  parse_specification_version_data, parse_request_specification_version, purse_properties,
  mac_properties,
}

node_properties_of-Ensures :
    (bytes : List ℕ)
    → All IsByte bytes
    → 12 ≤ length bytes
    → Ensures
        (Fills
          (λ (r : GetNodePropertyResult). IsProperties r.node_properties)
          properties_field
          (length bytes))
        (node_properties_of bytes)
unfolding node_properties_of
node_properties_of-Ensures bytes h k = Ensures-ensure _ λ t.
    let long : 13 ≤ length bytes = ground arith in
    Ensures-bind (index-Ensures bytes 12 h (omega (arith, long))) λ n c. Ensures-ensure _ λ u.
      let many : (1 ≤ n) × (n ≤ 16) = ground arith in
      Ensures-bind (slice_from-Ensures 13 bytes h long) λ payload p.
        elim (Bool-cases (length payload == n * 10)) [
          | inl purses ↦
              let size : length payload ≡ n * 10 = ==→eq (length payload) (n * 10) purses in
              let (l, w) = purse_properties_sound n payload p.1 size in
              rw purses (
                returns (
                  (omega (arith, l, many.0), omega (arith, l, many.1), inl w),
                  omega (arith, length-purse_properties (purse_properties payload) w, l, size, p.0),
                ))
          | inr others ↦ rw others (elim (Bool-cases (length payload == n)) [
            | inl macs ↦
                let size : length payload ≡ n = ==→eq (length payload) n macs in
                let (l, w) = mac_properties_sound payload in
                rw macs (
                  returns (
                    (omega (arith, l, many.0, size), omega (arith, l, many.1, size), inr w),
                    omega (arith, length-mac_properties (mac_properties payload) w, l, size, p.0),
                  ))
            | inr neither ↦ rw neither fails
          ])
        ]

dual_filled :
    (vs : List RequestServiceV2KeyVersion)
    → All IsDual vs
    → length (words_bytes (aes_versions vs) ++ words_bytes (des_versions vs)) ≡ length vs * 4
dual_filled vs v = omega (
  arith,
  length-append (words_bytes (aes_versions vs)) (words_bytes (des_versions vs)),
  length-words_bytes (aes_versions vs),
  length-words_bytes (des_versions vs),
  length-aes_versions vs,
  length-des_versions vs v,
)

single_filled :
    (vs : List RequestServiceV2KeyVersion)
    → All IsSingle vs
    → length (words_bytes (aes_versions vs) ++ words_bytes (des_versions vs)) ≡ length vs * 2
unfolding words_bytes
single_filled vs v =
    rw (des_versions-single vs v, append-nil)
      (omega (arith, length-words_bytes (aes_versions vs), length-aes_versions vs))

key_versions_of-Ensures :
    (bytes : List ℕ)
    → All IsByte bytes
    → 12 ≤ length bytes
    → Ensures (Fills IsKeyVersions versions_field (length bytes)) (key_versions_of bytes)
unfolding key_versions_of
key_versions_of-Ensures bytes h k = Ensures-ensure _ λ t.
    let long : 14 ≤ length bytes = ground arith in
    Ensures-bind (index-Ensures bytes 12 h (omega (arith, long))) λ id d. Ensures-ensure _ λ u.
      Ensures-bind (index-Ensures bytes 13 h (omega (arith, long))) λ n c. Ensures-ensure _ λ v.
        let many : (1 ≤ n) × (n ≤ 32) = ground arith in
        Ensures-bind (slice_from-Ensures 14 bytes h long) λ payload p.
          elim (Bool-cases ((id == 0x41) || (id == 0x43))) [
            | inl two_keys ↦ rw two_keys (
                Ensures-ensure _ λ w.
                  let whole : length bytes ≡ 14 + n * 4 = ground arith in
                  let ids : (id ≡ 0x41) ⊎ (id ≡ 0x43) = ground arith in
                  Ensures-bind
                    (dual_versions-Ensures payload n 0 n p.1 (omega (arith, p.0, whole))
                      (omega arith))
                    λ vs x. returns (
                      (omega (arith, x.0, many.0), omega (arith, x.0, many.1), inr (ids, x.1)),
                      omega (arith, dual_filled vs x.1, x.0, whole),
                    ))
            | inr one_key ↦ rw one_key (
                Ensures-ensure _ λ w.
                  let whole : length bytes ≡ 14 + n * 2 = ground arith in
                  let ids : id ≡ 0x4f = ground arith in
                  Ensures-bind (slice_to-Ensures (n * 2) payload p.1 (omega (arith, p.0, whole)))
                    λ chunk s.
                      let (l, words_ok) = words_le_sound n chunk s.1 s.0 in
                      let (l2, singles) = map_single_sound (words_le chunk) words_ok in
                      returns (
                        (
                          omega (arith, l, l2, many.0),
                          omega (arith, l, l2, many.1),
                          inl (ids, singles),
                        ),
                        omega (
                          arith,
                          single_filled (map single (words_le chunk)) singles,
                          l,
                          l2,
                          whole,
                        ),
                      ))
          ]

product_information_of-Ensures :
    (bytes : List ℕ)
    → All IsByte bytes
    → 12 ≤ length bytes
    → Ensures (Fills IsData counted_bytes (length bytes)) (product_information_of bytes)
unfolding product_information_of
product_information_of-Ensures bytes h k = Ensures-ensure _ λ t.
    Ensures-bind (index-Ensures bytes 12 h (ground arith)) λ n c. Ensures-ensure _ λ u.
      let whole : length bytes ≡ 13 + n = ground arith in
      Ensures-mono (slice_range-Ensures 13 (13 + n) bytes h (omega arith) (omega (arith, whole)))
        λ xs x. ((omega arith, omega (arith, x.0, c), x.1), omega (arith, x.0, whole))

pub parse_get_system_status-Ensures :
    (idm bytes : List ℕ)
    → IsBytes 8 idm
    → All IsByte bytes
    → Ensures (IsReturned (length bytes)) (parse_get_system_status idm bytes)
unfolding parse_get_system_status fields is_secure
parse_get_system_status-Ensures idm bytes i h = Ensures-ensure _ λ t.
    let long : 14 ≤ length bytes = ground arith in
    Ensures-bind (index-Ensures bytes 10 h (omega (arith, long))) λ sf1 f1.
      Ensures-bind (index-Ensures bytes 11 h (omega (arith, long))) λ sf2 f2.
        Ensures-bind (index-Ensures bytes 12 h (omega (arith, long))) λ flag f.
          Ensures-bind (index-Ensures bytes 13 h (omega (arith, long))) λ n c. Ensures-ensure _ λ u.
            let whole : length bytes ≡ 14 + n = ground arith in
            Ensures-bind
              (slice_range-Ensures 14 (14 + n) bytes h (omega arith) (omega (arith, whole)))
              λ xs x. returns (
                (i, (f1, f2), (f, (omega arith, omega (arith, x.0, c), x.1))),
                refl,
                omega (
                  arith,
                  length-append idm (sf1 ∷ sf2 ∷ flag ∷ counted_bytes xs),
                  i.0,
                  x.0,
                  whole,
                ),
              )

parse_specification_version_data-Ensures :
    (bytes : List ℕ)
    → All IsByte bytes
    → Ensures
        (λ s. IsSpecification s × (length (specification_field s) ≡ length bytes))
        (parse_specification_version_data bytes)
unfolding parse_specification_version_data version_bytes
parse_specification_version_data-Ensures bytes h = Ensures-ensure _ λ t.
    let long : 4 ≤ length bytes = ground arith in
    Ensures-bind (index-Ensures bytes 0 h (omega (arith, long))) λ format f. Ensures-ensure _ λ u.
      Ensures-bind (index-Ensures bytes 1 h (omega (arith, long))) λ low hl.
        Ensures-bind (index-Ensures bytes 2 h (omega (arith, long))) λ high hh.
          Ensures-bind (ok_or-Ensures _ λ v e. (version_bytes-version_of low high v hl hh e).0)
            λ v hv. Ensures-bind (index-Ensures bytes 3 h (omega (arith, long))) λ n c.
              Ensures-ensure _ λ w.
                let whole : length bytes ≡ 4 + n * 2 = ground arith in
                Ensures-bind
                  (slice_range-Ensures 4 (4 + n * 2) bytes h (omega arith) (omega (arith, whole)))
                  λ xs x. Ensures-bind (parse_options-Ensures n xs x.1 (omega (arith, x.0))) λ vs y.
                    returns (
                      (==→eq format 0 u, hv, (omega arith, omega (arith, y.0, c), y.1)),
                      omega (arith, length-options_bytes vs, y.0, whole),
                    )

version_from_twelve-Ensures :
    (bytes : List ℕ)
    → All IsByte bytes
    → 12 ≤ length bytes
    → Ensures
        (Fills IsSpecification specification_field (length bytes))
        (slice_from 12 bytes >>= parse_specification_version_data)
version_from_twelve-Ensures bytes h k = Ensures-bind (slice_from-Ensures 12 bytes h k) λ xs x.
    Ensures-mono (parse_specification_version_data-Ensures xs x.1)
      λ s p. (p.0, omega (arith, p.1, x.0))

pub parse_get_node_property-Ensures :
    (idm bytes : List ℕ)
    → IsBytes 8 idm
    → All IsByte bytes
    → Ensures (IsReturned (length bytes)) (parse_get_node_property idm bytes)
unfolding parse_get_node_property fields is_secure
parse_get_node_property-Ensures idm bytes i h =
    parse_outcome-Ensures (λ r. IsProperties r.node_properties) properties_field
      (get_node_property idm) _ _ node_properties_of bytes h (node_properties_of-Ensures bytes h)
      λ sf1 sf2 result f p e. (
        (i, f, p),
        refl,
        omega (arith, length-append idm (outcome sf1 sf2 properties_field result), i.0, e),
      )

pub parse_request_service_v2-Ensures :
    (idm bytes : List ℕ)
    → IsBytes 8 idm
    → All IsByte bytes
    → Ensures (IsReturned (length bytes)) (parse_request_service_v2 idm bytes)
unfolding parse_request_service_v2 fields is_secure
parse_request_service_v2-Ensures idm bytes i h =
    parse_outcome-Ensures IsKeyVersions versions_field (request_service_v2 idm) _ _ key_versions_of
      bytes h (key_versions_of-Ensures bytes h)
      λ sf1 sf2 result f p e. (
        (i, f, p),
        refl,
        omega (arith, length-append idm (outcome sf1 sf2 versions_field result), i.0, e),
      )

pub parse_request_product_information-Ensures :
    (idm bytes : List ℕ)
    → IsBytes 8 idm
    → All IsByte bytes
    → Ensures (IsReturned (length bytes)) (parse_request_product_information idm bytes)
unfolding parse_request_product_information fields is_secure
parse_request_product_information-Ensures idm bytes i h =
    parse_outcome-Ensures IsData counted_bytes (request_product_information idm) _ _
      product_information_of bytes h (product_information_of-Ensures bytes h)
      λ sf1 sf2 result f p e. (
        (i, f, p),
        refl,
        omega (arith, length-append idm (outcome sf1 sf2 counted_bytes result), i.0, e),
      )

pub parse_request_specification_version-Ensures :
    (idm bytes : List ℕ)
    → IsBytes 8 idm
    → All IsByte bytes
    → Ensures (IsReturned (length bytes)) (parse_request_specification_version idm bytes)
unfolding parse_request_specification_version fields is_secure
parse_request_specification_version-Ensures idm bytes i h =
    parse_outcome-Ensures IsSpecification specification_field (request_specification_version idm) _
      _ (λ bytes. slice_from 12 bytes >>= parse_specification_version_data) bytes h
      (version_from_twelve-Ensures bytes h)
      λ sf1 sf2 result f p e. (
        (i, f, p),
        refl,
        omega (arith, length-append idm (outcome sf1 sf2 specification_field result), i.0, e),
      )
