-- ===== src/Response/Parse/Settings/Reads.antt =====
-- The responses on nodes, keys, systems and versions are read back from their layout.
use felica_rs.Prelude.{
  ℕ, ◌+◌, ◌*◌, ◌≡◌, refl, inl, inr, List, [], ◌∷◌, ◌++◌, length, length-append, arith, eq→==,
  le→ltb_false, ne→==_false, append-nil,
}
use felica_rs.Prelude.Slices.{
  slice_range-end, slice_from, slice_from-append, slice_to-append, slice_to,
}
use felica_rs.Prelude.Outcome.{ok, ok_or, ensure, ◌>>=◌}
use felica_rs.Felica.Error.{DriverError}
use felica_rs.Felica.Types.Results.{GetNodePropertyResult, GetSystemStatusResult}
use felica_rs.Felica.Types.Versions.{options_bytes}
use felica_rs.Felica.Types.Versions.RoundTrip.{version_bytes_lem, version_of-digits}
use felica_rs.Felica.Payload.Layout.{words_bytes, length-words_bytes}
use felica_rs.Command.Parse.Fields.Reads.{words_le_reads}
use felica_rs.Response.{get_system_status}
use felica_rs.Response.Valid.{IsProperties, IsKeyVersions, IsData, IsSpecification}
use felica_rs.Response.Wire.{
  properties_bytes, properties_field, versions_field, counted_bytes, specification_field,
  aes_versions, des_versions,
}
use felica_rs.Response.Wire.Lengths.{
  length-purse_properties, length-mac_properties, length-options_bytes, length-aes_versions,
  length-des_versions, des_versions-single,
}
use felica_rs.Response.Parse.Fields.Reads.{at_length, Succeeds}
use felica_rs.Response.Parse.Contents.{
  purse_properties-properties_bytes, mac_properties-properties_bytes, parse_options-options_bytes,
  dual_versions-words_bytes, map_single-aes_versions,
}
use felica_rs.Response.Parse.Lists.Reads.{out_of_count_lem}
use felica_rs.Response.Parse.Settings.{
  node_properties_of, key_versions_of, parse_get_system_status, product_information_of,
  parse_specification_version_data,
}

pub product_information_of_reads : Succeeds IsData counted_bytes product_information_of
unfolding product_information_of ensure
product_information_of_reads r front h l =
    at_length 12 (λ front. product_information_of (front ++ counted_bytes r) ≡ ok r)
      (λ a0 a1 a2 a3 a4 a5 a6 a7 a8 a9 a10 a11.
        let bytes = a0 ∷ a1 ∷ a2 ∷ a3 ∷ a4 ∷ a5 ∷ a6 ∷ a7 ∷ a8 ∷ a9 ∷ a10 ∷ a11 ∷ length r ∷ r in
        rw (
          le→ltb_false (length bytes) 13 (omega arith),
          eq→== (length bytes) (13 + length r) (omega arith),
          slice_range-end 13 (13 + length r) bytes (omega arith) (omega arith),
        ))
      front l

pub parse_get_system_status_reads :
    (idm front : List ℕ) (status_flag1 status_flag2 : ℕ) (r : GetSystemStatusResult)
    → length front ≡ 10
    → parse_get_system_status idm
        (front ++ (status_flag1 ∷ status_flag2 ∷ r.flag ∷ counted_bytes r.status_data))
      ≡ ok (get_system_status idm status_flag1 status_flag2 r)
unfolding parse_get_system_status ensure
parse_get_system_status_reads idm front sf1 sf2 r l =
    at_length 10
      (λ front.
        parse_get_system_status idm (front ++ (sf1 ∷ sf2 ∷ r.flag ∷ counted_bytes r.status_data))
        ≡ ok (get_system_status idm sf1 sf2 r))
      (λ a0 a1 a2 a3 a4 a5 a6 a7 a8 a9.
        let bytes =
          a0
          ∷ a1
          ∷ a2
          ∷ a3
          ∷ a4
          ∷ a5
          ∷ a6
          ∷ a7
          ∷ a8
          ∷ a9
          ∷ sf1
          ∷ sf2
          ∷ r.flag
          ∷ counted_bytes r.status_data in
        let n = length r.status_data in
        rw (
          le→ltb_false (length bytes) 14 (omega arith),
          eq→== (length bytes) (14 + n) (omega arith),
          slice_range-end 14 (14 + n) bytes (omega arith) (omega arith),
        ))
      front l

-- The properties of purses take ten bytes each, the others one: the length tells them apart.
pub node_properties_of_reads :
    Succeeds
      (λ (r : GetNodePropertyResult). IsProperties r.node_properties)
      properties_field
      node_properties_of
unfolding node_properties_of ensure
node_properties_of_reads r front (some_nodes, few, inl purses) l =
    let ps = r.node_properties in
    at_length 12 (λ front. node_properties_of (front ++ properties_field r) ≡ ok r)
      (λ a0 a1 a2 a3 a4 a5 a6 a7 a8 a9 a10 a11.
        let payload = properties_bytes ps in
        let front13 =
          a0 ∷ a1 ∷ a2 ∷ a3 ∷ a4 ∷ a5 ∷ a6 ∷ a7 ∷ a8 ∷ a9 ∷ a10 ∷ a11 ∷ length ps ∷ [] in
        rw (
          le→ltb_false (length (front13 ++ payload)) 13 (omega arith),
          out_of_count_lem 16 (length ps) some_nodes few,
          slice_from-append 13 front13 payload refl,
          eq→== (length payload) (length ps * 10) (length-purse_properties ps purses),
          purse_properties-properties_bytes ps purses,
        ))
      front l
node_properties_of_reads r front (some_nodes, few, inr macs) l =
    let ps = r.node_properties in
    at_length 12 (λ front. node_properties_of (front ++ properties_field r) ≡ ok r)
      (λ a0 a1 a2 a3 a4 a5 a6 a7 a8 a9 a10 a11.
        let payload = properties_bytes ps in
        let front13 =
          a0 ∷ a1 ∷ a2 ∷ a3 ∷ a4 ∷ a5 ∷ a6 ∷ a7 ∷ a8 ∷ a9 ∷ a10 ∷ a11 ∷ length ps ∷ [] in
        rw (
          le→ltb_false (length (front13 ++ payload)) 13 (omega arith),
          out_of_count_lem 16 (length ps) some_nodes few,
          slice_from-append 13 front13 payload refl,
          ne→==_false (length payload) (length ps * 10)
              (λ e. absurd (omega (arith, length-mac_properties ps macs, some_nodes, e))),
          eq→== (length payload) (length ps) (length-mac_properties ps macs),
          mac_properties-properties_bytes ps macs,
        ))
      front l

pub key_versions_of_reads : Succeeds IsKeyVersions versions_field key_versions_of
unfolding key_versions_of ensure words_bytes
key_versions_of_reads r front (some_keys, few, inl (id, singles)) l =
    let vs = r.key_versions in
    let n = length vs in
    at_length 12 (λ front. key_versions_of (front ++ versions_field r) ≡ ok r)
      (λ a0 a1 a2 a3 a4 a5 a6 a7 a8 a9 a10 a11.
        let payload = words_bytes (aes_versions vs) ++ words_bytes (des_versions vs) in
        let front14 =
          a0 ∷ a1 ∷ a2 ∷ a3 ∷ a4 ∷ a5 ∷ a6 ∷ a7 ∷ a8 ∷ a9 ∷ a10 ∷ a11 ∷ r.crypto_id ∷ n ∷ [] in
        let run = words_bytes (aes_versions vs) in
        let run_length : length run ≡ n * 2 =
          omega (arith, length-words_bytes (aes_versions vs), length-aes_versions vs) in
        let whole : length (front14 ++ payload) ≡ 14 + n * 2 =
          rw (des_versions-single vs singles, append-nil) (omega (arith, run_length)) in
        let chunk : slice_to {E = DriverError} (n * 2) payload ≡ ok run =
          slice_to-append (n * 2) run (words_bytes (des_versions vs)) run_length in
        rw (
          le→ltb_false (length (front14 ++ payload)) 14 (omega arith),
          id,
          out_of_count_lem 32 n some_keys few,
          slice_from-append 14 front14 payload refl,
          eq→== (length (front14 ++ payload)) (14 + n * 2) whole,
          chunk,
          words_le_reads (aes_versions vs),
          map_single-aes_versions vs singles,
        ))
      front l
key_versions_of_reads r front (some_keys, few, inr (inl id, duals)) l =
    let vs = r.key_versions in
    let n = length vs in
    at_length 12 (λ front. key_versions_of (front ++ versions_field r) ≡ ok r)
      (λ a0 a1 a2 a3 a4 a5 a6 a7 a8 a9 a10 a11.
        let payload = words_bytes (aes_versions vs) ++ words_bytes (des_versions vs) in
        let front14 =
          a0 ∷ a1 ∷ a2 ∷ a3 ∷ a4 ∷ a5 ∷ a6 ∷ a7 ∷ a8 ∷ a9 ∷ a10 ∷ a11 ∷ r.crypto_id ∷ n ∷ [] in
        let whole : length (front14 ++ payload) ≡ 14 + n * 4 = omega (
          arith,
          length-append (words_bytes (aes_versions vs)) (words_bytes (des_versions vs)),
          length-words_bytes (aes_versions vs),
          length-aes_versions vs,
          length-words_bytes (des_versions vs),
          length-des_versions vs duals,
        ) in
        rw (
          le→ltb_false (length (front14 ++ payload)) 14 (omega arith),
          id,
          out_of_count_lem 32 n some_keys few,
          slice_from-append 14 front14 payload refl,
          eq→== (length (front14 ++ payload)) (14 + n * 4) whole,
          dual_versions-words_bytes vs duals,
        ))
      front l
key_versions_of_reads r front (some_keys, few, inr (inr id, duals)) l =
    let vs = r.key_versions in
    let n = length vs in
    at_length 12 (λ front. key_versions_of (front ++ versions_field r) ≡ ok r)
      (λ a0 a1 a2 a3 a4 a5 a6 a7 a8 a9 a10 a11.
        let payload = words_bytes (aes_versions vs) ++ words_bytes (des_versions vs) in
        let front14 =
          a0 ∷ a1 ∷ a2 ∷ a3 ∷ a4 ∷ a5 ∷ a6 ∷ a7 ∷ a8 ∷ a9 ∷ a10 ∷ a11 ∷ r.crypto_id ∷ n ∷ [] in
        let whole : length (front14 ++ payload) ≡ 14 + n * 4 = omega (
          arith,
          length-append (words_bytes (aes_versions vs)) (words_bytes (des_versions vs)),
          length-words_bytes (aes_versions vs),
          length-aes_versions vs,
          length-words_bytes (des_versions vs),
          length-des_versions vs duals,
        ) in
        rw (
          le→ltb_false (length (front14 ++ payload)) 14 (omega arith),
          id,
          out_of_count_lem 32 n some_keys few,
          slice_from-append 14 front14 payload refl,
          eq→== (length (front14 ++ payload)) (14 + n * 4) whole,
          dual_versions-words_bytes vs duals,
        ))
      front l

pub parse_specification_version_data_reads :
    Succeeds IsSpecification specification_field
      (λ bytes. slice_from 12 bytes >>= parse_specification_version_data)
unfolding parse_specification_version_data ensure ok_or
parse_specification_version_data_reads r front h l =
    let vs = r.option_versions in
    let v = r.basic_version in
    let behind = 0 ∷ (16 * v.minor + v.patch) ∷ (128 + v.major) ∷ length vs ∷ options_bytes vs in
    rw (
      slice_from-append 12 front (specification_field r) l,
      version_bytes_lem v h.1,
      h.0,
      le→ltb_false (length behind) 4 (omega arith),
      version_of-digits v h.1,
      eq→== (length behind) (4 + length vs * 2) (omega (arith, length-options_bytes vs)),
      slice_range-end 4 (4 + length vs * 2) behind (omega arith)
          (omega (arith, length-options_bytes vs)),
      parse_options-options_bytes vs h.2.2,
    )
