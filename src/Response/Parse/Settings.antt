-- ===== src/Response/Parse/Settings.antt =====
-- src/felica_standard/response/parse.rs: the responses on nodes, keys, systems and versions.
pub mod Reads
pub mod Sound
use felica_rs.Prelude.{if◌then◌else◌, ℕ, ◌+◌, ◌*◌, not, ◌||◌, ◌==◌, List, [], ◌∷◌, map, length}
use felica_rs.Prelude.Slices.{index, slice_from, slice_range, slice_to}
use felica_rs.Prelude.Outcome.{ok, ◌>>=◌, ◌>>◌, ensure, ok_or}
use felica_rs.Felica.Constants.{max_service_codes, max_node_property_codes}
use felica_rs.Felica.Error.{other}
use felica_rs.Felica.Emulator.Blocks.{as_i32, u32_of}
use felica_rs.Felica.Types.Results.{
  NodeProperty, value_limited_purse_service, mac_communication, GetNodePropertyResult,
}
use felica_rs.Felica.Types.Versions.{
  OptionVersion, version_of, SpecificationVersion, RequestServiceV2KeyVersion, single, dual,
  RequestServiceV2Result,
}
use felica_rs.Command.Parse.Fields.{words_le}
use felica_rs.Response.Write.{is_crypto_id}
use felica_rs.Response.{
  FelicaStandardResponse, get_node_property, request_service_v2, get_system_status,
  request_product_information, request_specification_version,
}
use felica_rs.Response.Parse.Fields.{
  Read, fail, payload_offset, ensure_response_len, ensure_exact_response_len, word_at, out_of_count,
  parse_outcome,
}

-- `payload.as_chunks::<10>()`, each read as the limits of a purse.
unfoldable pub purse_properties : List ℕ → List NodeProperty
purse_properties (e ∷ u0 ∷ u1 ∷ u2 ∷ u3 ∷ l0 ∷ l1 ∷ l2 ∷ l3 ∷ g ∷ bs) =
    value_limited_purse_service (e == 0x01) (as_i32 (u32_of (u0 ∷ u1 ∷ u2 ∷ u3 ∷ [])))
      (as_i32 (u32_of (l0 ∷ l1 ∷ l2 ∷ l3 ∷ []))) g
    ∷ purse_properties bs
purse_properties _ = []

unfoldable pub mac_properties : List ℕ → List NodeProperty
mac_properties = map (λ value. mac_communication (value == 0x01))

unfoldable pub node_properties_of : List ℕ → Read GetNodePropertyResult
node_properties_of bytes = do
  ensure_response_len bytes 13 "short get node property success response"
  node_count ← index bytes 12
  ensure (not (out_of_count max_node_property_codes node_count))
      (other "get node property node count must be between 1 and 16")
  payload ← slice_from 13 bytes
  if length payload == node_count * 10
      then ok (record { node_properties = purse_properties payload })
      else if length payload == node_count
      then ok (record { node_properties = mac_properties payload })
      else fail "get node property payload length does not match known node property format"

unfoldable pub parse_get_node_property : List ℕ → List ℕ → Read FelicaStandardResponse
parse_get_node_property idm =
    parse_outcome (get_node_property idm) "short get node property response"
      "get node property error response must contain only status flags" node_properties_of

-- The loop over the nodes of a card with two keys for each: `i` nodes are read, `left` remain.
unfoldable pub dual_versions :
    List ℕ → (node_count i left : ℕ) → Read (List RequestServiceV2KeyVersion)
dual_versions payload node_count i ℕ.zero = ok []
dual_versions payload node_count i (ℕ.suc left) = do
  aes ← word_at payload (i * 2)
  des ← word_at payload (node_count * 2 + i * 2)
  versions ← dual_versions payload node_count (i + 1) left
  ok (dual aes des ∷ versions)

unfoldable pub key_versions_of : List ℕ → Read RequestServiceV2Result
key_versions_of bytes = do
  ensure_response_len bytes 14 "short request service v2 crypto identifier response"
  crypto_id ← index bytes 12
  ensure (is_crypto_id crypto_id)
      (other "request service v2 crypto identifier must be 0x4F, 0x41 or 0x43")
  node_count ← index bytes 13
  ensure (not (out_of_count max_service_codes node_count))
      (other "request service v2 node count must be between 1 and 32")
  payload ← slice_from 14 bytes
  if (crypto_id == 0x41) || (crypto_id == 0x43)
      then (do
        ensure_exact_response_len bytes (14 + node_count * 4)
            "request service v2 response length does not match dual key version count"
        versions ← dual_versions payload node_count 0 node_count
        ok (record { crypto_id = crypto_id; key_versions = versions }))
      else (do
        ensure_exact_response_len bytes (14 + node_count * 2)
            "request service v2 response length does not match key version count"
        chunk ← slice_to (node_count * 2) payload
        ok (record { crypto_id = crypto_id; key_versions = map single (words_le chunk) }))

unfoldable pub parse_request_service_v2 : List ℕ → List ℕ → Read FelicaStandardResponse
parse_request_service_v2 idm =
    parse_outcome (request_service_v2 idm) "short request service v2 response header"
      "request service v2 error response must contain only status flags" key_versions_of

unfoldable pub parse_get_system_status : List ℕ → List ℕ → Read FelicaStandardResponse
parse_get_system_status idm bytes = do
  ensure_response_len bytes 14 "short get system status response"
  status_flag1 ← index bytes payload_offset
  status_flag2 ← index bytes (payload_offset + 1)
  flag ← index bytes 12
  data_len ← index bytes 13
  ensure_exact_response_len bytes (14 + data_len)
      "get system status response length does not match data length"
  status_data ← slice_range 14 (14 + data_len) bytes
  ok (
      get_system_status idm status_flag1 status_flag2
        (record { flag = flag; status_data = status_data }))

unfoldable pub product_information_of : List ℕ → Read (List ℕ)
product_information_of bytes = do
  ensure_response_len bytes 13 "short request product information success response"
  data_len ← index bytes 12
  ensure_exact_response_len bytes (13 + data_len)
      "request product information response length does not match data length"
  slice_range 13 (13 + data_len) bytes

unfoldable pub parse_request_product_information : List ℕ → List ℕ → Read FelicaStandardResponse
parse_request_product_information idm =
    parse_outcome (request_product_information idm) "short request product information response"
      "request product information error response must contain only status flags"
      product_information_of

-- The loop over the pairs of option bytes.
unfoldable pub parse_options : List ℕ → Read (List OptionVersion)
parse_options (low ∷ high ∷ bs) = do
  version ←
      ok_or (version_of low high)
        (other "request specification version option is not valid packed BCD")
  versions ← parse_options bs
  ok (version ∷ versions)
parse_options _ = ok []

unfoldable pub parse_specification_version_data : List ℕ → Read SpecificationVersion
parse_specification_version_data bytes = do
  ensure_response_len bytes 4 "request specification version payload too short"
  format_version ← index bytes 0
  ensure (format_version == 0x00)
      (other "request specification version format version must be 0x00")
  low ← index bytes 1
  high ← index bytes 2
  basic_version ←
      ok_or (version_of low high)
        (other "request specification version basic version is not valid packed BCD")
  option_count ← index bytes 3
  ensure_exact_response_len bytes (4 + option_count * 2)
      "request specification version payload length does not match option count"
  option_bytes ← slice_range 4 (4 + option_count * 2) bytes
  option_versions ← parse_options option_bytes
  ok (record {
    format_version = format_version;
    basic_version = basic_version;
    option_versions = option_versions;
  })

unfoldable pub parse_request_specification_version : List ℕ → List ℕ → Read FelicaStandardResponse
parse_request_specification_version idm =
    parse_outcome (request_specification_version idm) "short request specification version response"
      "request specification version error response must contain only status flags"
      (λ bytes. slice_from 12 bytes >>= parse_specification_version_data)
