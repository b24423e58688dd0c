-- ===== src/Response/Write/Layout.antt =====
-- What the parts of a response append, as plain lists of bytes.
use felica_rs.Prelude.{
  ℕ, suc, ◌%◌, ◌/◌, ◌⊎◌, ◌≤◌, ◌≡◌, ◌∙◌, refl, ap, true, false, inl, inr, Option, none, some, List,
  [], ◌∷◌, ◌++◌, String, append_assoc, length, All, arith, le→leb, ne→==_false, ==_refl, map,
}
use felica_rs.Prelude.Outcome.{ok, ensure, ok_or}
use felica_rs.Felica.Constants.{max_block_count}
use felica_rs.Felica.Types.Service.{ServiceCode}
use felica_rs.Felica.Types.Selectors.{NodePropertyType}
use felica_rs.Felica.Types.Selectors
use felica_rs.Felica.Types.Results.{
  SearchServiceCodeResult, service, area, AreaCodeRange, NodeProperty, value_limited_purse_service,
  mac_communication, property_type, same_type, property_bytes,
}
use felica_rs.Felica.Types.Versions.{
  OptionVersion, is_valid_bcd, specification_bytes, RequestServiceV2KeyVersion, single, dual,
  primary_raw, secondary_raw,
}
use felica_rs.Felica.Payload.{
  PayloadWriter, push_u8, push_flag, extend_bytes, extend_u16_le, extend_u16_be, extend_u16_list_be,
  extend_counted_u16_be, for_success, ensure_omitted_on_error, ensure_count_in_range,
  ensure_fits_in_count,
}
use felica_rs.Felica.Payload.Layout.{
  words_bytes, codes_of, extend_twice, extend_nothing, push_count_lem, extend_u16_list_le_lem,
}
use felica_rs.Felica.Types.Versions.RoundTrip.{IsVersion}
use felica_rs.Command.Wire.{word}
use felica_rs.Response.Valid.{
  Paired, IsBlocks, IsCodeList, IsInformationEx, IsAreaInformation, IsProperties, IsPurseProperty,
  IsMacProperty, IsKeyVersions, IsSingle, IsDual, IsSpecification, IsData,
}
use felica_rs.Response.Wire.{
  concat_bytes, words_be_bytes, areas_bytes, pairs_bytes, properties_bytes, aes_versions,
  des_versions, blocks_field, code_list_field, information_ex_field, area_field, properties_field,
  versions_field, counted_bytes, specification_field, search_field, on_result,
}
use felica_rs.Response.Write.{
  Written, on_success, write_blocks, extend_blocks, extend_areas, write_code_list, extend_pairs,
  write_block_information_ex, write_area_information, any_other_type, extend_properties,
  write_node_properties, write_single_versions, write_primary_versions,
  write_service_v2_key_versions, write_counted_bytes, any_invalid, write_specification,
  write_search_result,
}

-- A part that appends `field` to what it is given.
abbrev pub Appends :
    {R : Type 0}
    → (R → Type 0)
    → (R → List ℕ)
    → (R → PayloadWriter → Written PayloadWriter)
    → Type 0
Appends P field write_result =
    (r : _) (w : PayloadWriter) → P r → write_result r w ≡ ok (extend_bytes (field r) w)

pub on_success_lem :
    {R : Type 0} {P : R → Type 0} {field : R → List ℕ}
    {write_result : R → PayloadWriter → Written PayloadWriter} (what noun : String)
    (status_flag1 : ℕ) (result : Option R) (w : PayloadWriter)
    → Paired P status_flag1 result
    → Appends P field write_result
    → on_success what noun status_flag1 result write_result w
      ≡ ok (extend_bytes (on_result field result) w)
unfolding on_success for_success ensure_omitted_on_error ensure ok_or
on_success_lem what noun status_flag1 none w h k =
    rw (ne→==_false status_flag1 0 (λ e. absurd (omega arith))) (ap ok (extend_nothing w))
on_success_lem what noun status_flag1 (some r) w h k = rw (h.0) (k r w h.1)

pub count_in_range :
    (what : String) (n max : ℕ) → 1 ≤ n → n ≤ max → ensure_count_in_range what n max ≡ ok tt
unfolding ensure_count_in_range ensure
count_in_range what n max p q = ground arith

fits_in_count : (what : String) (n : ℕ) → n ≤ 255 → ensure_fits_in_count what n ≡ ok tt
unfolding ensure_fits_in_count ensure
fits_in_count what n p = rw (le→leb n 255 p)

extend_blocks_lem :
    (bs : List (List ℕ)) (w : PayloadWriter) → extend_blocks bs w ≡ extend_bytes (concat_bytes bs) w
unfolding extend_blocks concat_bytes
extend_blocks_lem [] w = extend_nothing w
extend_blocks_lem (b ∷ bs) w =
    extend_blocks_lem bs (extend_bytes b w) ∙ extend_twice b (concat_bytes bs) w

pub write_blocks_lem : (what : String) → Appends IsBlocks blocks_field (write_blocks what)
unfolding write_blocks
write_blocks_lem what bs w h =
    rw
      (
        count_in_range what (length bs) max_block_count h.0 h.1,
        push_count_lem (length bs) w (omega (arith, h.1)),
        extend_blocks_lem bs,
      )
      (ap ok (extend_twice (length bs ∷ []) (concat_bytes bs) w))

extend_areas_lem :
    (rest : List AreaCodeRange) (w : PayloadWriter)
    → extend_areas rest w ≡ extend_bytes (areas_bytes rest) w
unfolding extend_areas areas_bytes extend_u16_le
extend_areas_lem [] w = extend_nothing w
extend_areas_lem (a ∷ rest) w = rw (extend_areas_lem rest) (simp append_assoc)

length-codes : (cs : List ServiceCode) → length (map (λ c. c.raw) cs) ≡ length cs
length-codes [] = refl
length-codes (c ∷ cs) = ap suc (length-codes cs)

pub write_code_list_lem : Appends IsCodeList code_list_field write_code_list
unfolding write_code_list push_flag
write_code_list_lem r w (areas_ok, services_ok) =
    rw
      (
        fits_in_count "request code list area count" (length r.areas) areas_ok.1,
        fits_in_count "request code list service count" (length r.services) services_ok.1,
        push_count_lem (length r.areas) _ (omega (arith, areas_ok.1)),
        extend_areas_lem r.areas,
        push_count_lem (length r.services) _ (omega (arith, services_ok.1)),
        extend_u16_list_le_lem (codes_of r.services),
      )
      (simp append_assoc)

extend_pairs_lem :
    (rest fs : List ℕ) (w : PayloadWriter)
    → extend_pairs rest fs w ≡ extend_bytes (pairs_bytes rest fs) w
unfolding extend_pairs pairs_bytes extend_u16_le
extend_pairs_lem [] fs w = extend_nothing w
extend_pairs_lem (a ∷ rest) [] w = extend_nothing w
extend_pairs_lem (a ∷ rest) (f ∷ fs) w = rw (extend_pairs_lem rest fs) (simp append_assoc)

pub write_block_information_ex_lem :
    Appends IsInformationEx information_ex_field write_block_information_ex
unfolding write_block_information_ex ensure
write_block_information_ex_lem r w h =
    let assigned = r.assigned_block_counts in
    rw
      (
        count_in_range "request block information ex count" (length assigned) 32 h.0.0 h.0.1,
        h.2,
        ==_refl (length assigned),
        push_count_lem (length assigned) w (omega (arith, h.0.1)),
        extend_pairs_lem assigned,
      )
      (ap ok (extend_twice (length assigned ∷ []) (pairs_bytes assigned r.free_block_counts) w))

pub write_area_information_lem : Appends IsAreaInformation area_field write_area_information
unfolding write_area_information extend_u16_le
write_area_information_lem r w h = ap ok (extend_twice (word r.node_code) r.area_data w)

extend_properties_lem :
    (ps : List NodeProperty) (w : PayloadWriter)
    → extend_properties ps w ≡ extend_bytes (properties_bytes ps) w
unfolding extend_properties properties_bytes
extend_properties_lem [] w = extend_nothing w
extend_properties_lem (p ∷ ps) w =
    extend_properties_lem ps (extend_bytes (property_bytes p) w)
    ∙ extend_twice (property_bytes p) (properties_bytes ps) w

any_other_purse :
    (ps : List NodeProperty)
    → All IsPurseProperty ps
    → any_other_type Selectors.value_limited_purse_service ps ≡ false
unfolding any_other_type property_type same_type
any_other_purse [] h = refl
any_other_purse (value_limited_purse_service e u l g ∷ ps) (p, h) = any_other_purse ps h
any_other_purse (mac_communication e ∷ ps) (p, h) = absurd p

any_other_mac :
    (ps : List NodeProperty)
    → All IsMacProperty ps
    → any_other_type Selectors.mac_communication ps ≡ false
unfolding any_other_type property_type same_type
any_other_mac [] h = refl
any_other_mac (mac_communication e ∷ ps) (p, h) = any_other_mac ps h
any_other_mac (value_limited_purse_service e u l g ∷ ps) (p, h) = absurd p

any_other_lem :
    (p : NodeProperty) (ps : List NodeProperty)
    → All IsPurseProperty (p ∷ ps) ⊎ All IsMacProperty (p ∷ ps)
    → any_other_type (property_type p) (p ∷ ps) ≡ false
unfolding property_type
any_other_lem (value_limited_purse_service e u l g) ps (inl h) = any_other_purse _ h
any_other_lem (value_limited_purse_service e u l g) ps (inr h) = absurd h.0
any_other_lem (mac_communication e) ps (inl h) = absurd h.0
any_other_lem (mac_communication e) ps (inr h) = any_other_mac _ h

write_properties :
    (ps : List NodeProperty) (w : PayloadWriter)
    → IsProperties ps
    → write_node_properties (record { node_properties = ps }) w
      ≡ ok (extend_bytes (length ps ∷ properties_bytes ps) w)
unfolding write_node_properties ensure
write_properties [] w h = absurd (omega (arith, h.0))
write_properties (p ∷ ps) w h =
    rw
      (
        count_in_range "get node property count" (length (p ∷ ps)) 16 h.0 h.1,
        any_other_lem p ps h.2,
        push_count_lem (length (p ∷ ps)) w (omega (arith, h.1)),
        extend_properties_lem (p ∷ ps),
      )
      (ap ok (extend_twice (length (p ∷ ps) ∷ []) (properties_bytes (p ∷ ps)) w))

pub write_node_properties_lem :
    Appends (λ r. IsProperties r.node_properties) properties_field write_node_properties
write_node_properties_lem r w h = write_properties r.node_properties w h

single_versions_lem :
    (vs : List RequestServiceV2KeyVersion) (w : PayloadWriter)
    → All IsSingle vs
    → write_single_versions vs w
      ≡ ok (extend_bytes (words_bytes (aes_versions vs) ++ words_bytes (des_versions vs)) w)
unfolding write_single_versions primary_raw secondary_raw aes_versions des_versions words_bytes
    extend_u16_le
single_versions_lem [] w h = ap ok (extend_nothing w)
single_versions_lem (single v ∷ vs) w (p, h) = rw (single_versions_lem vs _ h) (
    ap ok
      (extend_twice (word v) (words_bytes (aes_versions vs) ++ words_bytes (des_versions vs)) w))
single_versions_lem (dual a d ∷ vs) w (p, h) = absurd p

primary_versions_lem :
    (vs : List RequestServiceV2KeyVersion) (w : PayloadWriter)
    → All IsDual vs
    → write_primary_versions vs w
      ≡ ok (extend_bytes (words_bytes (aes_versions vs)) w, des_versions vs)
unfolding write_primary_versions primary_raw secondary_raw aes_versions des_versions words_bytes
    extend_u16_le ok_or
primary_versions_lem [] w h = ap (λ t. ok (t, [])) (extend_nothing w)
primary_versions_lem (dual a d ∷ vs) w (p, h) = rw (primary_versions_lem vs _ h) (
    ap (λ t. ok (t, d ∷ des_versions vs)) (extend_twice (word a) (words_bytes (aes_versions vs)) w))
primary_versions_lem (single v ∷ vs) w (p, h) = absurd p

pub write_service_v2_key_versions_lem :
    Appends IsKeyVersions versions_field write_service_v2_key_versions
unfolding write_service_v2_key_versions ensure push_u8
write_service_v2_key_versions_lem r w (some_keys, few, inl (id, h)) =
    rw
      (
        count_in_range "request service v2 key version count" (length r.key_versions) 32 some_keys
            few,
        id,
        push_count_lem (length r.key_versions) _ (omega (arith, few)),
        single_versions_lem r.key_versions _ h,
      )
      (simp append_assoc)
write_service_v2_key_versions_lem r w (some_keys, few, inr (inl id, h)) =
    rw
      (
        count_in_range "request service v2 key version count" (length r.key_versions) 32 some_keys
            few,
        id,
        push_count_lem (length r.key_versions) _ (omega (arith, few)),
        primary_versions_lem r.key_versions _ h,
        extend_u16_list_le_lem (des_versions r.key_versions),
      )
      (simp append_assoc)
write_service_v2_key_versions_lem r w (some_keys, few, inr (inr id, h)) =
    rw
      (
        count_in_range "request service v2 key version count" (length r.key_versions) 32 some_keys
            few,
        id,
        push_count_lem (length r.key_versions) _ (omega (arith, few)),
        primary_versions_lem r.key_versions _ h,
        extend_u16_list_le_lem (des_versions r.key_versions),
      )
      (simp append_assoc)

pub write_counted_bytes_lem :
    (what : String) → Appends IsData counted_bytes (write_counted_bytes what)
unfolding write_counted_bytes
write_counted_bytes_lem what bytes w h =
    rw (fits_in_count what (length bytes) h.1, push_count_lem (length bytes) w (omega (arith, h.1)))
      (ap ok (extend_twice (length bytes ∷ []) bytes w))

is_valid_bcd_lem : (v : OptionVersion) → IsVersion v → is_valid_bcd v ≡ true
unfolding is_valid_bcd
is_valid_bcd_lem v h = rw (le→leb v.major 9 h.0, le→leb v.minor 9 h.1, le→leb v.patch 9 h.2)

any_invalid_lem : (vs : List OptionVersion) → All IsVersion vs → any_invalid vs ≡ false
unfolding any_invalid
any_invalid_lem [] h = refl
any_invalid_lem (v ∷ vs) (p, h) = rw (is_valid_bcd_lem v p) (any_invalid_lem vs h)

count_byte : (n : ℕ) → n ≤ 255 → n % 256 ≡ n
count_byte n h = omega arith

pub write_specification_lem : Appends IsSpecification specification_field write_specification
unfolding write_specification specification_bytes ensure
write_specification_lem s w h = rw (
  h.0,
  is_valid_bcd_lem s.basic_version h.1,
  any_invalid_lem s.option_versions h.2.2,
  fits_in_count "request specification version option count" (length s.option_versions) h.2.1,
  count_byte (length s.option_versions) h.2.1,
)

pub write_search_result_lem :
    (result : Option SearchServiceCodeResult) (w : PayloadWriter)
    → write_search_result result w ≡ extend_bytes (search_field result) w
unfolding write_search_result extend_u16_le
write_search_result_lem none w = refl
write_search_result_lem (some (service c)) w = refl
write_search_result_lem (some (area a e)) w = extend_twice (word a) (word e) w

extend_u16_list_be_lem :
    (vs : List ℕ) (w : PayloadWriter) → extend_u16_list_be vs w ≡ extend_bytes (words_be_bytes vs) w
unfolding extend_u16_list_be words_be_bytes extend_u16_be
extend_u16_list_be_lem [] w = extend_nothing w
extend_u16_list_be_lem (v ∷ vs) w =
    extend_u16_list_be_lem vs (extend_u16_be v w)
    ∙ extend_twice ((v / 256) ∷ (v % 256) ∷ []) (words_be_bytes vs) w

pub extend_counted_u16_be_lem :
    (vs : List ℕ) (w : PayloadWriter)
    → length vs ≤ 255
    → extend_counted_u16_be vs w ≡ ok (extend_bytes (length vs ∷ words_be_bytes vs) w)
unfolding extend_counted_u16_be
extend_counted_u16_be_lem vs w h =
    rw (push_count_lem (length vs) w (omega arith), extend_u16_list_be_lem vs)
      (ap ok (extend_twice (length vs ∷ []) (words_be_bytes vs) w))
