-- ===== src/Tests/Cards.antt =====
-- The structure of an emulated card.
use felica_rs.Prelude.{ℕ, ◌≡◌, ◌≢◌, ◌↔◌, refl, sym, ◌∙◌, none, List, [], ◌∷◌, ◌++◌, map, All}
use felica_rs.Prelude.Outcome.{ok, err, ensure}
use felica_rs.Felica.Types.Service.{ServiceCode, random, cyclic, kind, number, attribute}
use felica_rs.Felica.Emulator.Structure.{
  EmulatedArea, EmulatedService, area, no_more, service_then, node, area_with_key_version,
  validate_node_code, add_service, push,
}
use felica_rs.Felica.Emulator.Structure.Lookups.{find_service, find_area, append_directory_entries}
use felica_rs.Felica.Emulator.Blocks.{Block}
use felica_rs.Felica.Emulator.Structure.{zero_block}
use felica_rs.Felica.Emulator.Overlap.{block_count_for_node}
use felica_rs.Felica.Emulator.Structure.Counts.{counted, block_count_for_node-counted}
use felica_rs.Felica.Emulator.Structure.Valid.{IsHierarchy}
use felica_rs.Felica.Emulator.Structure.Built.{
  Built, built_new, built_service, directory-IsWithin, IsWithin,
}
use felica_rs.Felica.Emulator.Structure.Directory.{
  services, code_of, areas, directory-lookups, listed_services, listed_areas, first, has_code,
  has_area_code, range_of,
}
use felica_rs.Felica.Emulator.Structure.{overlap_kind_mismatch}
use felica_rs.Felica.Emulator.Overlap.{
  OverlapGroup, directory, sync_overlapping_services, system_add_service, system_add_area, get,
}
use felica_rs.Felica.Emulator.Overlap.Agreement.{IsStored, sync_overlapping_services-IsStored}
use felica_rs.Felica.Emulator.Overlap.Consistency.{
  IsConsistent, sync_overlapping_services-IsConsistent,
}
use felica_rs.Felica.Emulator.Overlap.System.{system_add_service-stuck}

abbrev zero_key : List ℕ
zero_key = 0 ∷ 0 ∷ 0 ∷ 0 ∷ 0 ∷ 0 ∷ 0 ∷ 0 ∷ []

abbrev service_at : ℕ → ℕ → EmulatedService
service_at code address = record {
  service_code = record { raw = code };
  key_version = 0;
  key = zero_key;
  limit_purse = none;
  blocks = address;
}

-- A random service, a read-only view of it, and a cyclic service of the same number.
abbrev plain : EmulatedService
plain = service_at 0x1008 0

abbrev view : EmulatedService
view = service_at 0x100b 1

abbrev log : EmulatedService
log = service_at 0x100c 2

-- One block for the first address, two for the second.
abbrev two_stores : List (List Block)
two_stores = (zero_block ∷ []) ∷ (zero_block ∷ zero_block ∷ []) ∷ []

abbrev empty_root : EmulatedArea
empty_root =
    area (record { area_code = 0; key_version = 0; key = zero_key; end_service_code = 0xfffe })
      no_more

abbrev root_with_one : EmulatedArea
root_with_one = area (node empty_root) (service_then plain no_more)

abbrev root_with_two : EmulatedArea
root_with_two = area (node empty_root) (service_then plain (service_then view no_more))

abbrev root_with_log : EmulatedArea
root_with_log = area (node empty_root) (service_then plain (service_then log no_more))

empty_root_made : area_with_key_version 0 0xfffe 0 ≡ ok empty_root
unfolding area_with_key_version validate_node_code ensure
empty_root_made = refl

plain_added : add_service empty_root plain ≡ ok root_with_one
unfolding add_service validate_node_code attribute ensure push
plain_added = refl

view_added : add_service root_with_one view ≡ ok root_with_two
unfolding add_service validate_node_code attribute ensure push
view_added = refl

log_added : add_service root_with_one log ≡ ok root_with_log
unfolding add_service validate_node_code attribute ensure push
log_added = refl

root_with_two-Built : Built root_with_two
root_with_two-Built =
    built_service view (built_service plain (built_new 0 0xfffe 0 empty_root_made) plain_added)
      view_added

two_views : (sync_overlapping_services root_with_two []).result ≡ ok tt
unfolding sync_overlapping_services get kind number
two_views = refl

log_refused :
    (system_add_service root_with_one log).result
    ≡ err (overlap_kind_mismatch 0x100c 0x40 random cyclic)
unfolding system_add_service add_service validate_node_code attribute ensure push
    sync_overlapping_services get kind number
log_refused = refl

kinds_differ : (system_add_service root_with_one log).result ≢ ok tt
kinds_differ h =
    let e : err (overlap_kind_mismatch 0x100c 0x40 random cyclic) ≡ ok tt = sym log_refused ∙ h in
    cc

directory-IsWithin_example :
    IsHierarchy root_with_two × All (IsWithin 0 0xfffe) (directory root_with_two)
directory-IsWithin_example = directory-IsWithin root_with_two root_with_two-Built

sync_overlapping_services-IsStored_example :
    ((of : ℕ → OverlapGroup) × All
        (IsStored of)
        (services (sync_overlapping_services root_with_two []).value))
    × (map code_of (services (sync_overlapping_services root_with_two []).value)
        ≡ map code_of (services root_with_two))
sync_overlapping_services-IsStored_example =
    sync_overlapping_services-IsStored root_with_two two_views

sync_overlapping_services-IsConsistent_example :
    ((sync_overlapping_services root_with_two []).result ≡ ok tt) ↔ IsConsistent root_with_two
sync_overlapping_services-IsConsistent_example =
    sync_overlapping_services-IsConsistent root_with_two

system_add_service-stuck_example :
    (map code_of (services (system_add_service root_with_one log).root_area)
      ≡ map code_of (services root_with_one) ++ (log.service_code ∷ []))
    × ((t : EmulatedService)
        → (system_add_service (system_add_service root_with_one log).root_area t).result ≢ ok tt)
    × ((child : EmulatedArea)
        → (system_add_area (system_add_service root_with_one log).root_area child).result ≢ ok tt)
system_add_service-stuck_example =
    system_add_service-stuck root_with_one root_with_log log log_added kinds_differ

directory-lookups_example :
    ((code : ServiceCode)
      → find_service root_with_two code ≡ first (has_code code) (services root_with_two))
    × ((code : ℕ) → find_area root_with_two code ≡ first (has_area_code code) (areas root_with_two))
    × (listed_services (append_directory_entries root_with_two [])
        ≡ map code_of (services root_with_two))
    × (listed_areas (append_directory_entries root_with_two [])
        ≡ map range_of (areas root_with_two))
directory-lookups_example = directory-lookups root_with_two

block_count_for_node-counted_example :
    block_count_for_node two_stores root_with_two 0
    ≡ counted two_stores
        (first (has_code (record { raw = 0 })) (services root_with_two))
        (first (has_area_code 0) (areas root_with_two))
block_count_for_node-counted_example = block_count_for_node-counted two_stores root_with_two 0
