-- ===== src/Felica/Emulator/Structure/Built.antt =====
-- src/felica_standard/emulator/structure.rs: every area that the builders return.
use felica_rs.Prelude.{ℕ, ◌≤◌, ◌≡◌, some, List, [], All, All-append, arith}
use felica_rs.Prelude.Outcome.{ok}
use felica_rs.Prelude.Outcome.Ensures.{after_check}
use felica_rs.Felica.Types.Service.{ServiceAttribute, attribute}
use felica_rs.Felica.Emulator.Structure.{
  EmulatedArea, AreaChildren, AreaNode, area, no_more, area_then, service_then, EmulatedService,
  DirectoryEntry, service_entry, area_entry, node, area_with_key_version, set_area_key,
  allows_child_areas, add_service, add_area, validate_area_range, validate_child_service,
  validate_child_area,
}
use felica_rs.Felica.Emulator.Structure.Lookups.{append_directory_entries, append_children}
use felica_rs.Felica.Emulator.Structure.Valid.{
  IsHierarchy, AreChildren, push-AreChildren, validate_area_range-IsRange,
  validate_child_service-IsService, validate_child_area-IsNested,
}
use felica_rs.Felica.Emulator.Overlap.{sync_overlapping_services, Registry, directory}
use felica_rs.Felica.Emulator.Overlap.Kept.{sync-IsHierarchy}

-- The areas that a run of the builders reaches; `new_area` is the first with version 0.
pub data Built : EmulatedArea → Type 0 where
  built_new :
      (area_code end_service_code version : ℕ) {a : EmulatedArea}
      → area_with_key_version area_code end_service_code version ≡ ok a
      → Built a
  built_key : {a : EmulatedArea} → Built a → (key : List ℕ) → Built (set_area_key a key)
  built_service :
      {a b : EmulatedArea} (s : EmulatedService) → Built a → add_service a s ≡ ok b → Built b
  built_area :
      {a b : EmulatedArea} (child : EmulatedArea)
      → Built a
      → Built child
      → add_area a child ≡ ok b
      → Built b
  built_synced :
      {a : EmulatedArea} → Built a → (r : Registry) → Built (sync_overlapping_services a r).value

area_with_key_version-IsHierarchy :
    (area_code end_service_code version : ℕ) (a : EmulatedArea)
    → area_with_key_version area_code end_service_code version ≡ ok a
    → IsHierarchy a
unfolding area_with_key_version
area_with_key_version-IsHierarchy c e v a h =
    after_check IsHierarchy (validate_area_range c e) h
      λ checked. (validate_area_range-IsRange c e checked, tt)

set_area_key-IsHierarchy :
    (a : EmulatedArea) (key : List ℕ) → IsHierarchy a → IsHierarchy (set_area_key a key)
unfolding set_area_key allows_child_areas
set_area_key-IsHierarchy (area n children) key h = (h.0, rekeyed children n key h.1)
  where
    rekeyed :
        (children : AreaChildren) (n : AreaNode) (k : List ℕ)
        → AreChildren children n
        → AreChildren children (record n { key = k })
    rekeyed no_more n k h = tt
    rekeyed (area_then a children) n k h = (h.0, h.1, rekeyed children n k h.2)
    rekeyed (service_then s children) n k h = (h.0, rekeyed children n k h.1)

add_service-IsHierarchy :
    (a : EmulatedArea) (s : EmulatedService) (b : EmulatedArea)
    → IsHierarchy a
    → add_service a s ≡ ok b
    → IsHierarchy b
unfolding add_service
add_service-IsHierarchy (area n children) s b h e =
    after_check IsHierarchy (validate_child_service n s) e λ checked. (
      h.0,
      push-AreChildren children (service_then s no_more) n h.1
          (validate_child_service-IsService n s checked, tt),
    )

add_area-IsHierarchy :
    (a child b : EmulatedArea)
    → IsHierarchy a
    → IsHierarchy child
    → add_area a child ≡ ok b
    → IsHierarchy b
unfolding add_area
add_area-IsHierarchy (area n children) child b h k e =
    after_check IsHierarchy (validate_child_area n (node child)) e λ checked. (
      h.0,
      push-AreChildren children (area_then child no_more) n h.1
          (validate_child_area-IsNested n (node child) checked, k, tt),
    )

Built-IsHierarchy : {a : EmulatedArea} → Built a → IsHierarchy a
Built-IsHierarchy (built_new c e v made) = area_with_key_version-IsHierarchy c e v _ made
Built-IsHierarchy (built_key {a} b key) = set_area_key-IsHierarchy a key (Built-IsHierarchy b)
Built-IsHierarchy (built_service {a} {b} s k e) =
    add_service-IsHierarchy a s b (Built-IsHierarchy k) e
Built-IsHierarchy (built_area {a} {b} child k l e) =
    add_area-IsHierarchy a child b (Built-IsHierarchy k) (Built-IsHierarchy l) e
Built-IsHierarchy (built_synced {a} b r) = sync-IsHierarchy a r (Built-IsHierarchy b)

-- An entry lies in a range; a service has a defined attribute, an area is a range itself.
abbrev pub IsWithin : ℕ → ℕ → DirectoryEntry → Type 0
IsWithin first last (service_entry code) =
    (first ≤ code.raw) × (code.raw ≤ last) × ((a : ServiceAttribute) × (attribute code ≡ some a))
IsWithin first last (area_entry area_code end_service_code) =
    (first ≤ area_code) × (area_code ≤ end_service_code) × (end_service_code ≤ last)

mutual
  unfolding append_directory_entries

  append_directory_entries-IsWithin :
      (a : EmulatedArea) (first last : ℕ) (entries : List DirectoryEntry)
      → IsHierarchy a
      → first ≤ (node a).area_code
      → (node a).end_service_code ≤ last
      → All (IsWithin first last) entries
      → All (IsWithin first last) (append_directory_entries a entries)
  append_directory_entries-IsWithin (area n children) first last entries h lo hi k =
      append_children-IsWithin children n first last _ h.1 lo hi
        (All-append _ _ _ k ((lo, h.0.ordered, hi), tt))

  append_children-IsWithin :
      (children : AreaChildren) (n : AreaNode) (first last : ℕ) (entries : List DirectoryEntry)
      → AreChildren children n
      → first ≤ n.area_code
      → n.end_service_code ≤ last
      → All (IsWithin first last) entries
      → All (IsWithin first last) (append_children children entries)
  append_children-IsWithin no_more n first last entries h lo hi k = k
  append_children-IsWithin (area_then a children) n first last entries h lo hi k =
      let nested = h.0 in
      append_children-IsWithin children n first last _ h.2 lo hi (
        append_directory_entries-IsWithin a first last entries h.1 (omega (arith, nested.1, lo))
          (omega (arith, nested.2, hi)) k)
  append_children-IsWithin (service_then s children) n first last entries h lo hi k =
      let here = h.0 in
      append_children-IsWithin children n first last _ h.1 lo hi
        (All-append _ _ _ k ((omega (arith, here.0, lo), omega (arith, here.1, hi), here.2), tt))

-- Every area that the builders return, synchronized or not, is a valid hierarchy: it and each area
-- below it has a usable range and a defined area attribute, each child area stands under an area
-- that allows child areas and in its range, and each service has a defined attribute and a code in
-- the range of the area it stands in. The directory of it lists nothing outside its range.
pub directory-IsWithin :
    (a : EmulatedArea)
    → Built a
    → IsHierarchy a × All (IsWithin (node a).area_code (node a).end_service_code) (directory a)
unfolding directory
directory-IsWithin a b =
    let h = Built-IsHierarchy b in
    (h, append_directory_entries-IsWithin a _ _ [] h (omega arith) (omega arith) tt)
