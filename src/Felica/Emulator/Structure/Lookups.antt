-- ===== src/Felica/Emulator/Structure/Lookups.antt =====
-- src/felica_standard/emulator/structure.rs: the directory of a tree, its lookups and block counts.
use felica_rs.Prelude.{
  if◌then◌else◌, ℕ, ◌+◌, Option, none, some, List, [], ◌∷◌, ◌++◌, length, get_elem?, ◌==◌, min,
}
use felica_rs.Felica.Types.Service.{ServiceCode}
use felica_rs.Felica.Emulator.Blocks.{Block}
use felica_rs.Felica.Emulator.Structure.{
  EmulatedArea, AreaChildren, area, no_more, area_then, service_then, EmulatedService,
  DirectoryEntry, service_entry, area_entry,
}

unfoldable mutual
  pub append_directory_entries : EmulatedArea → List DirectoryEntry → List DirectoryEntry
  append_directory_entries (area n children) entries =
      append_children children (entries ++ (area_entry n.area_code n.end_service_code ∷ []))

  pub append_children : AreaChildren → List DirectoryEntry → List DirectoryEntry
  append_children no_more entries = entries
  append_children (area_then a children) entries =
      append_children children (append_directory_entries a entries)
  append_children (service_then s children) entries =
      append_children children (entries ++ (service_entry s.service_code ∷ []))

abbrev pub or_else {ℓ} : {A : Type ℓ} → Option A → Option A → Option A
or_else (some found) rest = some found
or_else none rest = rest

unfoldable mutual
  pub find_service : EmulatedArea → ServiceCode → Option EmulatedService
  find_service (area n children) code = find_service_below children code

  pub find_service_below : AreaChildren → ServiceCode → Option EmulatedService
  find_service_below no_more code = none
  find_service_below (area_then a children) code =
      or_else (find_service a code) (find_service_below children code)
  find_service_below (service_then s children) code =
      let rest = find_service_below children code in
      if s.service_code.raw == code.raw then some s else rest

unfoldable mutual
  pub find_area : EmulatedArea → ℕ → Option EmulatedArea
  find_area (area n children) code =
      let below = find_area_below children code in
      if n.area_code == code then some (area n children) else below

  pub find_area_below : AreaChildren → ℕ → Option EmulatedArea
  find_area_below no_more code = none
  find_area_below (area_then a children) code =
      or_else (find_area a code) (find_area_below children code)
  find_area_below (service_then s children) code = find_area_below children code

-- `service.blocks.borrow().len()`; every address is that of a cell.
unfoldable pub block_count : List (List Block) → EmulatedService → ℕ
block_count heap s = elim (get_elem? heap s.blocks) [ some blocks ↦ length blocks | none ↦ 0 ]

-- `usize::MAX` of a 64-bit target.
abbrev pub usize_max : ℕ
usize_max = 0xffff_ffff_ffff_ffff

unfoldable pub saturating_add : ℕ → ℕ → ℕ
saturating_add a b = min (a + b) usize_max

unfoldable mutual
  unfolding saturating_add block_count

  pub total_block_count : List (List Block) → EmulatedArea → ℕ
  total_block_count heap (area n children) = add_block_counts heap children 0

  pub add_block_counts : List (List Block) → AreaChildren → ℕ → ℕ
  add_block_counts heap no_more total = total
  add_block_counts heap (area_then a children) total =
      add_block_counts heap children (saturating_add total (total_block_count heap a))
  add_block_counts heap (service_then s children) total =
      add_block_counts heap children (saturating_add total (block_count heap s))
