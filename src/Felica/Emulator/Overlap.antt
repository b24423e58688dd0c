-- ===== src/Felica/Emulator/Overlap.antt =====
-- src/felica_standard/emulator/structure.rs, system.rs: overlap services are made to share blocks.
pub mod Kept
pub mod Agreement
pub mod Consistency
pub mod System
use felica_rs.Prelude.{
  if◌then◌else◌, ℕ, min, Bool, true, false, Option, none, some, List, [], ◌∷◌, ◌==◌,
}
use felica_rs.Prelude.Outcome.{Outcome, ok, err, panic}
use felica_rs.Felica.Types.Service.{ServiceKind, random, cyclic, purse, kind, number}
use felica_rs.Felica.Emulator.Blocks.{Block}
use felica_rs.Felica.Emulator.Structure.{
  EmulatedArea, AreaChildren, area, no_more, area_then, service_then, EmulatedService,
  EmulatorConfigError, overlap_kind_mismatch, add_service, add_area, DirectoryEntry,
}
use felica_rs.Felica.Emulator.Structure.Lookups.{
  find_service, find_area, block_count, total_block_count, append_directory_entries,
}

pub record OverlapGroup : Type 0 where
  pub kind : ServiceKind
  pub blocks : ℕ

-- The map by service number; a number is inserted once.
abbrev pub Registry : Type 0
Registry = List (ℕ × OverlapGroup)

unfoldable pub get : ℕ → Registry → Option OverlapGroup
get n [] = none
get n ((m, group) ∷ registry) = let rest = get n registry in if m == n then some group else rest

abbrev pub same_kind : ServiceKind → ServiceKind → Bool
same_kind random random = true
same_kind cyclic cyclic = true
same_kind purse purse = true
same_kind _ _ = false

-- What a walk over `&mut` leaves: the part walked over, the map, and how it ended.
pub record Synced (A : Type 0) : Type 0 where
  pub value : A
  pub registry : Registry
  pub result : Outcome EmulatorConfigError (Unit {0})

-- The service number has a group, and the kinds are alike or not.
unfoldable pub join_group :
    EmulatedService → Registry → ServiceKind → OverlapGroup → Bool → Synced EmulatedService
join_group s registry k group true = record {
  value = record s { blocks = group.blocks };
  registry = registry;
  result = ok tt;
}
join_group s registry k group false = record {
  value = s;
  registry = registry;
  result = err (overlap_kind_mismatch s.service_code.raw (number s.service_code) group.kind k);
}

unfoldable pub join_registered :
    EmulatedService → Registry → ServiceKind → Option OverlapGroup → Synced EmulatedService
unfolding join_group
join_registered s registry k (some group) = join_group s registry k group (same_kind group.kind k)
join_registered s registry k none = record {
  value = s;
  registry = (number s.service_code, record { kind = k; blocks = s.blocks }) ∷ registry;
  result = ok tt;
}

-- `expect` panics on an undefined attribute.
unfoldable pub join_kind : EmulatedService → Registry → Option ServiceKind → Synced EmulatedService
unfolding join_registered get
join_kind s registry (some k) = join_registered s registry k (get (number s.service_code) registry)
join_kind s registry none = record { value = s; registry = registry; result = panic }

-- One service of the walk.
unfoldable pub join : EmulatedService → Registry → Synced EmulatedService
unfolding join_kind
join s registry = join_kind s registry (kind s.service_code)

-- The next turn of the loop over `children`, which an error or a panic of the turn before it keeps
-- from running.
unfoldable pub continue :
    AreaChildren
    → (Registry → Synced AreaChildren)
    → (AreaChildren → AreaChildren)
    → Registry
    → Outcome EmulatorConfigError (Unit {0})
    → Synced AreaChildren
continue children rest put registry (ok done) =
    let after = rest registry in
    record { value = put after.value; registry = after.registry; result = after.result }
continue children rest put registry (err e) = record {
  value = put children;
  registry = registry;
  result = err e;
}
continue children rest put registry panic = record {
  value = put children;
  registry = registry;
  result = panic;
}

unfoldable mutual
  unfolding join continue

  pub sync_overlapping_services : EmulatedArea → Registry → Synced EmulatedArea
  sync_overlapping_services (area n children) registry =
      let after = sync_children children registry in
      record { value = area n after.value; registry = after.registry; result = after.result }

  pub sync_children : AreaChildren → Registry → Synced AreaChildren
  sync_children no_more registry = record { value = no_more; registry = registry; result = ok tt }
  sync_children (area_then a children) registry =
      let first = sync_overlapping_services a registry in
      continue children (sync_children children) (area_then first.value) first.registry first.result
  sync_children (service_then s children) registry =
      let first = join s registry in
      continue children (sync_children children) (service_then first.value) first.registry
        first.result

-- The part of an `EmulatedSystem` that its builders change: the root area.
pub record Added : Type 0 where
  pub root_area : EmulatedArea
  pub result : Outcome EmulatorConfigError (Unit {0})

-- `self.root_area.add_…(child)?; self.sync_overlapping_services()?`
unfoldable pub settle : EmulatedArea → Outcome EmulatorConfigError EmulatedArea → Added
settle root (ok grown) =
    let after = sync_overlapping_services grown [] in
    record { root_area = after.value; result = after.result }
settle root (err e) = record { root_area = root; result = err e }
settle root panic = record { root_area = root; result = panic }

unfoldable pub system_add_service : EmulatedArea → EmulatedService → Added
unfolding settle
system_add_service root s = settle root (add_service root s)

unfoldable pub system_add_area : EmulatedArea → EmulatedArea → Added
unfolding settle
system_add_area root child = settle root (add_area root child)

-- `directory` of a system.
unfoldable pub directory : EmulatedArea → List DirectoryEntry
directory root = append_directory_entries root []

unfoldable pub block_count_for_node : List (List Block) → EmulatedArea → ℕ → ℕ
block_count_for_node heap root node_code = elim (find_service root (record { raw = node_code })) [
  | some s ↦ min (block_count heap s) 0xffff
  | none ↦ elim (find_area root node_code) [
    | some a ↦ min (total_block_count heap a) 0xffff
    | none ↦ 0
  ]
]
