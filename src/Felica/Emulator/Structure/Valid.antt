-- ===== src/Felica/Emulator/Structure/Valid.antt =====
-- src/felica_standard/emulator/structure.rs: the hierarchy that the builders accept.
use felica_rs.Prelude.{ℕ, ◌≤◌, ◌≡◌, ◌⊎◌, true, some, bit_and, arith, inl, inr, Option-cases}
use felica_rs.Prelude.Outcome.{ok, ensure}
use felica_rs.Felica.Types.Service.{ServiceAttribute, attribute}
use felica_rs.Felica.Emulator.Structure.{
  EmulatedArea, AreaChildren, AreaNode, area, no_more, area_then, service_then, EmulatedService,
  node, push, allows_child_areas, validate_node_code, validate_area_range, validate_child_service,
  validate_child_area,
}

-- A range of usable codes with a defined attribute; area 0 has them all.
pub record IsRange (area_code end_service_code : ℕ) : Type 0 where
  pub ordered : area_code ≤ end_service_code
  pub usable : end_service_code ≤ 0xfffe
  pub root : area_code ≡ 0 → end_service_code ≡ 0xfffe
  pub attribute : (bit_and area_code 0x3f ≡ 0) ⊎ (bit_and area_code 0x3f ≡ 1)

abbrev pub IsService : AreaNode → EmulatedService → Type 0
IsService n s =
    (n.area_code ≤ s.service_code.raw)
    × (s.service_code.raw ≤ n.end_service_code)
    × ((a : ServiceAttribute) × (attribute s.service_code ≡ some a))

abbrev pub IsNested : AreaNode → AreaNode → Type 0
IsNested n child =
    (allows_child_areas n ≡ true)
    × (n.area_code ≤ child.area_code)
    × (child.end_service_code ≤ n.end_service_code)

abbrev mutual
  pub IsHierarchy : EmulatedArea → Type 0
  IsHierarchy (area n children) = IsRange n.area_code n.end_service_code × AreChildren children n

  pub AreChildren : AreaChildren → AreaNode → Type 0
  AreChildren no_more n = Unit {0}
  AreChildren (area_then a children) n =
      IsNested n (node a) × IsHierarchy a × AreChildren children n
  AreChildren (service_then s children) n = IsService n s × AreChildren children n

pub push-AreChildren :
    (children last : AreaChildren) (n : AreaNode)
    → AreChildren children n
    → AreChildren last n
    → AreChildren (push children last) n
unfolding push
push-AreChildren no_more last n h k = k
push-AreChildren (area_then a children) last n h k =
    (h.0, h.1, push-AreChildren children last n h.2 k)
push-AreChildren (service_then s children) last n h k =
    (h.0, push-AreChildren children last n h.1 k)

pub validate_area_range-IsRange :
    (area_code end_service_code : ℕ)
    → validate_area_range area_code end_service_code ≡ ok tt
    → IsRange area_code end_service_code
unfolding validate_area_range validate_node_code ensure
validate_area_range-IsRange c e h = record {
  ordered = ground arith;
  usable = ground arith;
  root = λ z. ground arith;
  attribute = ground arith;
}

pub validate_child_service-IsService :
    (n : AreaNode) (s : EmulatedService) → validate_child_service n s ≡ ok tt → IsService n s
unfolding validate_child_service validate_node_code ensure
validate_child_service-IsService n s h = (
  ground arith,
  ground arith,
  elim (Option-cases (attribute s.service_code)) [
    | inr found ↦ found
    | inl missing ↦ absurd (ground (arith, missing))
  ],
)

pub validate_child_area-IsNested :
    (n child : AreaNode) → validate_child_area n child ≡ ok tt → IsNested n child
unfolding validate_child_area ensure
validate_child_area-IsNested n child h = (ground arith, ground arith, ground arith)
