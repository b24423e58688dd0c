-- ===== src/Felica/Emulator/Structure.antt =====
-- src/felica_standard/emulator/structure.rs: the tree of areas and services of an emulated card, its
-- builders. The blocks that services share (`Rc<RefCell<Vec<_>>>`)
-- stand in a heap, and `blocks` is an address in it. A `&mut` walk returns what it leaves.
pub mod Lookups
pub mod Valid
pub mod Built
pub mod Directory
pub mod Counts
use felica_rs.Prelude.{
  ℕ, zero, suc, ◌+◌, Bool, true, false, not, ◌&&◌, ◌||◌, Option, none, some, List, [], ◌∷◌, ◌++◌,
  length, ltb, ◌==◌, bit_and,
}
use felica_rs.Prelude.Int.{pos}
use felica_rs.Prelude.Outcome.{Outcome, ok, ◌>>◌, ensure}
use felica_rs.Felica.Types.Service.{ServiceCode, ServiceKind, attribute, attributes}
use felica_rs.Felica.Emulator.Blocks.{Block, LimitPurseProperty}

abbrev pub root_area_code : ℕ
root_area_code = 0x0000

abbrev pub root_end_service_code : ℕ
root_end_service_code = 0xfffe

abbrev pub max_node_code : ℕ
max_node_code = 0xfffe

abbrev pub attribute_child_areas_allowed : ℕ
attribute_child_areas_allowed = 0b000000

abbrev pub attribute_child_areas_forbidden : ℕ
attribute_child_areas_forbidden = 0b000001

pub data EmulatorConfigError : Type 0 where
  invalid_area_range : (area_code end_service_code : ℕ) → EmulatorConfigError
  invalid_root_area_range : (end_service_code : ℕ) → EmulatorConfigError
  node_code_out_of_range : (node_code : ℕ) → EmulatorConfigError
  invalid_area_attribute : (area_code attribute : ℕ) → EmulatorConfigError
  child_area_forbidden : (area_code : ℕ) → EmulatorConfigError
  undefined_service_attribute : (service_code attribute : ℕ) → EmulatorConfigError
  service_out_of_range : (area_code end_service_code service_code : ℕ) → EmulatorConfigError
  area_out_of_range :
      (area_code end_service_code child_area_code child_end_service_code : ℕ) → EmulatorConfigError
  overlap_kind_mismatch :
      (service_code service_number : ℕ) (existing_kind added_kind : ServiceKind)
      → EmulatorConfigError

pub record EmulatedService : Type 0 where
  pub service_code : ServiceCode
  pub key_version : ℕ
  pub key : List ℕ
  pub limit_purse : Option LimitPurseProperty
  pub blocks : ℕ

-- The fields of an area other than its children.
pub record AreaNode : Type 0 where
  pub area_code : ℕ
  pub key_version : ℕ
  pub key : List ℕ
  pub end_service_code : ℕ

-- `AreaChildren` is the `Vec<AreaChild>` of an area.
mutual
  pub data EmulatedArea : Type 0 where
    area : AreaNode → AreaChildren → EmulatedArea

  pub data AreaChildren : Type 0 where
    no_more : AreaChildren
    area_then : EmulatedArea → AreaChildren → AreaChildren
    service_then : EmulatedService → AreaChildren → AreaChildren

pub data DirectoryEntry : Type 0 where
  service_entry : ServiceCode → DirectoryEntry
  area_entry : (area_code end_service_code : ℕ) → DirectoryEntry

abbrev pub node : EmulatedArea → AreaNode
node (area n children) = n

-- `children.push(child)`, where `last` holds the one child.
unfoldable pub push : AreaChildren → AreaChildren → AreaChildren
push no_more last = last
push (area_then a children) last = area_then a (push children last)
push (service_then s children) last = service_then s (push children last)

-- Builders

abbrev zero_key : List ℕ
zero_key = 0 ∷ 0 ∷ 0 ∷ 0 ∷ 0 ∷ 0 ∷ 0 ∷ 0 ∷ []

abbrev pub zero_block : Block
zero_block = 0 ∷ 0 ∷ 0 ∷ 0 ∷ 0 ∷ 0 ∷ 0 ∷ 0 ∷ 0 ∷ 0 ∷ 0 ∷ 0 ∷ 0 ∷ 0 ∷ 0 ∷ 0 ∷ []

unfoldable pub zero_blocks : ℕ → List Block
zero_blocks zero = []
zero_blocks (suc n) = zero_block ∷ zero_blocks n

abbrev is_some {ℓ} : {A : Type ℓ} → Option A → Bool
is_some (some found) = true
is_some none = false

unfoldable pub validate_node_code : ℕ → Outcome EmulatorConfigError (Unit {0})
validate_node_code node_code =
    ensure (not (ltb max_node_code node_code)) (node_code_out_of_range node_code)

unfoldable pub validate_area_range : ℕ → ℕ → Outcome EmulatorConfigError (Unit {0})
unfolding validate_node_code
validate_area_range area_code end_service_code =
    validate_node_code area_code
    >> validate_node_code end_service_code
    >> ensure
        (not ((area_code == root_area_code) && not (end_service_code == root_end_service_code)))
        (invalid_root_area_range end_service_code)
    >> ensure
        ((bit_and area_code 0x3f == attribute_child_areas_allowed)
          || (bit_and area_code 0x3f == attribute_child_areas_forbidden))
        (invalid_area_attribute area_code (bit_and area_code 0x3f))
    >> ensure (not (ltb end_service_code area_code)) (invalid_area_range area_code end_service_code)

unfoldable pub area_with_key_version : ℕ → ℕ → ℕ → Outcome EmulatorConfigError EmulatedArea
unfolding validate_area_range
area_with_key_version area_code end_service_code version =
    validate_area_range area_code end_service_code
    >> ok (
        area
          (record {
            area_code = area_code;
            key_version = version;
            key = zero_key;
            end_service_code = end_service_code;
          })
          no_more)

unfoldable pub new_area : ℕ → ℕ → Outcome EmulatorConfigError EmulatedArea
unfolding area_with_key_version
new_area area_code end_service_code = area_with_key_version area_code end_service_code 0x0000

unfoldable pub set_area_key : EmulatedArea → List ℕ → EmulatedArea
set_area_key (area n children) new_key = area (record n { key = new_key }) children

-- `Rc::new(RefCell::new(blocks))`: the heap with a new cell, and the service that has its address.
unfoldable pub with_blocks :
    List (List Block) → ServiceCode → ℕ → List Block → List (List Block) × EmulatedService
with_blocks heap service_code version blocks = (
  heap ++ (blocks ∷ []),
  record {
    service_code = service_code;
    key_version = version;
    key = zero_key;
    limit_purse = none;
    blocks = length heap;
  },
)

unfoldable pub service_with_key_version :
    List (List Block) → ServiceCode → ℕ → ℕ → List (List Block) × EmulatedService
unfolding with_blocks zero_blocks
service_with_key_version heap service_code version count =
    with_blocks heap service_code version (zero_blocks count)

unfoldable pub new_service :
    List (List Block) → ServiceCode → ℕ → List (List Block) × EmulatedService
unfolding service_with_key_version
new_service heap service_code count = service_with_key_version heap service_code 0x0000 count

unfoldable pub set_service_key : EmulatedService → List ℕ → EmulatedService
set_service_key s new_key = record s { key = new_key }

abbrev pub default_limits : LimitPurseProperty
default_limits = record {
  upper_limit = pos 0x7fff_ffff;
  lower_limit = pos 0;
  generation_number = 0;
}

unfoldable pub set_limit_purse : EmulatedService → LimitPurseProperty → EmulatedService
set_limit_purse s property = record s { limit_purse = some property }

unfoldable pub allows_child_areas : AreaNode → Bool
allows_child_areas n = bit_and n.area_code 0x3f == attribute_child_areas_allowed

unfoldable pub validate_child_service :
    AreaNode → EmulatedService → Outcome EmulatorConfigError (Unit {0})
unfolding validate_node_code
validate_child_service n s =
    let code = s.service_code.raw in
    validate_node_code code
    >> ensure (is_some (attribute s.service_code))
        (undefined_service_attribute code (attributes s.service_code))
    >> ensure (not (ltb code n.area_code || ltb n.end_service_code code))
        (service_out_of_range n.area_code n.end_service_code code)

unfoldable pub validate_child_area : AreaNode → AreaNode → Outcome EmulatorConfigError (Unit {0})
unfolding allows_child_areas
validate_child_area n child =
    ensure (allows_child_areas n) (child_area_forbidden n.area_code)
    >> ensure
        (not (ltb child.area_code n.area_code || ltb n.end_service_code child.end_service_code))
        (area_out_of_range n.area_code n.end_service_code child.area_code child.end_service_code)

unfoldable pub add_service :
    EmulatedArea → EmulatedService → Outcome EmulatorConfigError EmulatedArea
unfolding validate_child_service push
add_service (area n children) s =
    validate_child_service n s >> ok (area n (push children (service_then s no_more)))

unfoldable pub add_area : EmulatedArea → EmulatedArea → Outcome EmulatorConfigError EmulatedArea
unfolding validate_child_area push
add_area (area n children) child =
    validate_child_area n (node child) >> ok (area n (push children (area_then child no_more)))
