-- ===== src/Felica/Emulator/Structure/Counts.antt =====
-- src/felica_standard/emulator/structure.rs: the blocks of an area, counted with saturation.
use felica_rs.Prelude.{Option, none, some, ℕ, ◌+◌, ◌≡◌, List, [], ◌∷◌, ◌++◌, ◌≤◌, ◌∙◌, min, arith}
use felica_rs.Felica.Emulator.Blocks.{Block}
use felica_rs.Felica.Emulator.Structure.{
  EmulatedArea, AreaChildren, area, no_more, area_then, service_then, EmulatedService,
}
use felica_rs.Felica.Emulator.Structure.Lookups.{
  find_service, find_area, block_count, usize_max, saturating_add, total_block_count,
  add_block_counts,
}
use felica_rs.Felica.Emulator.Structure.Directory.{
  services, services_below, areas, first, has_code, has_area_code, find_service-services,
  find_area-areas,
}
use felica_rs.Felica.Emulator.Overlap.{block_count_for_node}

unfoldable pub block_counts : List (List Block) → List EmulatedService → ℕ
block_counts heap [] = 0
block_counts heap (s ∷ ss) = block_count heap s + block_counts heap ss

block_counts-append :
    (heap : List (List Block)) (xs ys : List EmulatedService)
    → block_counts heap (xs ++ ys) ≡ block_counts heap xs + block_counts heap ys
unfolding block_counts
block_counts-append heap [] ys = omega arith
block_counts-append heap (x ∷ xs) ys = omega (arith, block_counts-append heap xs ys)

mutual
  unfolding total_block_count services block_counts saturating_add

  -- The count of an area is the sum over its services, or the largest `usize`.
  pub total_block_count-services :
      (heap : List (List Block)) (a : EmulatedArea)
      → total_block_count heap a ≡ min (block_counts heap (services a)) usize_max
  total_block_count-services heap (area n children) =
      omega (arith, add_block_counts-services heap children 0 (omega arith))

  add_block_counts-services :
      (heap : List (List Block)) (children : AreaChildren) (total : ℕ)
      → total ≤ usize_max
      → add_block_counts heap children total
        ≡ min (total + block_counts heap (services_below children)) usize_max
  add_block_counts-services heap no_more total h = omega (arith, h)
  add_block_counts-services heap (area_then a children) total h =
      let here = total_block_count heap a in
      add_block_counts-services heap children (min (total + here) usize_max) (omega arith)
      ∙ omega (
        arith,
        total_block_count-services heap a,
        block_counts-append heap (services a) (services_below children),
      )
  add_block_counts-services heap (service_then s children) total h =
      add_block_counts-services heap children (min (total + block_count heap s) usize_max)
        (omega arith)
      ∙ omega arith

-- The count that two lookups give: of the service, or else of all services of the area.
abbrev pub counted : List (List Block) → Option EmulatedService → Option EmulatedArea → ℕ
counted heap (some s) found = min (block_count heap s) 0xffff
counted heap none (some a) = min (block_counts heap (services a)) 0xffff
counted heap none none = 0

counted_node :
    (heap : List (List Block)) (root : EmulatedArea) (code : ℕ) (s : Option EmulatedService)
    (a : Option EmulatedArea)
    → find_service root (record { raw = code }) ≡ s
    → find_area root code ≡ a
    → block_count_for_node heap root code ≡ counted heap s a
unfolding block_count_for_node
counted_node heap root code (some s) a e f = ground (arith, e)
counted_node heap root code none (some a) e f =
    ground (arith, e, f, total_block_count-services heap a)
counted_node heap root code none none e f = ground (arith, e, f)

-- The block count that a system reports for a node code is that of the first service with the code,
-- or else the sum over all services of the first area with the code, held at FFFFh, or else 0.
pub block_count_for_node-counted :
    (heap : List (List Block)) (root : EmulatedArea) (code : ℕ)
    → block_count_for_node heap root code
      ≡ counted heap
          (first (has_code (record { raw = code })) (services root))
          (first (has_area_code code) (areas root))
block_count_for_node-counted heap root code =
    counted_node heap root code _ _ (find_service-services root (record { raw = code }))
      (find_area-areas root code)
