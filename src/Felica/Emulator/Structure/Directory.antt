-- ===== src/Felica/Emulator/Structure/Directory.antt =====
-- src/felica_standard/emulator/structure.rs: the lookups and the directory, against the list of the
-- services and areas of a tree in the order of insertion.
use felica_rs.Prelude.{
  ℕ, ◌≡◌, refl, sym, ap, ◌∙◌, Bool, Option, none, some, List, [], ◌∷◌, ◌++◌, map, append_assoc,
  append-nil, ◌==◌, if◌then◌else◌, arith,
}
use felica_rs.Felica.Types.Service.{ServiceCode}
use felica_rs.Felica.Emulator.Structure.{
  EmulatedArea, AreaChildren, area, no_more, area_then, service_then, EmulatedService,
  DirectoryEntry, service_entry, area_entry, node,
}
use felica_rs.Felica.Emulator.Structure.Lookups.{
  append_directory_entries, append_children, find_service, find_service_below, find_area,
  find_area_below, or_else,
}

unfoldable mutual
  pub services : EmulatedArea → List EmulatedService
  services (area n children) = services_below children

  pub services_below : AreaChildren → List EmulatedService
  services_below no_more = []
  services_below (area_then a children) = services a ++ services_below children
  services_below (service_then s children) = s ∷ services_below children

unfoldable mutual
  pub areas : EmulatedArea → List EmulatedArea
  areas (area n children) = area n children ∷ areas_below children

  pub areas_below : AreaChildren → List EmulatedArea
  areas_below no_more = []
  areas_below (area_then a children) = areas a ++ areas_below children
  areas_below (service_then s children) = areas_below children

-- The first element that a test accepts.
unfoldable pub first {ℓ} : {A : Type ℓ} → (A → Bool) → List A → Option A
first test [] = none
first test (x ∷ xs) = let rest = first test xs in if test x then some x else rest

abbrev pub has_code : ServiceCode → EmulatedService → Bool
has_code code s = s.service_code.raw == code.raw

first-append {ℓ} :
    {A : Type ℓ} (test : A → Bool) (xs ys : List A)
    → first test (xs ++ ys) ≡ or_else (first test xs) (first test ys)
unfolding first
first-append test [] ys = refl
first-append test (x ∷ xs) ys = ground (arith, first-append test xs ys)

mutual
  unfolding find_service services first

  pub find_service-services :
      (a : EmulatedArea) (code : ServiceCode)
      → find_service a code ≡ first (has_code code) (services a)
  find_service-services (area n children) code = find_service_below-services children code

  find_service_below-services :
      (children : AreaChildren) (code : ServiceCode)
      → find_service_below children code ≡ first (has_code code) (services_below children)
  find_service_below-services no_more code = refl
  find_service_below-services (area_then a children) code = rw (
    first-append (has_code code) (services a) (services_below children),
    find_service-services a code,
    find_service_below-services children code,
  )
  find_service_below-services (service_then s children) code =
      rw (find_service_below-services children code)

abbrev pub has_area_code : ℕ → EmulatedArea → Bool
has_area_code code a = (node a).area_code == code

mutual
  unfolding find_area areas first

  pub find_area-areas :
      (a : EmulatedArea) (code : ℕ) → find_area a code ≡ first (has_area_code code) (areas a)
  find_area-areas (area n children) code = rw (find_area_below-areas children code)

  find_area_below-areas :
      (children : AreaChildren) (code : ℕ)
      → find_area_below children code ≡ first (has_area_code code) (areas_below children)
  find_area_below-areas no_more code = refl
  find_area_below-areas (area_then a children) code = rw (
    first-append (has_area_code code) (areas a) (areas_below children),
    find_area-areas a code,
    find_area_below-areas children code,
  )
  find_area_below-areas (service_then s children) code = find_area_below-areas children code

-- The services and the areas that a directory lists.
unfoldable pub listed_services : List DirectoryEntry → List ServiceCode
listed_services [] = []
listed_services (service_entry code ∷ entries) = code ∷ listed_services entries
listed_services (area_entry first last ∷ entries) = listed_services entries

unfoldable pub listed_areas : List DirectoryEntry → List (ℕ × ℕ)
listed_areas [] = []
listed_areas (service_entry code ∷ entries) = listed_areas entries
listed_areas (area_entry first last ∷ entries) = (first, last) ∷ listed_areas entries

listed_services-append :
    (xs ys : List DirectoryEntry)
    → listed_services (xs ++ ys) ≡ listed_services xs ++ listed_services ys
unfolding listed_services
listed_services-append [] ys = refl
listed_services-append (service_entry code ∷ xs) ys =
    ap (λ t. code ∷ t) (listed_services-append xs ys)
listed_services-append (area_entry first last ∷ xs) ys = listed_services-append xs ys

listed_areas-append :
    (xs ys : List DirectoryEntry) → listed_areas (xs ++ ys) ≡ listed_areas xs ++ listed_areas ys
unfolding listed_areas
listed_areas-append [] ys = refl
listed_areas-append (service_entry code ∷ xs) ys = listed_areas-append xs ys
listed_areas-append (area_entry first last ∷ xs) ys =
    ap (λ t. (first, last) ∷ t) (listed_areas-append xs ys)

abbrev pub code_of : EmulatedService → ServiceCode
code_of s = s.service_code

abbrev pub range_of : EmulatedArea → ℕ × ℕ
range_of a = ((node a).area_code, (node a).end_service_code)

pub map-append {ℓ κ} :
    {A : Type ℓ} {B : Type κ} (f : A → B) (xs ys : List A) → map f (xs ++ ys) ≡ map f xs ++ map f ys
map-append f [] ys = refl
map-append f (x ∷ xs) ys = ap (λ t. f x ∷ t) (map-append f xs ys)

mutual
  unfolding append_directory_entries services listed_services

  pub listed_services-directory :
      (a : EmulatedArea) (entries : List DirectoryEntry)
      → listed_services (append_directory_entries a entries)
        ≡ listed_services entries ++ map code_of (services a)
  listed_services-directory (area n children) entries =
      listed_services-children children _
      ∙ rw (
        listed_services-append entries (area_entry n.area_code n.end_service_code ∷ []),
        append-nil,
      )

  listed_services-children :
      (children : AreaChildren) (entries : List DirectoryEntry)
      → listed_services (append_children children entries)
        ≡ listed_services entries ++ map code_of (services_below children)
  listed_services-children no_more entries = sym (append-nil _)
  listed_services-children (area_then a children) entries =
      listed_services-children children _
      ∙ rw (
        listed_services-directory a entries,
        map-append code_of (services a) (services_below children),
        append_assoc,
      )
  listed_services-children (service_then s children) entries =
      listed_services-children children _
      ∙ rw (listed_services-append entries (service_entry s.service_code ∷ []), append_assoc)

mutual
  unfolding append_directory_entries areas listed_areas

  pub listed_areas-directory :
      (a : EmulatedArea) (entries : List DirectoryEntry)
      → listed_areas (append_directory_entries a entries)
        ≡ listed_areas entries ++ map range_of (areas a)
  listed_areas-directory (area n children) entries =
      listed_areas-children children _
      ∙ rw (
        listed_areas-append entries (area_entry n.area_code n.end_service_code ∷ []),
        append_assoc,
      )

  listed_areas-children :
      (children : AreaChildren) (entries : List DirectoryEntry)
      → listed_areas (append_children children entries)
        ≡ listed_areas entries ++ map range_of (areas_below children)
  listed_areas-children no_more entries = sym (append-nil _)
  listed_areas-children (area_then a children) entries =
      listed_areas-children children _
      ∙ rw (
        listed_areas-directory a entries,
        map-append range_of (areas a) (areas_below children),
        append_assoc,
      )
  listed_areas-children (service_then s children) entries =
      listed_areas-children children _
      ∙ rw (listed_areas-append entries (service_entry s.service_code ∷ []), append-nil)

-- A lookup by service code finds the first service with that code, and a lookup by area code the
-- first area, in the order of the directory, which lists the codes of all services and the ranges
-- of all areas of the tree.
pub directory-lookups :
    (a : EmulatedArea)
    → ((code : ServiceCode) → find_service a code ≡ first (has_code code) (services a))
      × ((code : ℕ) → find_area a code ≡ first (has_area_code code) (areas a))
      × (listed_services (append_directory_entries a []) ≡ map code_of (services a))
      × (listed_areas (append_directory_entries a []) ≡ map range_of (areas a))
unfolding listed_services listed_areas
directory-lookups a = (
  find_service-services a,
  find_area-areas a,
  listed_services-directory a [],
  listed_areas-directory a [],
)
