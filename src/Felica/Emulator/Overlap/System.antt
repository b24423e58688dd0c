-- ===== src/Felica/Emulator/Overlap/System.antt =====
-- src/felica_standard/emulator/system.rs: a child added below the root area of a system.
use felica_rs.Prelude.{
  ◌≡◌, ◌≢◌, refl, ap, subst, ◌∙◌, List, [], ◌∷◌, ◌++◌, map, append_assoc, append-nil,
}
use felica_rs.Prelude.Outcome.{Outcome, ok, err, panic}
use felica_rs.Prelude.Outcome.Ensures.{after_check}
use felica_rs.Felica.Types.Service.{ServiceCode}
use felica_rs.Felica.Emulator.Structure.{
  EmulatedArea, AreaChildren, area, no_more, area_then, service_then, EmulatedService,
  EmulatorConfigError, push, node, add_service, add_area, validate_child_service,
  validate_child_area,
}
use felica_rs.Felica.Emulator.Structure.Directory.{services, services_below, code_of, map-append}
use felica_rs.Felica.Emulator.Overlap.{
  sync_overlapping_services, settle, system_add_service, system_add_area,
}
use felica_rs.Felica.Emulator.Overlap.Kept.{sync-services}
use felica_rs.Felica.Emulator.Overlap.Consistency.{
  IsConsistent, HaveKinds, HaveKinds-append, sync_overlapping_services-IsConsistent,
}

push-services :
    (children last : AreaChildren)
    → services_below (push children last) ≡ services_below children ++ services_below last
unfolding push services
push-services no_more last = refl
push-services (area_then a children) last = rw (push-services children last, append_assoc)
push-services (service_then s children) last = ap (λ t. s ∷ t) (push-services children last)

add_service-services :
    (a : EmulatedArea) (s : EmulatedService) (b : EmulatedArea)
    → add_service a s ≡ ok b
    → map code_of (services b) ≡ map code_of (services a) ++ (s.service_code ∷ [])
unfolding add_service services
add_service-services (area n children) s b h =
    after_check
      (λ c. map code_of (services c) ≡ map code_of (services_below children) ++ (code_of s ∷ []))
      (validate_child_service n s) h
      λ checked.
        rw (push-services children (service_then s no_more))
          (map-append code_of (services_below children) (s ∷ []))

add_area-services :
    (a child b : EmulatedArea)
    → add_area a child ≡ ok b
    → map code_of (services b) ≡ map code_of (services a) ++ map code_of (services child)
unfolding add_area services
add_area-services (area n children) child b h =
    after_check
      (λ c.
        map code_of (services c)
        ≡ map code_of (services_below children) ++ map code_of (services child))
      (validate_child_area n (node child)) h
      λ checked.
        rw (push-services children (area_then child no_more), append-nil)
          (map-append code_of (services_below children) (services child))

settle-stuck :
    (root : EmulatedArea) (o : Outcome EmulatorConfigError EmulatedArea) (codes : List ServiceCode)
    → ((b : EmulatedArea)
        → o ≡ ok b
        → map code_of (services b) ≡ map code_of (services root) ++ codes)
    → ¬ IsConsistent root
    → (settle root o).result ≢ ok tt
unfolding settle
settle-stuck root (ok b) codes grown split h =
    let (of, kinds) = (sync_overlapping_services-IsConsistent b).0 h in
    split (
      of,
      (HaveKinds-append of (map code_of (services root)) codes
          (subst (HaveKinds of) (grown b refl) kinds)).0,
    )
settle-stuck root (err e) codes grown split h = cc
settle-stuck root panic codes grown split h = cc

-- A service that the root area takes but that cannot be synchronized stays in the system, although
-- the call that added it failed: the codes of the system's services are those of before and the new
-- one, and from then on no call that adds a service or an area succeeds.
pub system_add_service-stuck :
    (root added : EmulatedArea) (s : EmulatedService)
    → add_service root s ≡ ok added
    → (system_add_service root s).result ≢ ok tt
    → (map code_of (services (system_add_service root s).root_area)
        ≡ map code_of (services root) ++ (s.service_code ∷ []))
      × ((t : EmulatedService)
          → (system_add_service (system_add_service root s).root_area t).result ≢ ok tt)
      × ((child : EmulatedArea)
          → (system_add_area (system_add_service root s).root_area child).result ≢ ok tt)
unfolding system_add_service system_add_area settle
system_add_service-stuck root added s taken failed =
    let stays : (system_add_service root s).root_area ≡ (sync_overlapping_services added []).value =
      rw taken refl in
    let same : map code_of (services (system_add_service root s).root_area)
        ≡ map code_of (services added) =
      rw stays (sync-services added []) in
    let broken : ¬ IsConsistent added =
      λ c. failed (rw taken ((sync_overlapping_services-IsConsistent added).1 c)) in
    let after = (system_add_service root s).root_area in
    let unsettled : ¬ IsConsistent after =
      λ (of, kinds). broken (of, subst (HaveKinds of) same kinds) in
    (
      same ∙ add_service-services root s added taken,
      λ t.
          settle-stuck after (add_service after t) (t.service_code ∷ [])
            (add_service-services after t) unsettled,
      λ child.
          settle-stuck after (add_area after child) (map code_of (services child))
            (add_area-services after child) unsettled,
    )
