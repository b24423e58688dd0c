-- ===== src/Felica/Emulator/Overlap/Kept.antt =====
-- What a synchronization keeps of a tree: its hierarchy and its service codes.
use felica_rs.Prelude.{◌≡◌, refl, Bool, true, false, Option, none, some, ◌∷◌, ◌∙◌, ◌++◌, map}
use felica_rs.Prelude.Outcome.{Outcome, ok, err, panic}
use felica_rs.Felica.Types.Service.{ServiceKind}
use felica_rs.Felica.Emulator.Structure.{
  EmulatedArea, AreaChildren, area, no_more, area_then, service_then, EmulatedService,
  EmulatorConfigError, AreaNode, node,
}
use felica_rs.Felica.Emulator.Structure.Valid.{IsHierarchy, AreChildren}
use felica_rs.Felica.Emulator.Structure.Directory.{services, services_below, code_of, map-append}
use felica_rs.Felica.Emulator.Overlap.{
  Synced, Registry, OverlapGroup, join, join_kind, join_registered, join_group, continue,
  sync_children, sync_overlapping_services,
}

-- What holds of the tree whether the walk stopped at this child or went on holds of what it leaves.
pub continue-value {ℓ} :
    (children : AreaChildren) (rest : Registry → Synced AreaChildren)
    (put : AreaChildren → AreaChildren) (registry : Registry)
    (result : Outcome EmulatorConfigError (Unit {0})) (P : AreaChildren → Type ℓ)
    → P (put children)
    → P (put (rest registry).value)
    → P (continue children rest put registry result).value
unfolding continue
continue-value children rest put registry (ok done) P stopped went = went
continue-value children rest put registry (err e) P stopped went = stopped
continue-value children rest put registry panic P stopped went = stopped

-- A walk that succeeds succeeded at this child, and went on.
pub continue-ok {ℓ} :
    (children : AreaChildren) (rest : Registry → Synced AreaChildren)
    (put : AreaChildren → AreaChildren) (registry : Registry)
    (result : Outcome EmulatorConfigError (Unit {0})) (P : AreaChildren → Registry → Type ℓ)
    → (continue children rest put registry result).result ≡ ok tt
    → (result ≡ ok tt
        → (rest registry).result ≡ ok tt
        → P (put (rest registry).value) (rest registry).registry)
    → P
        (continue children rest put registry result).value
        (continue children rest put registry result).registry
unfolding continue
continue-ok children rest put registry (ok done) P h went = went refl h
continue-ok children rest put registry (err e) P h went = cc
continue-ok children rest put registry panic P h went = cc

join_group-service_code :
    (s : EmulatedService) (r : Registry) (k : ServiceKind) (g : OverlapGroup) (alike : Bool)
    → (join_group s r k g alike).value.service_code ≡ s.service_code
unfolding join_group
join_group-service_code s r k g true = refl
join_group-service_code s r k g false = refl

join_registered-service_code :
    (s : EmulatedService) (r : Registry) (k : ServiceKind) (o : Option OverlapGroup)
    → (join_registered s r k o).value.service_code ≡ s.service_code
unfolding join_registered
join_registered-service_code s r k none = refl
join_registered-service_code s r k (some g) = join_group-service_code s r k g _

join_kind-service_code :
    (s : EmulatedService) (r : Registry) (o : Option ServiceKind)
    → (join_kind s r o).value.service_code ≡ s.service_code
unfolding join_kind
join_kind-service_code s r none = refl
join_kind-service_code s r (some k) = join_registered-service_code s r k _

pub join-service_code :
    (s : EmulatedService) (r : Registry) → (join s r).value.service_code ≡ s.service_code
unfolding join
join-service_code s r = join_kind-service_code s r _

pub sync-node :
    (a : EmulatedArea) (r : Registry) → node (sync_overlapping_services a r).value ≡ node a
unfolding sync_overlapping_services
sync-node (area n children) r = refl

mutual
  unfolding sync_overlapping_services

  pub sync-IsHierarchy :
      (a : EmulatedArea) (r : Registry)
      → IsHierarchy a
      → IsHierarchy (sync_overlapping_services a r).value
  sync-IsHierarchy (area n children) r h = (h.0, sync_children-AreChildren children n r h.1)

  sync_children-AreChildren :
      (children : AreaChildren) (n : AreaNode) (r : Registry)
      → AreChildren children n
      → AreChildren (sync_children children r).value n
  sync_children-AreChildren no_more n r h = tt
  sync_children-AreChildren (area_then a children) n r h =
      let put = area_then (sync_overlapping_services a r).value in
      let after = (sync_overlapping_services a r).registry in
      continue-value children (sync_children children) put after _ (λ c. AreChildren c n)
        (rw (sync-node a r) h.0, sync-IsHierarchy a r h.1, h.2)
        (
          rw (sync-node a r) h.0,
          sync-IsHierarchy a r h.1,
          sync_children-AreChildren children n after h.2,
        )
  sync_children-AreChildren (service_then s children) n r h =
      continue-value children (sync_children children) (service_then (join s r).value)
        (join s r).registry _ (λ c. AreChildren c n) (rw (join-service_code s r) h.0, h.1)
        (
          rw (join-service_code s r) h.0,
          sync_children-AreChildren children n (join s r).registry h.1,
        )

mutual
  unfolding sync_overlapping_services services

  pub sync-services :
      (a : EmulatedArea) (r : Registry)
      → map code_of (services (sync_overlapping_services a r).value) ≡ map code_of (services a)
  sync-services (area n children) r = sync_children-services children r

  sync_children-services :
      (children : AreaChildren) (r : Registry)
      → map code_of (services_below (sync_children children r).value)
        ≡ map code_of (services_below children)
  sync_children-services no_more r = refl
  sync_children-services (area_then a children) r =
      let after = (sync_overlapping_services a r).registry in
      continue-value children (sync_children children)
        (area_then (sync_overlapping_services a r).value) after _
        (λ c. map code_of (services_below c) ≡ map code_of (services a ++ services_below children))
        (map-append code_of (services (sync_overlapping_services a r).value)
            (services_below children)
          ∙ rw (sync-services a r, map-append code_of (services a) (services_below children)) refl)
        (map-append code_of (services (sync_overlapping_services a r).value)
            (services_below (sync_children children after).value)
          ∙ rw
              (
                sync-services a r,
                sync_children-services children after,
                map-append code_of (services a) (services_below children),
              )
              refl)
  sync_children-services (service_then s children) r =
      continue-value children (sync_children children) (service_then (join s r).value)
        (join s r).registry _
        (λ c. map code_of (services_below c) ≡ code_of s ∷ map code_of (services_below children))
        (rw (join-service_code s r) refl)
        (rw (join-service_code s r, sync_children-services children (join s r).registry) refl)
