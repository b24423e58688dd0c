-- ===== src/Felica/Emulator/Overlap/Agreement.antt =====
-- The services of a tree after a synchronization that succeeded.
use felica_rs.Prelude.{
  ℕ, ◌≡◌, refl, Bool, true, false, Option, none, some, List, [], ◌∷◌, ◌==◌, ap, ◌∙◌, All, map,
  All-append, ==→eq, inl, inr, ==_refl, Bool-cases,
}
use felica_rs.Prelude.Outcome.{ok}
use felica_rs.Felica.Types.Service.{ServiceKind, random, cyclic, purse, kind, number}
use felica_rs.Felica.Emulator.Structure.{
  EmulatedArea, AreaChildren, area, no_more, area_then, service_then, EmulatedService,
}
use felica_rs.Felica.Emulator.Structure.Directory.{services, services_below, code_of}
use felica_rs.Felica.Emulator.Overlap.{
  Synced, Registry, OverlapGroup, get, join, join_kind, join_registered, join_group, same_kind,
  sync_children, sync_overlapping_services,
}
use felica_rs.Felica.Emulator.Overlap.Kept.{continue-ok, sync-services}

-- The group of a service, as the map has it.
abbrev pub IsRegistered : Registry → EmulatedService → Type 0
IsRegistered r s =
    (k : ServiceKind) × (kind s.service_code ≡ some k)
    × (get (number s.service_code) r ≡ some (record { kind = k; blocks = s.blocks }))

abbrev pub Extends : Registry → Registry → Type 0
Extends r r' = (n : ℕ) (group : OverlapGroup) → get n r ≡ some group → get n r' ≡ some group

pub IsRegistered-mono :
    (r r' : Registry) (ss : List EmulatedService)
    → Extends r r'
    → All (IsRegistered r) ss
    → All (IsRegistered r') ss
IsRegistered-mono r r' [] e h = tt
IsRegistered-mono r r' (s ∷ ss) e h = ((h.0.0, h.0.1, e _ _ h.0.2), IsRegistered-mono r r' ss e h.1)

same_kind-eq : (k l : ServiceKind) → same_kind k l ≡ true → k ≡ l
same_kind-eq random random h = refl
same_kind-eq cyclic cyclic h = refl
same_kind-eq purse purse h = refl
same_kind-eq random cyclic h = cc
same_kind-eq random purse h = cc
same_kind-eq cyclic random h = cc
same_kind-eq cyclic purse h = cc
same_kind-eq purse random h = cc
same_kind-eq purse cyclic h = cc

-- What a service that joined leaves: it is registered, and so is all that was.
abbrev Joined : Registry → Synced EmulatedService → Type 0
Joined r j = IsRegistered j.registry j.value × Extends r j.registry

join_group-Joined :
    (s : EmulatedService) (r : Registry) (k : ServiceKind) (g : OverlapGroup) (alike : Bool)
    → kind s.service_code ≡ some k
    → get (number s.service_code) r ≡ some g
    → same_kind g.kind k ≡ alike
    → (join_group s r k g alike).result ≡ ok tt
    → Joined r (join_group s r k g alike)
unfolding join_group
join_group-Joined s r k g true defined old alike h =
    let same : g.kind ≡ k = same_kind-eq g.kind k alike in
    ((k, defined, old ∙ ap (λ l. some (record g { kind = l })) same), λ n group e. e)
join_group-Joined s r k g false defined old alike h = cc

join_registered-Joined :
    (s : EmulatedService) (r : Registry) (k : ServiceKind) (o : Option OverlapGroup)
    → kind s.service_code ≡ some k
    → get (number s.service_code) r ≡ o
    → (join_registered s r k o).result ≡ ok tt
    → Joined r (join_registered s r k o)
unfolding join_registered get
join_registered-Joined s r k (some g) defined old h = join_group-Joined s r k g _ defined old refl h
join_registered-Joined s r k none defined new h = (
  (k, defined, rw (==_refl (number s.service_code)) refl),
  λ n group e. elim (Bool-cases (number s.service_code == n)) [
    | inl same ↦
        let known : get (number s.service_code) r ≡ some group =
          rw (==→eq (number s.service_code) n same) e in
        absurd (cc)
    | inr other ↦ rw other e
  ],
)

join_kind-Joined :
    (s : EmulatedService) (r : Registry) (o : Option ServiceKind)
    → kind s.service_code ≡ o
    → (join_kind s r o).result ≡ ok tt
    → Joined r (join_kind s r o)
unfolding join_kind
join_kind-Joined s r (some k) defined h = join_registered-Joined s r k _ defined refl h
join_kind-Joined s r none missing h = cc

pub join-Joined :
    (s : EmulatedService) (r : Registry) → (join s r).result ≡ ok tt → Joined r (join s r)
unfolding join
join-Joined s r h = join_kind-Joined s r _ refl h

-- What a part of the tree that was synchronized leaves.
abbrev pub AreRegistered : Registry → List EmulatedService → Registry → Type 0
AreRegistered r ss r' = All (IsRegistered r') ss × Extends r r'

mutual
  unfolding sync_overlapping_services services

  pub sync-AreRegistered :
      (a : EmulatedArea) (r : Registry)
      → (sync_overlapping_services a r).result ≡ ok tt
      → AreRegistered r
          (services (sync_overlapping_services a r).value)
          (sync_overlapping_services a r).registry
  sync-AreRegistered (area n children) r h = sync_children-AreRegistered children r h

  sync_children-AreRegistered :
      (children : AreaChildren) (r : Registry)
      → (sync_children children r).result ≡ ok tt
      → AreRegistered r
          (services_below (sync_children children r).value)
          (sync_children children r).registry
  sync_children-AreRegistered no_more r h = (tt, λ n g e. e)
  sync_children-AreRegistered (area_then a children) r h =
      let after = (sync_overlapping_services a r).registry in
      continue-ok children (sync_children children)
        (area_then (sync_overlapping_services a r).value) after _
        (λ c r'. AreRegistered r (services_below c) r') h
        λ done rest.
          let (here, kept) = sync-AreRegistered a r done in
          let (below, grown) = sync_children-AreRegistered children after rest in
          (
            All-append _ _ _ (IsRegistered-mono after _ _ grown here) below,
            λ n g e. grown n g (kept n g e),
          )
  sync_children-AreRegistered (service_then s children) r h =
      let after = (join s r).registry in
      continue-ok children (sync_children children) (service_then (join s r).value) after _
        (λ c r'. AreRegistered r (services_below c) r') h
        λ done rest.
          let (here, kept) = join-Joined s r done in
          let (below, grown) = sync_children-AreRegistered children after rest in
          (((here.0, here.1, grown _ _ here.2), below), λ n g e. grown n g (kept n g e))

-- The group of a number in the abstract view of a system: one kind and one store of blocks.
abbrev pub IsStored : (ℕ → OverlapGroup) → EmulatedService → Type 0
IsStored of s =
    (kind s.service_code ≡ some (of (number s.service_code)).kind)
    × (s.blocks ≡ (of (number s.service_code)).blocks)

abbrev group_in : Option OverlapGroup → OverlapGroup
group_in (some g) = g
group_in none = record { kind = random; blocks = 0 }

registered-IsStored :
    (r : Registry) (ss : List EmulatedService)
    → All (IsRegistered r) ss
    → All (IsStored (λ n. group_in (get n r))) ss
registered-IsStored r [] h = tt
registered-IsStored r (s ∷ ss) h =
    let (k, defined, known) = h.0 in
    ((rw known defined, rw known refl), registered-IsStored r ss h.1)

-- A synchronization that succeeds gives every service number one kind and one store of blocks, and
-- every service of the tree is of the kind and has the blocks of its number; the services keep
-- their codes and their order.
pub sync_overlapping_services-IsStored :
    (a : EmulatedArea)
    → (sync_overlapping_services a []).result ≡ ok tt
    → ((of : ℕ → OverlapGroup) × All
          (IsStored of)
          (services (sync_overlapping_services a []).value))
      × (map code_of (services (sync_overlapping_services a []).value) ≡ map code_of (services a))
sync_overlapping_services-IsStored a h =
    let r = (sync_overlapping_services a []).registry in
    let (known, kept) = sync-AreRegistered a [] h in
    ((λ n. group_in (get n r), registered-IsStored r _ known), sync-services a [])
