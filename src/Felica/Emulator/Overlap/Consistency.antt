-- ===== src/Felica/Emulator/Overlap/Consistency.antt =====
-- When a synchronization succeeds: the services of each number are of one kind.
use felica_rs.Prelude.{
  ℕ, ◌≡◌, ◌↔◌, refl, true, Option, none, some, List, [], ◌∷◌, ◌==◌, ap, sym, ◌∙◌, subst, All, ◌++◌,
  map, ==→eq, inl, inr, Bool-cases,
}
use felica_rs.Prelude.Outcome.{Outcome, ok, err, panic}
use felica_rs.Felica.Types.Service.{ServiceKind, ServiceCode, random, cyclic, purse, kind, number}
use felica_rs.Felica.Emulator.Structure.{
  EmulatedArea, AreaChildren, area, no_more, area_then, service_then, EmulatedService,
  EmulatorConfigError,
}
use felica_rs.Felica.Emulator.Structure.Directory.{services, services_below, code_of, map-append}
use felica_rs.Felica.Emulator.Overlap.{
  Synced, Registry, OverlapGroup, get, join, join_kind, join_registered, join_group, continue,
  same_kind, sync_children, sync_overlapping_services,
}
use felica_rs.Felica.Emulator.Overlap.Kept.{sync-services}
use felica_rs.Felica.Emulator.Overlap.Agreement.{IsRegistered, sync-AreRegistered}

-- Each service is of the kind that its number has.
abbrev pub HaveKinds : (ℕ → ServiceKind) → List ServiceCode → Type 0
HaveKinds of = All (λ c. kind c ≡ some (of (number c)))

abbrev kind_in : Option OverlapGroup → ServiceKind
kind_in (some g) = g.kind
kind_in none = random

abbrev Conforms : (ℕ → ServiceKind) → Registry → Type 0
Conforms of r = (n : ℕ) (g : OverlapGroup) → get n r ≡ some g → g.kind ≡ of n

-- A walk that goes on past this child.
continue-through {ℓ} :
    (children : AreaChildren) (rest : Registry → Synced AreaChildren)
    (put : AreaChildren → AreaChildren) (registry : Registry)
    (result : Outcome EmulatorConfigError (Unit {0}))
    (P : Registry → Outcome EmulatorConfigError (Unit {0}) → Type ℓ)
    → result ≡ ok tt
    → P (rest registry).registry (rest registry).result
    → P
        (continue children rest put registry result).registry
        (continue children rest put registry result).result
unfolding continue
continue-through children rest put registry (ok done) P e h = h
continue-through children rest put registry (err x) P e h = cc
continue-through children rest put registry panic P e h = cc

same_kind_refl : (k : ServiceKind) → same_kind k k ≡ true
same_kind_refl random = refl
same_kind_refl cyclic = refl
same_kind_refl purse = refl

abbrev Succeeds : (ℕ → ServiceKind) → Registry → Outcome EmulatorConfigError (Unit {0}) → Type 0
Succeeds of r result = (result ≡ ok tt) × Conforms of r

join_registered-Succeeds :
    (of : ℕ → ServiceKind) (s : EmulatedService) (r : Registry) (o : Option OverlapGroup)
    → get (number s.service_code) r ≡ o
    → Conforms of r
    → Succeeds of
        (join_registered s r (of (number s.service_code)) o).registry
        (join_registered s r (of (number s.service_code)) o).result
unfolding join_registered join_group get
join_registered-Succeeds of s r (some g) e c =
    rw (c _ g e, same_kind_refl (of (number s.service_code))) (refl, c)
join_registered-Succeeds of s r none e c = (
  refl,
  λ n g k. elim (Bool-cases (number s.service_code == n)) [
    | inl same ↦
        let here : some (record { kind = of (number s.service_code); blocks = s.blocks }) ≡ some g =
          (rw same at k) in
        sym (ap kind_in here) ∙ ap of (==→eq (number s.service_code) n same)
    | inr other ↦ c n g (rw other at k)
  ],
)

join_kind-Succeeds :
    (of : ℕ → ServiceKind) (s : EmulatedService) (r : Registry) (o : Option ServiceKind)
    → o ≡ some (of (number s.service_code))
    → Conforms of r
    → Succeeds of (join_kind s r o).registry (join_kind s r o).result
unfolding join_kind
join_kind-Succeeds of s r (some k) e c =
    let same : k ≡ of (number s.service_code) = cc in
    rw same (join_registered-Succeeds of s r _ refl c)
join_kind-Succeeds of s r none e c = cc

join-Succeeds :
    (of : ℕ → ServiceKind) (s : EmulatedService) (r : Registry)
    → kind s.service_code ≡ some (of (number s.service_code))
    → Conforms of r
    → Succeeds of (join s r).registry (join s r).result
unfolding join
join-Succeeds of s r e c = join_kind-Succeeds of s r _ e c

pub HaveKinds-append :
    (of : ℕ → ServiceKind) (xs ys : List ServiceCode)
    → HaveKinds of (xs ++ ys)
    → HaveKinds of xs × HaveKinds of ys
HaveKinds-append of [] ys h = (tt, h)
HaveKinds-append of (x ∷ xs) ys h = let (k, l) = HaveKinds-append of xs ys h.1 in ((h.0, k), l)

mutual
  unfolding sync_overlapping_services services

  sync-Succeeds :
      (of : ℕ → ServiceKind) (a : EmulatedArea) (r : Registry)
      → HaveKinds of (map code_of (services a))
      → Conforms of r
      → Succeeds of (sync_overlapping_services a r).registry (sync_overlapping_services a r).result
  sync-Succeeds of (area n children) r h c = sync_children-Succeeds of children r h c

  sync_children-Succeeds :
      (of : ℕ → ServiceKind) (children : AreaChildren) (r : Registry)
      → HaveKinds of (map code_of (services_below children))
      → Conforms of r
      → Succeeds of (sync_children children r).registry (sync_children children r).result
  sync_children-Succeeds of no_more r h c = (refl, c)
  sync_children-Succeeds of (area_then a children) r h c =
      let (here, below) =
        HaveKinds-append of (map code_of (services a)) _
          (subst (HaveKinds of) (map-append code_of (services a) (services_below children)) h) in
      let (done, known) = sync-Succeeds of a r here c in
      continue-through children (sync_children children)
        (area_then (sync_overlapping_services a r).value) (sync_overlapping_services a r).registry _
        (Succeeds of) done (sync_children-Succeeds of children _ below known)
  sync_children-Succeeds of (service_then s children) r h c =
      let (done, known) = join-Succeeds of s r h.0 c in
      continue-through children (sync_children children) (service_then (join s r).value)
        (join s r).registry _ (Succeeds of) done (sync_children-Succeeds of children _ h.1 known)

registered-HaveKinds :
    (r : Registry) (ss : List EmulatedService)
    → All (IsRegistered r) ss
    → HaveKinds (λ n. kind_in (get n r)) (map code_of ss)
registered-HaveKinds r [] h = tt
registered-HaveKinds r (s ∷ ss) h =
    let (k, defined, known) = h.0 in (rw known defined, registered-HaveKinds r ss h.1)

-- Some assignment of kinds to service numbers has every service of the tree.
abbrev pub IsConsistent : EmulatedArea → Type 0
IsConsistent a = (of : ℕ → ServiceKind) × HaveKinds of (map code_of (services a))

-- A synchronization of a tree succeeds just when some assignment of one kind to every service
-- number agrees with the kind of each of its services.
pub sync_overlapping_services-IsConsistent :
    (a : EmulatedArea) → ((sync_overlapping_services a []).result ≡ ok tt) ↔ IsConsistent a
unfolding get
sync_overlapping_services-IsConsistent a = (
  λ h.
      let r = (sync_overlapping_services a []).registry in
      let (known, kept) = sync-AreRegistered a [] h in
      (
        λ n. kind_in (get n r),
        subst (HaveKinds (λ n. kind_in (get n r))) (sync-services a [])
            (registered-HaveKinds r _ known),
      ),
  λ (of, h). (sync-Succeeds of a [] h λ n g e. absurd (cc)).0,
)
