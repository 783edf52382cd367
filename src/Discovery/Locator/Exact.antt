-- ===== src/Discovery/Locator/Exact.antt =====
-- What `LocateService` of internal/discovery/locator.go finds.
use mathlib.Core.List
use mathlib.Core.Option
use dockbrr.Common.{
  ◌≡◌, refl, sym, ap, ◌∙◌, subst, inl, inr, ◌≤◌, false, Option, none, some, List, [], ◌∷◌, ◌++◌,
  map, Text, text_eq, find, find-some, filter, count_if, All, All-In, arith, Bool-cases,
  Option-cases,
}
use dockbrr.Common.Sort.{sort_by, find-sort_by, count_if-sort_by}
use dockbrr.Discovery.Group.{
  Container, DiscoveredService, DiscoveredProject, Index, named, called, add_all, service_before,
  project_before, replica, sorted_services, group,
}
use dockbrr.Discovery.Group.Gathers.{
  Single, Unique, Tidy, IsClear, lookup, at, belongs, joined, gathered, add_all-at,
}
use dockbrr.Discovery.Group.Names.{add_all-Unique, add_all-Tidy}
use dockbrr.Discovery.Locator.{search_services, search_groups, locate_service}

-- What is told of a service.
abbrev told : Option DiscoveredService → List Text × Text
told none = ([], [])
told (some svc) = (svc.container_ids, svc.current_digest)

search_absent :
    (p s : Text) (gs : List DiscoveredProject)
    → count_if (named p) gs ≡ 0
    → search_groups p s gs ≡ ([], [])
unfolding search_groups
search_absent p s [] h = refl
search_absent p s (g ∷ gs) h = ground (arith, search_absent p s gs)

search-at :
    (p s : Text) (gs : List DiscoveredProject)
    → Unique p gs
    → search_groups p s gs ≡ told (at p s gs)
unfolding search_groups search_services
search-at p s [] h = refl
search-at p s (g ∷ gs) h = elim (Bool-cases (named p g)) [
  | inr e ↦ rw (search_groups, e) (search-at p s gs (ground arith))
  | inl e ↦ elim (Option-cases (find (called s) g.services)) [
    | inl k ↦ rw (search_groups, search_services, e, k) (search_absent p s gs (ground arith))
    | inr (svc, k) ↦ rw (search_groups, search_services, e, k) refl
  ]
]

find-map :
    (p : Text) (gs : List DiscoveredProject)
    → find (named p) (map sorted_services gs) ≡ Option.map sorted_services (find (named p) gs)
find-map p [] = refl
find-map p (g ∷ gs) = ground (arith, find-map p gs)

count-map :
    (p : Text) (gs : List DiscoveredProject)
    → count_if (named p) (map sorted_services gs) ≡ count_if (named p) gs
count-map p [] = refl
count-map p (g ∷ gs) = ground (arith, count-map p gs)

lookup_sorted :
    (s : Text) (o : Option DiscoveredProject)
    → ((g : DiscoveredProject) → o ≡ some g → Single s g.services)
    → lookup s (Option.map sorted_services o) ≡ lookup s o
lookup_sorted s none h = refl
lookup_sorted s (some g) h = find-sort_by service_before (called s) g.services (h g refl)

at-sorted :
    (p s : Text) (index : Index)
    → Unique p index
    → Tidy s index
    → at p s (map sorted_services (sort_by project_before index)) ≡ at p s index
at-sorted p s index h k =
    ap (lookup s) (
      find-map p (sort_by project_before index)
      ∙ ap (Option.map sorted_services) (find-sort_by project_before (named p) index h))
    ∙ lookup_sorted s (find (named p) index)
        (λ g e. All-In (λ x. Single s x.services) k (find-some (named p) index g e).0)

-- The ids of the containers that belong to the service, in order, and the digest of the first.
abbrev pub ids : List Container → List Text
ids [] = []
ids (c ∷ cs) = c.id ∷ ids cs

abbrev pub first_digest : List Container → Text
first_digest [] = []
first_digest (c ∷ cs) = c.repo_digest

-- A service with more replicas.
gathered-some :
    (p s : Text) (svc : DiscoveredService) (cs : List Container)
    → told (gathered p s (some svc) cs)
      ≡ (svc.container_ids ++ ids (filter (belongs p s) cs), svc.current_digest)
gathered-some p s svc [] =
    ap (λ l. (l, svc.current_digest)) (sym (List.append-nil svc.container_ids))
gathered-some p s svc (c ∷ cs) = elim (Bool-cases (belongs p s c)) [
  | inl e ↦ rw e (
      gathered-some p s (replica c svc) cs
      ∙ ap (λ l. (l, svc.current_digest))
          (List.append_assoc svc.container_ids (c.id ∷ []) (ids (filter (belongs p s) cs))))
  | inr e ↦ rw e (gathered-some p s svc cs)
]

gathered-none :
    (p s : Text) (cs : List Container)
    → told (gathered p s none cs)
      ≡ (ids (filter (belongs p s) cs), first_digest (filter (belongs p s) cs))
gathered-none p s [] = refl
gathered-none p s (c ∷ cs) = elim (Bool-cases (belongs p s c)) [
  | inl e ↦ rw e (gathered-some p s (joined c none) cs)
  | inr e ↦ rw e (gathered-none p s cs)
]

-- `LocateService` through the groups finds what a plain pass over the containers finds: the ids of
-- those that belong to the service of the project, in the order of the daemon, and the digest of the
-- first; nothing where none belongs. This is so for names that are not "", if no container without a
-- project is named as the project.
pub locate_service_lem :
    (p s : Text) (cs : List Container)
    → text_eq p [] ≡ false
    → text_eq s [] ≡ false
    → All (IsClear p) cs
    → locate_service p s cs
      ≡ (ids (filter (belongs p s) cs), first_digest (filter (belongs p s) cs))
unfolding locate_service group
locate_service_lem p s cs h k a =
    let index = add_all cs [] in
    let unique = add_all-Unique p cs [] (omega arith) in
    let sorted = sort_by project_before index in
    search-at p s (map sorted_services sorted) (
      subst (λ n. n ≤ 1)
        (sym (count-map p sorted ∙ count_if-sort_by project_before (named p) index)) unique)
    ∙ ap told (at-sorted p s index unique (add_all-Tidy s cs [] tt) ∙ add_all-at p s cs [] h k a)
    ∙ gathered-none p s cs
