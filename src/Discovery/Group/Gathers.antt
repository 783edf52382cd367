-- ===== src/Discovery/Group/Gathers.antt =====
-- What a service of a group of internal/discovery/discovery.go is made of.
use dockbrr.Common.{
  ◌≡◌, refl, sym, ap, ◌∙◌, subst, inl, inr, ◌≤◌, Bool, true, false, not, ◌&&◌, Option, none, some,
  List, [], ◌∷◌, Text, text_eq, text_eq_refl, text_eq_iff, any, find, find-edit_own,
  find-edit_other, find_present, find_absent, count-append_one, count-edit, find-append_other,
  find-append_new, count_if, All, if◌then◌else◌, Bool-cases, by_cases,
}
use dockbrr.Discovery.Group.{
  Container, DiscoveredService, DiscoveredProject, compose, Index, named, called, service_of,
  replica, with_service, join, ensure, add_compose, add_standalone, add, add_all,
}

-- At most one service of the list has the name.
abbrev pub Single : Text → List DiscoveredService → Type 0
Single s ss = count_if (called s) ss ≤ 1

-- The service of the name in the services of the project of the name.
abbrev pub lookup : Text → Option DiscoveredProject → Option DiscoveredService
lookup s none = none
lookup s (some p) = find (called s) p.services

abbrev pub at : Text → Text → Index → Option DiscoveredService
at p s index = lookup s (find (named p) index)

-- The service of a container joined with what is there.
abbrev pub joined : Container → Option DiscoveredService → DiscoveredService
joined c none = replica c (service_of c c.service [])
joined c (some s) = replica c s

-- Two names that differ are not both those of one service.
apart_names : (a b x : Text) → text_eq a b ≡ false → text_eq x b ≡ true → text_eq x a ≡ false
apart_names a b x h k = elim (Bool-cases (text_eq x a)) [
  | inl e ↦
      let xa : x ≡ a = (text_eq_iff x a).0 e in
      let xb : x ≡ b = (text_eq_iff x b).0 k in absurd (cc ((text_eq_iff a b).1 (sym xa ∙ xb), h))
  | inr e ↦ e
]

with_service-own :
    (c : Container) (ss : List DiscoveredService)
    → text_eq c.service [] ≡ false
    → find (called c.service) (with_service c ss) ≡ some (joined c (find (called c.service) ss))
unfolding with_service
with_service-own c ss h =
    let q = called c.service in
    elim (Bool-cases (any q ss)) [
      | inl e ↦
          let found = find_present q ss e in
          rw (with_service, h, e)
            (find-edit_own q (replica c) (λ x. refl) ss found.0 found.1
              ∙ ap (λ o. some (joined c o)) (sym found.1))
      | inr e ↦
          rw (with_service, h, e)
            (find-append_new q ss _ e (text_eq_refl c.service)
              ∙ ap (λ o. some (joined c o)) (sym (find_absent q ss e)))
    ]

with_service-other :
    (c : Container) (s : Text) (ss : List DiscoveredService)
    → text_eq c.service s ≡ false
    → find (called s) (with_service c ss) ≡ find (called s) ss
unfolding with_service
with_service-other c s ss h = elim (Bool-cases (text_eq c.service [])) [
  | inl u ↦ rw (with_service, u) refl
  | inr u ↦ elim (Bool-cases (any (called c.service) ss)) [
    | inl e ↦
        rw (with_service, u, e)
          (find-edit_other (called s) (called c.service) (replica c) (λ x. refl)
            (λ x k. apart_names c.service s x.name h k) ss)
    | inr e ↦ rw (with_service, u, e) (find-append_other (called s) ss _ h)
  ]
]

pub with_service-Single :
    (c : Container) (s : Text) (ss : List DiscoveredService)
    → Single s ss
    → Single s (with_service c ss)
unfolding with_service
with_service-Single c s ss h = elim (Bool-cases (text_eq c.service [])) [
  | inl u ↦ rw (with_service, u) h
  | inr u ↦ elim (Bool-cases (any (called c.service) ss)) [
    | inl e ↦
        rw (with_service, u, e, count-edit (called s) (called c.service) (replica c) (λ x. refl) ss)
          h
    | inr e ↦
        rw (with_service, u, e)
          (count-append_one (called s) ss _ h
            (λ k. subst (λ n. any (called n) ss ≡ false) ((text_eq_iff c.service s).0 k) e))
  ]
]

-- The index holds at most one project of the name.
abbrev pub Unique : Text → Index → Type 0
Unique p index = count_if (named p) index ≤ 1

-- No service name stands twice in a project.
abbrev pub Tidy : Text → Index → Type 0
Tidy s index = All (λ p. Single s p.services) index

-- The container belongs to the service of the project.
abbrev pub belongs : Text → Text → Container → Bool
belongs p s c = not c.self_update && (text_eq c.project p && text_eq c.service s)

-- The name of the project is not that of a container without a project.
abbrev pub IsClear : Text → Container → Type 0
IsClear p c = text_eq c.project [] ≡ true → text_eq c.name p ≡ false

lookup_found :
    (s : Text) (o : Option DiscoveredProject) (g : DiscoveredProject)
    → o ≡ some g
    → find (called s) g.services ≡ lookup s o
lookup_found s o g h = sym (ap (lookup s) h)

ensure-found :
    (c : Container) (index : Index)
    → (g : DiscoveredProject) × (find (named c.project) (ensure c index) ≡ some g)
      × ((s : Text) → find (called s) g.services ≡ at c.project s index)
unfolding ensure
ensure-found c index = elim (Bool-cases (any (named c.project) index)) [
  | inl e ↦
      let f = find_present (named c.project) index e in
      (f.0, rw (ensure, e) f.1, λ s. lookup_found s (find (named c.project) index) f.0 f.1)
  | inr e ↦
      let new : DiscoveredProject = record {
        name = c.project;
        kind = compose;
        working_dir = c.working_dir;
        config_files = c.config_files;
        services = [];
      } in
      (
        new,
        rw (ensure, e) (find-append_new (named c.project) index new e (text_eq_refl c.project)),
        λ s. sym (ap (lookup s) (find_absent (named c.project) index e)),
      )
]

ensure-other :
    (c : Container) (p : Text) (index : Index)
    → text_eq c.project p ≡ false
    → find (named p) (ensure c index) ≡ find (named p) index
unfolding ensure
ensure-other c p index h = elim (Bool-cases (any (named c.project) index)) [
  | inl e ↦ rw (ensure, e) refl
  | inr e ↦ rw (ensure, e) (find-append_other (named p) index _ h)
]

-- The services of the name behind a container of the project.
add_compose-own :
    (c : Container) (s : Text) (index : Index)
    → (ss : List DiscoveredService) × (at c.project s (add_compose c index)
        ≡ find (called s) (with_service c ss))
      × (find (called s) ss ≡ at c.project s index)
unfolding add_compose join
add_compose-own c s index =
    let f = ensure-found c index in
    (
      f.0.services,
      ap (lookup s) (find-edit_own (named c.project) (join c) (λ x. refl) (ensure c index) f.0 f.1),
      f.2 s,
    )

add_compose-other :
    (c : Container) (p s : Text) (index : Index)
    → text_eq c.project p ≡ false
    → at p s (add_compose c index) ≡ at p s index
unfolding add_compose join
add_compose-other c p s index h = ap (lookup s) (
    find-edit_other (named p) (named c.project) (join c) (λ x. refl)
      (λ x k. apart_names c.project p x.name h k) (ensure c index)
    ∙ ensure-other c p index h)

add_standalone-other :
    (c : Container) (p s : Text) (index : Index)
    → text_eq c.name p ≡ false
    → at p s (add_standalone c index) ≡ at p s index
unfolding add_standalone
add_standalone-other c p s index h = elim (Bool-cases (any (named c.name) index)) [
  | inl e ↦ rw (add_standalone, e) refl
  | inr e ↦ rw (add_standalone, e) (ap (lookup s) (find-append_other (named p) index _ h))
]

-- What a container of a project does to the service.
add_compose-at :
    (p s : Text) (c : Container) (index : Index)
    → text_eq s [] ≡ false
    → at p s (add_compose c index) ≡ (
        if text_eq c.project p && text_eq c.service s
        then some (joined c (at p s index))
        else at p s index)
add_compose-at p s c index named_s = elim (Bool-cases (text_eq c.project p)) [
  | inr k ↦ rw k (add_compose-other c p s index k)
  | inl k ↦
      let same : c.project ≡ p = (text_eq_iff c.project p).0 k in
      let own = add_compose-own c s index in
      let here : at p s (add_compose c index) ≡ find (called s) (with_service c own.0) =
        subst (λ x. at x s (add_compose c index) ≡ find (called s) (with_service c own.0)) same
          own.1 in
      let before : find (called s) own.0 ≡ at p s index =
        subst (λ x. find (called s) own.0 ≡ at x s index) same own.2 in
      elim (Bool-cases (text_eq c.service s)) [
        | inr l ↦ rw (k, l) (here ∙ with_service-other c s own.0 l ∙ before)
        | inl l ↦
            let eq : c.service ≡ s = (text_eq_iff c.service s).0 l in
            let merged : find (called s) (with_service c own.0)
                ≡ some (joined c (find (called s) own.0)) =
              subst
                (λ x.
                  text_eq x [] ≡ false
                  → find (called x) (with_service c own.0)
                    ≡ some (joined c (find (called x) own.0)))
                eq (with_service-own c own.0) named_s in
            rw (k, l) (here ∙ merged ∙ ap (λ o. some (joined c o)) before)
      ]
]

no_project-other : (x p : Text) → text_eq x [] ≡ true → text_eq p [] ≡ false → text_eq x p ≡ false
unfolding text_eq
no_project-other x p h k =
    subst (λ y. text_eq y p ≡ false) (sym ((text_eq_iff x []).0 h)) (empty_other p k)
  where
    empty_other : (q : Text) → text_eq q [] ≡ false → text_eq [] q ≡ false
    empty_other [] h = h
    empty_other (c ∷ q) h = refl

-- A round of the loop for a container that is no helper.
round-at :
    (p s : Text) (c : Container) (index : Index)
    → text_eq p [] ≡ false
    → text_eq s [] ≡ false
    → IsClear p c
    → at p s (if not (text_eq c.project []) then add_compose c index else add_standalone c index)
      ≡ (if text_eq c.project p && text_eq c.service s
          then some (joined c (at p s index))
          else at p s index)
round-at p s c index named_p named_s clear = elim (Bool-cases (text_eq c.project [])) [
  | inr k ↦ rw k (add_compose-at p s c index named_s)
  | inl k ↦
      rw (no_project-other c.project p k named_p, k) (add_standalone-other c p s index (clear k))
]

add-at :
    (p s : Text) (c : Container) (index : Index)
    → text_eq p [] ≡ false
    → text_eq s [] ≡ false
    → IsClear p c
    → at p s (add c index)
      ≡ (if belongs p s c then some (joined c (at p s index)) else at p s index)
unfolding add
add-at p s c index named_p named_s clear =
    by_cases
      (λ b.
        at p s (
          if b
          then index
          else if not (text_eq c.project [])
          then add_compose c index
          else add_standalone c index)
        ≡ (if not b && (text_eq c.project p && text_eq c.service s)
            then some (joined c (at p s index))
            else at p s index))
      c.self_update (λ _. refl) (λ _. round-at p s c index named_p named_s clear)

-- The service that the containers make, from the first that belongs to it on.
abbrev pub gathered :
    Text → Text → Option DiscoveredService → List Container → Option DiscoveredService
gathered p s o [] = o
gathered p s o (c ∷ cs) = gathered p s (if belongs p s c then some (joined c o) else o) cs

pub add_all-at :
    (p s : Text) (cs : List Container) (index : Index)
    → text_eq p [] ≡ false
    → text_eq s [] ≡ false
    → All (IsClear p) cs
    → at p s (add_all cs index) ≡ gathered p s (at p s index) cs
unfolding add_all
add_all-at p s [] index h k a = refl
add_all-at p s (c ∷ cs) index h k a =
    add_all-at p s cs (add c index) h k a.1
    ∙ ap (λ o. gathered p s o cs) (add-at p s c index h k a.0)
