-- ===== src/Discovery/Group/Names.antt =====
-- The names in the index of `Group` of internal/discovery/discovery.go.
use dockbrr.Common.{
  ◌≡◌, refl, sym, ◌∙◌, subst, inl, inr, ◌≤◌, false, not, List, [], ◌∷◌, ◌++◌, Text, text_eq,
  text_eq_iff, any, count-edit, count-append_one, All-append, All-edit, if◌then◌else◌, arith,
  Bool-cases, by_cases,
}
use dockbrr.Discovery.Group.{
  Container, DiscoveredService, DiscoveredProject, Index, named, called, service_of, join, ensure,
  add_compose, add_standalone, add, add_all,
}
use dockbrr.Discovery.Group.Gathers.{Single, Unique, Tidy, with_service-Single}

-- Behind an entry for a name that is new.
new-Unique :
    (p n : Text) (index : Index) (g : DiscoveredProject)
    → any (named n) index ≡ false
    → g.name ≡ n
    → Unique p index
    → Unique p (index ++ (g ∷ []))
new-Unique p n index g e same h =
    count-append_one (named p) index g h
      (λ k. subst (λ x. any (named x) index ≡ false) (sym same ∙ (text_eq_iff g.name p).0 k) e)

ensure-Unique :
    (p : Text) (c : Container) (index : Index) → Unique p index → Unique p (ensure c index)
unfolding ensure
ensure-Unique p c index h = elim (Bool-cases (any (named c.project) index)) [
  | inl e ↦ rw (ensure, e) h
  | inr e ↦ rw (ensure, e) (new-Unique p c.project index _ e refl h)
]

add_compose-Unique :
    (p : Text) (c : Container) (index : Index) → Unique p index → Unique p (add_compose c index)
unfolding add_compose join
add_compose-Unique p c index h =
    subst (λ n. n ≤ 1)
      (sym (count-edit (named p) (named c.project) (join c) (λ x. refl) (ensure c index)))
      (ensure-Unique p c index h)

add_standalone-Unique :
    (p : Text) (c : Container) (index : Index) → Unique p index → Unique p (add_standalone c index)
unfolding add_standalone
add_standalone-Unique p c index h = elim (Bool-cases (any (named c.name) index)) [
  | inl e ↦ rw (add_standalone, e) h
  | inr e ↦ rw (add_standalone, e) (new-Unique p c.name index _ e refl h)
]

-- A round keeps what both kinds of containers keep.
add-keeps {ℓ} :
    (P : Index → Type ℓ)
    → ((c : Container) (index : Index) → P index → P (add_compose c index))
    → ((c : Container) (index : Index) → P index → P (add_standalone c index))
    → (c : Container) (index : Index) → P index
    → P (add c index)
unfolding add
add-keeps P f g c index h =
    by_cases
      (λ b. P (
        if b
        then index
        else if not (text_eq c.project [])
        then add_compose c index
        else add_standalone c index))
      c.self_update (λ _. h)
      (λ _.
        by_cases (λ b. P (if not b then add_compose c index else add_standalone c index))
          (text_eq c.project []) (λ _. g c index h) (λ _. f c index h))

ensure-Tidy : (s : Text) (c : Container) (index : Index) → Tidy s index → Tidy s (ensure c index)
unfolding ensure
ensure-Tidy s c index h = elim (Bool-cases (any (named c.project) index)) [
  | inl e ↦ rw (ensure, e) h
  | inr e ↦ rw (ensure, e) (All-append (λ p. Single s p.services) index _ h (omega arith, tt))
]

add_compose-Tidy :
    (s : Text) (c : Container) (index : Index) → Tidy s index → Tidy s (add_compose c index)
unfolding add_compose join
add_compose-Tidy s c index h =
    All-edit (λ p. Single s p.services) (named c.project) (join c) (ensure c index)
      (λ p a. with_service-Single c s p.services a) (ensure-Tidy s c index h)

one-Single : (s : Text) (x : DiscoveredService) → Single s (x ∷ [])
one-Single s x =
    by_cases (λ b. (if b then 1 else 0) ≤ 1) (called s x) (λ _. omega arith) (λ _. omega arith)

add_standalone-Tidy :
    (s : Text) (c : Container) (index : Index) → Tidy s index → Tidy s (add_standalone c index)
unfolding add_standalone
add_standalone-Tidy s c index h = elim (Bool-cases (any (named c.name) index)) [
  | inl e ↦ rw (add_standalone, e) h
  | inr e ↦
      rw (add_standalone, e)
        (All-append (λ p. Single s p.services) index _ h
          (one-Single s (service_of c c.name (c.id ∷ [])), tt))
]

pub add_all-Unique :
    (p : Text) (cs : List Container) (index : Index) → Unique p index → Unique p (add_all cs index)
unfolding add_all
add_all-Unique p [] index h = h
add_all-Unique p (c ∷ cs) index h =
    add_all-Unique p cs (add c index)
      (add-keeps (Unique p) (add_compose-Unique p) (add_standalone-Unique p) c index h)

pub add_all-Tidy :
    (s : Text) (cs : List Container) (index : Index) → Tidy s index → Tidy s (add_all cs index)
unfolding add_all
add_all-Tidy s [] index h = h
add_all-Tidy s (c ∷ cs) index h =
    add_all-Tidy s cs (add c index)
      (add-keeps (Tidy s) (add_compose-Tidy s) (add_standalone-Tidy s) c index h)
