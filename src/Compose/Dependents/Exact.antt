-- ===== src/Compose/Dependents/Exact.antt =====
-- `NamespaceDependents` of internal/compose/dependents.go, and what it is to borrow a namespace.
use dockbrr.Common.{
  ◌≡◌, refl, subst, inl, inr, true, false, List, [], ◌∷◌, ◌++◌, Text, bytes, text_eq, text_eq_iff,
  All, In, here, there, All-In, All-self, any, Bool-cases, if◌then◌else◌, arith, by_cases,
}
use dockbrr.Common.Sort.{sort_by, All-sort_by, All-of_sort_by}
use dockbrr.Compose.Dependents.{
  Service, text_lt, borrows, is_dependent, collect, namespace_dependents,
}

-- A service of another name that runs in a namespace of the target.
abbrev pub Borrows : Text → Service → Type 0
Borrows target s = (text_eq s.name target ≡ false) × (borrows (bytes "service:" ++ target) s ≡ true)

-- A name that one of the services that borrow has.
pub record IsBorrower (target : Text) (services : List Service) (name : Text) : Type 0 where
  pub borrower : Service
  pub listed : In borrower services
  pub named : borrower.name ≡ name
  pub borrows_it : Borrows target borrower

is_dependent-Borrows :
    (target : Text) (out : List Text) (s : Service)
    → is_dependent target out s ≡ true
    → Borrows target s
unfolding is_dependent
is_dependent-Borrows target out s h = ground arith

collect-All :
    (P : Text → Type 0) (target : Text) (out : List Text) (ss : List Service)
    → All P out
    → ((s : Service) → In s ss → Borrows target s → P s.name)
    → All P (collect target out ss)
unfolding collect
collect-All P target out [] a h = a
collect-All P target out (s ∷ ss) a h =
    collect-All P target (if is_dependent target out s then s.name ∷ out else out) ss
      (by_cases (λ b. is_dependent target out s ≡ b → All P (if b then s.name ∷ out else out))
        (is_dependent target out s) (λ e k. (h s here (is_dependent-Borrows target out s e), a))
        (λ e k. a) refl)
      (λ x m. h x (there m))

any-In : (n : Text) (out : List Text) → any (λ m. text_eq m n) out ≡ true → In n out
any-In n [] h = cc
any-In n (m ∷ out) h = elim (Bool-cases (text_eq m n)) [
  | inl e ↦ subst (λ x. In x (m ∷ out)) ((text_eq_iff m n).0 e) here
  | inr e ↦ there (any-In n out (ground arith))
]

collect-keeps :
    (n target : Text) (out : List Text) (ss : List Service)
    → In n out
    → In n (collect target out ss)
unfolding collect
collect-keeps n target out [] m = m
collect-keeps n target out (s ∷ ss) m =
    collect-keeps n target (if is_dependent target out s then s.name ∷ out else out) ss (
      by_cases (λ b. In n (if b then s.name ∷ out else out)) (is_dependent target out s)
        (λ e. there m) (λ e. m))

missing-any :
    (target : Text) (out : List Text) (s : Service)
    → Borrows target s
    → is_dependent target out s ≡ false
    → any (λ m. text_eq m s.name) out ≡ true
unfolding is_dependent
missing-any target out s h e = let a = h.0 in let b = h.1 in ground arith

collect_complete :
    (target : Text) (out : List Text) (s : Service) (ss : List Service)
    → In s ss
    → Borrows target s
    → In s.name (collect target out ss)
unfolding collect
collect_complete target out s [] m h = elim m [ ]
collect_complete target out s (x ∷ ss) (there m) h =
    collect_complete target (if is_dependent target out x then x.name ∷ out else out) s ss m h
collect_complete target out s (_ ∷ ss) here h =
    collect-keeps s.name target (if is_dependent target out s then s.name ∷ out else out) ss (
      by_cases (λ b. is_dependent target out s ≡ b → In s.name (if b then s.name ∷ out else out))
        (is_dependent target out s) (λ e k. here)
        (λ e k. any-In s.name out (missing-any target out s h e)) refl)

-- Every name that `NamespaceDependents` gives is the name of a listed service, other than the target,
-- that runs in a namespace of the target; and every such service is named.
pub namespace_dependents_lem :
    (services : List Service) (target : Text)
    → All (IsBorrower target services) (namespace_dependents services target)
      × ((s : Service)
          → In s services
          → Borrows target s
          → In s.name (namespace_dependents services target))
unfolding namespace_dependents
namespace_dependents_lem services target = (
  All-sort_by text_lt (IsBorrower target services) (collect target [] services) (
      collect-All (IsBorrower target services) target [] services tt
        (λ s m b. record { borrower = s; listed = m; named = refl; borrows_it = b })),
  λ s m b.
      All-In (λ n. In n (sort_by text_lt (collect target [] services)))
        (All-of_sort_by text_lt (λ n. In n (sort_by text_lt (collect target [] services)))
          (collect target [] services) (All-self (sort_by text_lt (collect target [] services))))
        (collect_complete target [] s services m b),
)
